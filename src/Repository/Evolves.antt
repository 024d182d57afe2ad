-- ===== src/Repository/Evolves.antt =====
-- What each call of a repository does to the state, whatever the server answers.
use multitenancy.Prelude.{
  String, Bool, false, some, List, [], ◌∷◌, ◌++◌, map, ◌≡◌, any, Bool-cases, Option-cases, inl, inr,
  if◌then◌else◌,
}
use multitenancy.Entities.{BaseEntity}
use multitenancy.World.{World, Result, ok}
use multitenancy.World.Evolves.{Evolves}
use multitenancy.Platform.{Platform, keep}
use multitenancy.Repository.{
  Repository, sent, generated, statement, execute, has_other_id, on_rows, found_row, insert_row,
  update_rows, delete_row, find_one, save, update_where, delete,
}

module _ (sys : Platform) {R : World → World → Type 0}
    (waits : (w : World) → R w (sent sys w)) where
  Evolves-statement :
      {A : Type 0} (body : World → Result A × World)
      → ((w : World) → R w (body (sent sys w)).1)
      → Evolves R (statement sys body)
  unfolding statement
  Evolves-statement body h = record {
    at = λ w. elim (Bool-cases (sys.rejects w.calls)) [
      | inl lost ↦ rw lost (waits w)
      | inr sent ↦ rw sent (h w)
    ];
  }

  pub Evolves-execute :
      (f : World → World) → ((w : World) → R w (f (sent sys w))) → Evolves R (execute sys f)
  unfolding execute
  Evolves-execute f h = Evolves-statement (λ w. (ok tt, f w)) h

  module _ {E : Type 0} (repo : Repository E) where
    Evolves-on_rows :
        {A : Type 0} (body : List E → World → Result A × World)
        → ((w : World) (rows : List E)
            → repo.rows (sent sys w) ≡ some rows
            → R w (body rows (sent sys w)).1)
        → Evolves R (on_rows sys repo body)
    unfolding on_rows
    Evolves-on_rows body h = record {
      at = λ w. elim (Bool-cases (sys.rejects w.calls)) [
        | inl lost ↦ rw lost (waits w)
        | inr sends ↦ rw sends (elim (Option-cases (repo.rows (sent sys w))) [
          | inl missing ↦ rw missing (waits w)
          | inr (rows, e) ↦ rw e (h w rows e)
        ])
      ];
    }

    pub Evolves-find_one : (p : E → Bool) → Evolves R (find_one sys repo p)
    unfolding find_one
    Evolves-find_one p = Evolves-on_rows (found_row sys repo p) λ w rows e. waits w

    -- A save appends its row, or leaves the state.
    pub Evolves-save :
        (row : BaseEntity → E)
        → ((w : World) (rows : List E)
            → repo.rows (sent sys w) ≡ some rows
            → any (repo.clash (row (generated sys (sent sys w)))) rows ≡ false
            → R w (repo.write (rows ++ row (generated sys (sent sys w)) ∷ []) (sent sys w)))
        → Evolves R (save sys repo row)
    unfolding save
    Evolves-save row h = Evolves-on_rows (insert_row sys repo row) λ w rows e.
        let x : E = row (generated sys (sent sys w)) in
        rw (sys.insert_lem, insert_row)
          (elim (Bool-cases (any (repo.clash x) rows)) [
            | inl clash ↦ rw clash (waits w)
            | inr new ↦ rw new (h w rows e new)
          ])

    -- An update rewrites the rows that fit, and stamps them.
    pub Evolves-update_where :
        (p : E → Bool) (f : E → E)
        → ((w : World) (rows : List E)
            → repo.rows (sent sys w) ≡ some rows
            → R w (
                repo.write
                  (map (λ x. if p x then repo.touch (sent sys w).clock (f x) else x) rows)
                  (sent sys w)))
        → Evolves R (update_where sys repo p f)
    unfolding update_where
    Evolves-update_where p f h =
        Evolves-on_rows (update_rows sys repo p f) λ w rows e. rw sys.update_lem (h w rows e)

    Evolves-delete :
        (id : String)
        → ((w : World) (rows : List E)
            → repo.rows (sent sys w) ≡ some rows
            → R w (repo.write (keep (has_other_id repo id) rows) (sent sys w)))
        → Evolves R (delete sys repo id)
    unfolding delete
    Evolves-delete id h =
        Evolves-on_rows (delete_row sys repo id) λ w rows e. rw sys.delete_lem (h w rows e)
