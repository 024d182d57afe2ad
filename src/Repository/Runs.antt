-- ===== src/Repository/Runs.antt =====
-- Triples for the calls of a repository: the server may reject the statement, the table may be
-- missing, and otherwise the platform's operation answers.
use multitenancy.Prelude.{
  Bool, false, Option, some, List, [], ◌∷◌, ◌++◌, map, ◌≡◌, any, Bool-cases, Option-cases, inl, inr,
  if◌then◌else◌,
}
use multitenancy.Exceptions.{Exception}
use multitenancy.Entities.{BaseEntity}
use multitenancy.World.{World, Result}
use multitenancy.World.Runs.{Post, Runs}
use multitenancy.Platform.{Platform}
use multitenancy.Repository.{
  Repository, connection_lost, missing_relation, unique_violation, sent, generated, on_rows,
  found_row, insert_row, update_rows, find_one, save, update_where,
}

module _ (sys : Platform) {E : Type 0} (repo : Repository E) {P : World → Type 0}
    {X : Exception → World → Type 0}
    (fails : (x : Exception) (w : World) → P w → X x (sent sys w)) where
  pub Runs-on_rows :
      {A : Type 0} {Q : A → World → Type 0} (body : List E → World → Result A × World)
      → ((w : World) (rows : List E)
          → P w
          → repo.rows (sent sys w) ≡ some rows
          → Post Q X (body rows (sent sys w)))
      → Runs P (on_rows sys repo body) Q X
  unfolding on_rows
  Runs-on_rows body h = record {
    at = λ w p. elim (Bool-cases (sys.rejects w.calls)) [
      | inl lost ↦ rw lost (fails connection_lost w p)
      | inr sends ↦ rw sends (elim (Option-cases (repo.rows (sent sys w))) [
        | inl missing ↦ rw missing (fails missing_relation w p)
        | inr (rows, e) ↦ rw e (h w rows p e)
      ])
    ];
  }

  pub Runs-find_one :
      (p : E → Bool) {Q : Option E → World → Type 0}
      → ((w : World) (rows : List E)
          → P w
          → repo.rows (sent sys w) ≡ some rows
          → Q (sys.find_one E p rows) (sent sys w))
      → Runs P (find_one sys repo p) Q X
  unfolding find_one
  Runs-find_one p h = Runs-on_rows (found_row sys repo p) h

  pub Runs-save :
      (row : BaseEntity → E) {Q : E → World → Type 0}
      → ((w : World) (rows : List E)
          → P w
          → repo.rows (sent sys w) ≡ some rows
          → any (repo.clash (row (generated sys (sent sys w)))) rows ≡ false
          → Q
              (row (generated sys (sent sys w)))
              (repo.write (rows ++ row (generated sys (sent sys w)) ∷ []) (sent sys w)))
      → Runs P (save sys repo row) Q X
  unfolding save
  Runs-save row h = Runs-on_rows (insert_row sys repo row) λ w rows p e.
      let x : E = row (generated sys (sent sys w)) in
      rw (sys.insert_lem, insert_row)
        (elim (Bool-cases (any (repo.clash x) rows)) [
          | inl clash ↦ rw clash (fails unique_violation w p)
          | inr new ↦ rw new (h w rows p e new)
        ])

  pub Runs-update_where :
      (p : E → Bool) (f : E → E) {Q : Unit {0} → World → Type 0}
      → ((w : World) (rows : List E)
          → P w
          → repo.rows (sent sys w) ≡ some rows
          → Q tt (
              repo.write
                (map (λ x. if p x then repo.touch (sent sys w).clock (f x) else x) rows)
                (sent sys w)))
      → Runs P (update_where sys repo p f) Q X
  unfolding update_where
  Runs-update_where p f h =
      Runs-on_rows (update_rows sys repo p f) λ w rows q e. rw sys.update_lem (h w rows q e)
