-- ===== src/Repository/Accepted.antt =====
-- What the calls of a repository answer when the server does not reject the statement.
use multitenancy.Prelude.{
  Bool, false, some, List, [], ◌∷◌, ◌++◌, map, ◌≡◌, refl, any, if◌then◌else◌,
}
use multitenancy.Entities.{BaseEntity}
use multitenancy.World.{World, Result, ok}
use multitenancy.Platform.{Platform}
use multitenancy.Repository.{
  Repository, sent, generated, execute, on_rows, found_row, insert_row, update_rows, find_one, save,
  update_where,
}

module _ (sys : Platform) (w : World) (sends : sys.rejects w.calls ≡ false) where
  pub execute_accepted : (f : World → World) → execute sys f w ≡ (ok tt, f (sent sys w))
  unfolding execute
  execute_accepted f = rw sends refl

  module _ {E : Type 0} (repo : Repository E) (rows : List E)
      (there : repo.rows (sent sys w) ≡ some rows) where
    on_rows_accepted :
        {A : Type 0} (body : List E → World → Result A × World)
        → on_rows sys repo body w ≡ body rows (sent sys w)
    unfolding on_rows
    on_rows_accepted body = rw (sends, there) refl

    pub find_one_accepted :
        (p : E → Bool) → find_one sys repo p w ≡ (ok (sys.find_one E p rows), sent sys w)
    unfolding find_one
    find_one_accepted p = on_rows_accepted (found_row sys repo p)

    pub save_accepted :
        (row : BaseEntity → E)
        → any (repo.clash (row (generated sys (sent sys w)))) rows ≡ false
        → save sys repo row w ≡ (
          ok (row (generated sys (sent sys w))),
          repo.write (rows ++ row (generated sys (sent sys w)) ∷ []) (sent sys w),
        )
    unfolding save
    save_accepted row new =
        rw (on_rows_accepted (insert_row sys repo row), insert_row, sys.insert_lem, new) refl

    pub update_where_accepted :
        (p : E → Bool) (f : E → E)
        → update_where sys repo p f w ≡ (
          ok tt,
          repo.write
              (map (λ x. if p x then repo.touch (sent sys w).clock (f x) else x) rows)
              (sent sys w),
        )
    unfolding update_where
    update_where_accepted p f =
        rw (on_rows_accepted (update_rows sys repo p f), update_rows, sys.update_lem) refl
