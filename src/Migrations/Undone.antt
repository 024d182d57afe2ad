-- ===== src/Migrations/Undone.antt =====
-- Reverting a migration of src/database/migrations undoes it.
use multitenancy.Prelude.{
  Option, none, some, List, [], ◌∷◌, ◌++◌, ◌≡◌, refl, sym, arith, eq_of_some_eq, Option-cases, inl,
  inr,
}
use multitenancy.Migrations.{
  Statement, create_type, create_table, add_foreign_key, drop_type, drop_table, drop_constraint,
  CheckedIn, public_tables, tenant_template, tenant_acme, up, down,
}

-- the statement that takes back what `s` has made
abbrev pub undo : Statement → Option Statement
undo (create_type n labels) = some (drop_type n)
undo (create_table n columns constraints) = some (drop_table n)
undo (add_foreign_key n name column target rule) = some (drop_constraint n name)
undo _ = none

-- A database server, by what it does with a statement; `none` if it refuses it. Where a statement has
-- made something, dropping that, with nothing done in between, gives back what was there before.
pub record Server : Type 1 where
  pub Catalogue : Type 0
  pub exec : Statement → Catalogue → Option Catalogue
  pub exec-undo :
      (made dropped : Statement) (c c' : Catalogue)
      → undo made ≡ some dropped
      → exec made c ≡ some c'
      → exec dropped c' ≡ some c

-- the statements that take back what `ss` has made, the last one first
undo_all : List Statement → Option (List Statement)
undo_all [] = some []
undo_all (s ∷ ss) = elim (undo_all ss) [
  | none ↦ none
  | some rest ↦ elim (undo s) [ none ↦ none | some u ↦ some (rest ++ u ∷ []) ]
]

module _ (server : Server) where
  open server use {Catalogue, exec}

  -- one statement after the other, in one transaction
  unfoldable pub run : List Statement → Catalogue → Option Catalogue
  run [] c = some c
  run (s ∷ ss) c = elim (exec s c) [ none ↦ none | some c' ↦ run ss c' ]

  run-concat :
      (ss : List Statement) (u : Statement) (c c' d : Catalogue)
      → run ss c ≡ some c'
      → exec u c' ≡ some d
      → run (ss ++ u ∷ []) c ≡ some d
  unfolding run
  run-concat [] u c c' d h k = ground (arith, k)
  run-concat (s ∷ ss) u c c' d h k = elim (Option-cases (exec s c)) [
    | inl refused ↦ ground (arith, refused)
    | inr (e, made) ↦ rw made (run-concat ss u e c' d (rw (run, made) at h) k)
  ]

  run-undo_all :
      (ss us : List Statement) (c c' : Catalogue)
      → undo_all ss ≡ some us
      → run ss c ≡ some c'
      → run us c' ≡ some c
  unfolding run undo_all
  run-undo_all [] us c c' h k =
      let no_more : [] ≡ us = eq_of_some_eq [] us h in
      let same : c ≡ c' = eq_of_some_eq c c' k in rw (sym no_more, sym same) refl
  run-undo_all (s ∷ ss) us c c' h k = elim (Option-cases (undo_all ss)) [
    | inl missing ↦ ground (arith, missing)
    | inr (rest, e) ↦ elim (Option-cases (undo s)) [
      | inl final ↦ ground (arith, e, final)
      | inr (u, e') ↦ elim (Option-cases (exec s c)) [
        | inl refused ↦ ground (arith, refused)
        | inr (d, made) ↦
            let last : (rest ++ u ∷ []) ≡ us =
              eq_of_some_eq (rest ++ u ∷ []) us (ground (arith, e, e')) in
            let later : run ss d ≡ some c' = rw (run, made) at k in
            rw (sym last) (
              run-concat rest u c' d c (run-undo_all ss rest d c' e later)
                (server.exec-undo s u c d e' made))
      ]
    ]
  ]

down_is_undo_all : (f : CheckedIn) → undo_all (up f) ≡ some (down f)
unfolding undo_all up down
down_is_undo_all public_tables = refl
down_is_undo_all tenant_template = refl
down_is_undo_all tenant_acme = refl

module _ (server : Server) where
  -- For each migration that is checked in and any server on which a drop takes back what has just been
  -- made: where all statements of its `up` are accepted, those of its `down` are accepted after them and
  -- give back the catalogue that there was.
  pub down_reverts_up :
      (f : CheckedIn) (c c' : server.Catalogue)
      → run server (up f) c ≡ some c'
      → run server (down f) c' ≡ some c
  down_reverts_up f c c' done = run-undo_all server (up f) (down f) c c' (down_is_undo_all f) done
