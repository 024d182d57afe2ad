-- ===== src/Feedback/References.antt =====
-- The references of a feedback that is created (`createFeedback` of src/feedback/feedback.service.ts).
use multitenancy.Prelude.{
  String, Option, none, some, List, [], ◌∷◌, ◌++◌, ◌≡◌, refl, arith, ◌==◌, eq_iff, ==_refl, In,
  All-In, In-concat, ◌⊎◌, inl, inr, Option-cases, ap, ◌∙◌,
}
use multitenancy.Entities.{Changelog, Feedback, Product}
use multitenancy.World.{World, TenantTables, set_tables, DataSource, ok, tables_of, ◌>>=◌}
use multitenancy.World.Tables.{tables_of-set_tables}
use multitenancy.World.Runs.{Runs, Post, Runs-bind, Runs-pure, Runs-or_raise, Runs-if, Runs-to}
use multitenancy.Platform.{Platform, Migration}
use multitenancy.Repository.{
  products_repository, changelogs_repository, feedback_repository, sent, generated, save,
}
use multitenancy.Repository.Runs.{Runs-find_one, Runs-save}
use multitenancy.Provisioning.{data_source}
use multitenancy.Provisioning.Isolation.{IsKeyed}
use multitenancy.Provisioning.Reuse.{Ready, get_data_source-Ready}
use multitenancy.Feedback.{
  CreateFeedbackDto, feedback_of, id_of_changelog, find_changelog, create_feedback,
}

-- the schema's products have one with that id
abbrev HasProduct : String → String → World → Type 0
HasProduct schema id w =
    (rows : List Product) × (p : Product) × ((products_repository (data_source schema)).rows w
      ≡ some rows)
    × In p rows
    × (p.base.id ≡ id)

-- the schema's changelogs have one with that id
abbrev HasChangelog : String → String → World → Type 0
HasChangelog schema id w =
    (rows : List Changelog) × (c : Changelog) × ((changelogs_repository (data_source schema)).rows w
      ≡ some rows)
    × In c rows
    × (c.base.id ≡ id)

-- nothing, where the request names no changelog, else a changelog of the schema that it names
abbrev NamesChangelog : String → Option String → Option String → World → Type 0
NamesChangelog schema asked kept w =
    (kept ≡ none)
    ⊎ ((id : String) × (asked ≡ some id) × (kept ≡ some id) × HasChangelog schema id w)

abbrev pub Referenced : String → String → CreateFeedbackDto → Feedback → World → Type 0
Referenced schema user_id dto out w =
    (out.user_id ≡ user_id)
    × (out.product_id ≡ some dto.product_id)
    × HasProduct schema dto.product_id w
    × NamesChangelog schema dto.changelog_id out.change_log_id w
    × ((rows : List Feedback) × ((feedback_repository (data_source schema)).rows w ≡ some rows)
        × In out rows)

-- what a write of the feedback table reads back, and what it leaves
pub feedback-write :
    (schema : String) (new rows : List Feedback) (w : World)
    → (feedback_repository (data_source schema)).rows w ≡ some rows
    → let v = (feedback_repository (data_source schema)).write new w in
      ((feedback_repository (data_source schema)).rows v ≡ some new)
      × ((products_repository (data_source schema)).rows v
          ≡ (products_repository (data_source schema)).rows w)
      × ((changelogs_repository (data_source schema)).rows v
          ≡ (changelogs_repository (data_source schema)).rows w)
feedback-write schema new rows w e = elim (Option-cases (tables_of schema w.schemas)) [
  | inl absent ↦ ground arith
  | inr (t, there) ↦
      let new_tables : TenantTables = record t { feedback = new } in
      let read : tables_of schema (set_tables schema new_tables w.schemas) ≡ some new_tables =
        rw (==_refl schema) at (tables_of-set_tables schema schema new_tables t w.schemas there) in
      (ground (arith, there, read), ground (arith, there, read), ground (arith, there, read))
]

carry :
    (schema : String) (asked kept : Option String) (w v : World)
    → (changelogs_repository (data_source schema)).rows v
      ≡ (changelogs_repository (data_source schema)).rows w
    → NamesChangelog schema asked kept w
    → NamesChangelog schema asked kept v
carry schema asked kept w v same (inl e) = inl e
carry schema asked kept w v same (inr (id, a, k, (rows, c, there, member, named))) =
    inr (id, a, k, (rows, c, same ∙ there, member, named))

module _ (sys : Platform) (ups : List Migration) where
  module _ (schema : String) (user_id : String) (dto : CreateFeedbackDto) where
    abbrev FoundProduct : Product → World → Type 0
    FoundProduct p w =
        (rows : List Product) × ((products_repository (data_source schema)).rows w ≡ some rows)
        × In p rows
        × (p.base.id ≡ dto.product_id)

    find_changelog-Names :
        (ds : DataSource) (asked : Option String) (p : Product)
        → ds ≡ data_source schema
        → Runs
            (FoundProduct p)
            (find_changelog sys ups ds asked)
            (λ c w. FoundProduct p w × NamesChangelog schema asked (id_of_changelog c) w)
            (λ _ _. Unit {0})
    unfolding find_changelog
    find_changelog-Names ds none p same = Runs-pure none (λ w h. (h, inl refl))
    find_changelog-Names ds (some id) p same =
        Runs-if (id == "") _ _ (λ e. Runs-pure none (λ w h. (h, inl refl)))
          λ e.
            Runs-bind _ _
              (λ found w.
                FoundProduct p w
                × ((c : Changelog) → found ≡ some c → (c.base.id ≡ id) × HasChangelog schema id w))
              (Runs-find_one sys (changelogs_repository ds) (λ x w h. tt) _
                λ w rows h there. (
                  h,
                  λ c found.
                      let (fits, member) =
                        sys.find_one_sound Changelog (λ x. x.base.id == id) (λ x. In x rows) rows c
                          found (All-In rows) in
                      let same_id : c.base.id ≡ id = (eq_iff c.base.id id).0 fits in
                      (same_id, (rows, c, rw same at there, member, same_id)),
                ))
              λ found.
                Runs-bind _ _
                  (λ c w. FoundProduct p w × ((c.base.id ≡ id) × HasChangelog schema id w))
                  (Runs-or_raise found _ (λ e w h. tt) (λ c e w h. (h.0, h.1 c e)))
                  λ c. Runs-pure (some c) λ w (h, (same_id, has)).
                    (h, inr (id, refl, ap (λ (t : String). some t) same_id, has))

    save-Referenced :
        (p : Product) (c : Option Changelog)
        → Runs
            (λ w. FoundProduct p w × NamesChangelog schema dto.changelog_id (id_of_changelog c) w)
            (save sys (feedback_repository (data_source schema)) (feedback_of dto user_id p c))
            (Referenced schema user_id dto)
            (λ _ _. Unit {0})
    save-Referenced p c =
        Runs-save sys (feedback_repository (data_source schema)) (λ x w h. tt)
          (feedback_of dto user_id p c)
          λ w rows (has, named) there new.
            let out : Feedback = feedback_of dto user_id p c (generated sys (sent sys w)) in
            let (mine, products, changelogs) =
              feedback-write schema (rows ++ out ∷ []) rows (sent sys w) there in
            (
              refl,
              ap (λ (t : String). some t) has.3,
              (has.0, p, products ∙ has.1, has.2, has.3),
              carry schema dto.changelog_id (id_of_changelog c) w
                  ((feedback_repository (data_source schema)).write (rows ++ out ∷ []) (sent sys w))
                  changelogs named,
              (rows ++ out ∷ [], mine, In-concat rows out),
            )

    finish :
        (ds : DataSource) (p : Product)
        → ds ≡ data_source schema
        → Runs
            (FoundProduct p)
            (find_changelog sys ups ds dto.changelog_id >>= λ c.
              save sys (feedback_repository ds) (feedback_of dto user_id p c))
            (Referenced schema user_id dto)
            (λ _ _. Unit {0})
    finish ds p same =
        Runs-bind _ _ _ (find_changelog-Names ds dto.changelog_id p same)
          λ c. rw same (save-Referenced p c)

    create-Referenced :
        Runs IsKeyed
          (create_feedback sys ups schema user_id dto)
          (Referenced schema user_id dto)
          (λ _ _. Unit {0})
    unfolding create_feedback
    create-Referenced =
        Runs-bind _ _ (λ ds w. ds ≡ data_source schema)
          (Runs-to _ (Ready schema) (λ _ _. Unit {0}) (λ ds w r. r.0) (λ x w r. r)
            (get_data_source-Ready sys ups schema))
          λ ds.
            Runs-bind _ _
              (λ found w.
                (ds ≡ data_source schema) × ((p : Product) → found ≡ some p → FoundProduct p w))
              (Runs-find_one sys (products_repository ds) (λ x w h. tt) _
                λ w rows same there. (
                  same,
                  λ p found.
                      let (fits, member) =
                        sys.find_one_sound Product (λ x. x.base.id == dto.product_id)
                          (λ x. In x rows) rows p found (All-In rows) in
                      (rows, rw same at there, member, (eq_iff p.base.id dto.product_id).0 fits),
                ))
              λ found.
                Runs-bind _ _ (λ p w. (ds ≡ data_source schema) × FoundProduct p w)
                  (Runs-or_raise found _ (λ e w h. tt) (λ p e w h. (h.0, h.1 p e)))
                  λ p. record { at = λ w (same, has). (finish ds p same).at w has }

  -- A feedback that is created, from connections keyed by their schemas, is in the feedback of the
  -- schema under the user's id, refers to a product of the schema, the one that the request names, and
  -- to no changelog or to the changelog of the schema that the request names.
  pub create_feedback_references :
      (schema user_id : String) (dto : CreateFeedbackDto) (w v : World) (out : Feedback)
      → IsKeyed w
      → create_feedback sys ups schema user_id dto w ≡ (ok out, v)
      → Referenced schema user_id dto out v
  create_feedback_references schema user_id dto w v out keyed done =
      let posted : Post {A = Feedback} (Referenced schema user_id dto) (λ _ _. Unit {0})
          (create_feedback sys ups schema user_id dto w) =
        (create-Referenced schema user_id dto).at w keyed in
      rw done at posted
