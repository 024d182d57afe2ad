-- ===== src/Bodies/Changelogs.antt =====
-- What the pipe lets through as a new changelog (`CreateChangelogDto` of
-- src/changelogs/dto/create-changelog.dto.ts).
use multitenancy.Prelude.{
  String, Bool, true, false, Option, none, some, [], ◌∷◌, ◌≡◌, refl, sym, ◌∙◌, ◌⊎◌, inl, inr, ◌||◌,
  ◌==◌, any, and_parts, Bool-cases,
}
use multitenancy.Prelude.Assoc.{Assoc, find}
use multitenancy.Json.{Json, undefined, null, str, Fields}
use multitenancy.Changelogs.{CreateChangelogDto}
use multitenancy.Bodies.{is_enum, Pipe, validation_options, at, absent, holds}
use multitenancy.Bodies.Classes.{required, labels, create_changelog_class}
use multitenancy.Bodies.Readers.{
  changelog_types, changelog_statuses, maybe_text_of, maybe_date_of, create_changelog_of,
}
use multitenancy.Bodies.Checks.{
  accepted_parts, string_at, checked_at, optional_string_at, no_date_at,
}

skip : (b c : Bool) → b ≡ false → (b || c) ≡ c
skip b c h = rw h refl

absent_text : (v : Json) → absent v ≡ true → maybe_text_of v ≡ some none
absent_text undefined h = refl
absent_text null h = refl
absent_text v h = cc h

maybe_date-none : (v : Json) → absent v ≡ true → maybe_date_of v ≡ some none
maybe_date-none undefined h = refl
maybe_date-none null h = refl
maybe_date-none v h = cc h

find-label {ℓ} :
    {A : Type ℓ} (table : Assoc A) (s : String)
    → any (λ l. l == s) (labels table) ≡ true
    → (a : A) × (find s table ≡ some a)
unfolding find
find-label [] s h = cc h
find-label ((l, a) ∷ rest) s h = elim (Bool-cases (l == s)) [
  | inl same ↦ (a, rw same refl)
  | inr other ↦ let (b, e) = find-label rest s (sym (skip (l == s) _ other) ∙ h) in (b, rw other e)
]

maybe_text-read :
    (v : Json)
    → (absent v ≡ true) ⊎ ((s : String) × (v ≡ str s))
    → (o : Option String) × (maybe_text_of v ≡ some o)
maybe_text-read v (inl missing) = (none, absent_text v missing)
maybe_text-read v (inr (s, e)) = (some s, rw e refl)

module _ (pipe : Pipe) where
  enum_at {ℓ} :
      {A : Type ℓ} (body : Fields) (name : String) (table : Assoc A)
      → holds pipe.meets body (required name (is_enum (labels table) ∷ [])) ≡ true
      → (s : String) × (at name body ≡ str s) × ((a : A) × (find s table ≡ some a))
  enum_at body name table h =
      let d = is_enum (labels table) in
      let (s, e, p) = checked_at pipe body name d (pipe.meets_enum_text (labels table)) h in
      let (meets, _) = and_parts (pipe.meets d (str s)) true p in
      (s, e, find-label table s (sym (pipe.meets_enum (labels table) s) ∙ meets))

  -- A body that the pipe lets through as a new changelog has the texts and the values of enumerations
  -- that the class gives it, and no publication date: JSON has none, and a text that spells one is no
  -- date to `@IsDate()`.
  pub changelog_typed :
      (body : Fields)
      → pipe.accepts validation_options create_changelog_class body ≡ true
      → (dto : CreateChangelogDto) × (create_changelog_of body ≡ some dto)
        × (dto.published_at ≡ none)
  unfolding create_changelog_of
  changelog_typed body h =
      let (_, each) = accepted_parts pipe create_changelog_class body h in
      let (h0, each1) = and_parts _ _ each in
      let (h1, each2) = and_parts _ _ each1 in
      let (h2, each3) = and_parts _ _ each2 in
      let (h3, each4) = and_parts _ _ each3 in
      let (h4, each5) = and_parts _ _ each4 in
      let (h5, each6) = and_parts _ _ each5 in
      let (h6, _) = and_parts _ _ each6 in
      let (product, e0, _) = string_at pipe body "productId" _ h0 in
      let (title, e1, _) = string_at pipe body "title" _ h1 in
      let (content, e2, _) = string_at pipe body "content" _ h2 in
      let (label, e3, (type, t3)) = enum_at body "type" changelog_types h3 in
      let (state, e4, (status, t4)) = enum_at body "status" changelog_statuses h4 in
      let (version, e5) = maybe_text-read _ (optional_string_at pipe body "version" h5) in
      let e6 = maybe_date-none _ (no_date_at pipe body "publishedAt" h6) in
      (
        record {
          product_id = product;
          title = title;
          content = content;
          type = type;
          status = status;
          version = version;
          published_at = none;
        },
        rw (e0, e1, e2, e3, t3, e4, t4, e5, e6) refl,
        refl,
      )
