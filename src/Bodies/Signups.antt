-- ===== src/Bodies/Signups.antt =====
-- What the pipe lets through as a signup (`SignupDto` of src/auth/dto/index.dto.ts, and the
-- `ValidationPipe` of src/app.create.ts).
use multitenancy.Prelude.{
  String, Bool, true, some, [], ◌∷◌, ◌≡◌, refl, sym, ap, ◌∙◌, ◌↔◌, eq_of_some_eq, ◌&&◌, leb,
  and_parts, arith,
}
use multitenancy.Json.{Json, str, Fields}
use multitenancy.Validation.{chars, all_slug_chars, valid_slug, valid_signup}
use multitenancy.Auth.{SignupDto}
use multitenancy.Bodies.{
  is_email, min_length, matches, Pipe, validation_options, at, every, declared, holds,
}
use multitenancy.Bodies.Classes.{slug_pattern, signup_class}
use multitenancy.Bodies.Readers.{text_of, signup_of, >>=-some}
use multitenancy.Bodies.Checks.{accepted_parts, string_at, checked_at}

-- Three characters are at least one.
slug_checks : (s : String) → (leb 3 (chars s) && (slug_pattern s && true)) ≡ valid_slug s
unfolding valid_slug
slug_checks s = ground arith

without_true :
    (a b c d : Bool) → (a && true && (b && (c && true && (d && true && true)))) ≡ (a && b && c && d)
without_true a b c d = ground arith

text_of-str : (v : Json) (s : String) → text_of v ≡ some s → v ≡ str s
text_of-str (str t) s h = ap str (eq_of_some_eq t s h)
text_of-str v s h = cc h

module _ (pipe : Pipe) where
  abbrev pub email_test : String → Bool
  email_test s = pipe.meets is_email (str s)

  long_enough :
      (s : String) (b : Bool)
      → (pipe.meets (min_length 3) (str s) && b) ≡ true
      → (leb 3 (chars s) ≡ true) × (b ≡ true)
  long_enough s b h =
      let (long, rest) = and_parts _ _ h in (sym (pipe.meets_min_length 3 s) ∙ long, rest)

  slug_meets :
      (s : String)
      → every (λ d. pipe.meets d (str s)) (min_length 3 ∷ matches slug_pattern ∷ []) ≡ true
      → valid_slug s ≡ true
  unfolding valid_slug
  slug_meets s h =
      let (long, rest) = long_enough s _ h in
      let (pattern, _) = and_parts _ _ rest in
      let (_, letters) =
        and_parts (leb 1 (chars s)) (all_slug_chars s)
          (sym (pipe.meets_pattern slug_pattern s) ∙ pattern) in
      rw (long, letters) refl

  signup_typed :
      (body : Fields)
      → pipe.accepts validation_options signup_class body ≡ true
      → (declared signup_class body ≡ true)
        × ((dto : SignupDto) × (signup_of body ≡ some dto) × (valid_signup email_test dto ≡ true))
  unfolding signup_of valid_signup
  signup_typed body h =
      let (known, each) = accepted_parts pipe signup_class body h in
      let (h0, each1) = and_parts _ _ each in
      let (h1, each2) = and_parts _ _ each1 in
      let (h2, each3) = and_parts _ _ each2 in
      let (h3, _) = and_parts _ _ each3 in
      let (name, e0, p0) = string_at pipe body "name" _ h0 in
      let (slug, e1, p1) = string_at pipe body "slug" _ h1 in
      let (email, e2, p2) = checked_at pipe body "tenantOwnerEmail" is_email pipe.meets_email h2 in
      let (password, e3, p3) = string_at pipe body "tenantOwnerPassword" _ h3 in
      (
        known,
        (
          record {
            name = name;
            slug = slug;
            tenant_owner_email = email;
            tenant_owner_password = password;
          },
          rw (e0, e1, e2, e3) refl,
          rw
              (
                (long_enough name _ p0).0,
                slug_meets slug p1,
                (and_parts (email_test email) true p2).0,
                (long_enough password _ p3).0,
              )
              refl,
        ),
      )

  -- the decorators of a body with the four texts
  checks_lem :
      (body : Fields) (dto : SignupDto)
      → at "name" body ≡ str dto.name
      → at "slug" body ≡ str dto.slug
      → at "tenantOwnerEmail" body ≡ str dto.tenant_owner_email
      → at "tenantOwnerPassword" body ≡ str dto.tenant_owner_password
      → every (holds pipe.meets body) signup_class ≡ valid_signup email_test dto
  unfolding valid_signup holds
  checks_lem body dto e0 e1 e2 e3 =
      rw
        (
          e0,
          e1,
          e2,
          e3,
          pipe.meets_string (str dto.name),
          pipe.meets_string (str dto.slug),
          pipe.meets_string (str dto.tenant_owner_password),
          pipe.meets_min_length 3 dto.name,
          pipe.meets_min_length 3 dto.slug,
          pipe.meets_min_length 3 dto.tenant_owner_password,
          pipe.meets_pattern slug_pattern dto.slug,
          slug_checks dto.slug,
        )
        (without_true (leb 3 (chars dto.name)) (valid_slug dto.slug)
          (email_test dto.tenant_owner_email) (leb 3 (chars dto.tenant_owner_password)))

  signup_accepted :
      (body : Fields) (dto : SignupDto)
      → declared signup_class body ≡ true
      → signup_of body ≡ some dto
      → valid_signup email_test dto ≡ true
      → pipe.accepts validation_options signup_class body ≡ true
  unfolding signup_of
  signup_accepted body dto known e valid =
      let (name, r0, f0) = >>=-some _ _ _ e in
      let (slug, r1, f1) = >>=-some _ _ _ f0 in
      let (email, r2, f2) = >>=-some _ _ _ f1 in
      let (password, r3, f3) = >>=-some _ _ _ f2 in
      let same = eq_of_some_eq _ _ f3 in
      rw
        (
          pipe.accepts_lem,
          known,
          checks_lem body dto (text_of-str _ _ r0 ∙ ap (λ d. str d.name) same)
              (text_of-str _ _ r1 ∙ ap (λ d. str d.slug) same)
              (text_of-str _ _ r2 ∙ ap (λ d. str d.tenant_owner_email) same)
              (text_of-str _ _ r3 ∙ ap (λ d. str d.tenant_owner_password) same),
        )
        valid

  -- The pipe lets a body through as a signup exactly when it has no property but the four of the class,
  -- each is a text, and the signup that they make meets the decorators: name, slug and password have
  -- three characters at least, the slug has none outside [a-z0-9-], and the address is one to the
  -- validator.
  pub signup_gate :
      (body : Fields)
      → (pipe.accepts validation_options signup_class body ≡ true) ↔ (
          (declared signup_class body ≡ true)
          × ((dto : SignupDto) × (signup_of body ≡ some dto)
              × (valid_signup email_test dto ≡ true)))
  signup_gate body =
      (signup_typed body, λ (known, (dto, e, valid)). signup_accepted body dto known e valid)
