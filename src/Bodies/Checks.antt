-- ===== src/Bodies/Checks.antt =====
-- What an accepted body has at a property of its class (the decorators of src/auth/dto,
-- src/tenant/dto and src/changelogs/dto).
use multitenancy.Prelude.{
  String, Bool, true, false, List, [], ◌∷◌, ◌≡◌, refl, sym, ◌∙◌, ◌⊎◌, inl, inr, ◌&&◌, ◌||◌,
  and_parts,
}
use multitenancy.Json.{Json, str, Fields}
use multitenancy.Bodies.{
  Decorator, is_string, is_date, Property, Pipe, validation_options, at, is_text, absent, every,
  declared, holds,
}
use multitenancy.Bodies.Classes.{required, optional}

is_text-str : (v : Json) → is_text v ≡ true → (s : String) × (v ≡ str s)
is_text-str (str s) h = (s, refl)
is_text-str v h = cc h

either : (a b : Bool) → (a || (b && true)) ≡ true → (a ≡ true) ⊎ (b ≡ true)
either true b h = inl refl
either false true h = inr refl
either false false h = cc h

module _ (pipe : Pipe) where
  pub accepted_parts :
      (ps : List Property) (body : Fields)
      → pipe.accepts validation_options ps body ≡ true
      → (declared ps body ≡ true) × (every (holds pipe.meets body) ps ≡ true)
  accepted_parts ps body h = and_parts _ _ (sym (pipe.accepts_lem validation_options ps body) ∙ h)

  -- the decorators of a property hold of its text
  abbrev pub TextAt : Fields → String → List Decorator → Type 0
  TextAt body name ds =
      (s : String) × (at name body ≡ str s) × (every (λ d. pipe.meets d (str s)) ds ≡ true)

  pub string_at :
      (body : Fields) (name : String) (ds : List Decorator)
      → holds pipe.meets body (required name (is_string ∷ ds)) ≡ true
      → TextAt body name ds
  unfolding holds
  string_at body name ds h =
      let (text, rest) = and_parts _ _ h in
      let (s, e) = is_text-str (at name body) (sym (pipe.meets_string (at name body)) ∙ text) in
      (s, e, rw (sym e) rest)

  -- an address, or a value of an enumeration
  pub checked_at :
      (body : Fields) (name : String) (d : Decorator)
      → ((v : Json) → pipe.meets d v ≡ true → is_text v ≡ true)
      → holds pipe.meets body (required name (d ∷ [])) ≡ true
      → TextAt body name (d ∷ [])
  unfolding holds
  checked_at body name d text h =
      let (meets, _) = and_parts _ _ h in
      let (s, e) = is_text-str (at name body) (text (at name body) meets) in (s, e, rw (sym e) h)

  absent_or_meets :
      (body : Fields) (name : String) (d : Decorator)
      → holds pipe.meets body (optional name (d ∷ [])) ≡ true
      → (absent (at name body) ≡ true) ⊎ (pipe.meets d (at name body) ≡ true)
  unfolding holds
  absent_or_meets body name d h = either (absent (at name body)) (pipe.meets d (at name body)) h

  pub optional_string_at :
      (body : Fields) (name : String)
      → holds pipe.meets body (optional name (is_string ∷ [])) ≡ true
      → (absent (at name body) ≡ true) ⊎ ((s : String) × (at name body ≡ str s))
  optional_string_at body name h = elim (absent_or_meets body name is_string h) [
    | inl missing ↦ inl missing
    | inr meets ↦ inr (is_text-str (at name body) (sym (pipe.meets_string (at name body)) ∙ meets))
  ]

  pub no_date_at :
      (body : Fields) (name : String)
      → holds pipe.meets body (optional name (is_date ∷ [])) ≡ true
      → absent (at name body) ≡ true
  no_date_at body name h = elim (absent_or_meets body name is_date h) [
    | inl missing ↦ missing
    | inr meets ↦ cc (meets, pipe.meets_date (at name body))
  ]
