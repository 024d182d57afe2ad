-- ===== src/Bodies.antt =====
-- The bodies of requests and the classes that they are checked against: the `ValidationPipe` of
-- src/app.create.ts and the decorators of class-validator. The pipe is the framework's and a parameter.
pub mod Classes
pub mod Readers
mod Checks
pub mod Signups
pub mod Stranded
pub mod Changelogs
pub mod Invitations
use multitenancy.Prelude.{
  ℕ, String, Bool, true, false, Option, none, some, List, [], ◌∷◌, ◌≡◌, ◌==◌, ◌&&◌, ◌||◌, not, any,
  leb, if◌then◌else◌,
}
use multitenancy.Json.{Json, undefined, null, bool, num, str, arr, obj, Fields, end, field, member}
use multitenancy.Validation.{chars}

-- The decorators that the classes use, but for `@IsOptional()`. A pattern is its test.
pub data Decorator : Type 0 where
  is_string : Decorator
  is_email : Decorator
  is_number : Decorator
  is_date : Decorator
  min_length : ℕ → Decorator
  matches : (String → Bool) → Decorator
  is_enum : List String → Decorator

pub record Property : Type 0 where
  pub name : String
  pub optional : Bool
  pub decorators : List Decorator

-- the argument of `new ValidationPipe`
pub record PipeOptions : Type 0 where
  pub whitelist : Bool
  pub forbid_non_whitelisted : Bool
  pub transform : Bool

abbrev pub validation_options : PipeOptions
validation_options = record { whitelist = true; forbid_non_whitelisted = true; transform = true }

-- `body[k]`
unfoldable pub at : String → Fields → Json
at k body = elim (member k body) [ none ↦ undefined | some v ↦ v ]

abbrev pub is_text : Json → Bool
is_text (str s) = true
is_text _ = false

abbrev pub is_num : Json → Bool
is_num (num n) = true
is_num _ = false

-- `value === undefined || value === null`
abbrev pub absent : Json → Bool
absent undefined = true
absent null = true
absent _ = false

abbrev pub every {ℓ} : {A : Type ℓ} → (A → Bool) → List A → Bool
every p [] = true
every p (x ∷ xs) = p x && every p xs

-- Each property of the body is one of the class.
unfoldable pub declared : List Property → Fields → Bool
declared ps end = true
declared ps (field k v body) = any (λ p. p.name == k) ps && declared ps body

-- what `@IsOptional()` does: the other decorators say nothing of a value that is absent
unfoldable pub holds : (Decorator → Json → Bool) → Fields → Property → Bool
holds meets body p =
    (p.optional && absent (at p.name body)) || every (λ d. meets d (at p.name body)) p.decorators

-- The pipe with what its documentation says. A body is JSON, which has no dates, and a property keeps
-- the value it has there: no class has a `@Type`, and the options ask for no implicit conversion.
pub record Pipe : Type 0 where
  pub meets : Decorator → Json → Bool
  pub accepts : PipeOptions → List Property → Fields → Bool
  pub meets_string : (v : Json) → meets is_string v ≡ is_text v
  pub meets_email : (v : Json) → meets is_email v ≡ true → is_text v ≡ true
  pub meets_number : (v : Json) → meets is_number v ≡ is_num v
  pub meets_date : (v : Json) → meets is_date v ≡ false
  pub meets_min_length : (n : ℕ) (s : String) → meets (min_length n) (str s) ≡ leb n (chars s)
  pub meets_pattern : (r : String → Bool) (s : String) → meets (matches r) (str s) ≡ r s
  pub meets_enum :
      (labels : List String) (s : String)
      → meets (is_enum labels) (str s) ≡ any (λ l. l == s) labels
  pub meets_enum_text :
      (labels : List String) (v : Json) → meets (is_enum labels) v ≡ true → is_text v ≡ true
  pub accepts_lem :
      (options : PipeOptions) (ps : List Property) (body : Fields)
      → accepts options ps body ≡ (
          (not (options.whitelist && options.forbid_non_whitelisted) || declared ps body)
          && every (holds meets body) ps)
