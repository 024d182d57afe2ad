-- ===== src/Bootstrap/Origins.antt =====
-- The origins that CORS lets through are those of the setting (src/app.create.ts).
use Prim.Native.String.append
use Prim.Native.Char.{code}
use Prim.Native.String.{◌++◌}
use multitenancy.Prelude.{
  String, Bool, true, false, Option, none, some, List, [], ◌∷◌, ◌≡◌, ◌↔◌, ◌⊎◌, refl, arith, ◌==◌,
  any, eqb, All, In, eq_iff, if◌then◌else◌, sym, inl, inr, Bool-cases, ap, eq_of_some_eq,
}
use multitenancy.Bootstrap.{split, allowed_origins, cors_error}

-- a text without commas
abbrev pub lacks_comma : String → Bool
lacks_comma String.[] = true
lacks_comma (String.◌∷◌ c s) = let rest = lacks_comma s in if eqb (code c) 44 then false else rest

-- the origins, separated by commas
abbrev pub setting : String → List String → String
setting o [] = o
setting o (p ∷ ps) = o ++ "," ++ setting p ps

split-plain : (o : String) → lacks_comma o ≡ true → split o ≡ o ∷ []
unfolding split
split-plain String.[] h = refl
split-plain (String.◌∷◌ c s) h = elim (Bool-cases (eqb (code c) 44)) [
  | inl comma ↦ absurd (cc (rw comma at h))
  | inr other ↦ rw (other, split-plain s (rw other at h), append.cons, append.nil) refl
]

split-comma : (o s : String) → lacks_comma o ≡ true → split (o ++ "," ++ s) ≡ o ∷ split s
unfolding split
split-comma String.[] s h = rw (append.nil, append.cons, append.nil) refl
split-comma (String.◌∷◌ c o) s h = elim (Bool-cases (eqb (code c) 44)) [
  | inl comma ↦ absurd (cc (rw comma at h))
  | inr other ↦
      rw (append.cons, other, split-comma o s (rw other at h), append.cons, append.nil) refl
]

split-setting :
    (o : String) (os : List String)
    → All (λ x. lacks_comma x ≡ true) (o ∷ os)
    → split (setting o os) ≡ o ∷ os
split-setting o [] h = split-plain o h.0
split-setting o (p ∷ ps) h = rw (split-comma o (setting p ps) h.0, split-setting p ps h.1) refl

any-of_In :
    (o : String) (os : List String) (x : String) → In x (o ∷ os) → any (λ z. z == x) (o ∷ os) ≡ true
any-of_In o os x (inl same) = ground (arith, (eq_iff o x).1 same)
any-of_In o [] x (inr later) = absurd later
any-of_In o (p ∷ os) x (inr later) = ground (arith, any-of_In p os x later)

any-In : (os : List String) (x : String) → (any (λ o. o == x) os ≡ true) ↔ In x os
any-In [] x = (λ h. cc h, λ h. absurd h)
any-In (o ∷ os) x = (
  λ h. elim (Bool-cases (o == x)) [
    | inl same ↦ inl ((eq_iff o x).0 same)
    | inr other ↦ inr ((any-In os x).0 (ground arith))
  ],
  any-of_In o os x,
)

admitted :
    (o : String) (os : List String)
    → (some o ≡ none) ⊎ (some o ≡ some "") ⊎ ((x : String) × (some o ≡ some x) × In x os)
    → cors_error os (some o) ≡ none
unfolding cors_error
admitted o os (inl e) = cc e
admitted o os (inr (inl e)) = ground (arith, (eq_iff o "").1 (eq_of_some_eq o "" e))
admitted o os (inr (inr (x, e, member))) =
    let listed : any (λ z. z == o) os ≡ true =
      (any-In os o).1 (rw (sym (eq_of_some_eq o x e)) at member) in
    ground (arith, listed)

let_through :
    (o : String) (os : List String)
    → (cors_error os (some o) ≡ none)
      ↔ ((some o ≡ none) ⊎ (some o ≡ some "") ⊎ ((x : String) × (some o ≡ some x) × In x os))
unfolding cors_error
let_through o os = (
  λ h. elim (Bool-cases (o == "")) [
    | inl empty ↦ inr (inl (ap (λ (t : String). some t) ((eq_iff o "").0 empty)))
    | inr named ↦ inr (inr (o, refl, (any-In os o).0 (ground (arith, h, named))))
  ],
  admitted o os,
)

-- With a setting that lists origins without commas, a request is let through exactly when it names no
-- origin, an empty one, or one of the list, letter by letter.
pub cors_error_lem :
    (first : String) (others : List String) (origin : Option String)
    → All (λ x. lacks_comma x ≡ true) (first ∷ others)
    → (cors_error (allowed_origins (some (setting first others))) origin ≡ none) ↔ (
        (origin ≡ none)
        ⊎ (origin ≡ some "")
        ⊎ ((o : String) × (origin ≡ some o) × In o (first ∷ others)))
unfolding allowed_origins cors_error
cors_error_lem first others none plain = (λ h. inl refl, λ h. refl)
cors_error_lem first others (some o) plain =
    rw (split-setting first others plain) (let_through o (first ∷ others))
