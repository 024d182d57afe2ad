-- ===== src/Tests/Sorting.antt =====
-- An insertion sort, the greatest key first, for the platform in memory.
use multitenancy.Prelude.{
  ℕ, ◌≤◌, Bool, List, [], ◌∷◌, ◌≡◌, refl, length, ltb, All, arith, if◌then◌else◌, Bool-cases, inl,
  inr, All-weaken,
}
use native.Mathlib.Nat.{le_trans}
use multitenancy.Platform.{keep, IsDescending}

abbrev pub place : (E : Type 0) → (E → ℕ) → E → List E → List E
place E key x [] = x ∷ []
place E key x (y ∷ ys) = if ltb (key x) (key y) then y ∷ place E key x ys else x ∷ y ∷ ys

abbrev pub sort : (E : Type 0) → (E → ℕ) → List E → List E
sort E key [] = []
sort E key (x ∷ xs) = place E key x (sort E key xs)

keep-place :
    (E : Type 0) (key : E → ℕ) (p : E → Bool) (x : E) (ys : List E)
    → length (keep p (place E key x ys)) ≡ length (keep p (x ∷ ys))
keep-place E key p x [] = refl
keep-place E key p x (y ∷ ys) = ground (arith, keep-place E key p x ys)

pub sort_same :
    (E : Type 0) (key : E → ℕ) (p : E → Bool) (rows : List E)
    → length (keep p (sort E key rows)) ≡ length (keep p rows)
sort_same E key p [] = refl
sort_same E key p (x ∷ xs) =
    ground (arith, keep-place E key p x (sort E key xs), sort_same E key p xs)

All-place :
    (E : Type 0) (key : E → ℕ) (k : ℕ) (x : E) (ys : List E)
    → key x ≤ k
    → All (λ y. key y ≤ k) ys
    → All (λ y. key y ≤ k) (place E key x ys)
All-place E key k x [] h all = (h, tt)
All-place E key k x (y ∷ ys) h all = ground (arith, All-place E key k x ys h all.1)

place-IsDescending :
    (E : Type 0) (key : E → ℕ) (x : E) (ys : List E)
    → IsDescending key ys
    → IsDescending key (place E key x ys)
place-IsDescending E key x [] d = (tt, tt)
place-IsDescending E key x (y ∷ ys) d = elim (Bool-cases (ltb (key x) (key y))) [
  | inl less ↦
      rw less (All-place E key (key y) x ys (ground arith) d.0, place-IsDescending E key x ys d.1)
  | inr more ↦
      let above : key y ≤ key x = ground arith in
      rw more ((above, All-weaken _ _ ys (λ z h. le_trans h above) d.0), d)
]

pub sort-IsDescending :
    (E : Type 0) (key : E → ℕ) (rows : List E) → IsDescending key (sort E key rows)
sort-IsDescending E key [] = tt
sort-IsDescending E key (x ∷ xs) =
    place-IsDescending E key x (sort E key xs) (sort-IsDescending E key xs)
