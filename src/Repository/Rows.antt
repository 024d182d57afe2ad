-- ===== src/Repository/Rows.antt =====
-- Tables in which no two rows clash, as the unique columns demand, and how inserts, updates and
-- lookups behave on them.
use multitenancy.Prelude.{
  String, Bool, true, false, List, [], ◌∷◌, ◌++◌, map, ◌≡◌, refl, All, any, arith, ◌==◌, eq_iff,
  ◌∙◌, All-concat,
}

pub ==_sym : (s t : String) → (s == t) ≡ (t == s)
==_sym s t = ground (arith, eq_iff s t, eq_iff t s)

module _ {E : Type 0} (clash : E → E → Bool) where
  -- no two rows clash
  abbrev pub Distinct : List E → Type 0
  Distinct [] = Unit
  Distinct (x ∷ xs) = All (λ y. clash x y ≡ false) xs × Distinct xs

  -- An insert that the unique columns let through keeps the table free of clashes.
  pub Distinct-concat :
      (symmetric : (x y : E) → clash x y ≡ clash y x) (xs : List E) (n : E)
      → Distinct xs
      → any (clash n) xs ≡ false
      → Distinct (xs ++ n ∷ [])
  Distinct-concat symmetric [] n d h = (tt, tt)
  Distinct-concat symmetric (x ∷ xs) n d h = (
    All-concat (λ y. clash x y ≡ false) xs n d.0 (ground (arith, symmetric x n)),
    Distinct-concat symmetric xs n d.1 (ground arith),
  )

  All-clash-map :
      (f : E → E) (keeps : (x y : E) → clash (f x) (f y) ≡ clash x y) (x : E) (xs : List E)
      → All (λ y. clash x y ≡ false) xs
      → All (λ y. clash (f x) y ≡ false) (map f xs)
  All-clash-map f keeps x [] h = tt
  All-clash-map f keeps x (y ∷ ys) h = (keeps x y ∙ h.0, All-clash-map f keeps x ys h.1)

  -- An update that leaves the unique columns alone does so too.
  pub Distinct-map :
      (f : E → E) (keeps : (x y : E) → clash (f x) (f y) ≡ clash x y) (xs : List E)
      → Distinct xs
      → Distinct (map f xs)
  Distinct-map f keeps [] d = tt
  Distinct-map f keeps (x ∷ xs) d = (All-clash-map f keeps x xs d.0, Distinct-map f keeps xs d.1)

  module _ (same : E → E → Bool) (same_clashes : (x y : E) → same x y ≡ true → clash x y ≡ true)
      (symmetric : (x y : E) → clash x y ≡ clash y x) where
    -- every row with the identity of `y` is `y`
    abbrev pub Identifies : List E → E → Type 0
    Identifies rows y = All (λ z. same z y ≡ true → z ≡ y) rows

    identified_by_head :
        (x : E) (xs : List E)
        → All (λ y. clash x y ≡ false) xs
        → All (λ z. same z x ≡ true → z ≡ x) xs
    identified_by_head x [] h = tt
    identified_by_head x (y ∷ ys) h =
        (λ e. cc (same_clashes y x e, symmetric x y, h.0), identified_by_head x ys h.1)

    add_head :
        (x : E) (rows ys : List E)
        → All (λ y. clash x y ≡ false) ys
        → All (Identifies rows) ys
        → All (Identifies (x ∷ rows)) ys
    add_head x rows [] h k = tt
    add_head x rows (y ∷ ys) h k =
        ((λ e. cc (same_clashes x y e, h.0), k.0), add_head x rows ys h.1 k.1)

    -- Where no rows clash, the identity of a row is the row's alone.
    pub Distinct-Identifies : (xs : List E) → Distinct xs → All (Identifies xs) xs
    Distinct-Identifies [] d = tt
    Distinct-Identifies (x ∷ xs) d = (
      (λ e. refl, identified_by_head x xs d.0),
      add_head x xs xs d.0 (Distinct-Identifies xs d.1),
    )
