-- ===== src/Pagination/Pages.antt =====
-- The pages of a list of changelogs, in the numbers of `getChangeLogByProductId`
-- (src/changelogs/changelogs.service.ts).
use multitenancy.Prelude.{
  ℕ, zero, suc, ◌+◌, ◌-◌, ◌*◌, ◌≤◌, ◌<◌, some, List, [], ◌∷◌, ◌++◌, ◌≡◌, refl, ◌↔◌, sym, ◌∙◌, ap,
  arith, length, take, drop,
}
use native.Mathlib.Nat.{zero-add, suc-mul, le-div_iff_mul-le}
use multitenancy.Prelude.Int.{ℤ, pos, negsuc, min_ℤ}
use multitenancy.Pagination.{ceil_div, clamp_page, clamp_limit, offset_of, meta_of}

abbrev pub or_one : ℤ → ℤ
or_one (pos zero) = pos 1
or_one (pos (suc n)) = pos (suc n)
or_one (negsuc n) = pos 1

-- The page is the one asked for, or 1 for one below that; the limit is the one asked for, raised to 1
-- or cut to 200; so the page is at least 1, and the limit between 1 and 200.
pub clamp_lem :
    (page limit : ℤ)
    → (1 ≤ clamp_page page)
      × (1 ≤ clamp_limit limit)
      × (clamp_limit limit ≤ 200)
      × (pos (clamp_page page) ≡ or_one page)
      × (pos (clamp_limit limit) ≡ min_ℤ (or_one limit) 200)
unfolding clamp_page clamp_limit
clamp_lem page limit = ground arith

rows_behind : (page total k : ℕ) → (suc page * suc k ≤ total + suc k - 1) ↔ (page * suc k < total)
rows_behind page total k = rw (suc-mul page (suc k)) (ground arith)

-- a page is before the last one exactly when it leaves rows behind
pub before_last : (page total k : ℕ) → (page < ceil_div total (suc k)) ↔ (page * suc k < total)
before_last page total k =
    let (there, back) =
      le-div_iff_mul-le {k = suc k} {x = suc page} {y = total + suc k - 1} (omega arith) in
    let (down, up) = rows_behind page total k in
    (
      λ h. down (there (omega arith)),
      λ h. let q : suc page ≤ ceil_div total (suc k) = back (up h) in omega arith,
    )

pub covers : (total limit : ℕ) → 1 ≤ limit → total ≤ ceil_div total limit * limit
covers total zero h = omega arith
covers total (suc k) h =
    let last = before_last (ceil_div total (suc k)) total k in ground (arith, last)

-- There is a next page exactly when rows are left behind this one, and a previous one exactly when
-- this is not the first; each is the neighbour of this page.
pub meta_of_lem :
    (total page k : ℕ)
    → 1 ≤ page
    → let m = meta_of total page (suc k) in
      ((n : ℕ) → (m.next_page ≡ some n) ↔ ((n ≡ page + 1) × (page * suc k < total)))
      × ((n : ℕ) → (m.prev_page ≡ some n) ↔ ((n + 1 ≡ page) × (1 ≤ n)))
unfolding meta_of
meta_of_lem total page k h = (λ n. ground (arith, before_last page total k), λ n. ground arith)

module _ {A : Type 0} where
  -- what a query with `skip` and `take` answers
  abbrev page_of : ℕ → List A → ℕ → List A
  page_of limit rows page = take limit (drop (offset_of page limit) rows)

  -- the pages 1 to n, one behind the other
  abbrev pub pages : ℕ → List A → ℕ → List A
  pages limit rows zero = []
  pages limit rows (suc n) = pages limit rows n ++ page_of limit rows (suc n)

  take-nil : (n : ℕ) → take {A = A} n [] ≡ []
  take-nil zero = refl
  take-nil (suc n) = refl

  take-take : (a b : ℕ) (rows : List A) → take a rows ++ take b (drop a rows) ≡ take (a + b) rows
  take-take zero b rows = rw (zero-add b) refl
  take-take (suc a) b [] = take-nil b ∙ sym (take-nil (suc a + b))
  take-take (suc a) b (x ∷ xs) =
      let same : suc (a + b) ≡ suc a + b = omega arith in
      ap (λ (ys : List A). x ∷ ys) (take-take a b xs) ∙ ap (λ (n : ℕ). take n (x ∷ xs)) same

  take-all : (n : ℕ) (rows : List A) → length rows ≤ n → take n rows ≡ rows
  take-all zero [] h = refl
  take-all (suc n) [] h = refl
  take-all zero (x ∷ xs) h = absurd (omega arith)
  take-all (suc n) (x ∷ xs) h = ap (λ (ys : List A). x ∷ ys) (take-all n xs (omega arith))

  pages-eq-take : (limit : ℕ) (rows : List A) (n : ℕ) → pages limit rows n ≡ take (n * limit) rows
  unfolding offset_of
  pages-eq-take limit rows zero = ground arith
  pages-eq-take limit rows (suc n) =
      grind (arith, pages-eq-take limit rows n, take-take (n * limit) limit rows)

  -- The pages from the first to the number of pages that `meta` reports, put behind one another, are
  -- all the rows, each once and in order.
  pub pages_cover :
      (limit : ℤ) (rows : List A)
      → let l = clamp_limit limit in pages l rows (meta_of (length rows) 1 l).total_pages ≡ rows
  unfolding meta_of clamp_limit
  pages_cover limit rows =
      let l : ℕ = clamp_limit limit in
      pages-eq-take l rows (ceil_div (length rows) l)
      ∙ take-all (ceil_div (length rows) l * l) rows
          (covers (length rows) l (clamp_lem (pos 1) limit).1)
