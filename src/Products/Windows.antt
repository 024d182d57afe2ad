-- ===== src/Products/Windows.antt =====
-- The window that `getProducts` of src/products/products.service.ts asks for, beside the one of the
-- changelogs.
use multitenancy.Prelude.{
  ℕ, zero, suc, ◌-◌, ◌*◌, ◌≤◌, ◌<◌, ◌↔◌, String, Bool, true, false, Option, none, List, ◌≡◌, ◌≢◌,
  refl, arith, leb, Bool-cases, inl, inr,
}
use multitenancy.Prelude.Int.{ℤ, pos, negsuc, mul_ℤ, min_ℤ}
use multitenancy.World.{World, ok}
use multitenancy.World.Runs.{no_result, Runs, Runs-bind}
use multitenancy.Platform.{Platform, Migration, keep}
use multitenancy.Repository.{products_repository}
use multitenancy.Repository.Runs.{Runs-on_rows}
use multitenancy.Provisioning.{get_data_source}
use multitenancy.Provisioning.Reuse.{any_state}
use multitenancy.Pagination.{
  whole, ceil_ratio, product_window, meta_of, offset_of, clamp_page, clamp_limit,
}
use multitenancy.Pagination.Pages.{before_last, covers}
use multitenancy.Products.{Product, ProductPage, product_meta, passes, windowed, get_products}

-- one page more than `k` rows fill, where a limit of `k + 1` is in force
window_within :
    (page total k : ℕ)
    → suc k ≤ 200
    → let w = product_window (pos (suc page)) (pos (suc k)) in
      let p = product_meta total w in
      let m = meta_of total (suc page) (suc k) in
      (w.skip ≡ pos (offset_of (suc page) (suc k)))
      × (w.take ≡ pos (suc k))
      × (p.page ≡ m.page)
      × (p.limit ≡ pos m.limit)
      × (p.total_pages ≡ whole (pos m.total_pages))
      × (p.prev_page ≡ m.prev_page)
      × (p.next_page ≡ m.next_page)
unfolding product_window meta_of offset_of mul_ℤ ceil_ratio
window_within page total k h = ground arith

cut_limit : (limit : ℕ) → 200 ≤ limit → min_ℤ (pos limit) 200 ≡ pos 200
cut_limit limit h = elim (Bool-cases (leb limit 200)) [
  | inl small ↦ ground arith
  | inr large ↦ rw large refl
]

-- a limit above the greatest is as good as the greatest
cut_window :
    (page limit : ℕ)
    → 200 ≤ limit
    → product_window (pos page) (pos limit) ≡ product_window (pos page) (pos 200)
unfolding product_window
cut_window page limit h = rw (cut_limit limit h) refl

-- The window of the products is the one of the changelogs, and so is what is reported of it; and the
-- pages are as many as it takes to hold the rows.
abbrev pub SameWindow : ℤ → ℤ → ℕ → Type 0
SameWindow page limit total =
    let at = clamp_page page in
    let most = clamp_limit limit in
    let w = product_window page limit in
    let p = product_meta total w in
    let m = meta_of total at most in
    (w.skip ≡ pos (offset_of at most))
    × (w.take ≡ pos most)
    × (p.page ≡ m.page)
    × (p.limit ≡ pos m.limit)
    × (p.total_pages ≡ whole (pos m.total_pages))
    × (p.prev_page ≡ m.prev_page)
    × (p.next_page ≡ m.next_page)
    × (total ≤ m.total_pages * most)
    × ((n : ℕ) → (n < m.total_pages) ↔ (n * most < total))

small_limit : (k : ℕ) → suc k ≤ 200 → clamp_limit (pos (suc k)) ≡ suc k
unfolding clamp_limit
small_limit k h = ground arith

large_limit : (k : ℕ) → 200 ≤ suc k → clamp_limit (pos (suc k)) ≡ 200
unfolding clamp_limit
large_limit k h = ground arith

enough_pages : (total page k : ℕ) → total ≤ (meta_of total page (suc k)).total_pages * suc k
unfolding meta_of
enough_pages total page k = covers total (suc k) (omega arith)

no_page_more :
    (total page k n : ℕ) → (n < (meta_of total page (suc k)).total_pages) ↔ (n * suc k < total)
unfolding meta_of
no_page_more total page k n = before_last n total k

agrees_small : (page k total : ℕ) → suc k ≤ 200 → SameWindow (pos (suc page)) (pos (suc k)) total
unfolding clamp_page
agrees_small page k total h =
    let (a, b, c, d, e, f, g) = window_within page total k h in
    rw (small_limit k h)
      (a, b, c, d, e, f, g, enough_pages total (suc page) k, λ n. no_page_more total (suc page) k n)

agrees_large : (page k total : ℕ) → 200 ≤ suc k → SameWindow (pos (suc page)) (pos (suc k)) total
unfolding clamp_page
agrees_large page k total h =
    let (a, b, c, d, e, f, g) = window_within page total 199 (omega arith) in
    rw (large_limit k h, cut_window (suc page) (suc k) h)
      (
        a,
        b,
        c,
        d,
        e,
        f,
        g,
        enough_pages total (suc page) 199,
        λ n. no_page_more total (suc page) 199 n,
      )

-- For a page and a limit of at least 1, however large, `getProducts` asks for the rows that the
-- changelogs ask for with the same page and limit, which both cut at 200, and reports the same
-- numbers; the pages that it reports hold all rows, and a page leaves rows behind exactly when it is
-- before the last.
pub product_window_agrees :
    (page limit total : ℕ) → 1 ≤ page → 1 ≤ limit → SameWindow (pos page) (pos limit) total
product_window_agrees zero limit total h k = absurd (omega arith)
product_window_agrees (suc page) zero total h k = absurd (omega arith)
product_window_agrees (suc page) (suc limit) total h k = elim (Bool-cases (leb (suc limit) 200)) [
  | inl small ↦ agrees_small page limit total (ground arith)
  | inr large ↦ agrees_large page limit total (ground arith)
]

abbrev is_positive : ℤ → Bool
is_positive (pos zero) = false
is_positive (pos (suc n)) = true
is_positive (negsuc n) = false

min_positive : (limit : ℕ) → (m : ℕ) × (min_ℤ (pos (suc limit)) 200 ≡ pos (suc m))
min_positive limit = elim (Bool-cases (leb (suc limit) 200)) [
  | inl small ↦ (limit, ground arith)
  | inr large ↦ (199, ground arith)
]

skip_negative :
    (page : ℤ) (limit : ℕ)
    → is_positive page ≡ false
    → (k : ℕ) × ((product_window page (pos (suc limit))).skip ≡ negsuc k)
unfolding product_window mul_ℤ
skip_negative (pos zero) limit h =
    let (m, least) = min_positive limit in (suc zero * suc m - 1, rw least refl)
skip_negative (pos (suc n)) limit h = cc
skip_negative (negsuc n) limit h =
    let (m, least) = min_positive limit in (suc (suc n) * suc m - 1, rw least refl)

module _ (sys : Platform) (ups : List Migration) where
  window_refused :
      (page : ℤ) (limit : ℕ) (rows : List Product)
      → is_positive page ≡ false
      → let w = product_window page (pos (suc limit)) in
        sys.window Product w.skip w.take rows ≡ none
  window_refused page limit rows h =
      let (k, below_zero) = skip_negative page limit h in
      rw below_zero (sys.window_negative Product k _ rows)

  no_page :
      (schema : String) (page : ℤ) (limit : ℕ) (sought : Option String)
      → is_positive page ≡ false
      → Runs
          (λ _. Unit {0})
          (get_products sys ups schema page (pos (suc limit)) sought)
          (λ _ _. ⊥)
          (λ _ _. Unit {0})
  unfolding get_products
  no_page schema page limit sought h =
      Runs-bind _ _ (λ _ _. Unit {0}) (any_state sys ups (get_data_source sys ups schema))
        λ ds.
          Runs-bind _ _ (λ _ _. ⊥)
            (Runs-on_rows sys (products_repository ds) (λ x w p. tt) _
              λ w rows p e.
                rw (windowed, window_refused page limit (keep (passes sys ups sought) rows) h) tt)
            λ products. record { at = λ w p. absurd p }

  -- A page below 1 is not clamped before the offset is computed: with a positive limit, `getProducts`
  -- gives no page for it, whatever the tables hold.
  pub get_products_below_one :
      (schema : String) (page : ℤ) (limit : ℕ) (sought : Option String) (w : World)
      (out : ProductPage)
      → is_positive page ≡ false
      → (get_products sys ups schema page (pos (suc limit)) sought w).0 ≢ ok out
  get_products_below_one schema page limit sought w out h =
      no_result (get_products sys ups schema page (pos (suc limit)) sought w) out
        ((no_page schema page limit sought h).at w tt)
