-- ===== src/Pagination.antt =====
-- The arithmetic of pages: `getChangeLogByProductId` of src/changelogs/changelogs.service.ts (lines 28 to
-- 30 and 51 to 65) and `getProducts` of src/products/products.service.ts (lines 33 to 36 and 50 to 64). Numbers stay far below
-- 2 ^ 53, where those of JavaScript are exact; a quotient by 0 is what JavaScript gives.
pub mod Pages
use multitenancy.Prelude.{
  ℕ, zero, suc, ◌+◌, ◌-◌, ◌*◌, ◌/◌, Option, none, some, List, ltb, min, if◌then◌else◌,
}
use multitenancy.Prelude.Int.{ℤ, pos, negsuc, at_least_one, pred_ℤ, mul_ℤ, min_ℤ, neg_ℕ}

-- `IMeta` and `IPaginate` of src/common/dto/success.response.dto.ts
pub record Meta : Type 0 where
  pub total : ℕ
  pub limit : ℕ
  pub page : ℕ
  pub total_pages : ℕ
  pub prev_page : Option ℕ
  pub next_page : Option ℕ

pub record Paginated (A : Type 0) : Type 0 where
  pub content : List A
  pub meta : Meta

-- `Math.ceil(total / limit)` for a positive limit
abbrev pub ceil_div : ℕ → ℕ → ℕ
ceil_div total limit = (total + limit - 1) / limit

-- changelogs: `Math.max(1, page)`, `Math.min(200, Math.max(1, limit))` and `(page - 1) * limit`
unfoldable pub clamp_page : ℤ → ℕ
clamp_page page = at_least_one page

unfoldable pub clamp_limit : ℤ → ℕ
clamp_limit limit = min 200 (at_least_one limit)

unfoldable pub offset_of : ℕ → ℕ → ℕ
offset_of page limit = (page - 1) * limit

unfoldable pub meta_of : ℕ → ℕ → ℕ → Meta
meta_of total page limit =
    let total_pages = ceil_div total limit in
    record {
      total = total;
      limit = limit;
      page = page;
      total_pages = total_pages;
      prev_page = if ltb 1 page then some (page - 1) else none;
      next_page = if ltb page total_pages then some (page + 1) else none;
    }

-- products: what `skip` and `take` are given, the page that is reported, and `Math.ceil(total / limit)`
pub record Window : Type 0 where
  pub skip : ℤ
  pub take : ℤ
  pub page : ℕ

unfoldable pub product_window : ℤ → ℤ → Window
product_window page limit =
    let limit' = min_ℤ limit 200 in
    record { skip = mul_ℤ (pred_ℤ page) limit'; take = limit'; page = at_least_one page }

-- a JavaScript number, as a quotient may be one
pub data Number : Type 0 where
  whole : ℤ → Number
  infinity : Number
  nan : Number

-- `Math.ceil(total / limit)`: a negative limit rounds towards 0, and -0 is 0
unfoldable pub ceil_ratio : ℕ → ℤ → Number
ceil_ratio zero (pos zero) = nan
ceil_ratio (suc n) (pos zero) = infinity
ceil_ratio total (pos (suc l)) = whole (pos (ceil_div total (suc l)))
ceil_ratio total (negsuc l) = whole (neg_ℕ (total / suc l))
