-- ===== src/Products.antt =====
-- `ProductsService` of src/products/products.service.ts.
pub mod Windows
pub mod Once
use Prim.Native.String.{◌++◌}
use multitenancy.Prelude.{
  ℕ, ◌+◌, ◌-◌, String, Bool, true, false, Option, none, some, List, length, ltb, ◌==◌,
  if◌then◌else◌,
}
use multitenancy.Prelude.Int.{ℤ, pos, negsuc}
use multitenancy.Exceptions.{database}
use multitenancy.Entities.{BaseEntity, Product}
use multitenancy.World.{World, Result, ok, err, Action, pure, ◌>>=◌}
use multitenancy.Platform.{Platform, Migration, keep}
use multitenancy.Repository.{products_repository, on_rows, save}
use multitenancy.Provisioning.{get_data_source}
use multitenancy.Pagination.{Window, product_window, Number, whole, infinity, nan, ceil_ratio}

-- src/products/dto/create-product.dto.ts
pub record CreateProductDto : Type 0 where
  pub title : String
  pub description : Option String

abbrev pub product_of : CreateProductDto → String → BaseEntity → Product
product_of dto tenant_schema base = record {
  base = base;
  title = dto.title;
  description = dto.description;
  tenant_schema = tenant_schema;
}

-- The `meta` of a product list: its limit and its number of pages may be no positive numbers.
pub record ProductMeta : Type 0 where
  pub total : ℕ
  pub page : ℕ
  pub limit : ℤ
  pub total_pages : Number
  pub prev_page : Option ℕ
  pub next_page : Option ℕ

pub record ProductPage : Type 0 where
  pub content : List Product
  pub meta : ProductMeta

-- `page < totalPages`
abbrev pub below : ℕ → Number → Bool
below page (whole (pos n)) = ltb page n
below page (whole (negsuc n)) = false
below page infinity = true
below page nan = false

abbrev pub product_meta : ℕ → Window → ProductMeta
product_meta total window =
    let total_pages = ceil_ratio total window.take in
    record {
      total = total;
      page = window.page;
      limit = window.take;
      total_pages = total_pages;
      prev_page = if ltb 1 window.page then some (window.page - 1) else none;
      next_page = if below window.page total_pages then some (window.page + 1) else none;
    }

module _ (sys : Platform) (ups : List Migration) where
  -- `if (search) query.where('product.title ILIKE :search', { search: `%${search}%` })`
  abbrev pub passes : Option String → Product → Bool
  passes none product = true
  passes (some sought) product =
      if sought == "" then true else sys.ilike product.title ("%" ++ sought ++ "%")

  abbrev pub windowed :
      Option String → Window → List Product → World → Result (List Product) × World
  windowed sought window rows w =
      elim (sys.window Product window.skip window.take (keep (passes sought) rows)) [
        | none ↦ (err (database "OFFSET must not be negative"), w)
        | some found ↦ (ok found, w)
      ]

  abbrev counted : Option String → List Product → World → Result ℕ × World
  counted sought rows w = (ok (length (keep (passes sought) rows)), w)

  unfoldable pub create_product : CreateProductDto → String → Action Product
  create_product dto tenant_schema = do
    ds ← get_data_source sys ups tenant_schema
    save sys (products_repository ds) (product_of dto tenant_schema)

  unfoldable pub get_products : String → ℤ → ℤ → Option String → Action ProductPage
  get_products tenant_schema page limit sought = do
    let window = product_window page limit
    ds ← get_data_source sys ups tenant_schema
    products ← on_rows sys (products_repository ds) (windowed sought window)
    total ← on_rows sys (products_repository ds) (counted sought)
    pure (record { content = products; meta = product_meta total window })
