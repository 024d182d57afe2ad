-- ===== src/Products/Once.antt =====
-- The unique column `tenant_schema` of a product (src/products/entities/product.entity.ts) beside
-- `createProduct` of src/products/products.service.ts.
use multitenancy.Prelude.{
  String, true, some, List, [], ◌∷◌, ◌++◌, any, ◌≡◌, ◌≢◌, refl, ◌==◌, arith, sym, ◌∙◌,
  eq_of_some_eq, ==_refl, eq_iff, Option-cases, inl, inr,
}
use multitenancy.Entities.{Product}
use multitenancy.Entities.Clash
use multitenancy.Cache
use multitenancy.World.{World, DataSource, ok, tables_of}
use multitenancy.World.Tables.{tables_of-set_tables}
use multitenancy.World.Runs.{no_result, Runs, Post, Runs-bind, Runs-state}
use multitenancy.Platform.{Platform, Migration}
use multitenancy.Repository.{products_repository, sent, generated}
use multitenancy.Repository.Runs.{Runs-save}
use multitenancy.Provisioning.{data_source, get_data_source}
use multitenancy.Provisioning.Isolation.{IsKeyed}
use multitenancy.Provisioning.Reuse.{Ready, get_data_source-Ready, get_data_source-cached}
use multitenancy.Products.{CreateProductDto, product_of, create_product}

-- the schema's connection is cached, and its table has a product of the schema
abbrev Stocked : String → World → Type 0
Stocked schema w =
    (Cache.get schema w.connections ≡ some (data_source schema))
    × (rows : List Product) × ((products_repository (data_source schema)).rows w ≡ some rows)
    × (any (λ p. p.tenant_schema == schema) rows ≡ true)

any-concat :
    (schema : String) (rows : List Product) (n : Product)
    → n.tenant_schema ≡ schema
    → any (λ p. p.tenant_schema == schema) (rows ++ n ∷ []) ≡ true
any-concat schema [] n e = ground (arith, eq_iff n.tenant_schema schema)
any-concat schema (x ∷ xs) n e = ground (arith, any-concat schema xs n)

clashes :
    (schema : String) (rows : List Product) (n : Product)
    → n.tenant_schema ≡ schema
    → any (λ p. p.tenant_schema == schema) rows ≡ true
    → any (Clash.product n) rows ≡ true
clashes schema [] n e h = cc
clashes schema (x ∷ xs) n e h = ground (
  arith,
  clashes schema xs n,
  eq_iff n.tenant_schema x.tenant_schema,
  eq_iff x.tenant_schema schema,
)

products-write :
    (schema : String) (new rows : List Product) (w : World)
    → (products_repository (data_source schema)).rows w ≡ some rows
    → (products_repository (data_source schema)).rows
        ((products_repository (data_source schema)).write new w)
      ≡ some new
products-write schema new rows w e = elim (Option-cases (tables_of schema w.schemas)) [
  | inl absent ↦ ground arith
  | inr (t, there) ↦ ground (
    arith,
    tables_of-set_tables schema schema (record t { products = new }) t w.schemas,
    ==_refl schema,
  )
]

finish :
    (schema : String) (ds : DataSource) (n : Product) (rows : List Product) (w : World)
    → Ready schema ds w
    → (products_repository ds).rows w ≡ some rows
    → n.tenant_schema ≡ schema
    → Stocked schema ((products_repository ds).write (rows ++ n ∷ []) w)
finish schema ds n rows w (same, known) e own = rw same (
    (
      ground (arith, known),
      rows ++ n ∷ [],
      products-write schema (rows ++ n ∷ []) rows w (rw same at e),
      any-concat schema rows n own,
    ))

module _ (sys : Platform) (ups : List Migration) where
  create-Stocked :
      (schema : String) (dto : CreateProductDto)
      → Runs IsKeyed (create_product sys ups dto schema) (λ _. Stocked schema) (λ _ _. Unit {0})
  unfolding create_product
  create-Stocked schema dto =
      Runs-bind _ _ (Ready schema) (get_data_source-Ready sys ups schema) λ ds.
        Runs-save sys (products_repository ds) (λ x w h. tt) (product_of dto schema)
          λ w rows ready e new.
            finish schema ds (product_of dto schema (generated sys (sent sys w))) rows (sent sys w)
              ready e refl

  get-Stocked :
      (schema : String)
      → Runs
          (Stocked schema)
          (get_data_source sys ups schema)
          (λ ds w. (ds ≡ data_source schema) × Stocked schema w)
          (λ _ _. Unit {0})
  get-Stocked schema = record {
    at = λ w stocked.
        rw (get_data_source-cached sys ups schema w (data_source schema) stocked.0) (refl, stocked);
  }

  refuse-Stocked :
      (schema : String) (dto : CreateProductDto)
      → Runs (Stocked schema) (create_product sys ups dto schema) (λ _ _. ⊥) (λ _ _. Unit {0})
  unfolding create_product
  refuse-Stocked schema dto =
      Runs-bind _ _ (λ ds w. (ds ≡ data_source schema) × Stocked schema w) (get-Stocked schema)
        λ ds.
          Runs-save sys (products_repository ds) (λ x w h. tt) (product_of dto schema)
            λ w rows (same, (known, rs, there, has)) e new.
              let again : rs ≡ rows = eq_of_some_eq rs rows (sym there ∙ rw same at e) in
              let clash =
                clashes schema rows (product_of dto schema (generated sys (sent sys w))) refl
                  (rw again at has) in
              cc (clash, new)

  -- An attempt that fails leaves the product where it is.
  refuse-keeps :
      (schema : String) (dto : CreateProductDto)
      → Runs
          (Stocked schema)
          (create_product sys ups dto schema)
          (λ _. Stocked schema)
          (λ _. Stocked schema)
  unfolding create_product
  refuse-keeps schema dto =
      Runs-bind _ _ (λ ds w. (ds ≡ data_source schema) × Stocked schema w)
        (record {
          at = λ w stocked.
              rw (get_data_source-cached sys ups schema w (data_source schema) stocked.0)
                (refl, stocked);
        })
        λ ds.
          Runs-save sys (products_repository ds) (λ x w h. h.1) (product_of dto schema)
            λ w rows (same, (known, rs, there, has)) e new.
              let again : rs ≡ rows = eq_of_some_eq rs rows (sym there ∙ rw same at e) in
              let clash =
                clashes schema rows (product_of dto schema (generated sys (sent sys w))) refl
                  (rw again at has) in
              cc (clash, new)

  -- what further requests for products of one schema leave
  abbrev pub after_attempts : String → List CreateProductDto → World → World
  after_attempts schema [] w = w
  after_attempts schema (dto ∷ dtos) w =
      after_attempts schema dtos (create_product sys ups dto schema w).1

  attempts-Stocked :
      (schema : String) (dtos : List CreateProductDto) (w : World)
      → Stocked schema w
      → Stocked schema (after_attempts schema dtos w)
  attempts-Stocked schema [] w h = h
  attempts-Stocked schema (dto ∷ dtos) w h =
      attempts-Stocked schema dtos (create_product sys ups dto schema w).1 (
        Runs-state (Stocked schema) (Stocked schema) (create_product sys ups dto schema) w
          (refuse-keeps schema dto) h)

  -- Once a product has been created in a tenant's schema, from connections keyed by their schemas, and
  -- however many further attempts to create one there follow, each of them and the next one throw.
  pub create_product_once :
      (schema : String) (first later : CreateProductDto) (between : List CreateProductDto)
      (w v : World) (made out : Product)
      → IsKeyed w
      → create_product sys ups first schema w ≡ (ok made, v)
      → (create_product sys ups later schema (after_attempts schema between v)).0 ≢ ok out
  create_product_once schema first later between w v made out keyed e second =
      let stocked : Stocked schema v = rw e at ((create-Stocked schema first).at w keyed) in
      let u = after_attempts schema between v in
      let refused : Post {A = Product} (λ _ _. ⊥) (λ _ _. Unit {0})
          (create_product sys ups later schema u) =
        (refuse-Stocked schema later).at u (attempts-Stocked schema between v stocked) in
      no_result (create_product sys ups later schema u) out refused second
