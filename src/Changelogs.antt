-- ===== src/Changelogs.antt =====
-- `ChangelogsService` of src/changelogs/changelogs.service.ts.
pub mod Listing
use multitenancy.Prelude.{ℕ, String, Bool, Option, none, some, List, length, ◌==◌}
use multitenancy.Prelude.Int.{ℤ, pos}
use multitenancy.Enums.{ChangelogType, ChangelogStatus}
use multitenancy.Exceptions.{database, resource_not_found}
use multitenancy.Entities.{BaseEntity, Changelog}
use multitenancy.World.{World, Result, ok, err, Action, pure, or_raise, ◌>>=◌}
use multitenancy.Platform.{Platform, Migration, keep}
use multitenancy.Repository.{changelogs_repository, products_repository, on_rows, find_one, save}
use multitenancy.Provisioning.{get_data_source}
use multitenancy.Pagination.{Paginated, clamp_page, clamp_limit, offset_of, meta_of}

-- src/changelogs/dto/create-changelog.dto.ts
pub record CreateChangelogDto : Type 0 where
  pub product_id : String
  pub title : String
  pub content : String
  pub type : ChangelogType
  pub status : ChangelogStatus
  pub version : Option String
  pub published_at : Option ℕ

abbrev changelog_of : CreateChangelogDto → BaseEntity → Changelog
changelog_of dto base = record {
  base = base;
  product_id = dto.product_id;
  title = dto.title;
  content = dto.content;
  type = dto.type;
  status = dto.status;
  version = dto.version;
  published_at = dto.published_at;
}

module _ (sys : Platform) (ups : List Migration) where
  unfoldable pub create_changelog : String → CreateChangelogDto → Action Changelog
  create_changelog schema dto = do
    ds ← get_data_source sys ups schema
    save sys (changelogs_repository ds) (changelog_of dto)

  abbrev of_product : String → Changelog → Bool
  of_product product_id c = c.product_id == product_id

  -- the rows in the order of the query
  abbrev pub newest_first : String → List Changelog → List Changelog
  newest_first product_id rows =
      sys.order_desc Changelog (λ c. c.base.created_at) (keep (of_product product_id) rows)

  -- `findAndCount({ order, where, take, skip })`
  abbrev pub find_and_count :
      String → ℕ → ℕ → List Changelog → World → Result (List Changelog × ℕ) × World
  find_and_count product_id limit offset rows w =
      elim (sys.window Changelog (pos offset) (pos limit) (newest_first product_id rows)) [
        | none ↦ (err (database "invalid window"), w)
        | some found ↦ (ok (found, length (keep (of_product product_id) rows)), w)
      ]

  unfoldable pub get_changelog_by_product_id :
      String → String → ℤ → ℤ → Action (Paginated Changelog)
  get_changelog_by_product_id schema product_id page_given limit_given = do
    let page = clamp_page page_given
    let limit = clamp_limit limit_given
    let offset = offset_of page limit
    ds ← get_data_source sys ups schema
    found ← find_one sys (products_repository ds) (λ p. p.base.id == product_id)
    product ← or_raise found (resource_not_found "PRODUCT" product_id)
    result ← on_rows sys (changelogs_repository ds) (find_and_count product_id limit offset)
    pure (record { content = result.0; meta = meta_of result.1 page limit })
