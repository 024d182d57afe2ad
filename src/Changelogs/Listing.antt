-- ===== src/Changelogs/Listing.antt =====
-- What a page of changelogs holds (`getChangeLogByProductId` of src/changelogs/changelogs.service.ts).
use multitenancy.Prelude.{
  ℕ, suc, ◌-◌, ◌*◌, ◌≤◌, String, Bool, some, List, ◌≡◌, refl, arith, ◌==◌, take, drop, length,
}
use multitenancy.Prelude.Int.{ℤ, pos}
use multitenancy.Entities.{Changelog}
use multitenancy.World.{World, ok}
use multitenancy.World.Runs.{Runs, Post, Runs-bind, Runs-pure, Runs-or_raise, Runs-to}
use multitenancy.Platform.{Platform, Migration, keep, IsDescending}
use multitenancy.Repository.{products_repository, changelogs_repository, sent}
use multitenancy.Repository.Runs.{Runs-find_one, Runs-on_rows}
use multitenancy.Provisioning.{data_source}
use multitenancy.Provisioning.Isolation.{IsKeyed}
use multitenancy.Provisioning.Reuse.{Ready, get_data_source-Ready}
use multitenancy.Pagination.{Paginated, clamp_page, clamp_limit, offset_of, meta_of}
use multitenancy.Pagination.Pages.{clamp_lem}
use multitenancy.Changelogs.{newest_first, find_and_count, get_changelog_by_product_id}

positive : (n : ℕ) → 1 ≤ n → (k : ℕ) × (n ≡ suc k)
positive n h = (n - 1, omega arith)

module _ (sys : Platform) (ups : List Migration) where
  -- `out` is the page of the changelogs of the product, newest first, with its numbers.
  abbrev pub Listed : String → String → ℤ → ℤ → Paginated Changelog → World → Type 0
  Listed schema product_id page_given limit_given out w =
      let page = clamp_page page_given in
      let limit = clamp_limit limit_given in
      (rows : List Changelog) × (ordered : List Changelog) × ((changelogs_repository
            (data_source schema)).rows
          w
        ≡ some rows)
      × IsDescending (λ c. c.base.created_at) ordered
      × ((p : Changelog → Bool)
          → length (keep p ordered) ≡ length (keep p (keep (λ c. c.product_id == product_id) rows)))
      × (out.content ≡ take limit (drop ((page - 1) * limit) ordered))
      × (out.meta ≡ meta_of (length (keep (λ c. c.product_id == product_id) rows)) page limit)

  module _ (schema : String) (product_id : String) (page_given limit_given : ℤ) where
    abbrev Counted : List Changelog × ℕ → World → Type 0
    Counted result w =
        Listed schema product_id page_given limit_given
          (record {
            content = result.0;
            meta = meta_of result.1 (clamp_page page_given) (clamp_limit limit_given);
          })
          w

    count-Counted :
        (rows : List Changelog) (w : World)
        → (changelogs_repository (data_source schema)).rows w ≡ some rows
        → Post Counted
            (λ _ _. Unit {0})
            (find_and_count sys ups product_id
              (clamp_limit limit_given)
              (offset_of (clamp_page page_given) (clamp_limit limit_given))
              rows
              w)
    unfolding offset_of
    count-Counted rows w there =
        let (k, size) = positive (clamp_limit limit_given) (clamp_lem (pos 1) limit_given).1 in
        let ordered : List Changelog = newest_first sys ups product_id rows in
        let page : List Changelog =
          take (clamp_limit limit_given)
            (drop ((clamp_page page_given - 1) * clamp_limit limit_given) ordered) in
        let windowed : sys.window Changelog
              (pos ((clamp_page page_given - 1) * clamp_limit limit_given))
              (pos (clamp_limit limit_given)) ordered
            ≡ some page =
          rw size (sys.window_lem Changelog ((clamp_page page_given - 1) * suc k) k ordered) in
        rw (find_and_count, windowed)
          (
            rows,
            ordered,
            there,
            sys.order_desc_sorted Changelog (λ c. c.base.created_at) _,
            λ p. sys.order_desc_same Changelog (λ c. c.base.created_at) p _,
            refl,
            refl,
          )

    list-Listed :
        Runs IsKeyed
          (get_changelog_by_product_id sys ups schema product_id page_given limit_given)
          (Listed schema product_id page_given limit_given)
          (λ _ _. Unit {0})
    unfolding get_changelog_by_product_id
    list-Listed =
        Runs-bind _ _ (λ ds w. ds ≡ data_source schema)
          (Runs-to _ (Ready schema) (λ _ _. Unit {0}) (λ ds w r. r.0) (λ x w r. r)
            (get_data_source-Ready sys ups schema))
          λ ds.
            Runs-bind _ _ (λ found w. ds ≡ data_source schema)
              (Runs-find_one sys (products_repository ds) (λ x w h. tt) _
                (λ w rows same there. same))
              λ found.
                Runs-bind _ _ (λ p w. ds ≡ data_source schema)
                  (Runs-or_raise found _ (λ e w h. tt) (λ p e w h. h))
                  λ p.
                    Runs-bind _ _ Counted
                      (Runs-on_rows sys (changelogs_repository ds) (λ x w h. tt) _
                        λ w rows same there. count-Counted rows (sent sys w) (rw same at there))
                      λ result. Runs-pure _ (λ w h. h)

  -- A page of changelogs, from connections keyed by their schemas, is a slice of the schema's
  -- changelogs of that product, newest first: `limit` of them from row `(page - 1) * limit` on, for the
  -- clamped page and limit; and its numbers are computed from how many there are in all.
  pub get_changelog_lists :
      (schema product_id : String) (page limit : ℤ) (w v : World) (out : Paginated Changelog)
      → IsKeyed w
      → get_changelog_by_product_id sys ups schema product_id page limit w ≡ (ok out, v)
      → Listed schema product_id page limit out v
  get_changelog_lists schema product_id page limit w v out keyed done =
      let posted : Post {A = Paginated Changelog} (Listed schema product_id page limit)
          (λ _ _. Unit {0}) (get_changelog_by_product_id sys ups schema product_id page limit w) =
        (list-Listed schema product_id page limit).at w keyed in
      rw done at posted
