-- ===== src/Tests/ProductWitnesses.antt =====
-- The theorems on products, changelogs and feedback at concrete inputs.
use multitenancy.Feedback.Unchanged.{Kept, After, update_feedback_changes_nothing}
use multitenancy.World.Runs.{Post}
use multitenancy.Prelude.{true, none, some, [], ◌∷◌, ◌≢◌, refl, arith}
use multitenancy.Prelude.Int.{pos}
use multitenancy.Prelude.Assoc.{find}
use multitenancy.Entities.{Product, Changelog, Feedback}
use multitenancy.Cache
use multitenancy.World.{World, Schema, DataSource, PublicTables, TenantTables, Result, ok, err}
use multitenancy.Provisioning.{data_source, no_rows, create_tables}
use multitenancy.Repository.{invitations_repository}
use multitenancy.Products.{CreateProductDto, ProductPage, create_product, get_products}
use multitenancy.Products.Once.{after_attempts, create_product_once}
use multitenancy.Products.Windows.{SameWindow, product_window_agrees, get_products_below_one}
use multitenancy.Pagination
use multitenancy.Pagination.{whole, nan, product_window, offset_of, Paginated}
use multitenancy.Changelogs.{get_changelog_by_product_id}
use multitenancy.Changelogs.Listing.{Listed, get_changelog_lists}
use multitenancy.Feedback.{
  CreateFeedbackDto, create_feedback, PartialFeedbackDto, lands_first, update_feedback,
}
use multitenancy.Feedback.References.{Referenced, create_feedback_references}
use multitenancy.Tests.Memory.{memory, value_or}
use multitenancy.Tests.Acme.{row_base, widget, acme_world, acme-IsKeyed, ups, stocked_world}

abbrev a_product : CreateProductDto
a_product = record { title = "Widget"; description = none }

abbrev after_product : Result Product × World
after_product = create_product memory ups a_product "acme" acme_world

create_product_once_example :
    (create_product memory ups a_product "acme"
      (after_attempts memory ups "acme" (a_product ∷ []) after_product.1)).0
    ≢ ok widget
unfolding create_product multitenancy.World.◌>>=◌ multitenancy.Provisioning.get_data_source
    Cache.has find Cache.get multitenancy.Repository.save multitenancy.World.tables_of
create_product_once_example =
    create_product_once memory ups "acme" a_product a_product (a_product ∷ []) acme_world
      after_product.1 (value_or widget after_product.0) widget acme-IsKeyed refl

product_window_agrees_example : SameWindow (pos 2) (pos 250) 1000
product_window_agrees_example = product_window_agrees 2 250 1000 (omega arith) (omega arith)

abbrev no_page : ProductPage
no_page = record {
  content = [];
  meta = record {
    total = 0;
    page = 1;
    limit = pos 10;
    total_pages = nan;
    prev_page = none;
    next_page = none;
  };
}

get_products_below_one_example :
    (get_products memory ups "acme" (pos 0) (pos 10) none acme_world).0 ≢ ok no_page
get_products_below_one_example =
    get_products_below_one memory ups "acme" (pos 0) 9 none acme_world no_page refl

abbrev after_listing : Result (Paginated Changelog) × World
after_listing = get_changelog_by_product_id memory ups "acme" "x1" (pos 1) (pos 10) stocked_world

abbrev empty_page : Paginated Changelog
empty_page = record { content = []; meta = Pagination.meta_of 0 1 10 }

get_changelog_lists_example :
    Listed memory ups "acme" "x1"
      (pos 1)
      (pos 10)
      (value_or empty_page after_listing.0)
      after_listing.1
unfolding get_changelog_by_product_id multitenancy.World.◌>>=◌
    multitenancy.Provisioning.get_data_source Cache.has find Cache.get
    multitenancy.Repository.find_one multitenancy.World.tables_of
get_changelog_lists_example =
    get_changelog_lists memory ups "acme" "x1" (pos 1) (pos 10) stocked_world after_listing.1
      (value_or empty_page after_listing.0) acme-IsKeyed refl

abbrev a_feedback : CreateFeedbackDto
a_feedback = record {
  content = some "good";
  priority = none;
  type = none;
  status = none;
  product_id = "x1";
  changelog_id = none;
  vote_count = none;
}

abbrev no_feedback : Feedback
no_feedback = record {
  base = row_base;
  content = none;
  status = none;
  priority = none;
  type = none;
  vote_count = none;
  product_id = none;
  change_log_id = none;
  user_id = "";
}

abbrev after_feedback : Result Feedback × World
after_feedback = create_feedback memory ups "acme" "u1" a_feedback stocked_world

create_feedback_references_example :
    Referenced "acme" "u1" a_feedback (value_or no_feedback after_feedback.0) after_feedback.1
unfolding create_feedback multitenancy.World.◌>>=◌ multitenancy.Provisioning.get_data_source
    Cache.has find Cache.get multitenancy.Repository.find_one multitenancy.World.tables_of
    multitenancy.Repository.save
create_feedback_references_example =
    create_feedback_references memory ups "acme" "u1" a_feedback stocked_world after_feedback.1
      (value_or no_feedback after_feedback.0) acme-IsKeyed refl

abbrev old_feedback : Feedback
old_feedback = record no_feedback { product_id = some "x1"; user_id = "u1" }

abbrev remarked_world : World
remarked_world = record acme_world {
  schemas =
      (
        "acme",
        record {
          migrated = true;
          tables = some (record no_rows { products = widget ∷ []; feedback = old_feedback ∷ [] });
        },
      )
      ∷ [];
}

-- a request to change the text of that feedback
abbrev an_update : PartialFeedbackDto
an_update = record {
  content = some "Better";
  priority = none;
  type = none;
  status = none;
  product_id = some "x1";
  feedback_id = some "x1";
  changelog_id = none;
  vote_count = none;
}

update_feedback_changes_nothing_example :
    Post
      (After remarked_world (old_feedback ∷ []) (some "x1"))
      (λ _. Kept remarked_world)
      (update_feedback memory ups true lands_first "acme" an_update remarked_world)
unfolding Cache.get find multitenancy.World.tables_of
update_feedback_changes_nothing_example =
    update_feedback_changes_nothing memory ups "acme" remarked_world refl (old_feedback ∷ []) refl
      true lands_first an_update
