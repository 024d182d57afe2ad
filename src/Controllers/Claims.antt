-- ===== src/Controllers/Claims.antt =====
-- What the controllers read of the token behind a request: its subject and nothing else
-- (src/tenant/tenant.controller.ts, src/products/products.controller.ts,
-- src/changelogs/changelogs.controller.ts, src/feedback/feedback.controller.ts).
use multitenancy.Prelude.{String, Bool, Option, some, ◌≡◌, refl}
use multitenancy.Prelude.Int.{ℤ}
use multitenancy.World.{World, ◌>>=◌}
use multitenancy.Platform.{Platform, Migration, TokenPayload}
use multitenancy.Prelude.{List}
use multitenancy.Requests.{Request, sub_of, schema_name_of}
use multitenancy.Invitations.{CreateInvitationDto}
use multitenancy.Products.{CreateProductDto}
use multitenancy.Changelogs.{CreateChangelogDto}
use multitenancy.Feedback.{CreateFeedbackDto, PartialFeedbackDto, Unawaited}
use multitenancy.Controllers.{
  post_invite, post_product, list_products, post_changelog, list_changelogs, post_feedback,
  put_feedback,
}

-- the request with a token of the same subject, but of another role and another tenant's schema
abbrev reissued : String → String → TokenPayload → Request → Request
reissued role schema_name user req = record req {
  user = some (record user { role = role; schema_name = schema_name });
}

module _ (sys : Platform) (ups : List Migration) where
  -- each route does the same for the token `user` and for one of another role and schema
  abbrev pub IgnoresClaims : Request → TokenPayload → String → String → World → Type 0
  IgnoresClaims req user role schema_name w =
      let held = record req { user = some user } in
      let other = reissued role schema_name user req in
      ((dto : CreateInvitationDto)
        → post_invite sys ups other dto w ≡ post_invite sys ups held dto w)
      × ((dto : CreateProductDto)
          → post_product sys ups other dto w ≡ post_product sys ups held dto w)
      × ((page limit : ℤ) (sought : Option String)
          → list_products sys ups other page limit sought w
            ≡ list_products sys ups held page limit sought w)
      × ((dto : CreateChangelogDto)
          → post_changelog sys ups other dto w ≡ post_changelog sys ups held dto w)
      × ((product_id : String) (page limit : ℤ)
          → list_changelogs sys ups other product_id page limit w
            ≡ list_changelogs sys ups held product_id page limit w)
      × ((dto : CreateFeedbackDto)
          → post_feedback sys ups other dto w ≡ post_feedback sys ups held dto w)
      × ((loose : Bool) (order : Unawaited) (dto : PartialFeedbackDto)
          → put_feedback sys ups loose order other dto w
            ≡ put_feedback sys ups loose order held dto w)

  -- The routes behind the guard do the same for a token of any role and any schema: a member may
  -- invite, and a token issued for one tenant works on another's host.
  pub routes_ignore_claims :
      (req : Request) (user : TokenPayload) (role schema_name : String) (w : World)
      → IgnoresClaims req user role schema_name w
  unfolding post_invite post_product list_products post_changelog list_changelogs post_feedback
      put_feedback sub_of schema_name_of ◌>>=◌
  routes_ignore_claims req user role schema_name w = (
    λ dto. refl,
    λ dto. refl,
    λ page limit sought. refl,
    λ dto. refl,
    λ product_id page limit. refl,
    λ dto. refl,
    λ loose order dto. refl,
  )
