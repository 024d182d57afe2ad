-- ===== src/Controllers.antt =====
-- The routes behind `JwtAuthGuard` and the login, as the controllers of src/tenant, src/products,
-- src/changelogs, src/feedback and src/auth call the services.
pub mod Claims
use multitenancy.Prelude.{String, Bool, Option, List}
use multitenancy.Prelude.Int.{ℤ}
use multitenancy.Entities.{TenantInvitation, User, Product, Changelog, Feedback}
use multitenancy.World.{Action, ◌>>=◌}
use multitenancy.Platform.{Platform, Migration}
use multitenancy.Requests.{Request, schema_name_of, sub_of}
use multitenancy.Pagination.{Paginated}
use multitenancy.Invitations.{
  CreateInvitationDto, AcceptInvitationDto, RevokeInvitationDto, invite_user_to_tenant,
  accept_tenant_invitation, revoke_invitation,
}
use multitenancy.Products.{CreateProductDto, ProductPage, create_product, get_products}
use multitenancy.Changelogs.{CreateChangelogDto, create_changelog, get_changelog_by_product_id}
use multitenancy.Feedback.{
  CreateFeedbackDto, PartialFeedbackDto, Unawaited, create_feedback, update_feedback,
}
use multitenancy.Auth.{SignupDto, LoginDto, LoggedIn, signup, login}

module _ (sys : Platform) (ups : List Migration) where
  tenant_signup : SignupDto → Action User
  tenant_signup dto = signup sys ups dto

  -- The controller makes the same check of the tenant as the service.
  auth_login : Request → LoginDto → Action LoggedIn
  auth_login req dto = login sys ups req.tenant dto

  unfoldable pub post_invite : Request → CreateInvitationDto → Action TenantInvitation
  post_invite req dto = do
    schema ← schema_name_of req.tenant
    sub ← sub_of req.user
    invite_user_to_tenant sys ups schema sub dto

  unfoldable pub post_accept : AcceptInvitationDto → Action User
  post_accept dto = accept_tenant_invitation sys ups dto

  unfoldable pub post_revoke : RevokeInvitationDto → Action (Unit {0})
  post_revoke dto = revoke_invitation sys ups dto

  unfoldable pub post_product : Request → CreateProductDto → Action Product
  post_product req dto = do schema ← schema_name_of req.tenant; create_product sys ups dto schema

  -- `page` and `limit` have the defaults 1 and 10 from their pipes.
  unfoldable pub list_products : Request → ℤ → ℤ → Option String → Action ProductPage
  list_products req page limit search = do
    schema ← schema_name_of req.tenant
    get_products sys ups schema page limit search

  unfoldable pub post_changelog : Request → CreateChangelogDto → Action Changelog
  post_changelog req dto = do
    schema ← schema_name_of req.tenant
    create_changelog sys ups schema dto

  unfoldable pub list_changelogs : Request → String → ℤ → ℤ → Action (Paginated Changelog)
  list_changelogs req product_id page limit = do
    schema ← schema_name_of req.tenant
    get_changelog_by_product_id sys ups schema product_id page limit

  unfoldable pub post_feedback : Request → CreateFeedbackDto → Action Feedback
  post_feedback req dto = do
    schema ← schema_name_of req.tenant
    sub ← sub_of req.user
    create_feedback sys ups schema sub dto

  unfoldable pub put_feedback :
      Bool → Unawaited → Request → PartialFeedbackDto → Action (Option Feedback)
  put_feedback loose order req dto = do
    schema ← schema_name_of req.tenant
    update_feedback sys ups loose order schema dto
