-- ===== src/Entities.antt =====
-- The entities, which are the rows of the tables: the `entities` folders and src/common/utils/base.entity.ts.
-- A date is a number of milliseconds, a nullable
-- column an `Option`. A relation is kept by the owning side's column.
pub mod Clash
use multitenancy.Prelude.{ℕ, String, Option}
use multitenancy.Enums.{
  InvitationStatus, PlanType, TenantStatus, Role, FeedbackStatus, FeedbackPriority, FeedbackType,
  ChangelogType, ChangelogStatus,
}

pub record BaseEntity : Type 0 where
  pub id : String
  pub created_at : ℕ
  pub updated_at : ℕ

pub record Tenant : Type 0 where
  pub base : BaseEntity
  pub open base use *
  pub name : String
  pub slug : String
  pub tenant_owner_email : String
  pub schema_name : String
  pub status : TenantStatus
  pub plan : PlanType

pub record TenantInvitation : Type 0 where
  pub base : BaseEntity
  pub open base use *
  pub tenant_schema : String
  pub status : InvitationStatus
  pub email : String
  pub role : Role
  pub token : String
  pub invited_by_user_id : String
  pub expires_at : ℕ
  pub accepted_at : Option ℕ
  pub revoked_at : Option ℕ

pub record User : Type 0 where
  pub base : BaseEntity
  pub open base use *
  pub email : String
  pub role : Role
  pub password_hash : Option String
  pub display_name : String
  pub avatar_url : Option String
  pub activated_at : Option ℕ
  pub password_changed_at : Option ℕ
  pub last_login_date : Option ℕ

pub record Product : Type 0 where
  pub base : BaseEntity
  pub open base use *
  pub title : String
  pub description : Option String
  pub tenant_schema : String

pub record Changelog : Type 0 where
  pub base : BaseEntity
  pub open base use *
  pub product_id : String
  pub title : String
  pub content : String
  pub type : ChangelogType
  pub status : ChangelogStatus
  pub version : Option String
  pub published_at : Option ℕ

-- `product` and `changeLogs` are the columns `product_id` and `change_log_id`.
pub record Feedback : Type 0 where
  pub base : BaseEntity
  pub open base use *
  pub content : Option String
  pub status : Option FeedbackStatus
  pub priority : Option FeedbackPriority
  pub type : Option FeedbackType
  pub vote_count : Option ℕ
  pub product_id : Option String
  pub change_log_id : Option String
  pub user_id : String
