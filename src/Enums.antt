-- ===== src/Enums.antt =====
-- The enumerations of src/common/enums/index.enum.ts; nothing uses the first.
pub data UserRole : Type 0 where
  user admin : UserRole

pub data InvitationStatus : Type 0 where
  pending accepted revoked expired : InvitationStatus

pub data PlanType : Type 0 where
  free pro enterprise : PlanType

pub data TenantStatus : Type 0 where
  pending active inactive suspended : TenantStatus

pub data Role : Type 0 where
  owner admin member : Role

pub data FeedbackStatus : Type 0 where
  pending under_review in_progress resolved : FeedbackStatus

pub data FeedbackPriority : Type 0 where
  low medium high : FeedbackPriority

pub data FeedbackType : Type 0 where
  bug feature_request improvement : FeedbackType

pub data ChangelogType : Type 0 where
  feature improvement bugfix breaking security : ChangelogType

pub data ChangelogStatus : Type 0 where
  draft published archived : ChangelogStatus
