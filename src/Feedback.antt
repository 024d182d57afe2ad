-- ===== src/Feedback.antt =====
-- `FeedbackService` of src/feedback/feedback.service.ts.
pub mod References
pub mod Unchanged
use multitenancy.Prelude.{
  ℕ, String, Option, none, some, List, ◌==◌, if◌then◌else◌, Bool, true, false, [], ◌∷◌, any, ◌&&◌,
}
use multitenancy.Enums.{FeedbackPriority, FeedbackStatus, FeedbackType}
use multitenancy.Exceptions.{resource_not_found, database}
use multitenancy.Entities.{BaseEntity, Changelog, Feedback, Product}
use multitenancy.World.{DataSource, Action, pure, raise, catch, or_raise, ◌>>=◌, ◌>>◌}
use multitenancy.Platform.{Platform, Migration}
use multitenancy.Repository.{
  Repository, changelogs_repository, products_repository, feedback_repository, find_one, save,
  update,
}
use multitenancy.Provisioning.{get_data_source}

-- `CreateFeedbackDto` of src/feedback/dto/index.dto.ts
pub record CreateFeedbackDto : Type 0 where
  pub content : Option String
  pub priority : Option FeedbackPriority
  pub type : Option FeedbackType
  pub status : Option FeedbackStatus
  pub product_id : String
  pub changelog_id : Option String
  pub vote_count : Option ℕ

-- The column `voteCount` has the default 0.
abbrev or_zero : Option ℕ → Option ℕ
or_zero none = some 0
or_zero (some n) = some n

abbrev pub id_of_changelog : Option Changelog → Option String
id_of_changelog none = none
id_of_changelog (some c) = some c.base.id

abbrev pub feedback_of :
    CreateFeedbackDto → String → Product → Option Changelog → BaseEntity → Feedback
feedback_of dto user_id product changelog base = record {
  base = base;
  content = dto.content;
  status = dto.status;
  priority = dto.priority;
  type = dto.type;
  vote_count = or_zero dto.vote_count;
  product_id = some product.base.id;
  change_log_id = id_of_changelog changelog;
  user_id = user_id;
}

abbrev every {ℓ} : {A : Type ℓ} → (A → Bool) → List A → Bool
every p [] = true
every p (x ∷ xs) = p x && every p xs

-- `Partial<CreateFeedbackDto>`, with the property that only an update reads. For an id, `none` is
-- `undefined` or `null`. The pipe does not check the body: that it may have further properties, and
-- values of other types, is left out.
pub record PartialFeedbackDto : Type 0 where
  pub content : Option String
  pub priority : Option FeedbackPriority
  pub type : Option FeedbackType
  pub status : Option FeedbackStatus
  pub product_id : Option String
  pub feedback_id : Option String
  pub changelog_id : Option String
  pub vote_count : Option ℕ

abbrev if_given {ℓ} : {A : Type ℓ} → Option A → String → List String → List String
if_given none name rest = rest
if_given (some a) name rest = name ∷ rest

-- the properties of the object that are not `undefined`
unfoldable pub properties_of : PartialFeedbackDto → List String
properties_of dto = if_given dto.content "content" (
    if_given dto.priority "priority" (
      if_given dto.type "type" (
        if_given dto.status "status" (
          if_given dto.product_id "productId" (
            if_given dto.feedback_id "feedbackId" (
              if_given dto.changelog_id "changelogId" (if_given dto.vote_count "voteCount" [])))))))

-- the columns and the relations with a column of `Feedback`, src/feedback/entities/feedback.entity.ts
abbrev feedback_columns : List String
feedback_columns =
    "id" ∷ "createdAt" ∷ "updatedAt" ∷ "content" ∷ "status" ∷ "priority" ∷ "type" ∷ "voteCount"
    ∷ "product" ∷ "changeLogs" ∷ "userId" ∷ []

-- `undefined` in an update leaves the column.
abbrev or_kept {ℓ} : {A : Type ℓ} → Option A → Option A → Option A
or_kept none old = old
or_kept (some new) old = some new

-- what an update with the columns among its properties sets
abbrev revise : PartialFeedbackDto → Feedback → Feedback
revise dto f = record f {
  content = or_kept dto.content f.content;
  status = or_kept dto.status f.status;
  priority = or_kept dto.priority f.priority;
  type = or_kept dto.type f.type;
  vote_count = or_kept dto.vote_count f.vote_count;
}

-- The update is not awaited: its statement may land before the one that follows it or after.
pub data Unawaited : Type 0 where
  lands_first lands_later : Unawaited

module _ (sys : Platform) (ups : List Migration) where
  -- `if (feedbackDto.changelogId)`: absent and empty are the same
  find_changelog : DataSource → Option String → Action (Option Changelog)
  find_changelog ds none = pure none
  find_changelog ds (some id) = if id == "" then pure none else do
    found ← find_one sys (changelogs_repository ds) (λ c. c.base.id == id)
    changelog ← or_raise found (resource_not_found "CHANGELOG" id)
    pure (some changelog)

  unfoldable pub create_feedback : String → String → CreateFeedbackDto → Action Feedback
  unfolding find_changelog
  create_feedback schema user_id dto = do
    ds ← get_data_source sys ups schema
    found ← find_one sys (products_repository ds) (λ p. p.base.id == dto.product_id)
    product ← or_raise found (resource_not_found "PRODUCT" dto.product_id)
    changelog ← find_changelog ds dto.changelog_id
    save sys (feedback_repository ds) (feedback_of dto user_id product changelog)

  -- `where: { id }`. What the library does with `undefined` there is an argument: `loose` drops the
  -- condition, otherwise it throws.
  find_by_id : {E : Type 0} → Bool → Repository E → (E → String) → Option String → Action (Option E)
  find_by_id loose repo id_of (some id) = find_one sys repo (λ x. id_of x == id)
  find_by_id loose repo id_of none =
      if loose then find_one sys repo (λ x. true) else raise (database "undefined in where")

  -- the text that a template gives for the id
  abbrev id_text : Option String → String
  id_text none = "undefined"
  id_text (some id) = id

  unfoldable pub get_feedback_by_id : Bool → String → Option String → Action Feedback
  unfolding find_by_id
  get_feedback_by_id loose schema feedback_id = do
    ds ← get_data_source sys ups schema
    found ← find_by_id loose (feedback_repository ds) (λ f. f.base.id) feedback_id
    or_raise found (resource_not_found "FEEDBACK" (id_text feedback_id))

  -- A promise that is not awaited: the request goes on whether it fulfills or not. What the process does
  -- about a rejection that nobody handles is left out.
  abbrev unseen : Action (Unit {0}) → Action (Unit {0})
  unseen m = catch m (λ _. pure tt)

  -- `feedbackRepo.update(feedbackId, feedbackDto)` refuses criteria that are empty and an object with a
  -- property that is no column, before it sends a statement.
  send_update : DataSource → PartialFeedbackDto → Option String → Action (Unit {0})
  send_update ds dto none = raise (database "Empty criteria(s) are not allowed")
  send_update ds dto (some id) =
      if id == ""
      then raise (database "Empty criteria(s) are not allowed")
      else if every (λ name. any (λ column. column == name) feedback_columns) (properties_of dto)
      then update sys (feedback_repository ds) id (revise dto)
      else raise (database "property was not found in Feedback")

  -- the last two lines of `updateFeedback`
  unfoldable pub update_and_read :
      Bool → Unawaited → DataSource → PartialFeedbackDto → Action (Option Feedback)
  unfolding find_by_id send_update
  update_and_read loose lands_first ds dto = do
    unseen (send_update ds dto dto.feedback_id)
    find_by_id loose (feedback_repository ds) (λ f. f.base.id) dto.feedback_id
  update_and_read loose lands_later ds dto = do
    read ← find_by_id loose (feedback_repository ds) (λ f. f.base.id) dto.feedback_id
    unseen (send_update ds dto dto.feedback_id)
    pure read

  unfoldable pub update_feedback :
      Bool → Unawaited → String → PartialFeedbackDto → Action (Option Feedback)
  unfolding update_and_read
  update_feedback loose order schema dto = do
    ds ← get_data_source sys ups schema
    get_feedback_by_id loose schema dto.feedback_id
    found ← find_by_id loose (products_repository ds) (λ p. p.base.id) dto.product_id
    or_raise found (resource_not_found "PRODUCT" (id_text dto.product_id))
    update_and_read loose order ds dto
