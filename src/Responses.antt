-- ===== src/Responses.antt =====
-- `ResponseBuilder` of src/common/utils/api-response.builder.ts, which nothing uses, and `ApiResponse` of
-- src/common/interfaces/api.response.ts without its optional `meta`; `data` is a word of the language, so the field is `content`.
use multitenancy.Prelude.{ℕ, String, Bool, true, Option, none, some}

-- The timestamp is the instant that its text stands for.
pub record ApiResponse (T : Type 0) : Type 0 where
  pub success : Bool
  pub status_code : ℕ
  pub message : String
  pub timestamp : ℕ
  pub path : Option String
  pub content : T

abbrev or_default {ℓ} : {A : Type ℓ} → Option A → A → A
or_default none d = d
or_default (some a) d = a

module _ {T : Type 0} (now : ℕ) where
  abbrev pub success : T → Option String → Option ℕ → Option String → ApiResponse T
  success content message status_code path = record {
    success = true;
    status_code = or_default status_code 200;
    message = or_default message "Request successful";
    timestamp = now;
    path = path;
    content = content;
  }

  abbrev pub created : T → Option String → ApiResponse T
  created content message =
      success content (some (or_default message "Resource created successfully")) (some 201) none

-- The content is `null`.
abbrev pub no_content : ℕ → Option String → ApiResponse (Option (Unit {0}))
no_content now message =
    success now none (some (or_default message "Resource deleted successfully")) (some 200) none
