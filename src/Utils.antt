-- ===== src/Utils.antt =====
-- src/common/utils/index.utils.ts: hashing of passwords and of tokens, and the cursors of a listing that
-- is commented out.
use multitenancy.Prelude.{ℕ, String, Option, some, ◌≡◌, ◌∙◌, ap}
use multitenancy.Redis.Service.{Codec}
use multitenancy.World.{ok, Action}
use multitenancy.Platform.{Platform}

-- `hashPassword`: argon2, with a salt of its own for each call
unfoldable pub hash_password : Platform → String → Action String
hash_password sys password w = (ok (sys.hash w.calls password), w)

-- `hashToken`
abbrev pub hash_token : Platform → String → String
hash_token sys token = sys.sha256 token

pub record DecodedCursor : Type 0 where
  pub id : String
  pub created_at : String

-- `toISOString` of a date, and the encoding of a text in base64url with what its definition says
pub record Encodings : Type 0 where
  pub to_iso_string : ℕ → String
  pub to_base64url : String → String
  pub from_base64url : String → String
  pub from-to : (s : String) → from_base64url (to_base64url s) ≡ s

module _ (enc : Encodings) (json : Codec DecodedCursor) where
  unfoldable encode_cursor : String → ℕ → String
  encode_cursor id created_at =
      enc.to_base64url
        (json.stringify (record { id = id; created_at = enc.to_iso_string created_at }))

  -- `none` where the text is no JSON
  unfoldable decode_cursor : String → Option DecodedCursor
  decode_cursor cursor = json.parse (enc.from_base64url cursor)

  -- A cursor is read back as the id and the text of the date that it was made from.
  decode_cursor-encode_cursor :
      (id : String) (created_at : ℕ)
      → decode_cursor (encode_cursor id created_at)
        ≡ some (record { id = id; created_at = enc.to_iso_string created_at })
  unfolding decode_cursor encode_cursor
  decode_cursor-encode_cursor id created_at = ap json.parse (enc.from-to _) ∙ json.parse-stringify _
