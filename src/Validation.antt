-- ===== src/Validation.antt =====
-- The decorators of the transfer object of a signup, src/auth/dto/index.dto.ts, as far as the
-- repository states them itself: the pattern and the least lengths. `IsEmail` is the validator's own.
use Prim.Native.Char.{code}
use multitenancy.Prelude.{ℕ, suc, String, Bool, true, ◌&&◌, ◌||◌, leb, eqb}
use multitenancy.Auth.{SignupDto}

-- the class `[a-z0-9-]`
unfoldable pub slug_code : ℕ → Bool
slug_code c = (leb 97 c && leb c 122) || (leb 48 c && leb c 57) || eqb c 45

unfoldable pub all_slug_chars : String → Bool
unfolding slug_code
all_slug_chars String.[] = true
all_slug_chars (String.◌∷◌ c s) = slug_code (code c) && all_slug_chars s

unfoldable pub chars : String → ℕ
chars String.[] = 0
chars (String.◌∷◌ c s) = suc (chars s)

-- `@MinLength(3) @Matches(/^[a-z0-9-]+$/)`: three characters at least, so the `+` is met
unfoldable pub valid_slug : String → Bool
unfolding all_slug_chars chars
valid_slug s = leb 3 (chars s) && all_slug_chars s

module _ (is_email : String → Bool) where
  unfoldable pub valid_signup : SignupDto → Bool
  unfolding valid_slug chars
  valid_signup dto =
      leb 3 (chars dto.name)
      && valid_slug dto.slug
      && is_email dto.tenant_owner_email
      && leb 3 (chars dto.tenant_owner_password)
