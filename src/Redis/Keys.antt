-- ===== src/Redis/Keys.antt =====
-- The keys of the families that `REDIS_KEYS` makes (src/redis/redis.constant.ts) never collide.
use Prim.Native.String.append
use Prim.Native.Char.{code}
use Prim.Native.String.{◌++◌}
use multitenancy.Prelude.{
  String, Bool, true, false, arith, Option, none, some, ◌≡◌, refl, eqb, if◌then◌else◌,
  eq_of_some_eq, ap, sym, ◌∙◌,
}
use multitenancy.Redis.{
  otp_register, otp_reset, session, user_sessions, verify_email_token, refresh_token,
}

-- A key, by its family and what it is made from.
pub data Key : Type 0 where
  otp_register_key otp_reset_key session_key user_sessions_key : String → Key
  verify_email_token_key refresh_token_key : String → Key

unfoldable pub text_of_key : Key → String
text_of_key (otp_register_key email) = otp_register email
text_of_key (otp_reset_key email) = otp_reset email
text_of_key (session_key session_id) = session session_id
text_of_key (user_sessions_key user_id) = user_sessions user_id
text_of_key (verify_email_token_key token) = verify_email_token token
text_of_key (refresh_token_key user_id) = refresh_token user_id

-- what stands behind a prefix
unfoldable strip : String → String → Option String
strip String.[] s = some s
strip (String.◌∷◌ c p) String.[] = none
strip (String.◌∷◌ c p) (String.◌∷◌ d s) =
    let rest = strip p s in if eqb (code c) (code d) then rest else none

strip-same : (p s : String) → strip p (p ++ s) ≡ some s
unfolding strip
strip-same String.[] s = rw append.nil refl
strip-same (String.◌∷◌ c p) s = rw append.cons (ground (arith, strip-same p s))

-- two prefixes that differ at some place which both have
abbrev diverge : String → String → Bool
diverge String.[] q = false
diverge (String.◌∷◌ c p) String.[] = false
diverge (String.◌∷◌ c p) (String.◌∷◌ d q) =
    let rest = diverge p q in if eqb (code c) (code d) then rest else true

strip-diverge : (p q s : String) → diverge p q ≡ true → strip p (q ++ s) ≡ none
unfolding strip
strip-diverge String.[] q s h = cc
strip-diverge (String.◌∷◌ c p) String.[] s h = cc
strip-diverge (String.◌∷◌ c p) (String.◌∷◌ d q) s h =
    rw append.cons (ground (arith, strip-diverge p q s))

abbrev or_else : Option String → (String → Key) → Option Key → Option Key
or_else none f k = k
or_else (some s) f k = some (f s)

key_of_text : String → Option Key
key_of_text s = or_else (strip "otp:register:" s) otp_register_key (
    or_else (strip "otp:reset:" s) otp_reset_key (
      or_else (strip "session:" s) session_key (
        or_else (strip "sessions:" s) user_sessions_key (
          or_else (strip "verify:email:token:" s) verify_email_token_key
            (or_else (strip "refresh-token:" s) refresh_token_key none)))))

read_back : (k : Key) → key_of_text (text_of_key k) ≡ some k
unfolding text_of_key key_of_text otp_register otp_reset session user_sessions verify_email_token
    refresh_token
read_back (otp_register_key email) = rw (strip-same "otp:register:" email) refl
read_back (otp_reset_key email) =
    rw (strip-diverge "otp:register:" "otp:reset:" email refl, strip-same "otp:reset:" email) refl
read_back (session_key session_id) =
    rw
      (
        strip-diverge "otp:register:" "session:" session_id refl,
        strip-diverge "otp:reset:" "session:" session_id refl,
        strip-same "session:" session_id,
      )
      refl
read_back (user_sessions_key user_id) =
    rw
      (
        strip-diverge "otp:register:" "sessions:" user_id refl,
        strip-diverge "otp:reset:" "sessions:" user_id refl,
        strip-diverge "session:" "sessions:" user_id refl,
        strip-same "sessions:" user_id,
      )
      refl
read_back (verify_email_token_key token) =
    rw
      (
        strip-diverge "otp:register:" "verify:email:token:" token refl,
        strip-diverge "otp:reset:" "verify:email:token:" token refl,
        strip-diverge "session:" "verify:email:token:" token refl,
        strip-diverge "sessions:" "verify:email:token:" token refl,
        strip-same "verify:email:token:" token,
      )
      refl
read_back (refresh_token_key user_id) =
    rw
      (
        strip-diverge "otp:register:" "refresh-token:" user_id refl,
        strip-diverge "otp:reset:" "refresh-token:" user_id refl,
        strip-diverge "session:" "refresh-token:" user_id refl,
        strip-diverge "sessions:" "refresh-token:" user_id refl,
        strip-diverge "verify:email:token:" "refresh-token:" user_id refl,
        strip-same "refresh-token:" user_id,
      )
      refl

-- Two keys with the same text are of the same family and made from the same text.
pub text_of_key-inj : (k j : Key) → text_of_key k ≡ text_of_key j → k ≡ j
text_of_key-inj k j e = eq_of_some_eq k j (sym (read_back k) ∙ ap key_of_text e ∙ read_back j)
