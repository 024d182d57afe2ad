-- ===== src/Redis/Service.antt =====
-- `RedisService` of src/redis/redis.service.ts over the client of the library, which is a parameter.
pub mod Reads
use multitenancy.Prelude.{
  ℕ, ◌+◌, ◌*◌, ◌≤◌, String, Bool, true, false, Option, none, some, List, [], ◌∷◌, ◌≡◌, ◌==◌, any,
  leb, eqb, ◌||◌, ◌&&◌, not, if◌then◌else◌,
}

-- whether a value stored at `t` for so many seconds is there at `u`; instants are milliseconds
abbrev pub lives : Option ℕ → ℕ → ℕ → Bool
lives none t u = true
lives (some seconds) t u = not (leb (t + seconds * 1000) u)

abbrev pub among : List String → String → Bool
among keys j = any (λ k. k == j) keys

-- The commands of the client that the service sends, with what the server's documentation says of
-- them: a value stored under a key is what is read there until its time is up or it is deleted, other
-- keys are as before, and a set has the members that were added and not removed. `none` is an error
-- that the server replies with.
pub record Client : Type 1 where
  pub Server : Type 0
  pub set : ℕ → String → String → Option ℕ → Server → Server
  pub get : ℕ → String → Server → Option String
  pub del : List String → Server → Server
  pub sadd : String → List String → Server → Option Server
  pub srem : String → List String → Server → Option Server
  pub smembers : String → Server → List String
  pub get-set :
      (t u : ℕ) (key j text : String) (ttl : Option ℕ) (s : Server)
      → t ≤ u
      → get u j (set t key text ttl s)
        ≡ (if key == j then (if lives ttl t u then some text else none) else get u j s)
  pub get-del :
      (u : ℕ) (keys : List String) (j : String) (s : Server)
      → get u j (del keys s) ≡ (if among keys j then none else get u j s)
  pub smembers-sadd :
      (key j m : String) (members : List String) (s s' : Server)
      → sadd key members s ≡ some s'
      → among (smembers j s') m
        ≡ (if key == j then among members m || among (smembers j s) m else among (smembers j s) m)
  pub smembers-srem :
      (key j m : String) (members : List String) (s s' : Server)
      → srem key members s ≡ some s'
      → among (smembers j s') m ≡ (
          if key == j
          then not (among members m) && among (smembers j s) m
          else among (smembers j s) m)

-- `JSON.stringify` and `JSON.parse` at a type of values that are read back as they were written. No text
-- that is written is empty.
pub record Codec (T : Type 0) : Type 0 where
  pub stringify : T → String
  pub parse : String → Option T
  pub parse-stringify : (v : T) → parse (stringify v) ≡ some v
  pub stringify-ne-empty : (v : T) → (stringify v == "") ≡ false

-- What `get` gives: a value, `null`, or the exception of `JSON.parse`.
pub data Answer (T : Type 0) : Type 0 where
  value : T → Answer T
  null : Answer T
  syntax_error : Answer T

module _ (client : Client) where
  open client use {Server}

  module _ {T : Type 0} (json : Codec T) where
    -- `ttlSeconds ? … : …`
    unfoldable pub set : ℕ → String → T → Option ℕ → Server → Server
    set now key v none s = client.set now key (json.stringify v) none s
    set now key v (some ttl) s =
        if eqb ttl 0
        then client.set now key (json.stringify v) none s
        else client.set now key (json.stringify v) (some ttl) s

    abbrev parsed : Option T → Answer T
    parsed none = syntax_error
    parsed (some v) = value v

    -- `v ? JSON.parse(v) : null`
    unfoldable pub read_back : Option String → Answer T
    read_back none = null
    read_back (some v) = if v == "" then null else parsed (json.parse v)

    unfoldable pub get : ℕ → String → Server → Answer T
    get now key s = read_back (client.get now key s)

  -- `if (keys.length)`
  unfoldable pub del : List String → Server → Server
  del [] s = s
  del (k ∷ ks) s = client.del (k ∷ ks) s

  abbrev pub sadd : String → List String → Server → Option Server
  sadd key members s = client.sadd key members s

  abbrev pub srem : String → List String → Server → Option Server
  srem key members s = client.srem key members s

  abbrev pub smembers : String → Server → List String
  smembers key s = client.smembers key s
