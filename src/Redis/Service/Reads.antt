-- ===== src/Redis/Service/Reads.antt =====
-- What `RedisService` reads back (src/redis/redis.service.ts).
use multitenancy.Prelude.{
  ℕ, ◌≤◌, String, Bool, true, false, Option, none, some, List, [], ◌∷◌, ◌≡◌, refl, ◌==◌, eqb,
  if◌then◌else◌, Bool-cases, inl, inr,
}
use multitenancy.Redis.Service.{Client, Codec, value, null, lives, among, set, get, del, read_back}

-- A lifetime of 0 seconds is none.
abbrev pub lifetime : Option ℕ → Option ℕ
lifetime none = none
lifetime (some ttl) = if eqb ttl 0 then none else some ttl

module _ (client : Client) {T : Type 0} (json : Codec T) where
  read_back-stringify : (v : T) → read_back client json (some (json.stringify v)) ≡ value v
  unfolding read_back
  read_back-stringify v = rw (json.stringify-ne-empty v, json.parse-stringify v) refl

  read_back-if :
      (b : Bool) (x y : Option String)
      → read_back client json (if b then x else y)
        ≡ (if b then read_back client json x else read_back client json y)
  read_back-if true x y = refl
  read_back-if false x y = refl

  read_back-none : read_back client json none ≡ null
  unfolding read_back
  read_back-none = refl

  stored :
      (t u : ℕ) (key j : String) (v : T) (ttl : Option ℕ) (s : client.Server)
      → t ≤ u
      → get client json u j (client.set t key (json.stringify v) ttl s)
        ≡ (if key == j then (if lives ttl t u then value v else null) else get client json u j s)
  unfolding get
  stored t u key j v ttl s later =
      rw
        (
          client.get-set t u key j (json.stringify v) ttl s later,
          read_back-if,
          read_back-if,
          read_back-stringify v,
          read_back-none,
        )
        refl

  set-stored :
      (t u : ℕ) (key j : String) (v : T) (ttl : Option ℕ) (s : client.Server)
      → t ≤ u
      → get client json u j (set client json t key v ttl s) ≡ (
          if key == j
          then (if lives (lifetime ttl) t u then value v else null)
          else get client json u j s)
  unfolding set
  set-stored t u key j v none s later = stored t u key j v none s later
  set-stored t u key j v (some ttl) s later = elim (Bool-cases (eqb ttl 0)) [
    | inl endless ↦ rw endless (stored t u key j v none s later)
    | inr ends ↦ rw ends (stored t u key j v (some ttl) s later)
  ]

  deleted :
      (u : ℕ) (j : String) (keys : List String) (s : client.Server)
      → get client json u j (del client keys s)
        ≡ (if among keys j then null else get client json u j s)
  unfolding del get
  deleted u j [] s = refl
  deleted u j (k ∷ ks) s = rw (client.get-del u (k ∷ ks) j s, read_back-if, read_back-none) refl

  -- What is stored under a key, until its lifetime is over, is what is read there, and then nothing; a
  -- lifetime of 0 never ends; what is deleted is gone, no keys at all delete nothing; and other keys
  -- are read as before.
  pub get_lem :
      (t u : ℕ) (key j : String) (v : T) (ttl : Option ℕ) (keys : List String) (s : client.Server)
      → t ≤ u
      → (get client json u j (set client json t key v ttl s) ≡ (
          if key == j
          then (if lives (lifetime ttl) t u then value v else null)
          else get client json u j s))
        × (get client json u j (del client keys s)
            ≡ (if among keys j then null else get client json u j s))
  get_lem t u key j v ttl keys s later = (set-stored t u key j v ttl s later, deleted u j keys s)
