-- ===== src/Tests/RedisWitnesses.antt =====
-- A client of Redis in memory and a codec, with a run of the service on them (src/redis).
use multitenancy.Prelude.{
  ℕ, String, true, false, Option, none, some, List, [], ◌∷◌, ◌++◌, ◌≡◌, refl, ◌==◌, ◌||◌, ◌&&◌, not,
  arith, eq_iff, if◌then◌else◌, sym, eq_of_some_eq, Bool-cases, inl, inr,
}
use multitenancy.Redis.Service.{Client, Codec, null, lives, among, set, get, del}

record Memory : Type 0 where
  read : ℕ → String → Option String
  members : String → List String

abbrev without : List String → List String → List String
without ms [] = []
without ms (x ∷ xs) = let rest = without ms xs in if among ms x then rest else x ∷ rest

among-append : (xs ys : List String) (m : String) → among (xs ++ ys) m ≡ among xs m || among ys m
among-append [] ys m = refl
among-append (x ∷ xs) ys m = ground (arith, among-append xs ys m)

among-same : (xs : List String) (x m : String) → (x == m) ≡ true → among xs x ≡ among xs m
among-same [] x m h = refl
among-same (y ∷ ys) x m h = ground (arith, among-same ys x m h, eq_iff x m, eq_iff y x, eq_iff y m)

among-without :
    (ms xs : List String) (m : String) → among (without ms xs) m ≡ (not (among ms m) && among xs m)
among-without ms [] m = ground arith
among-without ms (x ∷ xs) m = ground (arith, among-without ms xs m, among-same ms x m)

abbrev add : String → List String → Memory → Option Memory
add key ms s =
    some (record s { members = λ j. if key == j then ms ++ s.members j else s.members j })

abbrev take_out : String → List String → Memory → Option Memory
take_out key ms s =
    some (record s { members = λ j. if key == j then without ms (s.members j) else s.members j })

among-add :
    (key j m : String) (ms : List String) (s s' : Memory)
    → add key ms s ≡ some s'
    → among (s'.members j) m
      ≡ (if key == j then among ms m || among (s.members j) m else among (s.members j) m)
among-add key j m ms s s' e = rw (sym (eq_of_some_eq _ s' e)) (elim (Bool-cases (key == j)) [
  | inl same ↦ rw same (among-append ms (s.members j) m)
  | inr other ↦ rw other refl
])

among-take_out :
    (key j m : String) (ms : List String) (s s' : Memory)
    → take_out key ms s ≡ some s'
    → among (s'.members j) m
      ≡ (if key == j then not (among ms m) && among (s.members j) m else among (s.members j) m)
among-take_out key j m ms s s' e = rw (sym (eq_of_some_eq _ s' e)) (elim (Bool-cases (key == j)) [
  | inl same ↦ rw same (among-without ms (s.members j) m)
  | inr other ↦ rw other refl
])

abbrev in_memory : Client
in_memory = record {
  Server = Memory;
  set = λ t key text ttl s. record s {
    read = λ u j. if key == j then (if lives ttl t u then some text else none) else s.read u j;
  };
  get = λ u key s. s.read u key;
  del = λ keys s. record s { read = λ u j. if among keys j then none else s.read u j };
  sadd = add;
  srem = take_out;
  smembers = λ key s. s.members key;
  get-set = λ t u key j text ttl s later. refl;
  get-del = λ u keys j s. refl;
  smembers-sadd = λ key j m ms s s' e. among-add key j m ms s s' e;
  smembers-srem = λ key j m ms s s' e. among-take_out key j m ms s s' e;
}

abbrev marked : String → String
marked s = String.◌∷◌ "s" s

abbrev unmarked : String → Option String
unmarked String.[] = none
unmarked (String.◌∷◌ c s) = some s

marked-ne-empty : (s : String) → (marked s == "") ≡ false
marked-ne-empty s = elim (Bool-cases (marked s == "")) [
  | inl same ↦ absurd (cc ((eq_iff (marked s) "").0 same))
  | inr other ↦ other
]

abbrev texts : Codec String
texts = record {
  stringify = marked;
  parse = unmarked;
  parse-stringify = λ v. refl;
  stringify-ne-empty = λ v. marked-ne-empty v;
}

abbrev empty : Memory
empty = record { read = λ u j. none; members = λ j. [] }

-- A value is gone once its lifetime is over.
expired_value : get in_memory texts 5000 "k" (set in_memory texts 0 "k" "v" (some 4) empty) ≡ null
unfolding get set multitenancy.Redis.Service.read_back
expired_value = refl
