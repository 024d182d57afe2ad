-- ===== src/Tests/Memory.antt =====
-- The platform in memory: every statement is accepted and takes a millisecond, a lookup gives the first
-- row that fits, and hashing and signing are texts that show their inputs.
use Prim.Native.String.{◌++◌ as append}
use multitenancy.Prelude.{
  ℕ, zero, suc, String, Bool, true, false, Option, none, some, List, [], ◌∷◌, ◌++◌, map, ◌≡◌, refl,
  All, any, ◌==◌, ==_refl, if◌then◌else◌, eq_of_some_eq, Bool-cases, inl, inr,
}
use mathlib.Core.Path.{subst}
use multitenancy.Prelude.{take, drop}
use multitenancy.Prelude.Int.{ℤ, pos, negsuc}
use multitenancy.Tests.Sorting.{sort, sort_same, sort-IsDescending}
use multitenancy.Cache
use multitenancy.World.{World, Result, ok, err}
use multitenancy.Platform.{Platform, keep, run_pending}

abbrev pub first : (E : Type 0) → (E → Bool) → List E → Option E
first E p [] = none
first E p (x ∷ xs) = if p x then some x else first E p xs

pub first_sound :
    (E : Type 0) (p : E → Bool) (P : E → Type 0) (rows : List E) (x : E)
    → first E p rows ≡ some x
    → All P rows
    → (p x ≡ true) × P x
first_sound E p P [] x e h = cc
first_sound E p P (y ∷ ys) x e h = elim (Bool-cases (p y)) [
  | inl fits ↦
      let same : y ≡ x = eq_of_some_eq y x (rw fits at e) in
      (subst (λ z. p z ≡ true) same fits, subst P same h.0)
  | inr skip ↦ first_sound E p P ys x (rw skip at e) h.1
]

pub first_complete :
    (E : Type 0) (p : E → Bool) (rows : List E)
    → first E p rows ≡ none
    → All (λ x. p x ≡ false) rows
first_complete E p [] e = tt
first_complete E p (y ∷ ys) e = elim (Bool-cases (p y)) [
  | inl fits ↦ cc (rw fits at e)
  | inr skip ↦ (skip, first_complete E p ys (rw skip at e))
]

abbrev insert_unless : (E : Type 0) → (E → E → Bool) → E → List E → Option (List E)
insert_unless E clash x rows = if any (clash x) rows then none else some (rows ++ x ∷ [])

abbrev rewrite_where : (E : Type 0) → (E → Bool) → (E → E) → List E → List E
rewrite_where E p f rows = map (λ x. if p x then f x else x) rows

abbrev window_of : (E : Type 0) → ℤ → ℤ → List E → Option (List E)
window_of E (negsuc s) size rows = none
window_of E (pos s) (negsuc n) rows = none
window_of E (pos s) (pos n) rows = some (take n (drop s rows))

-- n strokes
abbrev strokes : ℕ → String
strokes zero = ""
strokes (suc n) = append "i" (strokes n)

abbrev show_hash : ℕ → String → String
show_hash salt password = append "hash:" password

abbrev check_hash : String → String → Bool
check_hash hash password = hash == append "hash:" password

pub check_hash-show_hash :
    (salt : ℕ) (password : String) → check_hash (show_hash salt password) password ≡ true
check_hash-show_hash salt password = ==_refl (append "hash:" password)

abbrev pub memory : Platform
memory = record {
  rejects = λ n. false;
  latency = λ n. 1;
  find_one = first;
  find_one_sound = first_sound;
  find_one_complete = first_complete;
  insert = insert_unless;
  insert_lem = λ E clash x rows. refl;
  update = rewrite_where;
  update_lem = λ E p f rows. refl;
  delete = λ E stays rows. keep stays rows;
  delete_lem = λ E stays rows. refl;
  order_desc = sort;
  order_desc_same = sort_same;
  order_desc_sorted = sort-IsDescending;
  window = window_of;
  window_lem = λ E skip size rows. refl;
  window_negative = λ E skip size rows. refl;
  ilike = λ text pattern. append "%" (append text "%") == pattern;
  run_migrations = run_pending;
  run_migrations_lem = λ ups name s. refl;
  row_id = λ n. append "row-" (strokes n);
  uuid_v4 = λ n. append "token-" (strokes n);
  hash = show_hash;
  verify = check_hash;
  verify_hash = check_hash-show_hash;
  sha256 = λ t. append "sha256:" t;
  sign = λ payload secret expires now. append secret (append ":" payload.sub);
  config = λ key. key;
}

abbrev pub empty_world : World
empty_world = record {
  public = some (record { tenants = []; invitations = [] });
  schemas = [];
  connections = Cache.new;
  redis = [];
  clock = 0;
  calls = 0;
}

-- what an action returned, and a value for one that threw
abbrev pub value_or : {A : Type 0} → A → Result A → A
value_or d (ok a) = a
value_or d (err x) = d
