-- ===== src/Platform.antt =====
-- What the code calls and does not contain, as one record of operations with the documented
-- behaviour that the code relies on: TypeORM over PostgreSQL, the clock, `uuid`, `argon2`, SHA-256,
-- `@nestjs/jwt` and the configuration. A statement that the server rejects changes nothing.
use multitenancy.Prelude.{
  ℕ, String, Bool, true, false, Option, none, some, List, [], ◌∷◌, ◌++◌, map, ◌≡◌, ◌≤◌, suc, length,
  take, drop, All, any, if◌then◌else◌,
}
use multitenancy.Prelude.Int.{ℤ, pos, negsuc}
use multitenancy.Prelude.Assoc.{find, put}
use multitenancy.World.{Schemas}

-- The `up` of a migration; `none` if a statement of it is refused, which rolls it back.
abbrev pub Migration : Type 0
Migration = Schemas → Option Schemas

unfoldable pub run_all : List Migration → Schemas → Option Schemas
run_all [] s = some s
run_all (up ∷ ups) s = elim (up s) [ none ↦ none | some s' ↦ run_all ups s' ]

unfoldable pub record_migrated : String → Schemas → Schemas
record_migrated name s = elim (find name s) [
  | none ↦ s
  | some sch ↦ put name (record sch { migrated = true }) s
]

-- `runMigrations` of a data source whose schema is `name`: nothing where they are recorded, else
-- each in turn, and then the record.
unfoldable pub run_pending : List Migration → String → Schemas → Option Schemas
run_pending ups name s = elim (find name s) [
  | none ↦ none
  | some sch ↦
      if sch.migrated
      then some s
      else elim (run_all ups s) [ none ↦ none | some s' ↦ some (record_migrated name s') ]
]

-- `keep p rows` has the rows that pass `p`.
abbrev pub keep {ℓ} : {A : Type ℓ} → (A → Bool) → List A → List A
keep p [] = []
keep p (x ∷ xs) = if p x then x ∷ keep p xs else keep p xs

-- Each row's key is at least that of every later row.
abbrev pub IsDescending : {A : Type 0} → (A → ℕ) → List A → Type 0
IsDescending key [] = Unit
IsDescending key (x ∷ xs) = All (λ y. key y ≤ key x) xs × IsDescending key xs

-- The claims of a token (`TokenPayload` of src/token/token.service.ts).
pub record TokenPayload : Type 0 where
  pub sub : String
  pub role : String
  pub schema_name : String

pub record Platform : Type 1 where
  -- whether the n-th statement is rejected (lost connection, timeout), and how long it takes
  pub rejects : ℕ → Bool
  pub latency : ℕ → ℕ
  -- `findOne`: some row that fits, if there is one
  pub find_one : (E : Type 0) → (E → Bool) → List E → Option E
  pub find_one_sound :
      (E : Type 0) (p : E → Bool) (P : E → Type 0) (rows : List E) (x : E)
      → find_one E p rows ≡ some x
      → All P rows
      → (p x ≡ true) × P x
  pub find_one_complete :
      (E : Type 0) (p : E → Bool) (rows : List E)
      → find_one E p rows ≡ none
      → All (λ x. p x ≡ false) rows
  -- `INSERT`, refused where the row clashes with one that is there
  pub insert : (E : Type 0) → (E → E → Bool) → E → List E → Option (List E)
  pub insert_lem :
      (E : Type 0) (clash : E → E → Bool) (x : E) (rows : List E)
      → insert E clash x rows ≡ (if any (clash x) rows then none else some (rows ++ x ∷ []))
  -- `UPDATE … SET … WHERE …`
  pub update : (E : Type 0) → (E → Bool) → (E → E) → List E → List E
  pub update_lem :
      (E : Type 0) (p : E → Bool) (f : E → E) (rows : List E)
      → update E p f rows ≡ map (λ x. if p x then f x else x) rows
  -- `DELETE … WHERE …`, by the rows that stay
  pub delete : (E : Type 0) → (E → Bool) → List E → List E
  pub delete_lem :
      (E : Type 0) (stays : E → Bool) (rows : List E) → delete E stays rows ≡ keep stays rows
  -- `ORDER BY key DESC`: the same rows, the greatest key first
  pub order_desc : (E : Type 0) → (E → ℕ) → List E → List E
  pub order_desc_same :
      (E : Type 0) (key : E → ℕ) (p : E → Bool) (rows : List E)
      → length (keep p (order_desc E key rows)) ≡ length (keep p rows)
  pub order_desc_sorted :
      (E : Type 0) (key : E → ℕ) (rows : List E) → IsDescending key (order_desc E key rows)
  -- `OFFSET skip LIMIT take` for a positive limit; a negative offset is refused
  pub window : (E : Type 0) → ℤ → ℤ → List E → Option (List E)
  pub window_lem :
      (E : Type 0) (skip size : ℕ) (rows : List E)
      → window E (pos skip) (pos (suc size)) rows ≡ some (take (suc size) (drop skip rows))
  pub window_negative :
      (E : Type 0) (skip : ℕ) (size : ℤ) (rows : List E) → window E (negsuc skip) size rows ≡ none
  -- `ILIKE`
  pub ilike : String → String → Bool
  pub run_migrations : List Migration → String → Schemas → Option Schemas
  pub run_migrations_lem :
      (ups : List Migration) (name : String) (s : Schemas)
      → run_migrations ups name s ≡ run_pending ups name s
  -- `uuid_generate_v4()` of the database at the n-th statement, and `uuid.v4()`
  pub row_id : ℕ → String
  pub uuid_v4 : ℕ → String
  -- `argon2.hash` with the salt drawn at that point, and `argon2.verify`
  pub hash : ℕ → String → String
  pub verify : String → String → Bool
  pub verify_hash : (salt : ℕ) (password : String) → verify (hash salt password) password ≡ true
  pub sha256 : String → String
  -- `jwtService.sign` with the secret and the lifetime, at an instant
  pub sign : TokenPayload → String → String → ℕ → String
  pub config : String → String

-- From the n-th statement on, the server rejects none.
abbrev pub Calm : Platform → ℕ → Type 0
Calm sys n = (m : ℕ) → n ≤ m → sys.rejects m ≡ false
