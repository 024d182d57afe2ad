-- ===== src/Cache.antt =====
-- `CacheWrapper` of src/common/cache/index.cache.ts, a `Map` behind five methods.
use multitenancy.Prelude.{
  String, Bool, true, false, Option, none, some, [], ◌≡◌, refl, ◌==◌, if◌then◌else◌,
}
use multitenancy.Prelude.Assoc.{Assoc, find, put, remove, find-put, find-remove}

pub record CacheWrapper {ℓ} (T : Type ℓ) : Type ℓ where
  pub cache : Assoc T

module _ {ℓ} {T : Type ℓ} where
  abbrev pub new : CacheWrapper T
  new = record { cache = [] }

  unfoldable pub set : String → T → CacheWrapper T → CacheWrapper T
  set key value c = record { cache = put key value c.cache }

  unfoldable pub get : String → CacheWrapper T → Option T
  get key c = find key c.cache

  unfoldable pub has : String → CacheWrapper T → Bool
  has key c = elim (find key c.cache) [ none ↦ false | some _ ↦ true ]

  unfoldable pub delete : String → CacheWrapper T → CacheWrapper T
  delete key c = record { cache = remove key c.cache }

  unfoldable pub clear : CacheWrapper T → CacheWrapper T
  clear c = record { cache = [] }

  pub get-set :
      (key j : String) (value : T) (c : CacheWrapper T)
      → get j (set key value c) ≡ (if key == j then some value else get j c)
  unfolding get set
  get-set key j value c = find-put key j value c.cache

  pub get-delete :
      (key j : String) (c : CacheWrapper T)
      → get j (delete key c) ≡ (if key == j then none else get j c)
  unfolding get delete
  get-delete key j c = find-remove key j c.cache

  -- `has` answers whether `get` has a value.
  pub has-eq-get :
      (key : String) (c : CacheWrapper T)
      → has key c ≡ elim (get key c) [ none ↦ false | some _ ↦ true ]
  unfolding get has
  has-eq-get key c = refl
