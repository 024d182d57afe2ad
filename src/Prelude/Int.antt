-- ===== src/Prelude/Int.antt =====
-- Signed whole numbers, for the pages and limits that a query gives.
use Prim.Native.Nat.{ℕ, zero, suc, ◌-◌, ◌*◌}
use multitenancy.Prelude.Tests.{leb, if◌then◌else◌}

-- `negsuc n` is -(n + 1).
pub data ℤ : Type 0 where
  pos : ℕ → ℤ
  negsuc : ℕ → ℤ

-- a - b for counts
abbrev pub sub_ℕ : ℕ → ℕ → ℤ
sub_ℕ a b = if leb b a then pos (a - b) else negsuc (b - a - 1)

-- `Math.max(1, n)`, which is positive
abbrev pub at_least_one : ℤ → ℕ
at_least_one (pos zero) = 1
at_least_one (pos (suc n)) = suc n
at_least_one (negsuc n) = 1

-- `n - 1`
abbrev pub pred_ℤ : ℤ → ℤ
pred_ℤ (pos zero) = negsuc 0
pred_ℤ (pos (suc n)) = pos n
pred_ℤ (negsuc n) = negsuc (suc n)

-- `a * b`
unfoldable pub mul_ℤ : ℤ → ℤ → ℤ
mul_ℤ (pos a) (pos b) = pos (a * b)
mul_ℤ (pos zero) (negsuc b) = pos 0
mul_ℤ (pos (suc a)) (negsuc b) = negsuc (suc a * suc b - 1)
mul_ℤ (negsuc a) (pos zero) = pos 0
mul_ℤ (negsuc a) (pos (suc b)) = negsuc (suc a * suc b - 1)
mul_ℤ (negsuc a) (negsuc b) = pos (suc a * suc b)

-- `Math.min(n, most)`
abbrev pub min_ℤ : ℤ → ℕ → ℤ
min_ℤ (pos n) most = if leb n most then pos n else pos most
min_ℤ (negsuc n) most = negsuc n

-- -n for a count
abbrev pub neg_ℕ : ℕ → ℤ
neg_ℕ zero = pos 0
neg_ℕ (suc n) = negsuc n
