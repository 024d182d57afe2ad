-- ===== src/Redis/Delays.antt =====
-- The reconnection delays of src/redis/redis.module.ts.
use multitenancy.Prelude.{ℕ, ◌*◌, ◌≤◌, some, ◌≡◌, ◌↔◌, arith}
use multitenancy.Redis.{retry_strategy}

-- The delay before the n-th attempt is 100 n milliseconds up to the tenth attempt, and there is none
-- after it; so a delay is never more than a second, and the cap of three seconds is never reached.
pub retry_strategy_lem :
    (times delay : ℕ)
    → (retry_strategy times ≡ some delay) ↔ ((times ≤ 10) × (delay ≡ times * 100) × (delay ≤ 1000))
unfolding retry_strategy
retry_strategy_lem times delay = ground arith
