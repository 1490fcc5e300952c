-- ===== src/RateLimit/View.antt =====
-- What a key's state says at an instant, whichever store keeps it, and the limiter's contract.
use lan_video.Prelude.{ℕ, ◌+◌, Option, none, some, if◌then◌else◌, ltb, leb}
use lan_video.RateLimit.{Limits, Slot, Counter, Verdict, allowed, limited, from_secs, is_blocked}

pub data View : Type 0 where
  idle : View
  counting : ℕ → ℕ → View  -- the count, and the end of the window
  blocked_till : ℕ → View

-- The view of an earlier instant, at `now`.
unfoldable pub age : ℕ → View → View
age now idle = idle
age now (counting n e) = if ltb now e then counting n e else idle
age now (blocked_till u) = if ltb now u then blocked_till u else idle

-- The `n`th attempt in a window that ends at `e`.
unfoldable pub attempt : Limits → ℕ → ℕ → ℕ → View × Verdict
attempt l now n e =
    if leb l.max_attempts n
    then (blocked_till (now + from_secs l.block_secs), limited)
    else (counting n e, allowed)

-- The contract: how a check answers, and what it leaves behind.
unfoldable pub spec : Limits → ℕ → View → View × Verdict
unfolding attempt
spec l now idle = attempt l now 1 (now + from_secs l.window_secs)
spec l now (counting n e) = attempt l now (n + 1) e
spec l now (blocked_till u) = (blocked_till u, limited)

unfoldable pub block_view : ℕ → ℕ → ℕ → Option ℕ → View
block_view now n e none = age now (counting n e)
block_view now n e (some u) = age now (blocked_till u)

-- The view of a slot of the cache.
unfoldable pub slot_view : ℕ → Option Slot → View
unfolding block_view age
slot_view now none = idle
slot_view now (some s) = block_view now s.entry.count s.expires_at s.entry.blocked_until

unfoldable pub counter_view : ℕ → Option Counter → View
counter_view now none = idle
counter_view now (some c) = age now (counting c.count c.expires_at)

-- The view of a key in Redis, where a block hides a counter.
unfoldable pub redis_view : ℕ → Option ℕ → Option Counter → View
unfolding counter_view age is_blocked
redis_view now none c = counter_view now c
redis_view now (some u) c = if ltb now u then blocked_till u else counter_view now c
