-- ===== src/RateLimit.antt =====
-- backend/src/middleware/rate_limit.rs: the limiter of attempts per key, in memory and in Redis.
-- An instant is a number of nanoseconds and an argument of each call. Redis is the two families
-- of keys that the script touches, each with the instant at which the key expires: a key is there
-- while that instant lies ahead. The two prefixes `rl:c:` and `rl:b:` keep the families apart.

pub mod View
pub mod Memory
pub mod Redis
pub mod Calls
pub mod Budget
mod Tests
use Prim.Native.String.{String}
use lan_video.Prelude.{
  ℕ, ◌+◌, ◌*◌, ◌^◌, ◌-◌, min, Bool, false, ◌||◌, Option, none, some, List, [], ◌∷◌, ltb, leb, ◌==◌,
  if◌then◌else◌,
}
use lan_video.Prelude.Assoc.{string_Eq, lookup, insert, remove, retain}

abbrev pub rate_limit_max_attempts : ℕ
rate_limit_max_attempts = 5

abbrev pub rate_limit_window_secs : ℕ
rate_limit_window_secs = 60

abbrev pub rate_limit_block_secs : ℕ
rate_limit_block_secs = 300

-- `Duration::from_secs`.
abbrev pub from_secs : ℕ → ℕ
from_secs s = s * 1000000000

-- `u32::saturating_add(1)`.
unfoldable pub saturating_incr : ℕ → ℕ
saturating_incr n = min (n + 1) (2 ^ 32 - 1)

-- `Result<(), RateLimited>`.
pub data Verdict : Type 0 where
  allowed limited : Verdict

pub record RateLimitEntry : Type 0 where
  pub count : ℕ
  pub blocked_until : Option ℕ

-- The value of the map, `(Instant, RateLimitEntry)`.
pub record Slot : Type 0 where
  pub expires_at : ℕ
  pub entry : RateLimitEntry

-- The three numbers that `check_with` takes.
pub record Limits : Type 0 where
  pub max_attempts : ℕ
  pub window_secs : ℕ
  pub block_secs : ℕ

abbrev pub default_limits : Limits
default_limits = record {
  max_attempts = rate_limit_max_attempts;
  window_secs = rate_limit_window_secs;
  block_secs = rate_limit_block_secs;
}

-- `if let Some(until) = entry.blocked_until { if now < until`.
unfoldable pub is_blocked : ℕ → Option ℕ → Bool
is_blocked now none = false
is_blocked now (some until) = ltb now until

-- A block that has run out is lifted, and a new window starts.
unfoldable pub lift_block : Limits → ℕ → Slot → Option ℕ → Slot
lift_block l now s none = s
lift_block l now s (some until) = record s {
  expires_at = now + from_secs l.window_secs;
  entry = record { count = 0; blocked_until = none };
}

-- `if now >= *expires_at`.
unfoldable pub renew_window : Limits → ℕ → Slot → Slot
renew_window l now s =
    if leb s.expires_at now
    then record s {
      expires_at = now + from_secs l.window_secs;
      entry = record { count = 0; blocked_until = s.entry.blocked_until };
    }
    else s

unfoldable pub charge : Limits → ℕ → Slot → Slot × Verdict
charge l now s =
    let count = saturating_incr s.entry.count in
    if leb l.max_attempts count
    then (
      record s {
        entry = record { count = count; blocked_until = some (now + from_secs l.block_secs) };
      },
      limited,
    )
    else (
      record s { entry = record { count = count; blocked_until = s.entry.blocked_until } },
      allowed,
    )

-- What `check_memory` does with the slot of its key, found or just made.
unfoldable pub check_slot : Limits → ℕ → Slot → Slot × Verdict
unfolding is_blocked lift_block renew_window charge
check_slot l now s =
    if is_blocked now s.entry.blocked_until
    then (s, limited)
    else charge l now (renew_window l now (lift_block l now s s.entry.blocked_until))

unfoldable pub fresh_slot : Limits → ℕ → Slot
fresh_slot l now = record {
  expires_at = now + from_secs l.window_secs;
  entry = record { count = 0; blocked_until = none };
}

abbrev pub Cache : Type 0
Cache = List (String × Slot)

unfoldable pub check_found : Limits → ℕ → Option Slot → Slot × Verdict
check_found l now none = check_slot l now (fresh_slot l now)
check_found l now (some s) = check_slot l now s

unfoldable pub check_memory : Limits → ℕ → String → Cache → Cache × Verdict
check_memory l now key cache =
    let (s, verdict) = check_found l now (lookup key cache) in (insert key s cache, verdict)

-- What `cleanup_expired` keeps.
pub keeps : ℕ → Slot → Bool
unfolding is_blocked
keeps now s = ltb now s.expires_at || is_blocked now s.entry.blocked_until

pub cleanup_expired : ℕ → Cache → Cache
cleanup_expired now cache = retain (keeps now) cache

-- A counter and the instant at which it expires.
pub record Counter : Type 0 where
  pub count : ℕ
  pub expires_at : ℕ

pub record RedisKeys : Type 0 where
  pub counters : List (String × Counter)
  pub blocks : List (String × ℕ)

-- What the script returns: -1, -2, or the count.
pub data Reply : Type 0 where
  blocked exceeded : Reply
  counted : ℕ → Reply

-- `INCR`, and `EXPIRE` on the first hit.
unfoldable pub incr : Limits → ℕ → Option Counter → Counter
incr l now none = record { count = 1; expires_at = now + from_secs l.window_secs }
incr l now (some c) =
    if ltb now c.expires_at
    then record {
      count = c.count + 1;
      expires_at = if c.count + 1 == 1 then now + from_secs l.window_secs else c.expires_at;
    }
    else record { count = 1; expires_at = now + from_secs l.window_secs }

unfoldable pub apply_block : Limits → ℕ → String → List (String × ℕ) → List (String × ℕ)
apply_block l now key blocks =
    if ltb 0 l.block_secs then insert key (now + from_secs l.block_secs) blocks else blocks

-- RATE_LIMIT_SCRIPT.
unfoldable pub script : Limits → ℕ → String → RedisKeys → RedisKeys × Reply
unfolding is_blocked incr apply_block
script l now key r =
    let c = incr l now (lookup key r.counters) in
    if is_blocked now (lookup key r.blocks)
    then (r, blocked)
    else (if leb l.max_attempts c.count
        then (
          record r { counters = remove key r.counters; blocks = apply_block l now key r.blocks },
          exceeded,
        )
        else (record r { counters = insert key c r.counters }, counted c.count))

unfoldable pub verdict_of : Reply → Verdict
verdict_of blocked = limited
verdict_of exceeded = limited
verdict_of (counted n) = allowed

unfoldable pub check_redis : Limits → ℕ → String → RedisKeys → RedisKeys × Verdict
unfolding verdict_of
check_redis l now key r = let (r', reply) = script l now key r in (r', verdict_of reply)

-- What the shared slot holds at a call, and how the connection fares. A lost reply has run the
-- script.
pub data Link : Type 0 where
  disabled unreachable reply_lost connected : Link

pub record RateLimiter : Type 0 where
  pub cache : Cache
  pub redis : RedisKeys

unfoldable pub with_memory : RateLimiter → Limits → ℕ → String → RateLimiter × Verdict
with_memory s l now key =
    let (cache, verdict) = check_memory l now key s.cache in (record s { cache = cache }, verdict)

unfoldable pub check_with : Link → RateLimiter → Limits → ℕ → String → RateLimiter × Verdict
unfolding with_memory
check_with disabled s l now key = with_memory s l now key
check_with unreachable s l now key = with_memory s l now key
check_with reply_lost s l now key =
    let (r, reply) = check_redis l now key s.redis in with_memory (record s { redis = r }) l now key
check_with connected s l now key =
    let (r, verdict) = check_redis l now key s.redis in (record s { redis = r }, verdict)

unfoldable pub check : Link → RateLimiter → ℕ → String → RateLimiter × Verdict
check link s now key = check_with link s default_limits now key

unfoldable pub del : String → RedisKeys → RedisKeys
del key r = record { counters = remove key r.counters; blocks = remove key r.blocks }

unfoldable pub reset : Link → RateLimiter → String → RateLimiter
unfolding del
reset disabled s key = record s { cache = remove key s.cache }
reset unreachable s key = record s { cache = remove key s.cache }
reset reply_lost s key = record { cache = remove key s.cache; redis = del key s.redis }
reset connected s key = record { cache = remove key s.cache; redis = del key s.redis }
