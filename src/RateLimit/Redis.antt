-- ===== src/RateLimit/Redis.antt =====
-- The script in Redis keeps the same contract of a key.
use lan_video.Prelude.{
  ℕ, ◌+◌, ◌≤◌, ◌<◌, ◌≡◌, Option, none, some, arith, ltb, leb, if◌then◌else◌, Bool-cases, inl, inr,
}
use Prim.Native.String.{String}
use lan_video.Prelude.Assoc.{string_Eq, lookup, lookup-insert, lookup-remove, ◌=?◌}
use lan_video.RateLimit.{
  Limits, Counter, RedisKeys, from_secs, script, check_redis, is_blocked, incr,
}
use lan_video.RateLimit.View.{View, age, spec, redis_view}

-- A counter that is there has been hit, and no block hides it.
abbrev pub ValidKey : ℕ → Option ℕ → Option Counter → Type 0
ValidKey now b none = Unit {0}
ValidKey now none (some c) = 0 < c.count
ValidKey now (some u) (some c) = (0 < c.count) × (u ≤ now)

abbrev pub ValidAt : ℕ → RedisKeys → String → Type 0
ValidAt now r key = ValidKey now (lookup key r.blocks) (lookup key r.counters)

unfoldable pub view_of : ℕ → String → RedisKeys → View
view_of now key r = redis_view now (lookup key r.blocks) (lookup key r.counters)

pub check_redis-verdict :
    (l : Limits) (now : ℕ) (key : String) (r : RedisKeys)
    → ValidAt now r key
    → (check_redis l now key r).1 ≡ (spec l now (view_of now key r)).1
unfolding check_redis script spec view_of redis_view
check_redis-verdict l now key r v = ground arith

pub redis_view-age :
    (now later : ℕ) (b : Option ℕ) (c : Option Counter)
    → now ≤ later
    → ValidKey now b c
    → redis_view later b c ≡ age later (redis_view now b c)
unfolding redis_view
redis_view-age now later none none w v = ground arith
redis_view-age now later none (some c) w v = ground arith
redis_view-age now later (some u) none w v = ground arith
redis_view-age now later (some u) (some c) w v = ground arith

pub ValidKey-later :
    (now later : ℕ) (b : Option ℕ) (c : Option Counter)
    → now ≤ later
    → ValidKey now b c
    → ValidKey later b c
ValidKey-later now later none none w v = tt
ValidKey-later now later none (some c) w v = v
ValidKey-later now later (some u) none w v = tt
ValidKey-later now later (some u) (some c) w v = omega arith

-- What the script leaves of a key's block and counter, from what it found.
script_key : Limits → ℕ → Option ℕ → Option Counter → Option ℕ × Option Counter
unfolding is_blocked incr
script_key l now b c =
    if is_blocked now b
    then (b, c)
    else (if leb l.max_attempts (incr l now c).count
        then (if ltb 0 l.block_secs then some (now + from_secs l.block_secs) else b, none)
        else (b, some (incr l now c)))

script_key-view :
    (l : Limits) (now later : ℕ) (b : Option ℕ) (c : Option Counter)
    → now ≤ later
    → ValidKey now b c
    → let (b', c') = script_key l now b c in
      redis_view later b' c' ≡ age later (spec l now (redis_view now b c)).0
unfolding script_key spec redis_view
script_key-view l now later none none w v = ground arith
script_key-view l now later none (some c) w v = ground arith
script_key-view l now later (some u) none w v = ground arith
script_key-view l now later (some u) (some c) w v = ground arith

script_key-ValidKey :
    (l : Limits) (now : ℕ) (b : Option ℕ) (c : Option Counter)
    → ValidKey now b c
    → let (b', c') = script_key l now b c in ValidKey now b' c'
unfolding script_key
script_key-ValidKey l now none none v = ground arith
script_key-ValidKey l now none (some c) v = ground arith
script_key-ValidKey l now (some u) none v = ground arith
script_key-ValidKey l now (some u) (some c) v = ground arith

check_redis-blocks :
    (l : Limits) (now : ℕ) (key j : String) (r : RedisKeys)
    → lookup j (check_redis l now key r).0.blocks ≡ (
        if key =? j
        then (script_key l now (lookup key r.blocks) (lookup key r.counters)).0
        else lookup j r.blocks)
unfolding check_redis script script_key
check_redis-blocks l now key j r =
    ground
      (arith, string_Eq.beq_iff key j, lookup-insert key j (now + from_secs l.block_secs) r.blocks)

check_redis-counters :
    (l : Limits) (now : ℕ) (key j : String) (r : RedisKeys)
    → lookup j (check_redis l now key r).0.counters ≡ (
        if key =? j
        then (script_key l now (lookup key r.blocks) (lookup key r.counters)).1
        else lookup j r.counters)
unfolding check_redis script script_key
check_redis-counters l now key j r = ground (
  arith,
  string_Eq.beq_iff key j,
  lookup-insert key j (incr l now (lookup key r.counters)) r.counters,
  lookup-remove key j r.counters,
)

pub check_redis-ValidAt :
    (l : Limits) (now : ℕ) (key j : String) (r : RedisKeys)
    → ValidAt now r key
    → ValidAt now r j
    → ValidAt now (check_redis l now key r).0 j
check_redis-ValidAt l now key j r v w =
    rw (check_redis-blocks l now key j r, check_redis-counters l now key j r)
      (elim (Bool-cases (key =? j)) [
        | inl e ↦ rw e (script_key-ValidKey l now (lookup key r.blocks) (lookup key r.counters) v)
        | inr e ↦ rw e w
      ])

pub check_redis-view :
    (l : Limits) (now later : ℕ) (key j : String) (r : RedisKeys)
    → now ≤ later
    → ValidAt now r key
    → ValidAt now r j
    → view_of later j (check_redis l now key r).0 ≡ (
        if key =? j
        then age later (spec l now (view_of now key r)).0
        else age later (view_of now j r))
unfolding view_of
check_redis-view l now later key j r w v x =
    rw (check_redis-blocks l now key j r, check_redis-counters l now key j r)
      (elim (Bool-cases (key =? j)) [
        | inl e ↦
            rw e (script_key-view l now later (lookup key r.blocks) (lookup key r.counters) w v)
        | inr e ↦ rw e (redis_view-age now later (lookup j r.blocks) (lookup j r.counters) w x)
      ])
