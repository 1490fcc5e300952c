-- ===== src/RateLimit/Calls.antt =====
-- Sequences of calls against either store. A key is always checked under its own limits.
use lan_video.Prelude.{
  ℕ, ◌^◌, ◌≤◌, ◌<◌, ◌≡◌, refl, sym, ap, ap₂, subst, ◌∙◌, Option, none, some, arith, if◌then◌else◌,
  Bool-cases, inl, inr, List, [], ◌∷◌, ◌++◌,
}
use Prim.Native.String.{String}
use lan_video.Prelude.Assoc.{
  string_Eq, lookup, remove, lookup-insert, lookup-remove, lookup-retain, filter, ◌=?◌,
}
use lan_video.RateLimit.{
  Limits, Slot, Cache, RedisKeys, Verdict, check_memory, check_found, check_redis, cleanup_expired,
  del, keeps,
}
use lan_video.RateLimit.View.{age, spec, slot_view, redis_view}
use lan_video.RateLimit.Memory.{
  ValidEntry, found-verdict, found-view, found-IsValid, slot_view-age, keeps-view,
}
use lan_video.RateLimit.Redis.{
  ValidAt, view_of, check_redis-verdict, check_redis-view, check_redis-ValidAt, redis_view-age,
  ValidKey-later,
}

pub data Call : Type 0 where
  check_key reset_key : String → Call
  sweep : Call

unfoldable pub memory_call : (String → Limits) → Cache → ℕ → Call → Cache × List Verdict
memory_call l cache now (check_key k) =
    let (cache', v) = check_memory (l k) now k cache in (cache', v ∷ [])
memory_call l cache now (reset_key k) = (remove k cache, [])
memory_call l cache now sweep = (cleanup_expired now cache, [])

-- Redis drops expired keys by itself.
pub redis_call : (String → Limits) → RedisKeys → ℕ → Call → RedisKeys × List Verdict
redis_call l r now (check_key k) = let (r', v) = check_redis (l k) now k r in (r', v ∷ [])
redis_call l r now (reset_key k) = (del k r, [])
redis_call l r now sweep = (r, [])

unfoldable pub memory_run : (String → Limits) → Cache → List (ℕ × Call) → List Verdict
memory_run l cache [] = []
memory_run l cache ((now, c) ∷ cs) =
    let (cache', vs) = memory_call l cache now c in vs ++ memory_run l cache' cs

pub redis_run : (String → Limits) → RedisKeys → List (ℕ × Call) → List Verdict
redis_run l r [] = []
redis_run l r ((now, c) ∷ cs) = let (r', vs) = redis_call l r now c in vs ++ redis_run l r' cs

-- The calls stand in the order of their instants, none before `now`.
abbrev pub Ordered : ℕ → List (ℕ × Call) → Type 0
Ordered now [] = Unit {0}
Ordered now ((t, c) ∷ cs) = (now ≤ t) × Ordered t cs

-- The two stores say the same of every key.
pub record Agrees (l : String → Limits) (now : ℕ) (cache : Cache) (r : RedisKeys) : Type 0 where
  pub entries : (k : String) → ValidEntry (l k) (lookup k cache)
  pub keys : (k : String) → ValidAt now r k
  pub same : (k : String) → slot_view now (lookup k cache) ≡ view_of now k r

Agrees-later :
    (l : String → Limits) (now later : ℕ) (cache : Cache) (r : RedisKeys)
    → now ≤ later
    → Agrees l now cache r
    → Agrees l later cache r
unfolding view_of
Agrees-later l now later cache r w a = record {
  entries = a.entries;
  keys = λ k. ValidKey-later now later _ _ w (a.keys k);
  same = λ k.
      slot_view-age now later (lookup k cache) w
      ∙ ap (age later) (a.same k)
      ∙ sym (redis_view-age now later _ _ w (a.keys k));
}

module _ (l : String → Limits) (fits : (k : String) → (l k).max_attempts < 2 ^ 32) where
  check_memory-slot :
      (now : ℕ) (k j : String) (cache : Cache)
      → lookup j (check_memory (l k) now k cache).0
        ≡ (if k =? j then some (check_found (l k) now (lookup k cache)).0 else lookup j cache)
  unfolding check_memory
  check_memory-slot now k j cache =
      lookup-insert k j (check_found (l k) now (lookup k cache)).0 cache

  check_memory-entry :
      (now : ℕ) (k j : String) (cache : Cache)
      → ValidEntry (l k) (lookup k cache)
      → ValidEntry (l j) (lookup j cache)
      → ValidEntry (l j) (lookup j (check_memory (l k) now k cache).0)
  check_memory-entry now k j cache v w =
      rw (check_memory-slot now k j cache) (elim (Bool-cases (k =? j)) [
        | inl e ↦ rw e (
            subst (λ x. ValidEntry (l x) (some (check_found (l k) now (lookup k cache)).0))
              ((string_Eq.beq_iff k j).0 e) (found-IsValid (l k) now (lookup k cache) v))
        | inr e ↦ rw e w
      ])

  check_memory-same :
      (now : ℕ) (k j : String) (cache : Cache) (r : RedisKeys)
      → Agrees l now cache r
      → slot_view now (lookup j (check_memory (l k) now k cache).0)
        ≡ view_of now j (check_redis (l k) now k r).0
  check_memory-same now k j cache r a =
      rw
        (
          check_memory-slot now k j cache,
          check_redis-view (l k) now now k j r (omega arith) (a.keys k) (a.keys j),
        )
        (elim (Bool-cases (k =? j)) [
          | inl e ↦ rw e (
              found-view (l k) now now (lookup k cache) (fits k) (omega arith) (a.entries k)
              ∙ rw (a.same k))
          | inr e ↦
              rw e (slot_view-age now now (lookup j cache) (omega arith) ∙ ap (age now) (a.same j))
        ])

  check-Agrees :
      (now : ℕ) (k : String) (cache : Cache) (r : RedisKeys)
      → Agrees l now cache r
      → Agrees l now (check_memory (l k) now k cache).0 (check_redis (l k) now k r).0
  check-Agrees now k cache r a = record {
    entries = λ j. check_memory-entry now k j cache (a.entries k) (a.entries j);
    keys = λ j. check_redis-ValidAt (l k) now k j r (a.keys k) (a.keys j);
    same = λ j. check_memory-same now k j cache r a;
  }

  reset-Agrees :
      (now : ℕ) (k : String) (cache : Cache) (r : RedisKeys)
      → Agrees l now cache r
      → Agrees l now (remove k cache) (del k r)
  unfolding del view_of slot_view redis_view
  reset-Agrees now k cache r a = record {
    entries = λ j.
        rw (lookup-remove k j cache)
          (elim (Bool-cases (k =? j)) [ inl e ↦ rw e tt | inr e ↦ rw e (a.entries j) ]);
    keys = λ j.
        rw (lookup-remove k j r.blocks, lookup-remove k j r.counters)
          (elim (Bool-cases (k =? j)) [ inl e ↦ rw e tt | inr e ↦ rw e (a.keys j) ]);
    same = λ j.
        rw (lookup-remove k j cache, lookup-remove k j r.blocks, lookup-remove k j r.counters)
          (elim (Bool-cases (k =? j)) [ inl e ↦ rw e refl | inr e ↦ rw e (a.same j) ]);
  }

  filter-keeps :
      (now : ℕ) (o : Option Slot) → slot_view now (filter (keeps now) o) ≡ slot_view now o
  filter-keeps now none = refl
  filter-keeps now (some s) = elim (Bool-cases (keeps now s)) [
    | inl e ↦ rw e refl
    | inr e ↦ rw e (unfold slot_view in sym (keeps-view now s s.entry.blocked_until refl e))
  ]

  filter-ValidEntry :
      (b : Limits) (now : ℕ) (o : Option Slot)
      → ValidEntry b o
      → ValidEntry b (filter (keeps now) o)
  filter-ValidEntry b now none v = tt
  filter-ValidEntry b now (some s) v = elim (Bool-cases (keeps now s)) [
    | inl e ↦ rw e v
    | inr e ↦ rw e tt
  ]

  sweep-Agrees :
      (now : ℕ) (cache : Cache) (r : RedisKeys)
      → Agrees l now cache r
      → Agrees l now (cleanup_expired now cache) r
  unfolding cleanup_expired
  sweep-Agrees now cache r a = record {
    entries = λ j.
        rw (lookup-retain (keeps now) j cache)
          (filter-ValidEntry (l j) now (lookup j cache) (a.entries j));
    keys = a.keys;
    same =
        λ j. rw (lookup-retain (keeps now) j cache) (filter-keeps now (lookup j cache) ∙ a.same j);
  }

  call-Agrees :
      (now : ℕ) (c : Call) (cache : Cache) (r : RedisKeys)
      → Agrees l now cache r
      → Agrees l now (memory_call l cache now c).0 (redis_call l r now c).0
  unfolding memory_call redis_call
  call-Agrees now (check_key k) cache r a = check-Agrees now k cache r a
  call-Agrees now (reset_key k) cache r a = reset-Agrees now k cache r a
  call-Agrees now sweep cache r a = sweep-Agrees now cache r a

  call-verdicts :
      (now : ℕ) (c : Call) (cache : Cache) (r : RedisKeys)
      → Agrees l now cache r
      → (memory_call l cache now c).1 ≡ (redis_call l r now c).1
  unfolding memory_call redis_call check_memory
  call-verdicts now (check_key k) cache r a =
      ap (λ v. v ∷ [])
        (found-verdict (l k) now (lookup k cache) (fits k) (a.entries k)
          ∙ ap (λ v. (spec (l k) now v).1) (a.same k)
          ∙ sym (check_redis-verdict (l k) now k r (a.keys k)))
  call-verdicts now (reset_key k) cache r a = refl
  call-verdicts now sweep cache r a = refl

  -- From stores that agree, every sequence of calls in order of time gets the same verdicts from
  -- the cache in memory as from Redis, whatever limits each key has, if they fit a `u32`.
  pub memory_run-redis_run :
      (now : ℕ) (cs : List (ℕ × Call)) (cache : Cache) (r : RedisKeys)
      → Ordered now cs
      → Agrees l now cache r
      → memory_run l cache cs ≡ redis_run l r cs
  unfolding memory_run redis_run
  memory_run-redis_run now [] cache r o a = refl
  memory_run-redis_run now ((t, c) ∷ cs) cache r o a =
      let b = Agrees-later l now t cache r o.0 a in
      ap₂ ◌++◌ (call-verdicts t c cache r b) (
        memory_run-redis_run t cs (memory_call l cache t c).0 (redis_call l r t c).0 o.1
          (call-Agrees t c cache r b))

abbrev pub no_keys : RedisKeys
no_keys = record { counters = []; blocks = [] }

pub empty-Agrees : (l : String → Limits) (now : ℕ) → Agrees l now [] no_keys
unfolding lookup view_of slot_view redis_view
empty-Agrees l now = record { entries = λ k. tt; keys = λ k. tt; same = λ k. refl }
