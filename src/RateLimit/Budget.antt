-- ===== src/RateLimit/Budget.antt =====
-- What the limiter grants a key: the attempts of one window, and how long a block holds.
use lan_video.Prelude.{
  ℕ, zero, suc, ◌+◌, ◌^◌, ◌≤◌, ◌<◌, ◌≡◌, refl, sym, ap, ap₂, ◌∙◌, some, arith, List, [], ◌∷◌, map,
}
use Prim.Native.String.{String}
use lan_video.Prelude.Assoc.{string_Eq, lookup, lookup-insert}
use native.Mathlib.Numerals.{add-one}
use lan_video.RateLimit.{
  Limits, Cache, Verdict, allowed, limited, check_memory, check_found, from_secs,
}
use lan_video.RateLimit.View.{View, age, spec, slot_view, idle, counting, blocked_till}
use lan_video.RateLimit.Memory.{ValidEntry, found-verdict, found-view, found-IsValid, slot_view-age}
use lan_video.RateLimit.Calls.{Call, check_key, memory_run, memory_call}

-- The key's view at an instant.
unfoldable pub view_at : String → ℕ → Cache → View
view_at key now cache = slot_view now (lookup key cache)

abbrev pub checks : String → List ℕ → List (ℕ × Call)
checks key = map λ t. (t, check_key key)

-- The instants stand in order, from `now` on and before `end`.
abbrev pub Within : ℕ → ℕ → List ℕ → Type 0
Within now end [] = Unit {0}
Within now end (t ∷ ts) = (now ≤ t) × (t < end) × Within t end ts

abbrev pub all_limited : List ℕ → List Verdict
all_limited [] = []
all_limited (t ∷ ts) = limited ∷ all_limited ts

-- `m` attempts pass, and the others do not.
abbrev pub granted : ℕ → List ℕ → List Verdict
granted m [] = []
granted zero (t ∷ ts) = limited ∷ all_limited ts
granted (suc m) (t ∷ ts) = allowed ∷ granted m ts

Within-mono : (now e u : ℕ) (ts : List ℕ) → e ≤ u → Within now e ts → Within now u ts
Within-mono now e u [] h w = tt
Within-mono now e u (t ∷ ts) h w = (w.0, omega arith, Within-mono t e u ts h w.2)

unblocked_view :
    (l : Limits) (now later n e : ℕ) {v : View}
    → l.block_secs ≡ 0
    → now ≤ later
    → (spec l now (counting n e)).1 ≡ limited
    → v ≡ age later (spec l now (counting n e)).0
    → v ≡ idle
unfolding spec age
unblocked_view l now later n e b w r h = ground arith

module _ (l : Limits) (fits : l.max_attempts < 2 ^ 32) (key : String) where
  lookup_after :
      (now : ℕ) (cache : Cache)
      → lookup key (check_memory l now key cache).0 ≡ some (check_found l now (lookup key cache)).0
  unfolding check_memory
  lookup_after now cache =
      lookup-insert key key (check_found l now (lookup key cache)).0 cache
      ∙ rw ((string_Eq.beq_iff key key).1 refl) refl

  -- A check of a key answers as the contract says, and leaves the key in the state that the
  -- contract says, at any later instant; the key stays well formed.
  pub check_memory_lem :
      (now later : ℕ) (cache : Cache)
      → now ≤ later
      → ValidEntry l (lookup key cache)
      → ((check_memory l now key cache).1 ≡ (spec l now (view_at key now cache)).1)
        × (view_at key later (check_memory l now key cache).0
            ≡ age later (spec l now (view_at key now cache)).0)
        × ValidEntry l (lookup key (check_memory l now key cache).0)
  unfolding view_at
  check_memory_lem now later cache w v = (
    unfold check_memory in found-verdict l now (lookup key cache) fits v,
    rw (lookup_after now cache) (found-view l now later (lookup key cache) fits w v),
    rw (lookup_after now cache) (found-IsValid l now (lookup key cache) v),
  )

  view_later :
      (now later : ℕ) (cache : Cache)
      → now ≤ later
      → view_at key later cache ≡ age later (view_at key now cache)
  unfolding view_at
  view_later now later cache w = slot_view-age now later (lookup key cache) w

  blocked_run :
      (now u : ℕ) (ts : List ℕ) (cache : Cache)
      → ValidEntry l (lookup key cache)
      → view_at key now cache ≡ blocked_till u
      → Within now u ts
      → memory_run (λ _. l) cache (checks key ts) ≡ all_limited ts
  unfolding memory_run memory_call
  blocked_run now u [] cache v e w = refl
  blocked_run now u (t ∷ ts) cache v e w =
      let b : view_at key t cache ≡ blocked_till u =
        view_later now t cache w.0 ∙ ap (age t) e ∙ unfold age in ground arith in
      let c = check_memory_lem t t cache (omega arith) v in
      ap₂ ◌∷◌ (c.0 ∙ ap (λ x. (spec l t x).1) b ∙ unfold spec in refl) (
        blocked_run t u ts (check_memory l t key cache).0 c.2
          (c.1 ∙ ap (λ x. age t (spec l t x).0) b ∙ unfold spec age in ground arith) w.2)

  counting_step :
      (now n e : ℕ) (cache : Cache)
      → ValidEntry l (lookup key cache)
      → view_at key now cache ≡ counting n e
      → now < e
      → n + 1 < l.max_attempts
      → ((check_memory l now key cache).1 ≡ allowed)
        × (view_at key now (check_memory l now key cache).0 ≡ counting (n + 1) e)
        × ValidEntry l (lookup key (check_memory l now key cache).0)
  counting_step now n e cache v h w b =
      let c = check_memory_lem now now cache (omega arith) v in
      (c.0 ∙ rw h (unfold spec in ground arith), c.1 ∙ rw h (unfold spec age in ground arith), c.2)

  exceeding_step :
      (now n e : ℕ) (cache : Cache)
      → ValidEntry l (lookup key cache)
      → view_at key now cache ≡ counting n e
      → l.max_attempts ≤ n + 1
      → 0 < l.block_secs
      → ((check_memory l now key cache).1 ≡ limited)
        × (view_at key now (check_memory l now key cache).0
            ≡ blocked_till (now + from_secs l.block_secs))
        × ValidEntry l (lookup key (check_memory l now key cache).0)
  exceeding_step now n e cache v h w b =
      let c = check_memory_lem now now cache (omega arith) v in
      (c.0 ∙ rw h (unfold spec in ground arith), c.1 ∙ rw h (unfold spec age in ground arith), c.2)

  counting_run :
      (now n m e : ℕ) (ts : List ℕ) (cache : Cache)
      → ValidEntry l (lookup key cache)
      → view_at key now cache ≡ counting n e
      → n + m + 1 ≡ l.max_attempts
      → 0 < l.block_secs
      → e ≤ now + from_secs l.block_secs
      → Within now e ts
      → memory_run (λ _. l) cache (checks key ts) ≡ granted m ts
  unfolding memory_run memory_call
  counting_run now n m e [] cache v h s b g w = refl
  counting_run now n zero e (t ∷ ts) cache v h s b g w =
      let at : view_at key t cache ≡ counting n e =
        view_later now t cache w.0 ∙ ap (age t) h ∙ unfold age in ground arith in
      let c = exceeding_step t n e cache v at (omega arith) b in
      ap₂ ◌∷◌ c.0 (
        blocked_run t (t + from_secs l.block_secs) ts (check_memory l t key cache).0 c.2 c.1
          (Within-mono t e (t + from_secs l.block_secs) ts (omega arith) w.2))
  counting_run now n (suc m) e (t ∷ ts) cache v h s b g w =
      let at : view_at key t cache ≡ counting n e =
        view_later now t cache w.0 ∙ ap (age t) h ∙ unfold age in ground arith in
      let c = counting_step t n e cache v at w.1 (omega arith) in
      ap₂ ◌∷◌ c.0 (
        counting_run t (n + 1) m e ts (check_memory l t key cache).0 c.2 c.1 (omega arith) b
          (omega arith) w.2)

  -- Of the attempts on an idle key in one window, of any number and at any instants in order, the
  -- first `max_attempts` - 1 are let through and all the others are refused, if a block is at
  -- least as long as a window, a window has a length, and two attempts are the least limit.
  pub window_budget :
      (now m : ℕ) (ts : List ℕ) (cache : Cache)
      → ValidEntry l (lookup key cache)
      → view_at key now cache ≡ idle
      → l.max_attempts ≡ m + 2
      → 0 < l.window_secs
      → l.window_secs ≤ l.block_secs
      → Within now (now + from_secs l.window_secs) ts
      → memory_run (λ _. l) cache (checks key (now ∷ ts)) ≡ granted (m + 1) (now ∷ ts)
  unfolding memory_run memory_call
  window_budget now m ts cache v h s a b w =
      let e : ℕ = now + from_secs l.window_secs in
      let c = check_memory_lem now now cache (omega arith) v in
      let p : (check_memory l now key cache).1 ≡ allowed =
        c.0 ∙ rw h (unfold spec in ground arith) in
      let q : view_at key now (check_memory l now key cache).0 ≡ counting 1 e =
        c.1 ∙ rw h (unfold spec age in ground arith) in
      rw add-one (
        ap₂ ◌∷◌ p (
          counting_run now 1 m e ts (check_memory l now key cache).0 c.2 q (omega arith)
            (omega arith) (omega arith) w))

  -- After the attempt that exceeds the limit, each attempt before the block ends is refused.
  pub block_holds :
      (now n e : ℕ) (ts : List ℕ) (cache : Cache)
      → ValidEntry l (lookup key cache)
      → view_at key now cache ≡ counting n e
      → l.max_attempts ≤ n + 1
      → 0 < l.block_secs
      → Within now (now + from_secs l.block_secs) ts
      → memory_run (λ _. l) cache (checks key (now ∷ ts)) ≡ all_limited (now ∷ ts)
  unfolding memory_run memory_call
  block_holds now n e ts cache v h s b w =
      let c = exceeding_step now n e cache v h s b in
      ap₂ ◌∷◌ c.0 (
        blocked_run now (now + from_secs l.block_secs) ts (check_memory l now key cache).0 c.2 c.1
          w)

  -- Under limits with no block an attempt that is refused leaves its key as one never seen: the
  -- next attempt, at the same instant or later, is answered as the first one of an idle key is.
  pub unblocked_restart :
      (now later n e : ℕ) (cache : Cache)
      → ValidEntry l (lookup key cache)
      → view_at key now cache ≡ counting n e
      → l.block_secs ≡ 0
      → now ≤ later
      → (check_memory l now key cache).1 ≡ limited
      → (view_at key later (check_memory l now key cache).0 ≡ idle)
        × ((check_memory l later key (check_memory l now key cache).0).1 ≡ (spec l later idle).1)
  unblocked_restart now later n e cache v h b w r =
      let c = check_memory_lem now later cache w v in
      let i : view_at key later (check_memory l now key cache).0 ≡ idle =
        unblocked_view l now later n e b w (sym (ap (λ x. (spec l now x).1) h) ∙ sym c.0 ∙ r)
          (c.1 ∙ ap (λ x. age later (spec l now x).0) h) in
      let d = check_memory_lem later later (check_memory l now key cache).0 (omega arith) c.2 in
      (i, d.0 ∙ ap (λ x. (spec l later x).1) i)
