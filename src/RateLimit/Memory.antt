-- ===== src/RateLimit/Memory.antt =====
-- The cache in memory keeps the contract of a key.
use lan_video.Prelude.{ℕ, ◌^◌, ◌≤◌, ◌<◌, ◌≡◌, refl, Option, none, some, false, arith, ◌∙◌}
use lan_video.Prelude.Assoc.{string_Eq}
use lan_video.RateLimit.{Limits, Slot, check_slot, fresh_slot, check_found, saturating_incr, keeps}
use lan_video.RateLimit.View.{age, spec, slot_view, block_view, idle}

-- A count that is not blocked lies below the limit.
pub record IsValid (l : Limits) (s : Slot) : Type 0 where
  pub below : s.entry.blocked_until ≡ none → s.entry.count < l.max_attempts

abbrev pub ValidEntry : Limits → Option Slot → Type 0
ValidEntry l none = Unit {0}
ValidEntry l (some s) = IsValid l s

check_slot-verdict :
    (l : Limits) (now : ℕ) (s : Slot) (b : Option ℕ)
    → s.entry.blocked_until ≡ b
    → l.max_attempts < 2 ^ 32
    → IsValid l s
    → (check_slot l now s).1 ≡ (spec l now (slot_view now (some s))).1
unfolding check_slot spec slot_view saturating_incr
check_slot-verdict l now s none e h v = ground arith
check_slot-verdict l now s (some u) e h v = ground arith

check_slot-view :
    (l : Limits) (now later : ℕ) (s : Slot) (b : Option ℕ)
    → s.entry.blocked_until ≡ b
    → l.max_attempts < 2 ^ 32
    → now ≤ later
    → IsValid l s
    → slot_view later (some (check_slot l now s).0)
      ≡ age later (spec l now (slot_view now (some s))).0
unfolding check_slot spec slot_view saturating_incr
check_slot-view l now later s none e h w v = ground arith
check_slot-view l now later s (some u) e h w v = ground arith

check_slot-IsValid :
    (l : Limits) (now : ℕ) (s : Slot) (b : Option ℕ)
    → s.entry.blocked_until ≡ b
    → IsValid l s
    → IsValid l (check_slot l now s).0
unfolding check_slot saturating_incr
check_slot-IsValid l now s none e v = record { below = ground arith }
check_slot-IsValid l now s (some u) e v = record { below = ground arith }

-- `u32::saturating_add` never saturates
check_fresh-verdict :
    (l : Limits) (now : ℕ)
    → l.max_attempts < 2 ^ 32
    → (check_slot l now (fresh_slot l now)).1 ≡ (spec l now idle).1
unfolding check_slot fresh_slot spec saturating_incr
check_fresh-verdict l now h = ground arith

check_fresh-view :
    (l : Limits) (now later : ℕ)
    → l.max_attempts < 2 ^ 32
    → now ≤ later
    → slot_view later (some (check_slot l now (fresh_slot l now)).0) ≡ age later (spec l now idle).0
unfolding check_slot fresh_slot spec saturating_incr slot_view
check_fresh-view l now later h w = ground arith

check_fresh-IsValid : (l : Limits) (now : ℕ) → IsValid l (check_slot l now (fresh_slot l now)).0
unfolding check_slot fresh_slot saturating_incr
check_fresh-IsValid l now = record { below = ground arith }

pub found-verdict :
    (l : Limits) (now : ℕ) (o : Option Slot)
    → l.max_attempts < 2 ^ 32
    → ValidEntry l o
    → (check_found l now o).1 ≡ (spec l now (slot_view now o)).1
unfolding check_found
found-verdict l now none h v = check_fresh-verdict l now h ∙ unfold slot_view in refl
found-verdict l now (some s) h v = check_slot-verdict l now s s.entry.blocked_until refl h v

pub found-view :
    (l : Limits) (now later : ℕ) (o : Option Slot)
    → l.max_attempts < 2 ^ 32
    → now ≤ later
    → ValidEntry l o
    → slot_view later (some (check_found l now o).0) ≡ age later (spec l now (slot_view now o)).0
unfolding check_found
found-view l now later none h w v = check_fresh-view l now later h w ∙ unfold slot_view in refl
found-view l now later (some s) h w v =
    check_slot-view l now later s s.entry.blocked_until refl h w v

pub found-IsValid :
    (l : Limits) (now : ℕ) (o : Option Slot) → ValidEntry l o → IsValid l (check_found l now o).0
unfolding check_found
found-IsValid l now none v = check_fresh-IsValid l now
found-IsValid l now (some s) v = check_slot-IsValid l now s s.entry.blocked_until refl v

-- Time passing is all that happens to a view between two calls.
pub slot_view-age :
    (now later : ℕ) (o : Option Slot)
    → now ≤ later
    → slot_view later o ≡ age later (slot_view now o)
unfolding slot_view
slot_view-age now later none w = refl
slot_view-age now later (some s) w = go s.entry.blocked_until
  where
    go :
        (b : Option ℕ)
        → block_view later s.entry.count s.expires_at b
          ≡ age later (block_view now s.entry.count s.expires_at b)
    go none = ground arith
    go (some u) = ground arith

pub keeps-view :
    (now : ℕ) (s : Slot) (b : Option ℕ)
    → s.entry.blocked_until ≡ b
    → keeps now s ≡ false
    → slot_view now (some s) ≡ idle
unfolding slot_view keeps
keeps-view now s none e h = ground arith
keeps-view now s (some u) e h = ground arith
