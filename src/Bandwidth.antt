-- ===== src/Bandwidth.antt =====
-- The bandwidth of an address, of backend/src/middleware/upload_bandwidth.rs: what a request is
-- charged, and the buckets. An instant is a number of nanoseconds.
pub mod Budget
mod Tests
use lan_video.Prelude.{
  ℕ, suc, ◌+◌, ◌-◌, ◌≤◌, ltb, leb, ◌==◌, Bool, true, false, Option, none, some, List, [], ◌∷◌,
  if◌then◌else◌,
}
use lan_video.Prelude.Assoc.{lookup, insert, retain}
use lan_video.Prelude.Texts.{Text, text_Eq, text_eq}
use lan_video.Prelude.Cuts.{codes, strip_prefix, before, split_once, trim, parse_digits}

-- MAX_BYTES_PER_SEC_PER_IP, and WINDOW_SECS in nanoseconds.
abbrev pub max_bytes : ℕ
max_bytes = 524288000

abbrev pub window : ℕ
window = 1000000000

abbrev pub cleanup_interval : ℕ
cleanup_interval = 10000

abbrev pub no_range_charge_bytes : ℕ
no_range_charge_bytes = 524288

abbrev pub open_ended_range_charge_bytes : ℕ
open_ended_range_charge_bytes = 8388608

abbrev pub min_range_charge_bytes : ℕ
min_range_charge_bytes = 262144

abbrev pub max_range_charge_bytes : ℕ
max_range_charge_bytes = 4194304

abbrev pub u64_max : ℕ
u64_max = 18446744073709551615

pub record Bucket : Type 0 where
  pub bytes : ℕ
  pub reset_at : ℕ

-- `IpBandwidth`.
pub record IpBandwidth : Type 0 where
  pub buckets : List (Text × Bucket)
  pub ops_since_cleanup : ℕ

unfoldable pub saturating_add : ℕ → ℕ → ℕ
saturating_add a b = if leb (a + b) u64_max then a + b else u64_max

unfoldable pub cleanup : ℕ → List (Text × Bucket) → List (Text × Bucket)
unfolding retain
cleanup now m = retain (λ b. ltb now b.reset_at) m

unfoldable pub tidy : ℕ → IpBandwidth → IpBandwidth
unfolding cleanup
tidy now w =
    if leb cleanup_interval w.ops_since_cleanup
    then record { buckets = cleanup now w.buckets; ops_since_cleanup = 0 }
    else record w { ops_since_cleanup = suc w.ops_since_cleanup }

-- The bucket that a request is charged to: the address's own, begun again at its end, or a new one.
unfoldable pub bucket_at : ℕ → Option Bucket → Bucket
bucket_at now none = record { bytes = 0; reset_at = now + window }
bucket_at now (some b) =
    if leb b.reset_at now then record { bytes = 0; reset_at = now + window } else b

unfoldable pub charge : Text → ℕ → Bucket → IpBandwidth → IpBandwidth × Bool
unfolding insert saturating_add
charge ip bytes b w =
    if ltb max_bytes (saturating_add b.bytes bytes)
    then (record w { buckets = insert ip b w.buckets }, false)
    else (
      record w {
        buckets = insert ip (record b { bytes = saturating_add b.bytes bytes }) w.buckets;
      },
      true,
    )

unfoldable pub check : ℕ → Text → ℕ → IpBandwidth → IpBandwidth × Bool
unfolding charge bucket_at tidy lookup
check now ip bytes w = charge ip bytes (bucket_at now (lookup ip (tidy now w).buckets)) (tidy now w)

abbrev and_then {ℓ κ} : {A : Type ℓ} {B : Type κ} → Option A → (A → Option B) → Option B
and_then none f = none
and_then (some a) f = f a

-- `parse::<u64>().ok()`.
unfoldable pub parse_u64 : Text → Option ℕ
unfolding parse_digits
parse_u64 [] = none
parse_u64 (c ∷ t) = elim (if c == b'+' then parse_digits t else parse_digits (c ∷ t)) [
  | none ↦ none
  | some n ↦ if leb n u64_max then some n else none
]

unfoldable pub clamped : ℕ → ℕ
clamped size =
    if ltb size min_range_charge_bytes
    then min_range_charge_bytes
    else if ltb max_range_charge_bytes size
    then max_range_charge_bytes
    else size

unfoldable pub finite_or_open : ℕ → Text → Option ℕ
unfolding trim text_eq parse_u64 clamped
finite_or_open start end_str =
    if text_eq (trim end_str) []
    then some open_ended_range_charge_bytes
    else and_then (parse_u64 end_str) (λ end. some (clamped (end - start)))

range_charge : Text × Text → Option ℕ
unfolding parse_u64 finite_or_open
range_charge (start_str, end_str) =
    and_then (parse_u64 start_str) (λ start. finite_or_open start end_str)

unfoldable pub approx_range_bytes : Text → Option ℕ
unfolding strip_prefix split_once trim before range_charge
approx_range_bytes s =
    and_then (strip_prefix (codes "bytes=") s)
      (λ bytes. and_then (split_once b'-' (trim (before b',' bytes))) range_charge)

-- What a request is charged, by its range.
unfoldable pub approx_bytes : Option Text → ℕ
unfolding approx_range_bytes
approx_bytes range = elim (and_then range approx_range_bytes) [
  | none ↦ no_range_charge_bytes
  | some n ↦ n
]

-- `bandwidth_throttle`: whether the request goes on. One without an address is not charged.
unfoldable pub bandwidth_throttle : ℕ → Text → Option Text → IpBandwidth → IpBandwidth × Bool
unfolding text_eq check approx_bytes
bandwidth_throttle now client_ip range w =
    if text_eq client_ip (codes "unknown")
    then (w, true)
    else check now client_ip (approx_bytes range) w
