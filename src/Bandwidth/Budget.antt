-- ===== src/Bandwidth/Budget.antt =====
-- What an address is granted within a second.
use lan_video.Prelude.{
  ℕ, ◌+◌, ◌-◌, ◌*◌, ◌≤◌, ◌<◌, ◌≡◌, refl, sym, ◌∙◌, subst, Bool, true, false, ltb, leb, Option, none,
  some, List, [], ◌∷◌, arith, inl, inr, Bool-cases, if◌then◌else◌,
}
use lan_video.Prelude.Assoc.{◌=?◌, filter, lookup, insert, lookup-insert, lookup-retain}
use lan_video.Prelude.Texts.{Text, text_Eq}
use lan_video.Bandwidth.{
  Bucket, IpBandwidth, max_bytes, window, saturating_add, cleanup, tidy, bucket_at, charge, check,
}

pub record Request : Type 0 where
  pub now : ℕ
  pub ip : Text
  pub bytes : ℕ

abbrev pub granted : Bool → ℕ → ℕ
granted b n = if b then n else 0

-- The bytes that an address is granted over a sequence of requests.
unfoldable pub granted_to : Text → List Request → IpBandwidth → ℕ
unfolding check
granted_to ip [] w = 0
granted_to ip (r ∷ rs) w =
    let (w', ok) = check r.now r.ip r.bytes w in
    let rest = granted_to ip rs w' in granted (ok) (if r.ip =? ip then r.bytes else 0) + rest

-- All the requests come within the second from an instant on.
abbrev pub Within : ℕ → List Request → Type 0
Within from [] = 0 ≤ from
Within from (r ∷ rs) = (from ≤ r.now) × (r.now < from + window) × Within from rs

-- What a bucket still allows within the second: its rest, and one more window if it ends in time.
unfoldable pub allowance : ℕ → Option Bucket → ℕ
allowance from none = max_bytes
allowance from (some b) =
    if leb (from + window) b.reset_at then max_bytes - b.bytes else 2 * max_bytes - b.bytes

abbrev pub Filled : Option Bucket → Type 0
Filled none = 0 ≤ 0
Filled (some b) = b.bytes ≤ max_bytes

-- The buckets after a sequence of requests.
unfoldable pub after : List Request → IpBandwidth → IpBandwidth
unfolding check
after [] w = w
after (r ∷ rs) w = after rs (check r.now r.ip r.bytes w).0

abbrev pub new : IpBandwidth
new = record { buckets = []; ops_since_cleanup = 0 }

filter-Filled :
    (now : ℕ) (o : Option Bucket) → Filled o → Filled (filter (λ b. ltb now b.reset_at) o)
filter-Filled now none h = h
filter-Filled now (some b) h = elim (Bool-cases (ltb now b.reset_at)) [
  | inl e ↦ rw e h
  | inr e ↦ rw e (omega arith)
]

filter-allowance :
    (from now : ℕ) (o : Option Bucket)
    → now < from + window
    → Filled o
    → allowance from (filter (λ b. ltb now b.reset_at) o) ≤ allowance from o
unfolding allowance
filter-allowance from now none t h = omega arith
filter-allowance from now (some b) t h = ground arith

tidy-lookup :
    (now : ℕ) (ip : Text) (w : IpBandwidth) (P : Option Bucket → Type 0)
    → P (lookup ip w.buckets)
    → P (filter (λ b. ltb now b.reset_at) (lookup ip w.buckets))
    → P (lookup ip (tidy now w).buckets)
unfolding tidy cleanup
tidy-lookup now ip w P h k = elim (Bool-cases (leb 10000 w.ops_since_cleanup)) [
  | inl e ↦ rw (e, tidy) (subst P (sym (lookup-retain (λ b. ltb now b.reset_at) ip w.buckets)) k)
  | inr e ↦ rw (e, tidy) h
]

bucket_at-Filled : (now : ℕ) (o : Option Bucket) → Filled o → (bucket_at now o).bytes ≤ max_bytes
unfolding bucket_at
bucket_at-Filled now none h = omega arith
bucket_at-Filled now (some b) h = ground arith

bucket_at-allowance :
    (from now : ℕ) (o : Option Bucket)
    → from ≤ now
    → now < from + window
    → Filled o
    → allowance from (some (bucket_at now o)) ≤ allowance from o
unfolding bucket_at allowance
bucket_at-allowance from now none l t h = ground arith
bucket_at-allowance from now (some b) l t h = ground arith

charge-other :
    (ip j : Text) (n : ℕ) (b : Bucket) (w : IpBandwidth)
    → (j =? ip) ≡ false
    → lookup ip (charge j n b w).0.buckets ≡ lookup ip w.buckets
unfolding charge
charge-other ip j n b w h = elim (Bool-cases (ltb max_bytes (saturating_add b.bytes n))) [
  | inl e ↦ rw (e, charge) (lookup-insert j ip b w.buckets ∙ rw h refl)
  | inr e ↦
      rw (e, charge)
        (lookup-insert j ip (record b { bytes = saturating_add b.bytes n }) w.buckets ∙ rw h refl)
]

lookup-own :
    (ip : Text) (b : Bucket) (m : List (Text × Bucket)) → lookup ip (insert ip b m) ≡ some b
lookup-own ip b m = lookup-insert ip ip b m ∙ rw ((text_Eq.beq_iff ip ip).1 refl) refl

-- What is granted comes off the allowance.
abbrev Paid : ℕ → ℕ → ℕ → Option Bucket → Type 0
Paid from whole n o = (allowance from o + n ≤ whole) × Filled o

refused-Paid :
    (from : ℕ) (b : Bucket) → b.bytes ≤ max_bytes → Paid from (allowance from (some b)) 0 (some b)
refused-Paid from b h = (omega arith, h)

admitted-Paid :
    (from n : ℕ) (b : Bucket)
    → b.bytes ≤ max_bytes
    → ltb max_bytes (saturating_add b.bytes n) ≡ false
    → Paid from (allowance from (some b)) n (some (record b { bytes = saturating_add b.bytes n }))
unfolding allowance saturating_add
admitted-Paid from n b h e = (ground arith, ground arith)

charge-own :
    (from : ℕ) (ip : Text) (n : ℕ) (b : Bucket) (w : IpBandwidth)
    → b.bytes ≤ max_bytes
    → Paid from
        (allowance from (some b))
        (granted (charge ip n b w).1 n)
        (lookup ip (charge ip n b w).0.buckets)
unfolding charge
charge-own from ip n b w h = elim (Bool-cases (ltb max_bytes (saturating_add b.bytes n))) [
  | inl e ↦
      rw (e, charge)
        (subst (Paid from (allowance from (some b)) 0) (sym (lookup-own ip b w.buckets))
          (refused-Paid from b h))
  | inr e ↦
      rw (e, charge)
        (subst (Paid from (allowance from (some b)) n)
          (sym (lookup-own ip (record b { bytes = saturating_add b.bytes n }) w.buckets))
          (admitted-Paid from n b h e))
]

Paid-under :
    (from low high n : ℕ) (o : Option Bucket) → low ≤ high → Paid from low n o → Paid from high n o
Paid-under from low high n o h (a, b) = (omega arith, b)

granted_none : (b : Bool) → granted b 0 ≡ 0
granted_none true = refl
granted_none false = refl

-- Both what `tidy` leaves of a bucket is filled, and its allowance has not grown.
Kept : ℕ → Option Bucket → Option Bucket → Type 0
Kept from o o' = (allowance from o' ≤ allowance from o) × Filled o'

tidy-Kept :
    (from now : ℕ) (ip : Text) (w : IpBandwidth)
    → now < from + window
    → Filled (lookup ip w.buckets)
    → Kept from (lookup ip w.buckets) (lookup ip (tidy now w).buckets)
unfolding Kept
tidy-Kept from now ip w t h =
    tidy-lookup now ip w (Kept from (lookup ip w.buckets)) (omega arith, h)
      (
        filter-allowance from now (lookup ip w.buckets) t h,
        filter-Filled now (lookup ip w.buckets) h,
      )

check-own :
    (from now : ℕ) (ip : Text) (n : ℕ) (w : IpBandwidth)
    → from ≤ now
    → now < from + window
    → Filled (lookup ip w.buckets)
    → Paid from
        (allowance from (lookup ip w.buckets))
        (granted (check now ip n w).1 n)
        (lookup ip (check now ip n w).0.buckets)
unfolding check Kept
check-own from now ip n w l t h =
    let (less, full) = tidy-Kept from now ip w t h in
    let o = lookup ip (tidy now w).buckets in
    let under = bucket_at-allowance from now o l t full in
    Paid-under from (allowance from (some (bucket_at now o))) (allowance from (lookup ip w.buckets))
      _ _ (omega (arith, under, less))
      (charge-own from ip n (bucket_at now o) (tidy now w) (bucket_at-Filled now o full))

check-other :
    (from now : ℕ) (ip j : Text) (n : ℕ) (w : IpBandwidth)
    → (j =? ip) ≡ false
    → now < from + window
    → Filled (lookup ip w.buckets)
    → Paid from (allowance from (lookup ip w.buckets)) 0 (lookup ip (check now j n w).0.buckets)
unfolding check Kept
check-other from now ip j n w e t h =
    let (less, full) = tidy-Kept from now ip w t h in
    subst (Paid from (allowance from (lookup ip w.buckets)) 0)
      (sym (charge-other ip j n (bucket_at now (lookup j (tidy now w).buckets)) (tidy now w) e))
      (omega (arith, less), full)

-- The bytes of a request that count for an address.
abbrev pub of_ip : Text → Request → ℕ
of_ip ip r = if r.ip =? ip then r.bytes else 0

check-Paid :
    (from : ℕ) (ip : Text) (r : Request) (w : IpBandwidth)
    → from ≤ r.now
    → r.now < from + window
    → Filled (lookup ip w.buckets)
    → Paid from
        (allowance from (lookup ip w.buckets))
        (granted (check r.now r.ip r.bytes w).1 (of_ip ip r))
        (lookup ip (check r.now r.ip r.bytes w).0.buckets)
check-Paid from ip r w l t h = elim (Bool-cases (r.ip =? ip)) [
  | inl e ↦ rw e (
      subst
        (λ x.
          Filled (lookup x w.buckets)
          → Paid from (allowance from (lookup x w.buckets))
              (granted (check r.now r.ip r.bytes w).1 r.bytes)
              (lookup x (check r.now r.ip r.bytes w).0.buckets))
        ((text_Eq.beq_iff r.ip ip).0 e) (check-own from r.now r.ip r.bytes w l t) h)
  | inr e ↦
      rw (e, granted_none (check r.now r.ip r.bytes w).1)
        (check-other from r.now ip r.ip r.bytes w e t h)
]

granted_to-allowance :
    (from : ℕ) (ip : Text) (rs : List Request) (w : IpBandwidth)
    → Within from rs
    → Filled (lookup ip w.buckets)
    → granted_to ip rs w ≤ allowance from (lookup ip w.buckets)
unfolding granted_to
granted_to-allowance from ip [] w i h = omega arith
granted_to-allowance from ip (r ∷ rs) w (l, t, i) h =
    let (paid, full) = check-Paid from ip r w l t h in
    let rest = granted_to-allowance from ip rs (check r.now r.ip r.bytes w).0 i full in
    omega (arith, paid, rest)

after-Filled :
    (ip : Text) (rs : List Request) (w : IpBandwidth)
    → Filled (lookup ip w.buckets)
    → Filled (lookup ip (after rs w).buckets)
unfolding after
after-Filled ip [] w h = h
after-Filled ip (r ∷ rs) w h =
    after-Filled ip rs (check r.now r.ip r.bytes w).0
      (check-Paid r.now ip r w (omega arith) (omega arith) h).1

allowance-twice : (from : ℕ) (o : Option Bucket) → allowance from o ≤ 2 * max_bytes
unfolding allowance
allowance-twice from none = omega arith
allowance-twice from (some b) = ground arith

-- After any requests, at any times, an address is granted at most twice the bytes of a second by
-- the requests that come within one second, whatever they ask for and whoever else asks in between.
pub granted_to-twice :
    (from : ℕ) (ip : Text) (earlier rs : List Request)
    → Within from rs
    → granted_to ip rs (after earlier new) ≤ 2 * max_bytes
unfolding lookup
granted_to-twice from ip earlier rs i =
    let own =
      granted_to-allowance from ip rs (after earlier new) i
        (after-Filled ip earlier new (omega arith)) in
    omega (arith, own, allowance-twice from (lookup ip (after earlier new).buckets))
