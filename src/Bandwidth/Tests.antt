-- ===== src/Bandwidth/Tests.antt =====
-- Requests of an address with their charges.
use lan_video.Prelude.{ℕ, ◌*◌, ◌≤◌, ◌≡◌, refl, some, [], ◌∷◌, arith}
use lan_video.Prelude.Texts.{text_eq}
use lan_video.Prelude.Cuts.{codes}
use lan_video.Bandwidth.{
  max_bytes, approx_bytes, open_ended_range_charge_bytes, max_range_charge_bytes,
  no_range_charge_bytes,
}
use lan_video.Bandwidth.Budget.{Request, granted_to, after, new, granted_to-twice}

open_range : approx_bytes (some (codes "bytes=100-")) ≡ open_ended_range_charge_bytes
unfolding approx_bytes
open_range = refl

long_range : approx_bytes (some (codes "bytes=0-99999999")) ≡ max_range_charge_bytes
unfolding approx_bytes
long_range = refl

suffix_range : approx_bytes (some (codes "bytes=-500")) ≡ no_range_charge_bytes
unfolding approx_bytes
suffix_range = refl

abbrev asks : ℕ → Request
asks t = record { now = t; ip = codes "10.0.0.7"; bytes = 500000000 }

-- Of the two only the one behind the end of the window is granted.
two_windows :
    granted_to (codes "10.0.0.7") (asks 900000000 ∷ asks 1000000000 ∷ []) (after (asks 0 ∷ []) new)
    ≡ 500000000
unfolding granted_to after text_eq
two_windows = refl

granted_to-twice_example :
    granted_to (codes "10.0.0.7") (asks 900000000 ∷ asks 1000000000 ∷ []) (after (asks 0 ∷ []) new)
    ≤ 2 * max_bytes
granted_to-twice_example =
    granted_to-twice 900000000 (codes "10.0.0.7") (asks 0 ∷ [])
      (asks 900000000 ∷ asks 1000000000 ∷ [])
      (omega arith, omega arith, (omega arith, omega arith, omega arith))
