-- ===== src/Gateway/Tests.antt =====
-- The gateway's tables and URLs at chosen inputs.
use lan_video.Prelude.{◌≡◌, refl, arith, none, [], ◌∷◌}
use lan_video.Gateway.{Gateway, exchange}
use lan_video.Gateway.Url.{urlencode, urldecode, urldecode-urlencode}
use lan_video.Gateway.Tickets.{started, issued, run, gives, exchange_once}
use lan_video.Gateway.Bounds.{Bounded, run-Bounded}

abbrev one_code : Gateway
one_code = record { pending = []; exchanges = ("c", record { token = "t"; issued_at = 5 }) ∷ [] }

urldecode-urlencode_example : urldecode (urlencode (38 ∷ 65 ∷ [])) ≡ 38 ∷ 65 ∷ []
urldecode-urlencode_example = urldecode-urlencode (38 ∷ 65 ∷ []) (omega arith, (omega arith, tt))

exchange_once_example :
    (exchange 9 "c" (run (issued 7 "d" "u" ∷ []) (exchange 6 "c" one_code).0)).1 ≡ none
unfolding gives
exchange_once_example = exchange_once 6 9 "c" (issued 7 "d" "u" ∷ []) one_code (refl, tt)

run-Bounded_example : Bounded (run (started 1 "s" "w" ∷ issued 7 "d" "u" ∷ []) one_code)
run-Bounded_example =
    run-Bounded (started 1 "s" "w" ∷ issued 7 "d" "u" ∷ []) one_code (omega arith, omega arith)
