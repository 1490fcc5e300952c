-- ===== src/Gateway.antt =====
-- backend/src/services/gateway_service.rs: the tables of the sign-in through the gateway, and the
-- coding of URLs. The random texts, the clock and what the gateway answers are inputs. An instant is
-- a number of nanoseconds.
pub mod Url
pub mod Tickets
pub mod Bounds
mod Tests
use Prim.Native.String.{String}
use lan_video.Prelude.{
  ℕ, ◌*◌, ◌-◌, ltb, leb, Bool, true, false, Option, none, some, List, [], ◌∷◌, length,
  if◌then◌else◌,
}
use lan_video.Prelude.Assoc.{string_Eq, lookup, remove, insert, retain}

abbrev pub pending_ttl_secs : ℕ
pending_ttl_secs = 600

abbrev pub pending_max_entries : ℕ
pending_max_entries = 10000

abbrev pub exchange_ttl_secs : ℕ
exchange_ttl_secs = 30

abbrev pub exchange_max_entries : ℕ
exchange_max_entries = 10000

-- `Duration::from_secs`.
abbrev pub from_secs : ℕ → ℕ
from_secs n = n * 1000000000

pub record PendingAuth : Type 0 where
  pub verifier : String
  pub created_at : ℕ

-- An entry of `ExchangeMap`: the token and when it was put there.
pub record Exchange : Type 0 where
  pub token : String
  pub issued_at : ℕ

-- PENDING and EXCHANGES.
pub record Gateway : Type 0 where
  pub pending : List (String × PendingAuth)
  pub exchanges : List (String × Exchange)

-- `created_at.elapsed() < Duration::from_secs(...)`.
unfoldable pub fresh_pending : ℕ → PendingAuth → Bool
fresh_pending now p = ltb (now - p.created_at) (from_secs pending_ttl_secs)

unfoldable pub fresh_exchange : ℕ → Exchange → Bool
fresh_exchange now x = ltb (now - x.issued_at) (from_secs exchange_ttl_secs)

unfoldable pub gc_pending : ℕ → Gateway → Gateway
unfolding fresh_pending retain
gc_pending now g = record g { pending = retain (fresh_pending now) g.pending }

unfoldable pub gc_exchanges : ℕ → Gateway → Gateway
unfolding fresh_exchange retain
gc_exchanges now g = record g { exchanges = retain (fresh_exchange now) g.exchanges }

-- The key and the instant of the oldest entry: of equal ones the first.
unfoldable pub older : String → ℕ → Option (String × ℕ) → String × ℕ
older k t none = (k, t)
older k t (some (j, u)) = if leb t u then (k, t) else (j, u)

unfoldable pub oldest : List (String × Exchange) → Option (String × ℕ)
unfolding older
oldest [] = none
oldest ((k, x) ∷ m) = some (older k x.issued_at (oldest m))

remove_key : Option (String × ℕ) → List (String × Exchange) → List (String × Exchange) × Bool
unfolding remove
remove_key none m = (m, false)
remove_key (some (k, t)) m = (remove k m, true)

unfoldable pub evict_oldest_exchange : List (String × Exchange) → List (String × Exchange) × Bool
unfolding remove_key oldest
evict_oldest_exchange m = remove_key (oldest m) m

-- The table of `start`: `false` if it is full.
unfoldable pub admit_start : ℕ → String → String → Gateway → Gateway × Bool
unfolding insert
admit_start now state verifier g =
    if leb pending_max_entries (length g.pending) then (g, false) else (
      record g {
        pending = insert state (record { verifier = verifier; created_at = now }) g.pending;
      },
      true,
    )

unfoldable pub start : ℕ → String → String → Gateway → Gateway × Bool
unfolding admit_start gc_pending
start now state verifier g = admit_start now state verifier (gc_pending now g)

unfoldable pub valid_pending : ℕ → Option PendingAuth → Option String
unfolding fresh_pending
valid_pending now none = none
valid_pending now (some p) = if fresh_pending now p then some p.verifier else none

-- `callback` takes the entry of its state out of PENDING: the verifier, or `none` for
-- `state_invalid_or_expired`.
unfoldable pub take_pending : ℕ → String → Gateway → Gateway × Option String
unfolding valid_pending remove lookup
take_pending now state g =
    (record g { pending = remove state g.pending }, valid_pending now (lookup state g.pending))

-- `callback` puts a token under a new exchange code.
unfoldable pub make_room : List (String × Exchange) → List (String × Exchange)
unfolding evict_oldest_exchange
make_room m = if leb exchange_max_entries (length m) then (evict_oldest_exchange m).0 else m

unfoldable pub put_exchange : ℕ → String → String → Gateway → Gateway
unfolding make_room insert
put_exchange now code token g = record g {
  exchanges = insert code (record { token = token; issued_at = now }) (make_room g.exchanges);
}

unfoldable pub issue : ℕ → String → String → Gateway → Gateway
unfolding put_exchange gc_exchanges
issue now code token g = put_exchange now code token (gc_exchanges now g)

unfoldable pub valid_exchange : ℕ → Option Exchange → Option String
unfolding fresh_exchange
valid_exchange now none = none
valid_exchange now (some x) = if fresh_exchange now x then some x.token else none

-- `exchange`, for a code that is not empty: the token, or `none` for a bad request.
unfoldable pub exchange : ℕ → String → Gateway → Gateway × Option String
unfolding valid_exchange remove lookup
exchange now code g =
    (record g { exchanges = remove code g.exchanges }, valid_exchange now (lookup code g.exchanges))
