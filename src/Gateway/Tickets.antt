-- ===== src/Gateway/Tickets.antt =====
-- The one-time entries of backend/src/services/gateway_service.rs, over any sequence of requests.
use Prim.Native.String.{String}
use lan_video.Prelude.{
  ℕ, ◌-◌, ◌≡◌, refl, ◌∙◌, Bool, false, Option, none, some, List, [], ◌∷◌, ltb, if◌then◌else◌, arith,
}
use lan_video.Prelude.Assoc.{
  ◌=?◌, string_Eq, lookup, retain, lookup-remove, lookup-insert, lookup-retain,
}
use lan_video.Gateway.{
  Gateway, Exchange, exchange_ttl_secs, from_secs, gc_pending, gc_exchanges, fresh_exchange, oldest,
  evict_oldest_exchange, remove_key, admit_start, start, take_pending, make_room, put_exchange,
  issue, valid_exchange, exchange,
}

-- The requests that touch the tables, each at its instant.
pub data Event : Type 0 where
  started : ℕ → String → String → Event
  returned : ℕ → String → Event
  issued : ℕ → String → String → Event
  exchanged : ℕ → String → Event

unfoldable pub step : Event → Gateway → Gateway
step (started now state verifier) g = (start now state verifier g).0
step (returned now state) g = (take_pending now state g).0
step (issued now code token) g = issue now code token g
step (exchanged now code) g = (exchange now code g).0

unfoldable pub run : List Event → Gateway → Gateway
run [] g = g
run (e ∷ es) g = run es (step e g)

-- The code is not given out by the event.
unfoldable pub gives : String → Event → Bool
gives code (issued now c token) = c =? code
gives code _ = false

abbrev pub NotGiven : String → List Event → Type 0
NotGiven code [] = Unit {0}
NotGiven code (e ∷ es) = (gives code e ≡ false) × NotGiven code es

remove_key-none :
    (code : String) (o : Option (String × ℕ)) (m : List (String × Exchange))
    → lookup code m ≡ none
    → lookup code (remove_key o m).0 ≡ none
unfolding remove_key
remove_key-none code none m h = h
remove_key-none code (some (k, t)) m h = ground (arith, lookup-remove k code m)

make_room-none :
    (code : String) (m : List (String × Exchange))
    → lookup code m ≡ none
    → lookup code (make_room m) ≡ none
unfolding make_room evict_oldest_exchange
make_room-none code m h = ground (arith, remove_key-none code (oldest m) m h)

issue-none :
    (code : String) (now : ℕ) (c token : String) (g : Gateway)
    → (c =? code) ≡ false
    → lookup code g.exchanges ≡ none
    → lookup code (issue now c token g).exchanges ≡ none
unfolding issue put_exchange gc_exchanges
issue-none code now c token g n h =
    let m = retain (fresh_exchange now) g.exchanges in
    lookup-insert c code _ (make_room m)
    ∙ rw n (make_room-none code m (lookup-retain (fresh_exchange now) code g.exchanges ∙ rw h refl))

step-none :
    (code : String) (e : Event) (g : Gateway)
    → gives code e ≡ false
    → lookup code g.exchanges ≡ none
    → lookup code (step e g).exchanges ≡ none
unfolding step gives exchange start admit_start gc_pending take_pending
step-none code (started now state verifier) g n h = ground arith
step-none code (returned now state) g n h = h
step-none code (issued now c token) g n h = issue-none code now c token g n h
step-none code (exchanged now c) g n h = ground (arith, lookup-remove c code g.exchanges)

run-none :
    (code : String) (es : List Event) (g : Gateway)
    → NotGiven code es
    → lookup code g.exchanges ≡ none
    → lookup code (run es g).exchanges ≡ none
unfolding run
run-none code [] g n h = h
run-none code (e ∷ es) g n h = run-none code es (step e g) n.1 (step-none code e g n.0 h)

exchanged-none :
    (now : ℕ) (code : String) (g : Gateway) → lookup code (exchange now code g).0.exchanges ≡ none
unfolding exchange
exchanged-none now code g =
    ground (arith, lookup-remove code code g.exchanges, string_Eq.beq_iff code code)

exchange-none :
    (now : ℕ) (code : String) (g : Gateway)
    → lookup code g.exchanges ≡ none
    → (exchange now code g).1 ≡ none
unfolding exchange valid_exchange
exchange-none now code g h = rw h refl

-- An exchange code is good once: after an exchange, however it ended, and any requests that do not
-- give out the same code again, an exchange of the code at any time is refused.
pub exchange_once :
    (now later : ℕ) (code : String) (es : List Event) (g : Gateway)
    → NotGiven code es
    → (exchange later code (run es (exchange now code g).0)).1 ≡ none
exchange_once now later code es g n =
    exchange-none later code (run es (exchange now code g).0)
      (run-none code es (exchange now code g).0 n (exchanged-none now code g))

exchange-found :
    (later : ℕ) (code : String) (g : Gateway) (x : Exchange)
    → lookup code g.exchanges ≡ some x
    → (exchange later code g).1 ≡ (if fresh_exchange later x then some x.token else none)
unfolding exchange valid_exchange
exchange-found later code g x h = rw h refl

lookup-issue :
    (now : ℕ) (code token : String) (g : Gateway)
    → lookup code (issue now code token g).exchanges
      ≡ some (record { token = token; issued_at = now })
unfolding issue put_exchange
lookup-issue now code token g =
    lookup-insert code code _ (make_room (gc_exchanges now g).exchanges)
    ∙ rw ((string_Eq.beq_iff code code).1 refl) refl

-- A code that was just given out buys its token, and no other one, as long as its time lasts, also
-- when the table was full.
pub exchange-issue :
    (now later : ℕ) (code token : String) (g : Gateway)
    → (exchange later code (issue now code token g)).1
      ≡ (if ltb (later - now) (from_secs exchange_ttl_secs) then some token else none)
unfolding fresh_exchange
exchange-issue now later code token g =
    exchange-found later code (issue now code token g) _ (lookup-issue now code token g)
