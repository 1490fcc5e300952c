-- ===== src/Gateway/Bounds.antt =====
-- The sizes of the tables of backend/src/services/gateway_service.rs.
use Prim.Native.String.{String}
use lan_video.Prelude.{
  ℕ, ◌≤◌, ◌<◌, ◌≡◌, refl, subst, Option, none, some, List, [], ◌∷◌, leb, length, if◌then◌else◌,
  arith, Bool-cases, some-injective, inl, inr,
}
use lan_video.Prelude.Assoc.{
  ◌=?◌, string_Eq, lookup, remove, insert, retain, length-remove, length-retain,
}
use lan_video.Gateway.{
  Gateway, Exchange, pending_max_entries, exchange_max_entries, gc_pending, gc_exchanges,
  fresh_pending, fresh_exchange, oldest, older, evict_oldest_exchange, remove_key, admit_start,
  start, take_pending, make_room, put_exchange, issue, exchange,
}
use lan_video.Gateway.Tickets.{Event, started, returned, issued, exchanged, step, run}

-- Both tables are within their bounds.
abbrev pub Bounded : Gateway → Type 0
Bounded g = (length g.pending ≤ pending_max_entries) × (length g.exchanges ≤ exchange_max_entries)

length-admit_start :
    (now : ℕ) (state verifier : String) (g : Gateway)
    → length g.pending ≤ pending_max_entries
    → length (admit_start now state verifier g).0.pending ≤ pending_max_entries
unfolding admit_start insert
length-admit_start now state verifier g h =
    elim (Bool-cases (leb pending_max_entries (length g.pending))) [
      | inl e ↦ simp e h
      | inr e ↦ simp e (ground (arith, length-remove state g.pending))
    ]

exchanges-admit_start :
    (now : ℕ) (state verifier : String) (g : Gateway)
    → (admit_start now state verifier g).0.exchanges ≡ g.exchanges
unfolding admit_start
exchanges-admit_start now state verifier g =
    elim (Bool-cases (leb pending_max_entries (length g.pending))) [
      | inl e ↦ simp e refl
      | inr e ↦ simp e refl
    ]

-- The key is in the table.
Found : String → List (String × Exchange) → Type 0
Found k m = (x : Exchange) × (lookup k m ≡ some x)

Found-here : (k : String) (x : Exchange) (m : List (String × Exchange)) → Found k ((k, x) ∷ m)
unfolding Found lookup
Found-here k x m = (x, rw ((string_Eq.beq_iff k k).1 refl) refl)

Found-there :
    (i k : String) (x : Exchange) (m : List (String × Exchange)) → Found k m → Found k ((i, x) ∷ m)
unfolding Found lookup
Found-there i k x m (y, h) = (if i =? k then x else y, ground arith)

older-Found :
    (k : String) (x : Exchange) (m : List (String × Exchange)) (o : Option (String × ℕ))
    → ((i : String) (u : ℕ) → o ≡ some (i, u) → Found i m)
    → Found (older k x.issued_at o).0 ((k, x) ∷ m)
unfolding older
older-Found k x m none h = Found-here k x m
older-Found k x m (some (i, u)) h = elim (Bool-cases (leb x.issued_at u)) [
  | inl e ↦ rw e (Found-here k x m)
  | inr e ↦ rw e (Found-there k i x m (h i u refl))
]

oldest-Found :
    (m : List (String × Exchange)) (i : String) (u : ℕ) → oldest m ≡ some (i, u) → Found i m
unfolding oldest
oldest-Found [] i u h = absurd (cc h)
oldest-Found ((k, x) ∷ m) i u h =
    subst (λ p. Found p.0 ((k, x) ∷ m)) (some-injective h)
      (older-Found k x m (oldest m) (oldest-Found m))

length-remove-Found :
    (k : String) (m : List (String × Exchange)) → Found k m → length (remove k m) < length m
unfolding Found lookup remove
length-remove-Found k [] (x, h) = absurd (cc h)
length-remove-Found k ((j, y) ∷ m) (x, h) = elim (Bool-cases (j =? k)) [
  | inl e ↦ rw e (omega (arith, length-remove k m))
  | inr e ↦ rw e (omega (arith, length-remove-Found k m (x, rw e at h)))
]

-- An eviction makes a table shorter, unless it was empty.
length-evict_oldest_exchange :
    (m : List (String × Exchange)) → 0 < length m → length (evict_oldest_exchange m).0 < length m
unfolding evict_oldest_exchange remove_key oldest
length-evict_oldest_exchange [] h = absurd (omega (arith, h))
length-evict_oldest_exchange ((k, x) ∷ m) h =
    length-remove-Found _ ((k, x) ∷ m) (oldest-Found ((k, x) ∷ m) _ _ refl)

length-make_room :
    (m : List (String × Exchange))
    → length m ≤ exchange_max_entries
    → length (make_room m) < exchange_max_entries
unfolding make_room
length-make_room m h = elim (Bool-cases (leb exchange_max_entries (length m))) [
  | inl e ↦ rw e (ground (arith, length-evict_oldest_exchange m))
  | inr e ↦ rw e (ground arith)
]

length-issue :
    (now : ℕ) (code token : String) (g : Gateway)
    → length g.exchanges ≤ exchange_max_entries
    → length (issue now code token g).exchanges ≤ exchange_max_entries
unfolding issue put_exchange gc_exchanges insert
length-issue now code token g h =
    let m = retain (fresh_exchange now) g.exchanges in
    let r = length-retain (fresh_exchange now) g.exchanges in
    omega (arith, length-make_room m (omega arith), length-remove code (make_room m))

step-Bounded : (e : Event) (g : Gateway) → Bounded g → Bounded (step e g)
unfolding step start gc_pending take_pending exchange issue put_exchange gc_exchanges
step-Bounded (started now state verifier) g b = (
  length-admit_start now state verifier (gc_pending now g)
      (omega (arith, b.0, length-retain (fresh_pending now) g.pending)),
  rw (exchanges-admit_start now state verifier (gc_pending now g)) b.1,
)
step-Bounded (returned now state) g b = (omega (arith, b.0, length-remove state g.pending), b.1)
step-Bounded (issued now code token) g b = (b.0, length-issue now code token g b.1)
step-Bounded (exchanged now code) g b = (b.0, omega (arith, b.1, length-remove code g.exchanges))

-- Whatever requests come, in whatever order and at whatever times, neither table grows past its
-- bound.
pub run-Bounded : (es : List Event) (g : Gateway) → Bounded g → Bounded (run es g)
unfolding run
run-Bounded [] g b = b
run-Bounded (e ∷ es) g b = run-Bounded es (step e g) (step-Bounded e g b)
