-- ===== src/MediaAuth/Heartbeats.antt =====
-- What the tracker of the playback sessions tells, by its calls.
use Prim.Native.Nat.{◌/◌}
use lan_video.Prelude.{
  ◌-◌, ℕ, ◌≤◌, ◌≡◌, refl, sym, ap, ap₂, ◌∙◌, Bool, true, false, ◌&&◌, ltb→lt, Option, none, some,
  List, [], ◌∷◌, arith, inl, inr, Bool-cases, some-injective, if◌then◌else◌,
}
use lan_video.Prelude.Assoc.{◌=?◌, filter, lookup-insert, lookup-remove, lookup-retain}
use lan_video.Prelude.Texts.{Text, text_Eq}
use lan_video.Prelude.Cuts.{ℤ, int_Eq, rsplit_once, is_ascii_digit}
use lan_video.Prelude.Decimal.{rsplit_once-to_string, to_string-injective}
use lan_video.MediaAuth.Playback.{
  Sessions, make_key, heartbeat, stop, is_recent, recent_entry, is_active, evict_expired,
}

-- Two keys are the same only for the same user and video, whatever is in the user's name.
make_key-injective : (u v : Text) (i j : ℤ) → make_key u i ≡ make_key v j → (u ≡ v) × (i ≡ j)
unfolding make_key is_ascii_digit
make_key-injective u v i j e =
    let back = some-injective (
      sym (rsplit_once-to_string b':' u i refl refl)
      ∙ (ap (rsplit_once b':') e ∙ rsplit_once-to_string b':' v j refl refl)) in
    (ap (λ p. p.0) back, to_string-injective i j (ap (λ p. p.1) back))

bool_eq : (a b : Bool) → (a ≡ true → b ≡ true) → (b ≡ true → a ≡ true) → a ≡ b
bool_eq true b f g = sym (f refl)
bool_eq false true f g = g refl
bool_eq false false f g = refl

both : (a b : Bool) → (a && b) ≡ true → (a ≡ true) × (b ≡ true)
both true b h = (refl, h)
both false b h = absurd (cc h)

-- The same user and video.
abbrev pub same : Text → ℤ → Text → ℤ → Bool
same u i v j = (u =? v) && (i =? j)

keys_agree : (u v : Text) (i j : ℤ) → (make_key u i =? make_key v j) ≡ same u i v j
keys_agree u v i j =
    bool_eq (make_key u i =? make_key v j) (same u i v j)
      (λ h.
        let (a, b) =
          make_key-injective u v i j ((text_Eq.beq_iff (make_key u i) (make_key v j)).0 h) in
        rw ((text_Eq.beq_iff u v).1 a, (int_Eq.beq_iff i j).1 b) refl)
      (λ h.
        let (a, b) = both (u =? v) (i =? j) h in
        (text_Eq.beq_iff (make_key u i) (make_key v j)).1
          (ap₂ make_key ((text_Eq.beq_iff u v).0 a) ((int_Eq.beq_iff i j).0 b)))

-- What the tracker is told, the last first.
pub data Told : Type 0 where
  beat : ℕ → Text → ℤ → Told
  stopped : Text → ℤ → Told
  evicted : ℕ → Told

unfoldable pub tell : Told → Sessions → Sessions
unfolding heartbeat stop evict_expired
tell (beat t u i) s = heartbeat t u i s
tell (stopped u i) s = stop u i s
tell (evicted t) s = evict_expired t s

unfoldable pub track : List Told → Sessions
unfolding tell
track [] = []
track (e ∷ es) = tell e (track es)

-- The last sign of life of a user at a video, if no stop has come since.
unfoldable pub last_beat : Text → ℤ → List Told → Option ℕ
last_beat v j [] = none
last_beat v j (beat t u i ∷ es) =
    let rest = last_beat v j es in if same u i v j then some t else rest
last_beat v j (stopped u i ∷ es) =
    let rest = last_beat v j es in if same u i v j then none else rest
last_beat v j (evicted t ∷ es) = last_beat v j es

-- No removal of old sessions comes from later than an instant.
abbrev pub EvictedBy : ℕ → List Told → Type 0
EvictedBy now [] = 0 ≤ now
EvictedBy now (evicted t ∷ es) = (t ≤ now) × EvictedBy now es
EvictedBy now (beat t u i ∷ es) = EvictedBy now es
EvictedBy now (stopped u i ∷ es) = EvictedBy now es

recent_later : (t now last : ℕ) → t ≤ now → is_recent now last ≡ true → is_recent t last ≡ true
unfolding is_recent
recent_later t now last h e = let k = ltb→lt ((now - last) / 1000000000) 120 e in ground arith

recent_entry-filter :
    (t now : ℕ) (o : Option ℕ)
    → t ≤ now
    → recent_entry now (filter (is_recent t) o) ≡ recent_entry now o
unfolding recent_entry
recent_entry-filter t now none h = refl
recent_entry-filter t now (some last) h = elim (Bool-cases (is_recent t last)) [
  | inl e ↦ rw e refl
  | inr e ↦ elim (Bool-cases (is_recent now last)) [
    | inl n ↦ absurd (let k = sym e ∙ recent_later t now last h n in cc k)
    | inr n ↦ rw (e, n) refl
  ]
]

by_key :
    (now : ℕ) (o p p' : Option ℕ) {b b' : Bool}
    → b ≡ b'
    → recent_entry now p ≡ recent_entry now p'
    → recent_entry now (if b then o else p) ≡ recent_entry now (if b' then o else p')
by_key now o p p' {b} {b'} h k = elim (Bool-cases b') [
  | inl e ↦ rw (h, e) refl
  | inr e ↦ rw (h, e) k
]

-- Where no removal of old sessions comes from later than now, a user's session at a video is active
-- if and only if the last that the tracker was told of that user and video, the removals apart, is a
-- sign of life less than 120 seconds ago.
pub is_active-track :
    (now : ℕ) (v : Text) (j : ℤ) (es : List Told)
    → EvictedBy now es
    → is_active now v j (track es) ≡ recent_entry now (last_beat v j es)
unfolding is_active track tell last_beat heartbeat stop evict_expired
is_active-track now v j [] h = refl
is_active-track now v j (beat t u i ∷ es) h =
    ap (recent_entry now) (lookup-insert (make_key u i) (make_key v j) t (track es))
    ∙ by_key now (some t) _ _ (keys_agree u v i j) (is_active-track now v j es h)
is_active-track now v j (stopped u i ∷ es) h =
    ap (recent_entry now) (lookup-remove (make_key u i) (make_key v j) (track es))
    ∙ by_key now none _ _ (keys_agree u v i j) (is_active-track now v j es h)
is_active-track now v j (evicted t ∷ es) (l, h) =
    ap (recent_entry now) (lookup-retain (is_recent t) (make_key v j) (track es))
    ∙ (recent_entry-filter t now _ l ∙ is_active-track now v j es h)
