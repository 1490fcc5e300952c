-- ===== src/MediaAuth/FlatNames.antt =====
-- The flat layout of the transcoded variants, `{id}_{n}p.{ext}`.
use lan_video.Prelude.{
  ℕ, suc, ◌≤◌, ◌+◌, ◌-◌, ◌*◌, ◌≡◌, refl, inl, inr, true, false, ◌==◌, none, some, [], ◌∷◌, ◌++◌,
  all, arith, Bool-cases, Option-cases,
}
use lan_video.Prelude.Texts.{Text}
use lan_video.Prelude.Cuts.{
  ℤ, pos, negsuc, strip_suffix, rsplit_once, after_last, to_string, decimal, digits_value,
  is_ascii_digit,
}
use lan_video.Prelude.Decimal.{
  IsI64, parse_i64-to_string, to_string-uncut, rsplit_once-append, uncut-cons, decimal-value,
  decimal-nonempty,
}
use lan_video.MediaAuth.{flat_id, stem_of, resolution, is_resolution}

-- No slash, underscore or dot.
abbrev pub IsPlain : Text → Type 0
IsPlain t = (rsplit_once b'/' t ≡ none) × (rsplit_once b'_' t ≡ none) × (rsplit_once b'.' t ≡ none)

abbrev pub flat_name : ℤ → ℕ → Text → Text
flat_name id n ext = to_string id ++ b'_' ∷ ((decimal n ++ b'p' ∷ []) ++ b'.' ∷ ext)

uncut_append :
    (c : ℕ) (a b : Text)
    → rsplit_once c a ≡ none
    → rsplit_once c b ≡ none
    → rsplit_once c (a ++ b) ≡ none
unfolding rsplit_once
uncut_append c [] b h k = k
uncut_append c (x ∷ a) b h k = elim (Option-cases (rsplit_once c a)) [
  | inr (p, e) ↦ absurd (let n = rw (e, rsplit_once) at h in cc n)
  | inl e ↦ elim (Bool-cases (x == c)) [
    | inl f ↦ absurd (let n = rw (e, f, rsplit_once) at h in cc n)
    | inr f ↦ rw (uncut_append c a b e k, f, rsplit_once) refl
  ]
]

stem_uncut :
    (n c : ℕ)
    → is_ascii_digit c ≡ false
    → (b'-' == c) ≡ false
    → (b'p' == c) ≡ false
    → rsplit_once c (decimal n ++ b'p' ∷ []) ≡ none
stem_uncut n c h k m =
    uncut_append c (decimal n) (b'p' ∷ []) (unfold to_string in to_string-uncut (pos n) c h k)
      (unfold rsplit_once in rw m refl)

rest_uncut :
    (n c : ℕ) (ext : Text)
    → is_ascii_digit c ≡ false
    → (b'-' == c) ≡ false
    → (b'p' == c) ≡ false
    → (b'.' == c) ≡ false
    → rsplit_once c ext ≡ none
    → rsplit_once c ((decimal n ++ b'p' ∷ []) ++ b'.' ∷ ext) ≡ none
rest_uncut n c ext h k m d e =
    uncut_append c (decimal n ++ b'p' ∷ []) (b'.' ∷ ext) (stem_uncut n c h k m)
      (unfold rsplit_once in rw (e, d) refl)

strip_last : (c : ℕ) (t : Text) → strip_suffix c (t ++ c ∷ []) ≡ some t
unfolding strip_suffix
strip_last c [] = ground arith
strip_last c (x ∷ []) = rw (strip_last c []) refl
strip_last c (x ∷ y ∷ t) = rw (strip_last c (y ∷ t)) refl

digits_all : (n m : ℕ) (t : Text) → digits_value n t ≡ some m → all is_ascii_digit t ≡ true
unfolding digits_value all
digits_all n m [] h = refl
digits_all n m (x ∷ t) h = elim (Bool-cases (is_ascii_digit x)) [
  | inr b ↦ absurd (let k = rw (b, digits_value) at h in cc k)
  | inl b ↦ rw (b, digits_all (n * 10 + (x - 48)) m t (rw (b, digits_value) at h)) refl
]

is_resolution-digits : (t : Text) → ¬ t ≡ [] → all is_ascii_digit t ≡ true → is_resolution t ≡ true
unfolding is_resolution
is_resolution-digits [] h a = absurd (h refl)
is_resolution-digits (x ∷ t) h a = a

resolution-decimal : (n : ℕ) → resolution (decimal n ++ b'p' ∷ []) ≡ true
unfolding resolution
resolution-decimal n =
    rw (strip_last b'p' (decimal n), resolution)
      (is_resolution-digits (decimal n) (decimal-nonempty n)
        (digits_all 0 n (decimal n) (decimal-value n)))

uncut_name :
    (id : ℤ) (n : ℕ) (ext : Text)
    → rsplit_once b'/' ext ≡ none
    → after_last b'/' (flat_name id n ext) ≡ flat_name id n ext
unfolding after_last is_ascii_digit
uncut_name id n ext s =
    let tail : Text = (decimal n ++ b'p' ∷ []) ++ b'.' ∷ ext in
    let e : rsplit_once b'/' (flat_name id n ext) ≡ none =
      uncut_append b'/' (to_string id) (b'_' ∷ tail) (to_string-uncut id b'/' refl refl)
        (uncut-cons b'_' b'/' tail (rest_uncut n b'/' ext refl refl refl refl s) refl) in
    rw (e, after_last) refl

stem_of-name :
    (n : ℕ) (ext : Text)
    → rsplit_once b'.' ext ≡ none
    → stem_of ((decimal n ++ b'p' ∷ []) ++ b'.' ∷ ext) ≡ decimal n ++ b'p' ∷ []
unfolding stem_of
stem_of-name n ext d = rw (rsplit_once-append b'.' (decimal n ++ b'p' ∷ []) ext d, stem_of) refl

pub flat_id-flat_name :
    (id : ℤ) (n : ℕ) (ext : Text) → IsI64 id → IsPlain ext → flat_id (flat_name id n ext) ≡ some id
unfolding flat_id
flat_id-flat_name id n ext h (s, u, d) =
    rw
      (
        uncut_name id n ext s,
        rsplit_once-append b'_' (to_string id) ((decimal n ++ b'p' ∷ []) ++ b'.' ∷ ext)
            (unfold is_ascii_digit in rest_uncut n b'_' ext refl refl refl refl u),
        stem_of-name n ext d,
        resolution-decimal n,
        flat_id,
      )
      (parse_i64-to_string id h)

digits_head :
    (t : Text)
    → ¬ t ≡ []
    → all is_ascii_digit t ≡ true
    → (c : ℕ) × (r : Text) × (t ≡ c ∷ r) × (c ≤ 57) × ((c == b'/') ≡ false)
unfolding all is_ascii_digit
digits_head [] h a = absurd (h refl)
digits_head (c ∷ r) h a = (c, r, refl, ground arith, ground arith)

-- The notation of an integer begins with a digit or a minus sign.
pub to_string-head :
    (i : ℤ) → (c : ℕ) × (r : Text) × (to_string i ≡ c ∷ r) × (c ≤ 57) × ((c == b'/') ≡ false)
unfolding to_string
to_string-head (pos n) =
    digits_head (decimal n) (decimal-nonempty n) (digits_all 0 n (decimal n) (decimal-value n))
to_string-head (negsuc n) = (b'-', decimal (suc n), refl, omega arith, refl)
