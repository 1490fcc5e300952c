-- ===== src/Prelude/Decimal.antt =====
-- Integers in decimal notation: what is written is read back, and cuts at its end.
use Prim.Native.Nat.{ℕ, zero, suc, ◌+◌, ◌-◌, ◌*◌, ◌/◌, ◌%◌, ◌≤◌, ◌<◌}
use mathlib.Core.Path.{◌≡◌, refl, ap, sym, ◌∙◌}
use mathlib.Core.Logic.{inl, inr}
use mathlib.Core.Bool.{true, false}
use mathlib.Core.Option.{Option, some, none}
use mathlib.Core.List.{[], ◌∷◌, ◌++◌}
use native.Mathlib.Omega.{arith}
use lan_video.Prelude.Tests.{◌==◌, ltb, if◌then◌else◌, Bool-cases, Option-cases, some-injective}
use lan_video.Prelude.Texts.{Text}
use lan_video.Prelude.Cuts.{
  before, negated, ℤ, pos, negsuc, within, is_ascii_digit, digits_value, parse_digits, parse_i64,
  decimal_from, decimal, to_string, split_once, rsplit_once,
}

digits_value-append :
    (n m d : ℕ) (t : Text)
    → d < 10
    → digits_value n t ≡ some m
    → digits_value n (t ++ (48 + d) ∷ []) ≡ some (m * 10 + d)
unfolding digits_value
digits_value-append n m d [] h e = ground arith
digits_value-append n m d (x ∷ t) h e =
    ground (arith, digits_value-append (n * 10 + (x - 48)) m d t h)

one_digit : (d : ℕ) → d < 10 → digits_value 0 ((48 + d) ∷ []) ≡ some d
unfolding digits_value
one_digit d h = ground arith

decimal_from-value : (fuel n : ℕ) → n ≤ fuel → digits_value 0 (decimal_from fuel n) ≡ some n
unfolding decimal_from
decimal_from-value zero n h = one_digit (n % 10) (omega arith) ∙ ap some (omega arith)
decimal_from-value (suc fuel) n h = elim (Bool-cases (ltb n 10)) [
  | inl e ↦ rw e (one_digit n (ground arith))
  | inr e ↦
      let big : 10 ≤ n = ground arith in
      let less : n / 10 ≤ fuel = omega arith in
      rw e (
        digits_value-append 0 (n / 10) (n % 10) (decimal_from fuel (n / 10)) (omega arith)
          (decimal_from-value fuel (n / 10) less)
        ∙ ap some (omega arith))
]

pub decimal-value : (n : ℕ) → digits_value 0 (decimal n) ≡ some n
unfolding decimal
decimal-value n = decimal_from-value n n (omega arith)

append-nonempty : (t : Text) (x : ℕ) → ¬ (t ++ x ∷ []) ≡ []
append-nonempty [] x e = cc e
append-nonempty (y ∷ t) x e = cc e

decimal_from-nonempty : (fuel n : ℕ) → ¬ decimal_from fuel n ≡ []
unfolding decimal_from
decimal_from-nonempty zero n e = cc e
decimal_from-nonempty (suc fuel) n e = elim (Bool-cases (ltb n 10)) [
  | inl b ↦ let k = rw b at e in cc k
  | inr b ↦ append-nonempty (decimal_from fuel (n / 10)) (48 + n % 10) (rw b at e)
]

pub decimal-nonempty : (n : ℕ) → ¬ decimal n ≡ []
unfolding decimal
decimal-nonempty n e = decimal_from-nonempty n n e

parse_digits-value :
    (n : ℕ) (t : Text) → ¬ t ≡ [] → digits_value 0 t ≡ some n → parse_digits t ≡ some n
unfolding parse_digits
parse_digits-value n [] h e = absurd (h refl)
parse_digits-value n (x ∷ t) h e = e

pub parse_digits-decimal : (n : ℕ) → parse_digits (decimal n) ≡ some n
parse_digits-decimal n = parse_digits-value n (decimal n) (decimal-nonempty n) (decimal-value n)

-- Without a sign, digits are read as they are.
digit-unsigned : (x : ℕ) → is_ascii_digit x ≡ true → ((x == b'-') ≡ false) × ((x == b'+') ≡ false)
unfolding is_ascii_digit
digit-unsigned x b = (ground arith, ground arith)

within_top : (top : ℕ) (f : ℕ → ℤ) (n : ℕ) → n ≤ top → within top f (some n) ≡ some (f n)
within_top top f n h = ground arith

parse_i64-digits :
    (n : ℕ) (t : Text)
    → parse_digits t ≡ some n
    → n ≤ 9223372036854775807
    → parse_i64 t ≡ some (pos n)
unfolding parse_i64 parse_digits digits_value
parse_i64-digits n [] e h = absurd (cc e)
parse_i64-digits n (x ∷ t) e h = elim (Bool-cases (is_ascii_digit x)) [
  | inr b ↦ absurd (let k = rw b at e in cc k)
  | inl b ↦
      let (m, p) = digit-unsigned x b in
      rw (m, p) (ap (within 9223372036854775807 pos) e ∙ within_top 9223372036854775807 pos n h)
]

-- The integers of 64 bits.
abbrev pub IsI64 : ℤ → Type 0
IsI64 (pos n) = n ≤ 9223372036854775807
IsI64 (negsuc n) = n ≤ 9223372036854775807

pub parse_i64-to_string : (i : ℤ) → IsI64 i → parse_i64 (to_string i) ≡ some i
unfolding to_string parse_i64
parse_i64-to_string (pos n) h = parse_i64-digits n (decimal n) (parse_digits-decimal n) h
parse_i64-to_string (negsuc n) h = rw (parse_digits-decimal (suc n)) (ground arith)

pub before-other : (x c : ℕ) (t : Text) → (x == c) ≡ false → before c (x ∷ t) ≡ x ∷ before c t
unfolding before split_once
before-other x c t h = elim (Option-cases (split_once c t)) [
  | inl e ↦ rw (h, e, before) refl
  | inr (p, e) ↦ rw (h, e, before) refl
]

before_self : (c : ℕ) (t : Text) → before c (c ∷ t) ≡ []
unfolding before split_once
before_self c t = let e : (c == c) ≡ true = ground arith in rw (e, before) refl

-- Digits are passed over.
before-digits :
    (n m c : ℕ) (t s : Text)
    → is_ascii_digit c ≡ false
    → digits_value n t ≡ some m
    → before c (t ++ s) ≡ t ++ before c s
unfolding digits_value
before-digits n m c [] s h e = refl
before-digits n m c (x ∷ t) s h e = elim (Bool-cases (is_ascii_digit x)) [
  | inr b ↦ absurd (let k = rw (b, digits_value) at e in cc k)
  | inl b ↦
      let other : (x == c) ≡ false = ground arith in
      before-other x c (t ++ s) other
      ∙ ap (λ r. x ∷ r) (before-digits (n * 10 + (x - 48)) m c t s h (rw (b, digits_value) at e))
]

pub before-to_string :
    (i : ℤ) (c : ℕ) (s : Text)
    → is_ascii_digit c ≡ false
    → (b'-' == c) ≡ false
    → before c (to_string i ++ s) ≡ to_string i ++ before c s
unfolding to_string
before-to_string (pos n) c s h k = before-digits 0 n c (decimal n) s h (decimal-value n)
before-to_string (negsuc n) c s h k =
    before-other b'-' c (decimal (suc n) ++ s) k
    ∙ ap (λ r. b'-' ∷ r) (before-digits 0 (suc n) c (decimal (suc n)) s h (decimal-value (suc n)))

pub append_nil : (t : Text) → t ++ [] ≡ t
append_nil [] = refl
append_nil (x ∷ t) = ap (λ r. x ∷ r) (append_nil t)

-- The notation of an integer ends at the first other character.
pub before-to_string_end :
    (i : ℤ) (c : ℕ) (s : Text)
    → is_ascii_digit c ≡ false
    → (b'-' == c) ≡ false
    → before c (to_string i ++ c ∷ s) ≡ to_string i
before-to_string_end i c s h k =
    before-to_string i c (c ∷ s) h k
    ∙ (ap (λ r. to_string i ++ r) (before_self c s) ∙ append_nil (to_string i))

pub before-to_string_all :
    (i : ℤ) (c : ℕ)
    → is_ascii_digit c ≡ false
    → (b'-' == c) ≡ false
    → before c (to_string i) ≡ to_string i
unfolding before
before-to_string_all i c h k =
    ap (before c) (sym (append_nil (to_string i)))
    ∙ (before-to_string i c [] h k ∙ append_nil (to_string i))

digits-uncut :
    (n m c : ℕ) (t : Text)
    → is_ascii_digit c ≡ false
    → digits_value n t ≡ some m
    → rsplit_once c t ≡ none
unfolding digits_value rsplit_once
digits-uncut n m c [] h e = refl
digits-uncut n m c (x ∷ t) h e = elim (Bool-cases (is_ascii_digit x)) [
  | inr b ↦ absurd (let k = rw (b, digits_value) at e in cc k)
  | inl b ↦
      let other : (x == c) ≡ false = ground arith in
      rw (digits-uncut (n * 10 + (x - 48)) m c t h (rw (b, digits_value) at e), other) refl
]

pub uncut-cons :
    (x c : ℕ) (t : Text) → rsplit_once c t ≡ none → (x == c) ≡ false → rsplit_once c (x ∷ t) ≡ none
unfolding rsplit_once
uncut-cons x c t h k = rw (h, k) refl

pub to_string-uncut :
    (i : ℤ) (c : ℕ)
    → is_ascii_digit c ≡ false
    → (b'-' == c) ≡ false
    → rsplit_once c (to_string i) ≡ none
unfolding to_string
to_string-uncut (pos n) c h k = digits-uncut 0 n c (decimal n) h (decimal-value n)
to_string-uncut (negsuc n) c h k =
    uncut-cons b'-' c (decimal (suc n))
      (digits-uncut 0 (suc n) c (decimal (suc n)) h (decimal-value (suc n))) k

pub rsplit_once-append :
    (c : ℕ) (a t : Text) → rsplit_once c t ≡ none → rsplit_once c (a ++ c ∷ t) ≡ some (a, t)
unfolding rsplit_once
rsplit_once-append c [] t h = let e : (c == c) ≡ true = ground arith in rw (h, e) refl
rsplit_once-append c (x ∷ a) t h = rw (rsplit_once-append c a t h) refl

-- A text with an integer behind the last separator can be taken apart again.
pub rsplit_once-to_string :
    (c : ℕ) (a : Text) (i : ℤ)
    → is_ascii_digit c ≡ false
    → (b'-' == c) ≡ false
    → rsplit_once c (a ++ c ∷ to_string i) ≡ some (a, to_string i)
rsplit_once-to_string c a i h k = rsplit_once-append c a (to_string i) (to_string-uncut i c h k)

abbrev map_option : {A : Type 0} {B : Type 0} → (A → B) → Option A → Option B
map_option f none = none
map_option f (some a) = some (f a)

-- What the notation of an integer tells.
read_back : Text → Option ℤ
read_back [] = none
read_back (c ∷ t) =
    if c == b'-' then map_option negated (parse_digits t) else map_option pos (parse_digits (c ∷ t))

read_back-digits : (n : ℕ) (t : Text) → parse_digits t ≡ some n → read_back t ≡ some (pos n)
unfolding read_back parse_digits digits_value
read_back-digits n [] e = absurd (cc e)
read_back-digits n (x ∷ t) e = elim (Bool-cases (is_ascii_digit x)) [
  | inr b ↦ absurd (let k = rw b at e in cc k)
  | inl b ↦ rw (digit-unsigned x b).0 (ap (map_option pos) e)
]

read_back-to_string : (i : ℤ) → read_back (to_string i) ≡ some i
unfolding read_back to_string
read_back-to_string (pos n) = read_back-digits n (decimal n) (parse_digits-decimal n)
read_back-to_string (negsuc n) = ap (map_option negated) (parse_digits-decimal (suc n))

pub to_string-injective : (i j : ℤ) → to_string i ≡ to_string j → i ≡ j
to_string-injective i j e =
    some-injective (sym (read_back-to_string i) ∙ (ap read_back e ∙ read_back-to_string j))
