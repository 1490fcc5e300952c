-- ===== src/Prelude/Cuts.antt =====
-- The methods of `str` that cut a text, on code points: `split`, `split_once`, `rsplit_once`,
-- `strip_prefix`, `trim` (of ASCII text), and the decimal notation of integers.
use Prim.Native.Char.{code}
use Prim.Native.String.{String}
use Prim.Native.Nat.{ℕ, zero, suc, ◌+◌, ◌-◌, ◌*◌, ◌/◌, ◌%◌}
use mathlib.Core.Bool.{Bool, true, false, ◌&&◌, ◌||◌}
use mathlib.Core.Option
use mathlib.Core.Option.{Option, none, some}
use mathlib.Core.List.{List, [], ◌∷◌, ◌++◌}
use mathlib.Core.Path.{◌≡◌}
use mathlib.Core.Logic.{◌↔◌}
use native.Mathlib.Omega.{arith}
use lan_video.Prelude.Assoc.{Eq}
use lan_video.Prelude.Tests.{◌==◌, ltb, leb, if◌then◌else◌}
use lan_video.Prelude.Texts.{Text, text_eq}

-- The code points of a literal.
abbrev pub codes : String → Text
codes String.[] = []
codes (String.◌∷◌ c s) = code c ∷ codes s

unfoldable pub strip_prefix : Text → Text → Option Text
strip_prefix [] t = some t
strip_prefix (p ∷ ps) [] = none
strip_prefix (p ∷ ps) (x ∷ xs) = let rest = strip_prefix ps xs in if p == x then rest else none

unfoldable pub is_some {ℓ} : {A : Type ℓ} → Option A → Bool
is_some none = false
is_some (some a) = true

unfoldable pub starts_with : Text → Text → Bool
unfolding is_some strip_prefix
starts_with p t = is_some (strip_prefix p t)

unfoldable pub ends_with : Text → Text → Bool
unfolding text_eq
ends_with p [] = text_eq p []
ends_with p (x ∷ xs) = let rest = ends_with p xs in text_eq p (x ∷ xs) || rest

-- `strip_suffix` of a character.
unfoldable pub strip_suffix : ℕ → Text → Option Text
strip_suffix c [] = none
strip_suffix c (x ∷ []) = if x == c then some [] else none
strip_suffix c (x ∷ y ∷ t) = Option.map (λ r. x ∷ r) (strip_suffix c (y ∷ t))

abbrev pub in_front : ℕ → Text × Text → Text × Text
in_front x (a, b) = (x ∷ a, b)

unfoldable pub split_once : ℕ → Text → Option (Text × Text)
split_once c [] = none
split_once c (x ∷ xs) =
    let rest = split_once c xs in if x == c then some ([], xs) else Option.map (in_front x) rest

unfoldable pub rsplit_once : ℕ → Text → Option (Text × Text)
rsplit_once c [] = none
rsplit_once c (x ∷ xs) = elim (rsplit_once c xs) [
  | some (a, b) ↦ some (x ∷ a, b)
  | none ↦ if x == c then some ([], xs) else none
]

-- `split(c).next()`.
unfoldable pub before : ℕ → Text → Text
unfolding split_once
before c t = elim (split_once c t) [ none ↦ t | some (a, b) ↦ a ]

-- `rsplit(c).next()`.
unfoldable pub after_last : ℕ → Text → Text
unfolding rsplit_once
after_last c t = elim (rsplit_once c t) [ none ↦ t | some (a, b) ↦ b ]

first_piece : ℕ → List Text → List Text
first_piece x [] = (x ∷ []) ∷ []
first_piece x (p ∷ ps) = (x ∷ p) ∷ ps

unfoldable pub split : ℕ → Text → List Text
unfolding first_piece
split c [] = [] ∷ []
split c (x ∷ xs) = let rest = split c xs in if x == c then [] ∷ rest else first_piece x rest

is_blank : ℕ → Bool
is_blank c = (c == 32) || (leb 9 c && leb c 13)

trim_start : Text → Text
trim_start [] = []
trim_start (x ∷ xs) = let rest = trim_start xs in if is_blank x then rest else x ∷ xs

trim_end : Text → Text
trim_end [] = []
trim_end (x ∷ xs) = elim (trim_end xs) [
  | [] ↦ if is_blank x then [] else x ∷ []
  | y ∷ t ↦ x ∷ y ∷ t
]

unfoldable pub trim : Text → Text
unfolding trim_start trim_end is_blank
trim t = trim_end (trim_start t)

unfoldable pub is_ascii_digit : ℕ → Bool
is_ascii_digit c = leb b'0' c && leb c b'9'

-- `negsuc n` is -(n + 1).
pub data ℤ : Type 0 where
  pos : ℕ → ℤ
  negsuc : ℕ → ℤ

abbrev pub int_eq : ℤ → ℤ → Bool
int_eq (pos a) (pos b) = a == b
int_eq (negsuc a) (negsuc b) = a == b
int_eq _ _ = false

pub int_eq_iff : (a b : ℤ) → (int_eq a b ≡ true) ↔ (a ≡ b)
int_eq_iff a b = ground arith

instance abbrev pub int_Eq : Eq ℤ
int_Eq = record { beq = int_eq; beq_iff = int_eq_iff }

abbrev pub negated : ℕ → ℤ
negated zero = pos 0
negated (suc n) = negsuc n

unfoldable pub digits_value : ℕ → Text → Option ℕ
unfolding is_ascii_digit
digits_value n [] = some n
digits_value n (d ∷ ds) =
    let rest = digits_value (n * 10 + (d - 48)) ds in if is_ascii_digit d then rest else none

unfoldable pub parse_digits : Text → Option ℕ
unfolding digits_value
parse_digits [] = none
parse_digits (d ∷ ds) = digits_value 0 (d ∷ ds)

abbrev pub within : ℕ → (ℕ → ℤ) → Option ℕ → Option ℤ
within top f none = none
within top f (some n) = if leb n top then some (f n) else none

-- `parse::<i64>().ok()`.
unfoldable pub parse_i64 : Text → Option ℤ
unfolding parse_digits
parse_i64 [] = none
parse_i64 (c ∷ t) =
    if c == b'-'
    then within 9223372036854775808 negated (parse_digits t)
    else if c == b'+'
    then within 9223372036854775807 pos (parse_digits t)
    else within 9223372036854775807 pos (parse_digits (c ∷ t))

unfoldable pub decimal_from : ℕ → ℕ → Text
decimal_from zero n = (48 + n % 10) ∷ []
decimal_from (suc fuel) n =
    let rest = decimal_from fuel (n / 10) in
    if ltb n 10 then (48 + n) ∷ [] else rest ++ (48 + n % 10) ∷ []

-- `to_string` of a number, whose digits are at most as many as itself.
unfoldable pub decimal : ℕ → Text
unfolding decimal_from
decimal n = decimal_from n n

unfoldable pub to_string : ℤ → Text
unfolding decimal
to_string (pos n) = decimal n
to_string (negsuc n) = b'-' ∷ decimal (suc n)
