-- ===== src/Auth/Rules.antt =====
-- The rules on passwords, names and addresses of backend/src/services/auth_service.rs and
-- backend/src/util/password.rs. What Unicode takes for capital and for small is a parameter.
pub mod Strength
use lan_video.Prelude.{
  ℕ, ◌+◌, Bool, true, false, not, ◌&&◌, ◌||◌, Option, none, some, List, [], ◌∷◌, ltb, leb, ◌==◌,
  length, any, if◌then◌else◌,
}
use lan_video.Prelude.Texts.{Text}
use lan_video.Prelude.Cuts.{codes, split_once, starts_with, ends_with}
use lan_video.MediaChecks.{is_control, is_whitespace, byte_len, contains}

abbrev pub min_password_len : ℕ
min_password_len = 8

abbrev pub max_password_len : ℕ
max_password_len = 128

unfoldable pub is_password_length : Text → Bool
is_password_length pw = leb min_password_len (length pw) && leb (length pw) max_password_len

-- `u8::from`.
abbrev pub from_bool : Bool → ℕ
from_bool true = 1
from_bool false = 0

unfoldable pub is_ascii_digit : ℕ → Bool
is_ascii_digit c = leb b'0' c && leb c b'9'

-- The four flags of the loop.
pub record Seen : Type 0 where
  pub has_upper : Bool
  pub has_lower : Bool
  pub has_digit : Bool
  pub has_special : Bool

abbrev pub nothing_seen : Seen
nothing_seen = record {
  has_upper = false;
  has_lower = false;
  has_digit = false;
  has_special = false;
}

unfoldable pub all_seen : Seen → Bool
all_seen s = s.has_upper && (s.has_lower && (s.has_digit && s.has_special))

unfoldable pub categories : Seen → ℕ
categories s =
    from_bool s.has_upper + from_bool s.has_lower + from_bool s.has_digit + from_bool s.has_special

module _ (is_uppercase is_lowercase : ℕ → Bool) where
  unfoldable pub see : ℕ → Seen → Seen
  unfolding is_ascii_digit
  see c s =
      if is_uppercase c
      then record s { has_upper = true }
      else if is_lowercase c
      then record s { has_lower = true }
      else if is_ascii_digit c
      then record s { has_digit = true }
      else record s { has_special = true }

  -- The loop ends early once all four are seen.
  unfoldable pub scan : Text → Seen → Seen
  unfolding see all_seen
  scan [] s = s
  scan (c ∷ cs) s = let rest = scan cs (see c s) in if all_seen (see c s) then see c s else rest

  unfoldable pub is_password_strong_enough : Text → Bool
  unfolding scan categories
  is_password_strong_enough pw =
      if ltb (length pw) 12
      then leb 3 (categories (scan pw nothing_seen))
      else leb 2 (categories (scan pw nothing_seen))

unfoldable pub count : ℕ → Text → ℕ
count c [] = 0
count c (x ∷ xs) = from_bool (x == c) + count c xs

unfoldable pub is_valid_local : Text → Bool
unfolding byte_len
is_valid_local l = ltb 0 (byte_len l) && leb (byte_len l) 64

unfoldable pub is_valid_domain : Text → Bool
unfolding contains starts_with ends_with
is_valid_domain d =
    ltb 0 (length d)
    && (contains (codes ".") d
        && (not (starts_with (codes ".") d)
            && (not (ends_with (codes ".") d) && not (contains (codes "..") d))))

unfoldable pub are_valid_halves : Option (Text × Text) → Bool
unfolding is_valid_local is_valid_domain
are_valid_halves none = false
are_valid_halves (some (l, d)) = is_valid_local l && is_valid_domain d

unfoldable pub is_valid_email : Text → Bool
unfolding byte_len count split_once are_valid_halves any is_whitespace is_control
is_valid_email email =
    ltb 0 (byte_len email)
    && (leb (byte_len email) 254
        && (count b'@' email == 1
            && (are_valid_halves (split_once b'@' email)
                && not (any is_whitespace email || any is_control email))))
