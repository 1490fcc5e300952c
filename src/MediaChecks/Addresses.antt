-- ===== src/MediaChecks/Addresses.antt =====
-- IP addresses: their parsing by the standard library, and `is_disallowed_ip` of
-- backend/src/services/media_service/validate.rs.
use lan_video.Prelude.{
  ℕ, ◌+◌, ◌-◌, ◌*◌, ◌==◌, ltb, leb, Bool, false, ◌&&◌, ◌||◌, Option, none, some, List, [], ◌∷◌,
  ◌++◌, length, all, if◌then◌else◌,
}
use Prim.Native.Nat.{◌/◌, ◌%◌}
use lan_video.Prelude.Texts.{Text, ascii_lower}
use lan_video.Prelude.Cuts.{codes, split, strip_prefix, in_front, is_ascii_digit, parse_digits}

pub data IpAddr : Type 0 where
  v4 : ℕ → ℕ → ℕ → ℕ → IpAddr
  -- Eight segments.
  v6 : List ℕ → IpAddr

-- A number from 0 to 255 without leading zeros.
octet : Text → Option ℕ
unfolding parse_digits
octet [] = none
octet (c ∷ cs) =
    if (c == b'0' && ltb 0 (length cs)) || ltb 2 (length cs)
    then none
    else elim (parse_digits (c ∷ cs)) [ none ↦ none | some n ↦ if leb n 255 then some n else none ]

four : Option ℕ → Option ℕ → Option ℕ → Option ℕ → Option (ℕ × ℕ × ℕ × ℕ)
four (some a) (some b) (some c) (some d) = some (a, b, c, d)
four _ _ _ _ = none

four_octets : List Text → Option (ℕ × ℕ × ℕ × ℕ)
unfolding octet four
four_octets (a ∷ b ∷ c ∷ d ∷ []) = four (octet a) (octet b) (octet c) (octet d)
four_octets _ = none

unfoldable pub parse_ipv4 : Text → Option (ℕ × ℕ × ℕ × ℕ)
unfolding four_octets split
parse_ipv4 t = four_octets (split b'.' t)

hex_digit : ℕ → Option ℕ
unfolding is_ascii_digit ascii_lower
hex_digit c =
    if is_ascii_digit c
    then some (c - 48)
    else if leb b'a' (ascii_lower c) && leb (ascii_lower c) b'f'
    then some (ascii_lower c - 87)
    else none

hex_from : ℕ → Text → Option ℕ
unfolding hex_digit
hex_from n [] = some n
hex_from n (c ∷ cs) = elim (hex_digit c) [ none ↦ none | some d ↦ hex_from (n * 16 + d) cs ]

-- One to four hexadecimal digits.
segment : Text → Option ℕ
unfolding hex_from
segment [] = none
segment (c ∷ cs) = if ltb 3 (length cs) then none else hex_from 0 (c ∷ cs)

in_front_of : Option ℕ → Option (List ℕ) → Option (List ℕ)
in_front_of (some s) (some ss) = some (s ∷ ss)
in_front_of _ _ = none

embedded : Text → Option (List ℕ)
unfolding parse_ipv4
embedded p = elim (parse_ipv4 p) [
  | none ↦ none
  | some (a, b, c, d) ↦ some ((a * 256 + b) ∷ (c * 256 + d) ∷ [])
]

last_segments : Text → Option (List ℕ)
unfolding embedded segment in_front_of
last_segments p = elim (embedded p) [ some ss ↦ some ss | none ↦ in_front_of (segment p) (some []) ]

-- The pieces of the text, of which the last may be an IPv4 address.
segments : List Text → Option (List ℕ)
unfolding last_segments segment in_front_of
segments [] = some []
segments (p ∷ []) = last_segments p
segments (p ∷ q ∷ ps) = in_front_of (segment p) (segments (q ∷ ps))

plain_segments : List Text → Option (List ℕ)
unfolding segment in_front_of
plain_segments [] = some []
plain_segments (p ∷ ps) = in_front_of (segment p) (plain_segments ps)

pieces : Text → List Text
unfolding split
pieces [] = []
pieces (c ∷ cs) = split b':' (c ∷ cs)

zeros : ℕ → List ℕ
zeros ℕ.zero = []
zeros (ℕ.suc n) = 0 ∷ zeros n

-- `::` stands for one segment or more.
joined : Option (List ℕ) → Option (List ℕ) → Option (List ℕ)
unfolding zeros
joined (some ls) (some rs) =
    if leb (length ls + length rs) 7
    then some (ls ++ (zeros (8 - (length ls + length rs)) ++ rs))
    else none
joined _ _ = none

whole : Option (List ℕ) → Option (List ℕ)
whole none = none
whole (some ss) = if length ss == 8 then some ss else none

-- The text before and behind the first occurrence.
unfoldable pub cut : Text → Text → Option (Text × Text)
unfolding strip_prefix
cut needle [] = none
cut needle (c ∷ cs) =
    let rest = cut needle cs in
    elim (strip_prefix needle (c ∷ cs)) [
      | some after ↦ some ([], after)
      | none ↦ elim rest [ none ↦ none | some p ↦ some (in_front c p) ]
    ]

unfoldable pub parse_ipv6 : Text → Option (List ℕ)
unfolding cut joined plain_segments segments pieces whole
parse_ipv6 t = elim (cut (codes "::") t) [
  | none ↦ whole (segments (pieces t))
  | some (left, right) ↦ joined (plain_segments (pieces left)) (segments (pieces right))
]

-- `parse::<IpAddr>().ok()`.
unfoldable pub parse_ip : Text → Option IpAddr
unfolding parse_ipv4 parse_ipv6
parse_ip t = elim (parse_ipv4 t) [
  | some (a, b, c, d) ↦ some (v4 a b c d)
  | none ↦ elim (parse_ipv6 t) [ none ↦ none | some ss ↦ some (v6 ss) ]
]

is_documentation : ℕ → ℕ → ℕ → Bool
is_documentation a b c =
    (a == 192 && (b == 0 && c == 2))
    || ((a == 198 && (b == 51 && c == 100)) || (a == 203 && (b == 0 && c == 113)))

is_private : ℕ → ℕ → Bool
is_private a b = a == 10 || ((a == 172 && (leb 16 b && leb b 31)) || (a == 192 && b == 168))

unfoldable pub is_disallowed_v4 : ℕ → ℕ → ℕ → ℕ → Bool
unfolding is_documentation is_private
is_disallowed_v4 a b c d =
    a == 127
    || ((a == 169 && b == 254)
        || ((a == 255 && (b == 255 && (c == 255 && d == 255)))
            || (is_documentation a b c
                || ((a == 0 && (b == 0 && (c == 0 && d == 0)))
                    || (is_private a b || (leb 224 a && leb a 239))))))

-- `to_ipv4`: the addresses `::a.b.c.d` and `::ffff:a.b.c.d`.
unfoldable pub to_ipv4 : List ℕ → Option (ℕ × ℕ)
to_ipv4 (s0 ∷ s1 ∷ s2 ∷ s3 ∷ s4 ∷ s5 ∷ s6 ∷ s7 ∷ []) =
    if (s0 == 0 && (s1 == 0 && (s2 == 0 && (s3 == 0 && s4 == 0)))) && (s5 == 0 || s5 == 65535)
    then some (s6, s7)
    else none
to_ipv4 _ = none

is_zero : ℕ → Bool
is_zero s = s == 0

-- `is_loopback`: ::1.
is_one : List ℕ → Bool
is_one [] = false
is_one (s ∷ []) = s == 1
is_one (s ∷ t ∷ ss) = let rest = is_one (t ∷ ss) in s == 0 && rest

-- By the first two segments, where the address is no IPv4 address.
unfoldable pub is_disallowed_v6 : List ℕ → Bool
unfolding all is_zero is_one
is_disallowed_v6 (s0 ∷ s1 ∷ ss) =
    (all is_zero (s0 ∷ s1 ∷ ss) || is_one (s0 ∷ s1 ∷ ss))
    || (leb 65280 s0
        || ((leb 65152 s0 && leb s0 65215)
            || ((leb 64512 s0 && leb s0 65023) || (s0 == 8193 && s1 == 3512))))
is_disallowed_v6 _ = false

unfoldable pub is_disallowed_ip : IpAddr → Bool
unfolding is_disallowed_v4 is_disallowed_v6 to_ipv4
is_disallowed_ip (v4 a b c d) = is_disallowed_v4 a b c d
is_disallowed_ip (v6 ss) = elim (to_ipv4 ss) [
  | some (hi, lo) ↦ is_disallowed_v4 (hi / 256) (hi % 256) (lo / 256) (lo % 256)
  | none ↦ is_disallowed_v6 ss
]
