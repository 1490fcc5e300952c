-- ===== src/Gateway/Url.antt =====
-- `urlencode` and `urldecode` of backend/src/services/gateway_service.rs, on bytes.
use Prim.Native.Nat.{◌/◌, ◌%◌}
use lan_video.Prelude.{
  ℕ, ◌+◌, ◌*◌, ◌-◌, ◌<◌, ◌≡◌, refl, ap, ◌∙◌, ◌==◌, ltb, leb, Bool, true, false, ◌&&◌, ◌||◌, Option,
  none, some, [], ◌∷◌, if◌then◌else◌, arith, Bool-cases, inl, inr,
}
use lan_video.Prelude.Texts.{Text}

unfoldable within : ℕ → ℕ → ℕ → Bool
within lo hi b = leb lo b && leb b hi

-- The bytes that stay as they are.
unfoldable unreserved : ℕ → Bool
unfolding within
unreserved b =
    within b'A' b'Z' b
    || (within b'a' b'z' b
        || (within b'0' b'9' b || (b == b'-' || (b == b'_' || (b == b'.' || b == b'~')))))

-- A digit of `{:02X}`.
unfoldable hex_digit : ℕ → ℕ
hex_digit n = if ltb n 10 then b'0' + n else b'A' + (n - 10)

unfoldable pub urlencode : Text → Text
unfolding unreserved hex_digit
urlencode [] = []
urlencode (b ∷ bs) =
    let rest = urlencode bs in
    if unreserved b then b ∷ rest else b'%' ∷ hex_digit (b / 16) ∷ hex_digit (b % 16) ∷ rest

unfoldable unhex : ℕ → Option ℕ
unfolding within
unhex c =
    if within b'0' b'9' c
    then some (c - b'0')
    else (if within b'A' b'F' c
        then some (c - b'A' + 10)
        else (if within b'a' b'f' c then some (c - b'a' + 10) else none))

pair : Option ℕ → Option ℕ → Option ℕ
pair (some h) (some l) = some (16 * h + l)
pair _ _ = none

-- `u8::from_str_radix(hex, 16)` of two bytes. It takes a plus sign in front.
unfoldable pub from_hex : ℕ → ℕ → Option ℕ
unfolding unhex pair
from_hex a b = if a == b'+' then unhex b else pair (unhex a) (unhex b)

unfoldable pub escape : ℕ → ℕ → ℕ → Option ℕ
unfolding from_hex
escape c a b = if c == b'%' then from_hex a b else none

unfoldable pub literal : ℕ → ℕ
literal c = if c == b'+' then b' ' else c

-- The byte of an escape, with what comes after it, or the byte itself.
unfoldable pub emit : Option ℕ → ℕ → Text → Text → Text
unfolding literal
emit (some v) c after next = v ∷ after
emit none c after next = literal c ∷ next

unfoldable pub urldecode : Text → Text
unfolding literal
urldecode [] = []
urldecode (c ∷ []) = literal c ∷ []
urldecode (c ∷ a ∷ []) = literal c ∷ literal a ∷ []
urldecode (c ∷ a ∷ b ∷ rest) = emit (escape c a b) c (urldecode rest) (urldecode (a ∷ b ∷ rest))

-- Each member is a byte.
abbrev pub Bytes : Text → Type 0
Bytes [] = Unit {0}
Bytes (b ∷ bs) = (b < 256) × Bytes bs

plain-literal : (b : ℕ) → unreserved b ≡ true → literal b ≡ b
unfolding unreserved literal
plain-literal b h = ground arith

plain-escape : (b c d : ℕ) → unreserved b ≡ true → escape b c d ≡ none
unfolding unreserved escape
plain-escape b c d h = ground arith

unhex-hex_digit : (n : ℕ) → n < 16 → unhex (hex_digit n) ≡ some n
unfolding unhex hex_digit
unhex-hex_digit n h = ground arith

hex_digit-plus : (n : ℕ) → (hex_digit n == b'+') ≡ false
unfolding hex_digit
hex_digit-plus n = ground arith

from_hex-digits : (b : ℕ) → b < 256 → from_hex (hex_digit (b / 16)) (hex_digit (b % 16)) ≡ some b
unfolding from_hex pair
from_hex-digits b h =
    rw
      (
        hex_digit-plus (b / 16),
        unhex-hex_digit (b / 16) (omega arith),
        unhex-hex_digit (b % 16) (omega arith),
      )
      (ap some (omega arith))

emit-plain :
    (c : ℕ) (o : Option ℕ) (after next : Text)
    → o ≡ none
    → literal c ≡ c
    → emit o c after next ≡ c ∷ next
unfolding emit
emit-plain c o after next h l = rw (h, l) refl

emit-escape :
    (v : ℕ) (o : Option ℕ) (after next : Text) → o ≡ some v → emit o b'%' after next ≡ v ∷ after
unfolding emit
emit-escape v o after next h = rw h refl

urldecode-plain : (b : ℕ) (xs : Text) → unreserved b ≡ true → urldecode (b ∷ xs) ≡ b ∷ urldecode xs
unfolding urldecode
urldecode-plain b [] h = rw (plain-literal b h) refl
urldecode-plain b (a ∷ []) h = rw (plain-literal b h) refl
urldecode-plain b (a ∷ c ∷ xs) h = emit-plain b _ _ _ (plain-escape b a c h) (plain-literal b h)

urldecode-escape :
    (b : ℕ) (xs : Text)
    → b < 256
    → urldecode (b'%' ∷ hex_digit (b / 16) ∷ hex_digit (b % 16) ∷ xs) ≡ b ∷ urldecode xs
unfolding urldecode escape
urldecode-escape b xs h = emit-escape b _ _ _ (from_hex-digits b h)

-- What is encoded decodes to the same bytes.
pub urldecode-urlencode : (bs : Text) → Bytes bs → urldecode (urlencode bs) ≡ bs
unfolding urlencode urldecode
urldecode-urlencode [] h = refl
urldecode-urlencode (b ∷ bs) h =
    let rest = ap (λ x. b ∷ x) (urldecode-urlencode bs h.1) in
    elim (Bool-cases (unreserved b)) [
      | inl e ↦ rw e (urldecode-plain b (urlencode bs) e ∙ rest)
      | inr e ↦ rw e (urldecode-escape b (urlencode bs) h.0 ∙ rest)
    ]
