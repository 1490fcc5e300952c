-- ===== src/MediaChecks/Urls.antt =====
-- `is_safe_external_url` of backend/src/services/media_service/validate.rs.
use lan_video.Prelude.{
  ℕ, suc, ◌≡◌, refl, ap, sym, subst, ◌⊎◌, ◌==◌, ltb, leb, Bool, false, not, ◌&&◌, ◌||◌, Option,
  none, some, List, [], ◌∷◌, ◌++◌, map, any, all, arith, inl, inr, Bool-cases, if◌then◌else◌,
}
use lan_video.Prelude.Texts.{Text, text_eq, ascii_lower}
use lan_video.Prelude.Cuts.{
  codes, split, split_once, starts_with, ends_with, strip_suffix, is_ascii_digit,
}
use lan_video.MediaChecks.Addresses.{cut, parse_ip, is_disallowed_ip}

is_ascii_hexdigit : ℕ → Bool
unfolding is_ascii_digit ascii_lower
is_ascii_hexdigit c = is_ascii_digit c || (leb b'a' (ascii_lower c) && leb (ascii_lower c) b'f')

is_some_digits : (ℕ → Bool) → Text → Bool
unfolding all
is_some_digits p [] = false
is_some_digits p (c ∷ cs) = all p (c ∷ cs)

unfoldable pub is_numeric_component : Text → Bool
unfolding is_some_digits is_ascii_hexdigit is_ascii_digit
is_numeric_component (c ∷ x ∷ hex) =
    if c == b'0' && (x == b'x' || x == b'X')
    then is_some_digits is_ascii_hexdigit hex
    else is_some_digits is_ascii_digit (c ∷ x ∷ hex)
is_numeric_component part = is_some_digits is_ascii_digit part

unfoldable pub is_noncanonical_ip_literal : Text → Bool
unfolding all split is_numeric_component
is_noncanonical_ip_literal host = all is_numeric_component (split b'.' host)

abbrev pub blocked : List Text
blocked =
    codes "localhost"
    ∷ codes "127.0.0.1"
    ∷ codes "::1"
    ∷ codes "0.0.0.0"
    ∷ codes "169.254.169.254"
    ∷ codes "metadata.google.internal"
    ∷ codes "metadata.goog"
    ∷ codes "100.100.100.200"
    ∷ []

-- The host in small letters, without brackets and dots at its end.
unfoldable pub is_safe_host : Text → Bool
unfolding any text_eq ends_with parse_ip is_disallowed_ip is_noncanonical_ip_literal
is_safe_host host =
    if any (text_eq host) blocked || ends_with (codes ".localhost") host
    then false
    else elim (parse_ip host) [
      | some ip ↦ not (is_disallowed_ip ip)
      | none ↦ not (is_noncanonical_ip_literal host)
    ]

-- `trim_end_matches('.')`.
unfoldable pub trim_dots : Text → Text
trim_dots [] = []
trim_dots (c ∷ cs) = elim (trim_dots cs) [
  | [] ↦ if c == b'.' then [] else c ∷ []
  | d ∷ ds ↦ c ∷ d ∷ ds
]

unbracketed : Text → Text
unfolding strip_suffix
unbracketed [] = []
unbracketed (c ∷ inner) =
    if c == b'[' then elim (strip_suffix b']' inner) [ none ↦ inner | some t ↦ t ] else c ∷ inner

unfoldable pub check_host : Text → Bool
unfolding is_safe_host unbracketed trim_dots ascii_lower
check_host [] = false
check_host (c ∷ host) = is_safe_host (map ascii_lower (trim_dots (unbracketed (c ∷ host))))

-- The text before the first colon or slash.
until_port : Text → Text
until_port [] = []
until_port (c ∷ cs) = let rest = until_port cs in if c == b':' || c == b'/' then [] else c ∷ rest

bracketed : Option (Text × Text) → Bool
unfolding check_host
bracketed none = false
bracketed (some (inner, rest)) = check_host (inner ++ b']' ∷ [])

unfoldable pub check_after : Text → Bool
unfolding starts_with bracketed split_once check_host until_port
check_after after =
    if starts_with (codes "[") after
    then bracketed (split_once b']' after)
    else check_host (until_port after)

-- The number of `@`.
unfoldable pub ats : Text → ℕ
ats [] = 0
ats (c ∷ cs) = let rest = ats cs in if c == b'@' then suc rest else rest

unfoldable pub without_userinfo : Text → Text
unfolding split_once
without_userinfo after = elim (split_once b'@' after) [ none ↦ after | some (user, rest) ↦ rest ]

unfoldable pub check_authority : Text → Bool
unfolding ats check_after without_userinfo
check_authority after = if ltb 1 (ats after) then false else check_after (without_userinfo after)

unfoldable pub is_safe_external_url : Text → Bool
unfolding cut text_eq check_authority
is_safe_external_url url = elim (cut (codes "://") url) [
  | none ↦ false
  | some (scheme, after) ↦
      if text_eq scheme (codes "http") || text_eq scheme (codes "https")
      then check_authority after
      else false
]

ats-append : (h t : Text) → ats h ≡ 0 → ats t ≡ 0 → ats (h ++ b'@' ∷ t) ≡ 1
unfolding ats
ats-append [] t a b = ap suc b
ats-append (c ∷ h) t a b = ground (arith, ats-append h t)

split-append : (h t : Text) → ats h ≡ 0 → split_once b'@' (h ++ b'@' ∷ t) ≡ some (h, t)
unfolding ats split_once
split-append [] t a = refl
split-append (c ∷ h) t a = elim (Bool-cases (c == b'@')) [
  | inl e ↦ absurd (let n = rw (e, ats) at a in cc n)
  | inr e ↦ rw (e, split-append h t (rw (e, ats) at a)) refl
]

split-without : (t : Text) → ats t ≡ 0 → split_once b'@' t ≡ none
unfolding ats split_once
split-without [] a = refl
split-without (c ∷ t) a = elim (Bool-cases (c == b'@')) [
  | inl e ↦ absurd (let n = rw (e, ats) at a in cc n)
  | inr e ↦ rw (e, split-without t (rw (e, ats) at a)) refl
]

user_gone : (h t : Text) → ats h ≡ 0 → without_userinfo (h ++ b'@' ∷ t) ≡ t
unfolding without_userinfo
user_gone h t a = rw (split-append h t a, without_userinfo) refl

no_user : (t : Text) → ats t ≡ 0 → without_userinfo t ≡ t
unfolding without_userinfo
no_user t a = rw (split-without t a, without_userinfo) refl

check_authority-hidden :
    (h t : Text) → ats h ≡ 0 → ats t ≡ 0 → check_authority (h ++ b'@' ∷ t) ≡ check_authority t
unfolding check_authority
check_authority-hidden h t a b =
    rw (ats-append h t a b, user_gone h t a, b, no_user t b, check_authority) refl

-- Whatever stands before the only at sign of a URL of http or https is not looked at, slashes included:
-- the URL is judged like the one without it.
pub is_safe_external_url-hidden :
    (s h t : Text)
    → (s ≡ codes "http") ⊎ (s ≡ codes "https")
    → ats h ≡ 0
    → ats t ≡ 0
    → is_safe_external_url (s ++ codes "://" ++ h ++ b'@' ∷ t)
      ≡ is_safe_external_url (s ++ codes "://" ++ t)
is_safe_external_url-hidden s h t (inl e) a b =
    subst
      (λ x.
        is_safe_external_url (x ++ codes "://" ++ h ++ b'@' ∷ t)
        ≡ is_safe_external_url (x ++ codes "://" ++ t))
      (sym e) (unfold is_safe_external_url in check_authority-hidden h t a b)
is_safe_external_url-hidden s h t (inr e) a b =
    subst
      (λ x.
        is_safe_external_url (x ++ codes "://" ++ h ++ b'@' ∷ t)
        ≡ is_safe_external_url (x ++ codes "://" ++ t))
      (sym e) (unfold is_safe_external_url in check_authority-hidden h t a b)
