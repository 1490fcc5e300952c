-- ===== src/Auth/Rules/Strength.antt =====
-- What the test of a password counts.
use lan_video.Prelude.{
  ℕ, ◌+◌, ◌≡◌, ◌∙◌, Bool, true, not, ◌&&◌, ◌||◌, [], ◌∷◌, ltb, leb, length, any, arith,
  if◌then◌else◌, Bool-cases, inl, inr,
}
use lan_video.Prelude.Texts.{Text}
use lan_video.Auth.Rules.{
  from_bool, is_ascii_digit, Seen, nothing_seen, all_seen, categories, see, scan,
  is_password_strong_enough,
}

module _ (is_uppercase is_lowercase : ℕ → Bool) where
  -- The four kinds, each character being of one.
  abbrev pub is_lower : ℕ → Bool
  is_lower c = not (is_uppercase c) && is_lowercase c

  abbrev pub is_digit : ℕ → Bool
  is_digit c = not (is_uppercase c) && (not (is_lowercase c) && is_ascii_digit c)

  abbrev pub is_special : ℕ → Bool
  is_special c = not (is_uppercase c) && (not (is_lowercase c) && not (is_ascii_digit c))

  -- What is seen of a text, after what was seen before it.
  abbrev seen_after : Seen → Text → Seen
  seen_after s pw = record {
    has_upper = s.has_upper || any is_uppercase pw;
    has_lower = s.has_lower || any is_lower pw;
    has_digit = s.has_digit || any is_digit pw;
    has_special = s.has_special || any is_special pw;
  }

  abbrev pub kinds : Text → ℕ
  kinds pw =
      from_bool (any is_uppercase pw)
      + from_bool (any is_lower pw)
      + from_bool (any is_digit pw)
      + from_bool (any is_special pw)

  see-after :
      (c : ℕ) (cs : Text) (s : Seen)
      → seen_after (see is_uppercase is_lowercase c s) cs ≡ seen_after s (c ∷ cs)
  unfolding see any
  see-after c cs s = ground arith

  all_seen-after : (s : Seen) (cs : Text) → all_seen s ≡ true → s ≡ seen_after s cs
  unfolding all_seen
  all_seen-after s cs h = ground arith

  scan-after : (cs : Text) (s : Seen) → scan is_uppercase is_lowercase cs s ≡ seen_after s cs
  unfolding scan any
  scan-after [] s = ground arith
  scan-after (c ∷ cs) s = elim (Bool-cases (all_seen (see is_uppercase is_lowercase c s))) [
    | inl e ↦ rw e (all_seen-after (see is_uppercase is_lowercase c s) cs e ∙ see-after c cs s)
    | inr e ↦ rw e (scan-after cs (see is_uppercase is_lowercase c s) ∙ see-after c cs s)
  ]

  -- The loop that ends early judges a password by how many of the four kinds of characters stand
  -- anywhere in it, of which there must be three, or two where it has twelve characters.
  pub is_password_strong_enough-kinds :
      (pw : Text)
      → is_password_strong_enough is_uppercase is_lowercase pw
        ≡ leb (if ltb (length pw) 12 then 3 else 2) (kinds pw)
  unfolding is_password_strong_enough categories
  is_password_strong_enough-kinds pw = rw (scan-after pw nothing_seen) (ground arith)
