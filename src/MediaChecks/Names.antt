-- ===== src/MediaChecks/Names.antt =====
-- What a name is after `sanitize_filename`.
use lan_video.Prelude.{
  ℕ, ◌-◌, ◌≤◌, ◌≡◌, refl, ◌==◌, ltb, leb, Bool, true, false, ◌||◌, [], ◌∷◌, map, any, arith, inl,
  inr, Bool-cases,
}
use lan_video.Prelude.Texts.{Text}
use lan_video.MediaChecks.{
  is_control, file_name, cleaned, utf8_len, byte_len, truncated, or_default, capped, base_name,
  sanitize_filename,
}

-- A character that no name keeps.
unfoldable pub is_foul : ℕ → Bool
unfolding is_control
is_foul c = is_control c || (c == b'/' || c == b'\\')

cleaned-is_foul : (c : ℕ) → is_foul (cleaned c) ≡ false
unfolding is_foul cleaned is_control
cleaned-is_foul c = ground arith

map-cleaned : (t : Text) → any is_foul (map cleaned t) ≡ false
unfolding any
map-cleaned [] = refl
map-cleaned (c ∷ t) = rw (cleaned-is_foul c) (map-cleaned t)

any_tail : (a b : Bool) → (a || b) ≡ false → (a ≡ false) × (b ≡ false)
any_tail true b h = absurd (cc h)
any_tail false b h = (refl, h)

truncated-clean : (n : ℕ) (t : Text) → any is_foul t ≡ false → any is_foul (truncated n t) ≡ false
unfolding any truncated
truncated-clean n [] h = refl
truncated-clean n (c ∷ t) h = elim (Bool-cases (leb (utf8_len c) n)) [
  | inr e ↦ rw (e, truncated) refl
  | inl e ↦
      let (a, b) = any_tail (is_foul c) (any is_foul t) h in
      rw (e, a, truncated) (truncated-clean (n - utf8_len c) t b)
]

truncated-bytes : (n : ℕ) (t : Text) → byte_len (truncated n t) ≤ n
unfolding truncated byte_len
truncated-bytes n [] = omega arith
truncated-bytes n (c ∷ t) = ground (arith, truncated-bytes (n - utf8_len c) t)

utf8_len_pos : (c : ℕ) → 1 ≤ utf8_len c
unfolding utf8_len
utf8_len_pos c = ground arith

-- A name without foul characters, of at most 200 bytes.
pub record Clean (t : Text) : Type 0 where
  pub unfouled : any is_foul t ≡ false
  pub short : byte_len t ≤ 200

capped-Clean : (t : Text) → any is_foul t ≡ false → Clean (capped t)
unfolding capped
capped-Clean t h = elim (Bool-cases (ltb 200 (byte_len t))) [
  | inl e ↦
      rw (e, capped) record { unfouled = truncated-clean 200 t h; short = truncated-bytes 200 t }
  | inr e ↦ rw (e, capped) record { unfouled = h; short = ground arith }
]

or_default-Clean : (t : Text) → Clean t → Clean (or_default t) × (1 ≤ byte_len (or_default t))
unfolding or_default is_foul is_control any byte_len utf8_len
or_default-Clean [] h = (record { unfouled = refl; short = omega arith }, omega arith)
or_default-Clean (c ∷ t) h = (h, omega (arith, utf8_len_pos c))

-- Whatever name a client gives, the name that is kept has at least one byte and at most 200, and no
-- control character and no separator of paths.
pub sanitize_filename-Clean :
    (name : Text) → Clean (sanitize_filename name) × (1 ≤ byte_len (sanitize_filename name))
unfolding sanitize_filename
sanitize_filename-Clean name =
    or_default-Clean _ (capped-Clean _ (map-cleaned (base_name (file_name name))))
