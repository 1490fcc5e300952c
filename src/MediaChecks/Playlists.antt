-- ===== src/MediaChecks/Playlists.antt =====
-- What an accepted playlist is.
use lan_video.Prelude.{
  ℕ, ◌≤◌, ◌≡◌, refl, sym, ap, subst, ◌∙◌, Bool, true, false, not, ◌&&◌, ◌||◌, ltb, Option, none,
  some, List, [], ◌∷◌, ◌++◌, map, any, arith, inl, inr, Bool-cases, ==_iff,
}
use lan_video.Prelude.Texts.{Text, text_eq, text_eq-eq, ascii_lower}
use lan_video.Prelude.Cuts.{codes, starts_with, is_some, strip_prefix}
use lan_video.MediaChecks.{
  File, max_m3u8_bytes, trim_start, contains, needles, is_playlist, check_text, check_size,
  validate_file_type,
}

-- A small text that a playlist may hold, and no part of one that is forbidden, in any case.
pub record Playlist (f : File) : Type 0 where
  pub size : ℕ
  pub text : Text
  pub measured : f.size ≡ some size
  pub small : size ≤ max_m3u8_bytes
  pub read : f.text ≡ some text
  pub headed : starts_with (codes "#EXTM3U") (trim_start text) ≡ true
  pub harmless :
      (a m b : Text) → text ≡ a ++ (m ++ b) → any (text_eq (map ascii_lower m)) needles ≡ false

starts_with-append : (n b : Text) → starts_with n (n ++ b) ≡ true
unfolding starts_with strip_prefix is_some
starts_with-append [] b = refl
starts_with-append (c ∷ n) b = rw ((==_iff c c).1 refl) (starts_with-append n b)

at_start : (n t : Text) → starts_with n t ≡ true → contains n t ≡ true
unfolding contains
at_start n [] h = h
at_start n (c ∷ t) h = rw h refl

or_right : (a b : Bool) → b ≡ true → (a || b) ≡ true
or_right true b h = refl
or_right false b h = h

contains-append : (a n b : Text) → contains n (a ++ (n ++ b)) ≡ true
unfolding contains
contains-append [] n b = at_start n (n ++ b) (starts_with-append n b)
contains-append (c ∷ a) n b = or_right (starts_with n (c ∷ a ++ (n ++ b))) _ (contains-append a n b)

map-append : (f : ℕ → ℕ) (a b : Text) → map f (a ++ b) ≡ map f a ++ map f b
map-append f [] b = refl
map-append f (c ∷ a) b = ap (λ t. f c ∷ t) (map-append f a b)

either_false : (a b : Bool) → (a || b) ≡ false → (a ≡ false) × (b ≡ false)
either_false true b h = absurd (cc h)
either_false false b h = (refl, h)

-- A text that is a part is none of those that are not contained.
part-any :
    (a x b t : Text) (ns : List Text)
    → t ≡ a ++ (x ++ b)
    → any (λ n. contains n t) ns ≡ false
    → any (text_eq x) ns ≡ false
unfolding any
part-any a x b t [] e h = refl
part-any a x b t (n ∷ ns) e h =
    let (c, hs) = either_false (contains n t) (any (λ i. contains i t) ns) h in
    elim (Bool-cases (text_eq x n)) [
      | inr q ↦ rw q (part-any a x b t ns e hs)
      | inl q ↦
          let held =
            subst (λ y. contains y t ≡ true) (text_eq-eq x n q)
              (ap (contains x) e ∙ contains-append a x b) in
          absurd (let k = sym c ∙ held in cc k)
    ]

both_true : (a b : Bool) → (a && b) ≡ true → (a ≡ true) × (b ≡ true)
both_true true b h = (refl, h)
both_true false b h = absurd (cc h)

not-true : (b : Bool) → not b ≡ true → b ≡ false
not-true true h = absurd (cc h)
not-true false h = refl

lower_part :
    (t a m b : Text)
    → t ≡ a ++ (m ++ b)
    → map ascii_lower t ≡ map ascii_lower a ++ (map ascii_lower m ++ map ascii_lower b)
lower_part t a m b e =
    ap (map ascii_lower) e
    ∙ (map-append ascii_lower a (m ++ b)
        ∙ ap (λ r. map ascii_lower a ++ r) (map-append ascii_lower m b))

check_text-Playlist :
    (f : File) (size : ℕ) (t : Option Text)
    → f.size ≡ some size
    → size ≤ max_m3u8_bytes
    → f.text ≡ t
    → check_text t ≡ true
    → Playlist f
unfolding check_text is_playlist
check_text-Playlist f size none m s r h = absurd (cc h)
check_text-Playlist f size (some text) m s r h =
    let (headed, clear) = both_true _ _ h in
    record {
      size = size;
      text = text;
      measured = m;
      small = s;
      read = r;
      headed = headed;
      harmless = λ a x b e.
          part-any (map ascii_lower a) (map ascii_lower x) (map ascii_lower b)
            (map ascii_lower text) needles (lower_part text a x b e) (not-true _ clear);
    }

check_size-Playlist :
    (f : File) (o : Option ℕ) → f.size ≡ o → check_size o f.text ≡ true → Playlist f
unfolding check_size
check_size-Playlist f none m h = absurd (cc h)
check_size-Playlist f (some size) m h = elim (Bool-cases (ltb max_m3u8_bytes size)) [
  | inl e ↦ absurd (let n = rw (e, check_size) at h in cc n)
  | inr e ↦ check_text-Playlist f size f.text m (ground arith) refl (rw (e, check_size) at h)
]

-- A file that is accepted as a playlist can be measured and read, has at most 1048576 bytes and, behind
-- blanks, the header of a playlist, and no part of it is one of the forbidden texts in capital or
-- small letters.
pub validate_file_type-Playlist :
    (f : File) → validate_file_type (codes "m3u8") f ≡ true → Playlist f
unfolding validate_file_type text_eq
validate_file_type-Playlist f h = check_size-Playlist f f.size refl h
