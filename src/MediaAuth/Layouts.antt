-- ===== src/MediaAuth/Layouts.antt =====
-- The layouts of the media files: each names its video, and the guard reads the number back.
use lan_video.Prelude.{
  ℕ, ◌≡◌, ◌≤◌, refl, ap, sym, ◌∙◌, [], arith, false, ◌==◌, Option, none, some, ◌∷◌, ◌++◌,
  Option-cases, inl, inr,
}
use lan_video.Prelude.Texts.{Text}
use lan_video.Prelude.Cuts.{
  ℤ, codes, split_once, before, parse_i64, to_string, decimal, strip_prefix, is_ascii_digit,
}
use lan_video.Prelude.Decimal.{
  IsI64, parse_i64-to_string, before-other, before-to_string, before-to_string_end,
  before-to_string_all,
}
use lan_video.MediaAuth.FlatNames.{IsPlain, flat_name, flat_id-flat_name, to_string-head}
use lan_video.MediaAuth.{
  flat_id, variants_id, preview_id, extract_video_id_from_path, stripped, id_of, hls_id, videos_id,
  or_else, unwrap_or,
}

pub data Layout : Type 0 where
  hls videos variants thumb thumb_stamped cover cover_stamped : Layout
  -- A transcoded variant of so many lines.
  flat : ℕ → Layout

-- The path of a file of the video, after `/media/`.
abbrev pub file_of : Layout → ℤ → Text → Text
file_of hls id rest = codes "hls/" ++ to_string id ++ b'/' ∷ rest
file_of videos id rest = codes "videos/" ++ to_string id ++ b'/' ∷ rest
file_of variants id rest = codes "variants/" ++ to_string id ++ b'_' ∷ rest
file_of thumb id rest = codes "thumb_" ++ to_string id ++ b'.' ∷ rest
file_of thumb_stamped id rest = codes "thumb_" ++ to_string id ++ b'_' ∷ rest
file_of cover id rest = codes "cover_" ++ to_string id ++ b'.' ∷ rest
file_of cover_stamped id rest = codes "cover_" ++ to_string id ++ b'_' ∷ rest
file_of (flat n) id rest = flat_name id n rest

-- In the flat layout the rest is the file's extension.
abbrev pub IsRest : Layout → Text → Type 0
IsRest (flat n) rest = IsPlain rest
IsRest _ rest = Unit {0}

id_before :
    (id : ℤ) (c : ℕ) (rest : Text)
    → IsI64 id
    → is_ascii_digit c ≡ false
    → (b'-' == c) ≡ false
    → parse_i64 (before c (to_string id ++ c ∷ rest)) ≡ some id
id_before id c rest h k m =
    ap parse_i64 (before-to_string_end id c rest k m) ∙ parse_i64-to_string id h

-- The number in a preview's name ends at the first dot or underscore.
preview_dot :
    (id : ℤ) (rest : Text)
    → IsI64 id
    → parse_i64 (before b'.' (before b'_' (to_string id ++ b'.' ∷ rest))) ≡ some id
unfolding is_ascii_digit
preview_dot id rest h =
    ap (λ t. parse_i64 (before b'.' t))
      (before-to_string id b'_' (b'.' ∷ rest) refl refl
        ∙ ap (λ t. to_string id ++ t) (before-other b'.' b'_' rest refl))
    ∙ id_before id b'.' (before b'_' rest) h refl refl

preview_stamped :
    (id : ℤ) (rest : Text)
    → IsI64 id
    → parse_i64 (before b'.' (before b'_' (to_string id ++ b'_' ∷ rest))) ≡ some id
unfolding is_ascii_digit
preview_stamped id rest h =
    ap (λ t. parse_i64 (before b'.' t)) (before-to_string_end id b'_' rest refl refl)
    ∙ (ap parse_i64 (before-to_string_all id b'.' refl refl) ∙ parse_i64-to_string id h)

-- A path with another first letter is not under `videos/`.
videos_id-other :
    (c : ℕ) (t : Text) → (c == b'/') ≡ false → (c == b'v') ≡ false → videos_id (c ∷ t) ≡ none
unfolding videos_id
videos_id-other c t h k = elim (Option-cases (split_once b'/' t)) [
  | inl e ↦ rw (h, e, videos_id) refl
  | inr (p, e) ↦ rw (h, e, k, videos_id) refl
]

or_else_left : (o p : Option ℤ) (id : ℤ) → o ≡ some id → or_else o p ≡ some id
or_else_left o p id h = ap (λ x. or_else x p) h

skip_none :
    (o : Option (Option ℤ)) (d : Option ℤ) (id : ℤ)
    → o ≡ none
    → d ≡ some id
    → unwrap_or d o ≡ some id
skip_none o d id h k = ap (unwrap_or d) h ∙ k

id_of-flat :
    (c : ℕ) (t : Text) (id : ℤ)
    → c ≤ 57
    → (c == b'/') ≡ false
    → flat_id (c ∷ t) ≡ some id
    → id_of (c ∷ t) ≡ some id
unfolding id_of hls_id variants_id preview_id strip_prefix
id_of-flat c t id b s f =
    let other : (c == b'v') ≡ false = ground arith in
    let h : (b'h' == c) ≡ false = ground arith in
    let v : (b'v' == c) ≡ false = ground arith in
    let m : (b't' == c) ≡ false = ground arith in
    let k : (b'c' == c) ≡ false = ground arith in rw (videos_id-other c t s other, h, v, m, k) f

flat_name-id :
    (id : ℤ) (n : ℕ) (ext : Text) → IsI64 id → IsPlain ext → id_of (flat_name id n ext) ≡ some id
flat_name-id id n ext h p =
    let (c, r, e, b, s) = to_string-head id in
    let name : Text = b'_' ∷ ((decimal n ++ b'p' ∷ []) ++ b'.' ∷ ext) in
    let same : flat_name id n ext ≡ c ∷ (r ++ name) = ap (λ x. x ++ name) e in
    ap id_of same
    ∙ id_of-flat c (r ++ name) id b s (ap flat_id (sym same) ∙ flat_id-flat_name id n ext h p)

thumb-id :
    (id : ℤ) (rest : Text)
    → parse_i64 (before b'.' (before b'_' (to_string id ++ rest))) ≡ some id
    → id_of (codes "thumb_" ++ to_string id ++ rest) ≡ some id
unfolding id_of hls_id
thumb-id id rest e =
    skip_none (videos_id (codes "thumb_" ++ to_string id ++ rest)) _ id
      (videos_id-other b't' (codes "humb_" ++ to_string id ++ rest) refl refl)
      (or_else_left _ _ id e)

cover-id :
    (id : ℤ) (rest : Text)
    → parse_i64 (before b'.' (before b'_' (to_string id ++ rest))) ≡ some id
    → id_of (codes "cover_" ++ to_string id ++ rest) ≡ some id
unfolding id_of hls_id
cover-id id rest e =
    skip_none (videos_id (codes "cover_" ++ to_string id ++ rest)) _ id
      (videos_id-other b'c' (codes "over_" ++ to_string id ++ rest) refl refl)
      (or_else_left _ _ id e)

file_of-id :
    (l : Layout) (id : ℤ) (rest : Text)
    → IsI64 id
    → IsRest l rest
    → id_of (file_of l id rest) ≡ some id
unfolding id_of hls_id is_ascii_digit
file_of-id hls id rest h p = or_else_left _ _ id (id_before id b'/' rest h refl refl)
file_of-id videos id rest h p = id_before id b'/' rest h refl refl
file_of-id variants id rest h p = or_else_left _ _ id (id_before id b'_' rest h refl refl)
file_of-id thumb id rest h p = thumb-id id (b'.' ∷ rest) (preview_dot id rest h)
file_of-id thumb_stamped id rest h p = thumb-id id (b'_' ∷ rest) (preview_stamped id rest h)
file_of-id cover id rest h p = cover-id id (b'.' ∷ rest) (preview_dot id rest h)
file_of-id cover_stamped id rest h p = cover-id id (b'_' ∷ rest) (preview_stamped id rest h)
file_of-id (flat n) id rest h p = flat_name-id id n rest h p

-- In each of eight layouts of the media files the guard takes the number of the video for the video,
-- whatever integer of 64 bits it is: hls/{id}/{rest}, videos/{id}/{rest}, variants/{id}_{rest}, thumb_{id}.{rest},
-- thumb_{id}_{rest}, cover_{id}.{rest}, cover_{id}_{rest}, with any rest behind the number, and {id}_{n}p.{ext}
-- with any number of lines and an extension without slashes, underscores and dots.
pub extract_video_id_from_path-file_of :
    (l : Layout) (id : ℤ) (rest : Text)
    → IsI64 id
    → IsRest l rest
    → extract_video_id_from_path (codes "/media/" ++ file_of l id rest) ≡ some id
unfolding extract_video_id_from_path stripped
extract_video_id_from_path-file_of l id rest h p = file_of-id l id rest h p
