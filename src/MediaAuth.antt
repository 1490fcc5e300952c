-- ===== src/MediaAuth.antt =====
-- What a request for a media file says: the paths, the headers and the query, as
-- backend/src/middleware/auth/media.rs and backend/src/middleware/auth/mod.rs read them, and
-- `is_valid_share_token` of backend/src/services/share_service.rs. A header is here if it has only
-- visible ASCII characters (`to_str`).
pub mod Playback
pub mod Queries
pub mod Guard
pub mod Watching
pub mod Privacy
pub mod Coherence
pub mod Kept
pub mod Requests
pub mod FlatNames
pub mod Layouts
pub mod Heartbeats
pub mod Bearer
pub mod Accounts
mod Tests
use lan_video.Prelude.{
  ℕ, ◌+◌, ◌==◌, ltb, leb, Bool, true, false, not, ◌&&◌, ◌||◌, Option, none, some, List, [], ◌∷◌,
  ◌++◌, length, any, all, map, if◌then◌else◌,
}
use lan_video.Prelude.Assoc.{◌=?◌}
use lan_video.Prelude.Texts.{Text, text_Eq, text_eq, ascii_lower, eq_ignore_ascii_case}
use lan_video.Prelude.Cuts.{
  ℤ, codes, strip_prefix, starts_with, ends_with, strip_suffix, split_once, rsplit_once, before,
  after_last, split, trim, is_ascii_digit, parse_i64,
}
use lan_video.Sessions.{is_ascii_alphanumeric}

-- A request: the path as the router passes it on, the query, and the headers.
pub record Request : Type 0 where
  pub path : Text
  pub query : Option Text
  pub authorization : Option Text
  pub cookie : Option Text
  pub x_video_id : Option Text
  pub x_csrf_token : Option Text
  -- POST, PUT, DELETE or PATCH.
  pub is_mutation : Bool

abbrev pub or_else {ℓ} : {A : Type ℓ} → Option A → Option A → Option A
or_else none o = o
or_else (some a) o = some a

abbrev pub unwrap_or {ℓ} : {A : Type ℓ} → A → Option A → A
unwrap_or d none = d
unwrap_or d (some a) = a

abbrev pub and_then {ℓ κ} : {A : Type ℓ} {B : Type κ} → Option A → (A → Option B) → Option B
and_then none f = none
and_then (some a) f = f a

-- The router strips `/media` from the path.
unfoldable pub canonical : Text → Text
unfolding starts_with
canonical path = if starts_with (codes "/media/") path then path else codes "/media" ++ path

unfoldable pub stripped : Text → Text
unfolding strip_prefix
stripped path = unwrap_or path (strip_prefix (codes "/media/") path)

unfoldable pub hls_id : Text → Option ℤ
unfolding strip_prefix before parse_i64
hls_id s = and_then (strip_prefix (codes "hls/") s) (λ rest. parse_i64 (before b'/' rest))

-- `none` where the path is not `videos/...`.
unfoldable pub videos_id : Text → Option (Option ℤ)
unfolding split_once before parse_i64 text_eq
videos_id s = elim (split_once b'/' s) [
  | none ↦ none
  | some (first, rest) ↦
      if text_eq first (codes "videos") then some (parse_i64 (before b'/' rest)) else none
]

unfoldable pub variants_id : Text → Option ℤ
unfolding strip_prefix before parse_i64
variants_id s = and_then (strip_prefix (codes "variants/") s) (λ rest. parse_i64 (before b'_' rest))

unfoldable pub preview_id : Text → Text → Option ℤ
unfolding strip_prefix before parse_i64
preview_id prefix s =
    and_then (strip_prefix prefix s) (λ rest. parse_i64 (before b'.' (before b'_' rest)))

unfoldable pub is_resolution : Text → Bool
unfolding all is_ascii_digit
is_resolution [] = false
is_resolution (c ∷ cs) = all is_ascii_digit (c ∷ cs)

unfoldable pub resolution : Text → Bool
unfolding strip_suffix is_resolution
resolution stem = elim (strip_suffix b'p' stem) [ none ↦ false | some core ↦ is_resolution core ]

unfoldable pub stem_of : Text → Text
unfolding rsplit_once
stem_of res = elim (rsplit_once b'.' res) [ none ↦ res | some (stem, ext) ↦ stem ]

-- `{id}_{digits}p.{ext}`.
unfoldable pub flat_id : Text → Option ℤ
unfolding rsplit_once after_last parse_i64 resolution stem_of
flat_id s = elim (rsplit_once b'_' (after_last b'/' s)) [
  | none ↦ none
  | some (id_str, res) ↦ if resolution (stem_of res) then parse_i64 id_str else none
]

unfoldable pub id_of : Text → Option ℤ
unfolding hls_id videos_id variants_id preview_id flat_id
id_of s = or_else (hls_id s) (
    unwrap_or
      (or_else (variants_id s) (
        or_else (preview_id (codes "thumb_") s)
          (or_else (preview_id (codes "cover_") s) (flat_id s))))
      (videos_id s))

unfoldable pub extract_video_id_from_path : Text → Option ℤ
unfolding id_of stripped
extract_video_id_from_path path = id_of (stripped path)

unfoldable pub is_public_static_media_path : Text → Bool
unfolding starts_with
is_public_static_media_path path = starts_with (codes "/media/avatars/") path

unfoldable pub is_chat_media_path : Text → Bool
unfolding starts_with
is_chat_media_path path = starts_with (codes "/media/chat/") path

abbrev pub chat_extensions : List Text
chat_extensions =
    codes "jpg"
    ∷ codes "jpeg"
    ∷ codes "png"
    ∷ codes "webp"
    ∷ codes "gif"
    ∷ codes "mp4"
    ∷ codes "webm"
    ∷ []

is_stem_char : ℕ → Bool
unfolding is_ascii_alphanumeric
is_stem_char c = is_ascii_alphanumeric c || (c == b'_' || c == b'-')

unfoldable pub is_chat_name : Text → Text → Bool
unfolding all any is_stem_char text_eq ascii_lower
is_chat_name stem ext =
    (ltb 0 (length stem) && leb (length stem) 64)
    && (all is_stem_char stem && any (text_eq (map ascii_lower ext)) chat_extensions)

unfoldable pub is_chat_file : Text → Bool
unfolding any rsplit_once is_chat_name
is_chat_file rest =
    if any (λ c. c == b'/') rest
    then false
    else elim (rsplit_once b'.' rest) [ none ↦ false | some (stem, ext) ↦ is_chat_name stem ext ]

unfoldable pub is_valid_chat_media_path : Text → Bool
unfolding strip_prefix is_chat_file
is_valid_chat_media_path path = elim (strip_prefix (codes "/media/chat/") path) [
  | none ↦ false
  | some rest ↦ is_chat_file rest
]

unfoldable pub is_preview_name : Text → Bool
unfolding starts_with ends_with
is_preview_name first =
    starts_with (codes "thumb_") first
    || (starts_with (codes "cover_") first || ends_with (codes "_121.jpg") first)

unfoldable pub is_thumbnail_or_cover_path : Text → Bool
unfolding stripped before is_preview_name
is_thumbnail_or_cover_path path = is_preview_name (before b'/' (stripped path))

unfoldable pub is_valid_share_token : Text → Bool
unfolding all is_ascii_alphanumeric
is_valid_share_token token = length token == 32 && all is_ascii_alphanumeric token

-- `(!value.is_empty()).then(|| value)`.
unfoldable pub non_empty : Text → Option Text
non_empty [] = none
non_empty (c ∷ cs) = some (c ∷ cs)

abbrev value_of : Option (Text × Text) → Option Text
value_of none = none
value_of (some (k, v)) = some v

key_of : Text → Text
unfolding before
key_of pair = before b'=' pair

-- The value of the first pair with the key. A pair without a value ends the search.
unfoldable pub cookie_in : Text → List Text → Option Text
unfolding trim key_of text_eq split_once non_empty
cookie_in name [] = none
cookie_in name (pair ∷ pairs) =
    let rest = cookie_in name pairs in
    if text_eq (trim (key_of pair)) name
    then and_then (value_of (split_once b'=' pair)) (λ v. non_empty (trim v))
    else rest

unfoldable pub cookie_value : Text → Option Text → Option Text
unfolding cookie_in split
cookie_value name cookie = and_then cookie (λ c. cookie_in name (split b';' c))

unfoldable pub extract_token_from_cookie : Request → Option Text
unfolding cookie_value
extract_token_from_cookie r = cookie_value (codes "token") r.cookie

unfoldable pub extract_csrf_from_cookie : Request → Option Text
unfolding cookie_value
extract_csrf_from_cookie r = cookie_value (codes "csrf_token") r.cookie

unfoldable pub extract_share_token_from_cookie : Request → Option Text
unfolding cookie_value
extract_share_token_from_cookie r = cookie_value (codes "share_token") r.cookie

bearer : Text × Text → Option Text
unfolding eq_ignore_ascii_case non_empty trim
bearer (scheme, rest) =
    if eq_ignore_ascii_case scheme (codes "bearer") then non_empty (trim rest) else none

unfoldable pub extract_bearer_token : Request → Option Text
unfolding split_once trim bearer
extract_bearer_token r =
    and_then r.authorization (λ auth. and_then (split_once b' ' (trim auth)) bearer)

unfoldable pub query_in : List Text → Option Text
unfolding key_of text_eq split_once
query_in [] = none
query_in (pair ∷ pairs) =
    let rest = query_in pairs in
    if text_eq (key_of pair) (codes "share_token") then value_of (split_once b'=' pair) else rest

unfoldable pub extract_share_token : Request → Option Text
unfolding query_in split
extract_share_token r = and_then r.query (λ q. query_in (split b'&' q))
