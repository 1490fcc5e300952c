-- ===== src/MediaChecks.antt =====
-- The checks of backend/src/services/media_service/validate.rs on what a client sends: the name of a
-- file and its type. A text is a list of code points.
pub mod Names
pub mod Playlists
pub mod Addresses
pub mod Urls
mod Tests
use lan_video.Prelude.{
  ℕ, ◌+◌, ◌-◌, ◌==◌, ltb, leb, Bool, true, false, not, ◌&&◌, ◌||◌, Option, none, some, List, [],
  ◌∷◌, map, any, retain, if◌then◌else◌,
}
use lan_video.Prelude.Texts.{Text, text_eq, ascii_lower}
use lan_video.Prelude.Cuts.{codes, split, starts_with}

-- `char::is_control`.
unfoldable pub is_control : ℕ → Bool
is_control c = ltb c 32 || (leb 127 c && leb c 159)

-- A piece of a path that `Path::file_name` passes over.
is_named : Text → Bool
unfolding text_eq
is_named piece = not (text_eq piece []) && not (text_eq piece (codes "."))

last_name : List Text → Option Text
unfolding text_eq
last_name [] = none
last_name (p ∷ []) = if text_eq p (codes "..") then none else some p
last_name (p ∷ q ∷ ps) = last_name (q ∷ ps)

-- `Path::new(name).file_name()`, on a text.
unfoldable pub file_name : Text → Option Text
unfolding last_name retain is_named split
file_name name = last_name (retain is_named (split b'/' name))

unfoldable pub cleaned : ℕ → ℕ
unfolding is_control
cleaned c = if is_control c || (c == b'/' || c == b'\\') then b'_' else c

-- The bytes of a character in UTF-8, and of a text.
unfoldable pub utf8_len : ℕ → ℕ
utf8_len c = if ltb c 128 then 1 else if ltb c 2048 then 2 else if ltb c 65536 then 3 else 4

unfoldable pub byte_len : Text → ℕ
unfolding utf8_len
byte_len [] = 0
byte_len (c ∷ cs) = utf8_len c + byte_len cs

-- `truncate` at the last boundary of a character that is not behind so many bytes.
unfoldable pub truncated : ℕ → Text → Text
unfolding utf8_len
truncated left [] = []
truncated left (c ∷ cs) =
    let rest = truncated (left - utf8_len c) cs in if leb (utf8_len c) left then c ∷ rest else []

abbrev pub default_name : Text
default_name = codes "video.mp4"

unfoldable pub or_default : Text → Text
or_default [] = default_name
or_default (c ∷ cs) = c ∷ cs

unfoldable pub capped : Text → Text
unfolding byte_len truncated
capped out = if ltb 200 (byte_len out) then truncated 200 out else out

unfoldable pub base_name : Option Text → Text
base_name none = default_name
base_name (some b) = b

unfoldable pub sanitize_filename : Text → Text
unfolding file_name cleaned capped or_default base_name
sanitize_filename name = or_default (capped (map cleaned (base_name (file_name name))))

-- What the system says of a file: its size, its text if it is UTF-8, and the type that the package
-- `infer` finds, each if it can be read.
pub record File : Type 0 where
  pub size : Option ℕ
  pub text : Option Text
  pub mime : Option (Option Text)

-- MAX_M3U8_BYTES.
abbrev pub max_m3u8_bytes : ℕ
max_m3u8_bytes = 1048576

-- `char::is_whitespace`.
unfoldable pub is_whitespace : ℕ → Bool
is_whitespace c =
    (leb 9 c && leb c 13)
    || (any (λ w. w == c) (32 ∷ 133 ∷ 160 ∷ 5760 ∷ 8232 ∷ 8233 ∷ 8239 ∷ 8287 ∷ 12288 ∷ [])
        || (leb 8192 c && leb c 8202))

unfoldable pub trim_start : Text → Text
unfolding is_whitespace any
trim_start [] = []
trim_start (c ∷ cs) = let rest = trim_start cs in if is_whitespace c then rest else c ∷ cs

unfoldable pub contains : Text → Text → Bool
unfolding starts_with
contains needle [] = starts_with needle []
contains needle (c ∷ cs) = let rest = contains needle cs in starts_with needle (c ∷ cs) || rest

abbrev pub needles : List Text
needles =
    codes "<script"
    ∷ codes "</script"
    ∷ codes "<iframe"
    ∷ codes "<object"
    ∷ codes "<embed"
    ∷ codes "<?xml"
    ∷ codes "<!doctype"
    ∷ codes "<html"
    ∷ codes "javascript:"
    ∷ []

unfoldable pub is_playlist : Text → Bool
unfolding trim_start starts_with any contains ascii_lower
is_playlist content =
    starts_with (codes "#EXTM3U") (trim_start content)
    && not (any (λ n. contains n (map ascii_lower content)) needles)

unfoldable pub check_text : Option Text → Bool
unfolding is_playlist
check_text none = false
check_text (some content) = is_playlist content

unfoldable pub check_size : Option ℕ → Option Text → Bool
unfolding check_text
check_size none t = false
check_size (some size) t = if ltb max_m3u8_bytes size then false else check_text t

-- The types that an extension admits: whole ones, or only their beginning.
pub data Mime : Type 0 where
  exactly prefixed : Text → Mime

unfoldable pub agrees : Text → Mime → Bool
unfolding text_eq starts_with
agrees mime (exactly m) = text_eq mime m
agrees mime (prefixed m) = starts_with m mime

abbrev pub mime_table : List (Text × List Mime)
mime_table =
    (codes "mp4", prefixed (codes "video/mp4") ∷ [])
    ∷ (codes "m4v", exactly (codes "video/x-m4v") ∷ prefixed (codes "video/mp4") ∷ [])
    ∷ (codes "mov", exactly (codes "video/quicktime") ∷ [])
    ∷ (codes "avi", exactly (codes "video/x-msvideo") ∷ [])
    ∷ (codes "mkv", exactly (codes "video/x-matroska") ∷ exactly (codes "video/webm") ∷ [])
    ∷ (codes "webm", exactly (codes "video/webm") ∷ [])
    ∷ (codes "flv", exactly (codes "video/x-flv") ∷ [])
    ∷ (codes "wmv", exactly (codes "video/x-ms-wmv") ∷ [])
    ∷ (codes "jpg", prefixed (codes "image/jpeg") ∷ [])
    ∷ (codes "jpeg", prefixed (codes "image/jpeg") ∷ [])
    ∷ (codes "png", exactly (codes "image/png") ∷ [])
    ∷ (codes "webp", prefixed (codes "image/webp") ∷ [])
    ∷ (codes "gif", exactly (codes "image/gif") ∷ [])
    ∷ (codes "bmp", exactly (codes "image/bmp") ∷ [])
    ∷ []

unfoldable pub is_valid_mime : Text → Text → List (Text × List Mime) → Bool
unfolding text_eq any agrees
is_valid_mime ext mime [] = false
is_valid_mime ext mime ((e, ms) ∷ table) =
    let rest = is_valid_mime ext mime table in if text_eq ext e then any (agrees mime) ms else rest

unfoldable pub check_mime : Text → Option (Option Text) → Bool
unfolding is_valid_mime
check_mime ext none = false
check_mime ext (some none) = false
check_mime ext (some (some mime)) = is_valid_mime ext mime mime_table

unfoldable pub validate_file_type : Text → File → Bool
unfolding text_eq check_size check_mime
validate_file_type ext f =
    if text_eq ext (codes "m3u8") then check_size f.size f.text else check_mime ext f.mime
