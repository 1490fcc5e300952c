-- ===== src/MediaChecks/Tests.antt =====
-- Names, playlists and URLs that are checked.
use lan_video.Prelude.{◌≤◌, ◌≡◌, refl, inr, true, false, none, some}
use lan_video.Prelude.Cuts.{codes}
use lan_video.MediaChecks.{File, byte_len, sanitize_filename, validate_file_type}
use lan_video.MediaChecks.Names.{Clean, sanitize_filename-Clean}
use lan_video.MediaChecks.Playlists.{Playlist, validate_file_type-Playlist}
use lan_video.MediaChecks.Urls.{ats, is_safe_external_url, is_safe_external_url-hidden}

sanitized_name : sanitize_filename (codes "../a/b\\c.mp4/.") ≡ codes "b_c.mp4"
unfolding sanitize_filename
sanitized_name = refl

sanitize_filename-Clean_example :
    Clean (sanitize_filename (codes "../../etc/passwd"))
    × (1 ≤ byte_len (sanitize_filename (codes "../../etc/passwd")))
sanitize_filename-Clean_example = sanitize_filename-Clean (codes "../../etc/passwd")

abbrev playlist : File
playlist = record { size = some 14; text = some (codes "\n#EXTM3U\na.ts\n"); mime = some none }

validate_file_type-Playlist_example : Playlist playlist
unfolding validate_file_type
validate_file_type-Playlist_example = validate_file_type-Playlist playlist refl

private_address : is_safe_external_url (codes "http://192.168.1.1/admin") ≡ false
unfolding is_safe_external_url
private_address = refl

mapped_address : is_safe_external_url (codes "https://[::ffff:127.0.0.1]:80/") ≡ false
unfolding is_safe_external_url
mapped_address = refl

octal_address : is_safe_external_url (codes "http://0177.0.0.1/") ≡ false
unfolding is_safe_external_url
octal_address = refl

-- The loopback address, written out, is taken for the IPv4 address 0.0.0.1.
long_loopback : is_safe_external_url (codes "http://[0:0:0:0:0:0:0:1]/admin") ≡ true
unfolding is_safe_external_url
long_loopback = refl

-- The host of this URL is 127.0.0.1.
query_behind_host : is_safe_external_url (codes "http://127.0.0.1?a") ≡ true
unfolding is_safe_external_url
query_behind_host = refl

is_safe_external_url-hidden_example :
    is_safe_external_url (codes "https://127.0.0.1/@example.com") ≡ true
unfolding is_safe_external_url ats
is_safe_external_url-hidden_example =
    is_safe_external_url-hidden (codes "https") (codes "127.0.0.1/") (codes "example.com")
      (inr refl) refl refl
