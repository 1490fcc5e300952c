-- ===== src/MediaAuth/Playback.antt =====
-- `PlaybackSessionTracker` of backend/src/state.rs: who is playing which video. An instant is a
-- number of nanoseconds.
use lan_video.Prelude.{
  ℕ, ◌-◌, Bool, true, false, ltb, ◌&&◌, Option, none, some, List, [], ◌∷◌, ◌++◌, if◌then◌else◌,
}
use lan_video.Prelude.Assoc.{lookup, insert, remove, retain}
use lan_video.Prelude.Texts.{Text, text_Eq}
use lan_video.Prelude.Cuts.{ℤ, codes, starts_with, to_string}
use Prim.Native.Nat.{◌/◌}

-- `sessions`: the instant of the last sign of life by key.
abbrev pub Sessions : Type 0
Sessions = List (Text × ℕ)

-- SESSION_TIMEOUT_SECS.
abbrev pub session_timeout_secs : ℕ
session_timeout_secs = 120

unfoldable pub make_key : Text → ℤ → Text
unfolding to_string
make_key username video_id = username ++ b':' ∷ to_string video_id

-- `start` and `heartbeat`, which are the same.
unfoldable pub heartbeat : ℕ → Text → ℤ → Sessions → Sessions
unfolding insert make_key
heartbeat now username video_id s = insert (make_key username video_id) now s

unfoldable pub stop : Text → ℤ → Sessions → Sessions
unfolding remove make_key
stop username video_id s = remove (make_key username video_id) s

-- `elapsed().as_secs() < SESSION_TIMEOUT_SECS`.
unfoldable pub is_recent : ℕ → ℕ → Bool
is_recent now last = ltb ((now - last) / 1000000000) session_timeout_secs

unfoldable pub recent_entry : ℕ → Option ℕ → Bool
unfolding is_recent
recent_entry now none = false
recent_entry now (some last) = is_recent now last

unfoldable pub is_active : ℕ → Text → ℤ → Sessions → Bool
unfolding recent_entry lookup make_key
is_active now username video_id s = recent_entry now (lookup (make_key username video_id) s)

unfoldable pub any_active : ℕ → Text → Sessions → Bool
unfolding starts_with is_recent
any_active now prefix [] = false
any_active now prefix ((k, last) ∷ s) =
    let rest = any_active now prefix s in
    if starts_with prefix k && is_recent now last then true else rest

unfoldable pub has_any_active : ℕ → Text → Sessions → Bool
unfolding any_active
has_any_active now username s = any_active now (username ++ codes ":") s

unfoldable pub evict_expired : ℕ → Sessions → Sessions
unfolding retain is_recent
evict_expired now s = retain (is_recent now) s
