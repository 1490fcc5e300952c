-- ===== src/MediaAuth/Requests.antt =====
-- Sequences of media requests: the caches that one leaves are as the next one needs them.
use lan_video.Prelude.{List, ℕ, ◌≤◌, [], ◌∷◌, ◌≡◌}
use lan_video.MediaAuth.Playback.{Sessions}
use lan_video.Prelude.Texts.{Text, text_Eq}
use lan_video.Prelude.Cuts.{int_Eq}
use lan_video.Sessions.{View, Tables}
use lan_video.MediaAuth.{Request}
use lan_video.MediaAuth.Queries.{Database, Caches, Query}
use lan_video.MediaAuth.Guard.{Verdict, media_auth}
use lan_video.MediaAuth.Watching.{IsCoherent}
use lan_video.Sessions.Staleness.{IsSound}

-- A request, with what it meets: the queries, the tables, and the tracker of the playback sessions.
pub record Arrival : Type 0 where
  pub query : Query
  pub database : Database
  pub request : Request
  pub playing : Sessions

abbrev pub arrive : Arrival → Caches → Caches
arrive a w = record w { playback_sessions = a.playing }

abbrev pub answer : (Text → Text) → Arrival → Caches → Caches × Verdict
answer sha256 a w = media_auth sha256 a.query a.database a.request (arrive a w)

unfoldable pub serve : (Text → Text) → List Arrival → Caches → Caches
unfolding media_auth
serve sha256 [] w = w
serve sha256 (a ∷ as') w = serve sha256 as' (answer sha256 a w).0

-- The requests come one after the other, and the session tables that each meets are those of its
-- instant.
abbrev pub InOrder : (ℕ → Tables) → ℕ → List Arrival → Type 0
InOrder history from [] = 0 ≤ from
InOrder history from (a ∷ as') =
    (from ≤ a.query.call.now)
    × (a.database.sessions ≡ history a.query.call.now)
    × InOrder history a.query.call.now as'

-- What the last of a sequence of requests finds.
record Ready (sha256 : Text → Text) (history : ℕ → Tables) (a : Arrival) (w : Caches) : Type 0 where
  same : a.database.sessions ≡ history a.query.call.now
  sound : IsSound sha256 history a.query.call.now w.users
  coherent : IsCoherent w

abbrev pub no_view : View
no_view = record { token_cache = []; media_cache = []; redis = []; user_tokens = [] }

-- A process that has just begun.
abbrev pub no_caches : Caches
no_caches = record {
  users = no_view;
  video_detail = [];
  stream_url = [];
  chat_media_ref = [];
  playback_sessions = [];
}
