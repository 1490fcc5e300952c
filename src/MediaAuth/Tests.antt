-- ===== src/MediaAuth/Tests.antt =====
-- Requests for media files, and the tracker of the playback sessions.
use lan_video.Prelude.{
  ℕ, zero, suc, ◌≡◌, refl, sym, subst, some-injective, inl, inr, true, false, Option, none, some,
  List, [], ◌∷◌, ◌++◌, arith,
}
use lan_video.Prelude.Assoc.{nat_Eq, lookup, ◌=?◌}
use lan_video.Prelude.Texts.{Text, text_eq}
use lan_video.Prelude.Cuts.{int_Eq, pos, codes, to_string, decimal, rsplit_once}
use lan_video.Sessions.{User, Tables, CachedAuthUser, live}
use lan_video.Sessions.Staleness.{IsSound}
use lan_video.MediaAuth.{
  Request, extract_video_id_from_path, is_valid_chat_media_path, is_public_static_media_path,
}
use lan_video.MediaAuth.Playback.{is_active}
use lan_video.MediaAuth.Queries.{Video, Database, Query, share_token, first}
use lan_video.MediaAuth.Guard.{refused, no_access, media_auth, is_owner}
use lan_video.MediaAuth.Privacy.{Readable}
use lan_video.MediaAuth.Watching.{Shared, Watched}
use lan_video.MediaAuth.Requests.{Arrival, no_view, no_caches}
use lan_video.MediaAuth.Layouts.{flat, extract_video_id_from_path-file_of}
use lan_video.MediaAuth.Heartbeats.{Told, beat, stopped, evicted, track, last_beat, is_active-track}
use lan_video.MediaAuth.Playback.{recent_entry}
use lan_video.MediaAuth.Bearer.{auth_user, bearer_auth}
use lan_video.MediaAuth.Accounts.{Proper, bearer_auth-Proper}

abbrev digest : Text → Text
digest t = t

abbrev letters : ℕ → Text
letters zero = []
letters (suc n) = b'a' ∷ letters n

abbrev owner : User
owner = record { id = 7; username = codes "mia"; role = 3; approved = true; is_guest = false }

abbrev history : ℕ → Tables
history s = record {
  tokens =
      record { user_id = 7; token_hash = letters 64; expires_at = 900000000000; revoked = false }
      ∷ [];
  users = (7, owner) ∷ [];
}

-- The same account without its role.
abbrev plain : Tables
plain = record (history 5) { users = (7, record owner { role = 1 }) ∷ [] }

abbrev holiday : Video
holiday = record {
  id = pos 12;
  uploader_id = some 7;
  stream_url = codes "/media/9_holiday.mp4";
  thumb_url = none;
  cover_url = none;
}

abbrev database : Database
database = record {
  sessions = history 5;
  videos = holiday ∷ [];
  shares =
      record { id = 1; video_id = pos 12; user_id = 7; token_hash = letters 32; expires_at = none }
      ∷ [];
  chat_messages = [];
}

abbrev at_five : Query
at_five = record {
  call = record { now = 5; db_ok = true; get_ok = true; put_ok = true };
  videos_ok = true;
  shares_ok = true;
  chat_ok = true;
}

abbrev for_thumb : Request
for_thumb = record {
  path = codes "/thumb_12.jpg";
  query = none;
  authorization = some (codes "Bearer " ++ letters 64);
  cookie = none;
  x_video_id = none;
  x_csrf_token = none;
  is_mutation = false;
}

no_view-IsSound : IsSound digest history 5 no_view
unfolding lookup
no_view-IsSound = record {
  tokens = λ k e h. absurd (cc h);
  medias = λ k e h. absurd (cc h);
  shared = λ k e h. absurd (cc h);
}

-- The film itself, while it is being played, behind the request for its thumbnail.
abbrev arrivals : List Arrival
arrivals = record { query = at_five; database = database; request = for_thumb; playing = [] } ∷ []

abbrev for_film : Arrival
for_film = record {
  query = at_five;
  database = database;
  request = record for_thumb { path = codes "/9_holiday.mp4"; x_video_id = some (codes "12") };
  playing = (codes "mia:12", 4) ∷ [];
}

-- Another account has no way to it without a share link.
abbrev strangers : Video
strangers = record holiday { uploader_id = some 8 }

stranger_refused :
    (media_auth digest at_five
      (record database { videos = strangers ∷ []; sessions = plain })
      for_thumb
      no_caches).1
    ≡ refused no_access
unfolding media_auth
stranger_refused = refl

abbrev asker : CachedAuthUser
asker = record { user_id = 7; username = codes "mia"; is_admin = false }

abbrev others : Database
others = record database { videos = strangers ∷ []; sessions = plain }

no_share : ¬ Shared digest at_five others for_thumb (pos 12)
unfolding share_token
no_share s = absurd (let n = s.held in cc n)

strangers_film :
    ¬ Watched digest at_five others for_thumb (codes "/media/thumb_12.jpg") asker [] strangers
unfolding is_owner
strangers_film (inl (o, w)) = cc o
strangers_film (inr s) = no_share s

-- By the predicate of the theorem, too, the account may not read the file.
stranger_unread :
    ¬ Readable digest at_five others for_thumb (codes "/media/thumb_12.jpg") asker no_caches
unfolding lookup first is_valid_chat_media_path is_public_static_media_path
    extract_video_id_from_path live
stranger_unread (inl (c, d)) = cc c
stranger_unread (inr (inl c)) = cc c
stranger_unread (inr (inr (v, inr (c, d, e), w))) = cc c
stranger_unread (inr (inr (v, inl (c, inl d), w))) = cc d
stranger_unread (inr (inr (v, inl (c, inr d), w))) =
    let same : some strangers ≡ some v =
      subst (λ i. first (λ u. u.id =? i) others.videos ≡ some v) (sym (some-injective c)) d in
    strangers_film (
      subst (Watched digest at_five others for_thumb (codes "/media/thumb_12.jpg") asker [])
        (sym (some-injective same)) w)

extract_video_id_from_path-file_of_example :
    extract_video_id_from_path (codes "/media/12_720p.mp4") ≡ some (pos 12)
unfolding to_string decimal rsplit_once
extract_video_id_from_path-file_of_example =
    extract_video_id_from_path-file_of (flat 720) (pos 12) (codes "mp4") (omega arith)
      (refl, refl, refl)

abbrev watched : List Told
watched =
    evicted 9000000000
    ∷ beat 8000000000 (codes "mia") (pos 12)
    ∷ stopped (codes "mia") (pos 12)
    ∷ []

is_active-track_example : is_active 9500000000 (codes "mia") (pos 12) (track watched) ≡ true
unfolding last_beat recent_entry text_eq
is_active-track_example =
    is_active-track 9500000000 (codes "mia") (pos 12) watched (omega arith, omega arith)

bearer_auth-Proper_example : Proper digest history true at_five.call for_thumb (auth_user owner)
unfolding bearer_auth
bearer_auth-Proper_example =
    bearer_auth-Proper digest history true at_five.call for_thumb no_view (auth_user owner)
      no_view-IsSound refl

abbrev parse : Text → Option ℕ
parse [] = none
parse (c ∷ cs) = some c
