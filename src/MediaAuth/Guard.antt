-- ===== src/MediaAuth/Guard.antt =====
-- The guard of the media files, `media_auth` of backend/src/middleware/auth/media.rs.
use lan_video.Prelude.{◌==◌, Bool, true, false, ◌||◌, Option, none, some, [], if◌then◌else◌}
use lan_video.Prelude.Assoc.{◌=?◌, filter}
use lan_video.Prelude.Texts.{Text, text_Eq}
use lan_video.Prelude.Cuts.{ℤ, int_Eq, parse_i64}
use lan_video.Sessions.{
  CachedAuthUser, MediaAuthResult, authorized, pass, denied, disabled, resolve_media_user,
  is_valid_auth_token,
}
use lan_video.MediaAuth.{
  Request, or_else, unwrap_or, and_then, canonical, extract_video_id_from_path,
  is_public_static_media_path, is_chat_media_path, is_valid_chat_media_path,
  is_thumbnail_or_cover_path, extract_token_from_cookie, extract_bearer_token,
}
use lan_video.MediaAuth.Playback.{Sessions, is_active}
use lan_video.MediaAuth.Queries.{
  Video, ShareLink, Database, Caches, Query, first, chat_media_is_referenced, Looked, look_row,
  find_detail, find_by_stream_url, share_token, is_valid_token_hash, share_token_authorizes, failed,
  absent, found,
}

-- The answers, by status and message.
pub data Refusal : Type 0 where
  no_access account_disabled session_expired id_mismatch : Refusal
  share_other_video share_other_file : Refusal
  video_missing share_invalid login_required internal : Refusal

pub data Verdict : Type 0 where
  passed : Verdict
  refused : Refusal → Verdict

-- The token of a session in the request.
unfoldable pub auth_token : Request → Option Text
unfolding extract_bearer_token extract_token_from_cookie is_valid_auth_token
auth_token r =
    filter is_valid_auth_token (or_else (extract_bearer_token r) (extract_token_from_cookie r))

-- X-Video-ID, where it is there and a number.
unfoldable pub check_header : Request → ℤ → Verdict
unfolding parse_i64
check_header r id = elim (and_then r.x_video_id parse_i64) [
  | none ↦ passed
  | some h ↦ if h =? id then passed else refused id_mismatch
]

unfoldable pub is_owner : CachedAuthUser → Video → Bool
is_owner u v = u.is_admin || elim v.uploader_id [ none ↦ false | some i ↦ i == u.user_id ]

unfoldable pub share_answer : Refusal → Verdict → Option Bool → Verdict
share_answer other admitted none = refused internal
share_answer other admitted (some false) = refused other
share_answer other admitted (some true) = admitted

unfoldable pub chat_verdict : Caches × Bool → Caches × Verdict
chat_verdict (w, true) = (w, passed)
chat_verdict (w, false) = (w, refused no_access)

unfoldable pub chat_request : Query → Database → Text → Caches → Caches × Verdict
unfolding chat_verdict chat_media_is_referenced is_valid_chat_media_path
chat_request q db path w =
    if is_valid_chat_media_path path
    then chat_verdict (chat_media_is_referenced q db path w)
    else (w, refused no_access)

module _ (sha256 : Text → Text) where
  unfoldable pub video_verdict :
      Query → Database → Request → Text → CachedAuthUser → Sessions → Video → Verdict
  unfolding is_owner share_answer is_thumbnail_or_cover_path is_active check_header
      share_token_authorizes
  video_verdict q db r path u s v =
      let shared = share_token_authorizes sha256 q db r v.id in
      if is_owner u v
      then if is_thumbnail_or_cover_path path
        then passed
        else if is_active q.call.now u.username v.id s
        then check_header r v.id
        else share_answer session_expired (check_header r v.id) shared
      else share_answer no_access passed shared

  unfoldable pub with_video :
      Query → Database → Request → Text → CachedAuthUser → Caches × Looked → Caches × Verdict
  unfolding video_verdict
  with_video q db r path u (w, failed) = (w, refused internal)
  with_video q db r path u (w, absent) = (w, refused no_access)
  with_video q db r path u (w, found v) = (w, video_verdict q db r path u w.playback_sessions v)

  unfoldable pub video_request :
      Query → Database → Request → Text → CachedAuthUser → Option ℤ → Caches → Caches × Verdict
  unfolding with_video find_detail find_by_stream_url is_public_static_media_path
  video_request q db r path u (some id) w = with_video q db r path u (find_detail q db id w)
  video_request q db r path u none w =
      if is_public_static_media_path path
      then (w, passed)
      else with_video q db r path u (find_by_stream_url q db path w)

  unfoldable pub signed_in_request :
      Query → Database → Request → Text → CachedAuthUser → Caches → Caches × Verdict
  unfolding video_request is_chat_media_path chat_request extract_video_id_from_path
  signed_in_request q db r path u w =
      if is_chat_media_path path
      then chat_request q db path w
      else video_request q db r path u (extract_video_id_from_path path) w

-- The file is one that the row of the video names.
unfoldable pub is_file_of : Text → Video → Bool
is_file_of path v =
    path =? v.stream_url || (path =? unwrap_or [] v.thumb_url || path =? unwrap_or [] v.cover_url)

unfoldable pub shared_file : Text → Looked → Verdict
unfolding is_file_of
shared_file path failed = refused internal
shared_file path absent = refused video_missing
shared_file path (found v) = if is_file_of path v then passed else refused share_other_file

unfoldable pub shared_verdict : Query → Database → Text → Option ℤ → ShareLink → Verdict
unfolding shared_file look_row first
shared_verdict q db path (some id) s =
    if id =? s.video_id then passed else refused share_other_video
shared_verdict q db path none s =
    shared_file path (look_row q.videos_ok (first (λ v. v.id =? s.video_id) db.videos))

module _ (sha256 : Text → Text) where
  unfoldable pub by_share : Query → Database → Request → Text → Verdict
  unfolding share_token is_valid_token_hash shared_verdict extract_video_id_from_path
  by_share q db r path = elim (share_token r) [
    | none ↦ refused login_required
    | some t ↦
        if q.shares_ok
        then elim (is_valid_token_hash sha256 q db t) [
          | none ↦ refused share_invalid
          | some s ↦ shared_verdict q db path (extract_video_id_from_path path) s
        ]
        else refused internal
  ]

  unfoldable pub after_resolve :
      Query → Database → Request → Text → Caches → MediaAuthResult → Caches × Verdict
  unfolding by_share signed_in_request
  after_resolve q db r path w (authorized u) = signed_in_request sha256 q db r path u w
  after_resolve q db r path w pass = (w, by_share q db r path)
  after_resolve q db r path w denied = (w, refused internal)
  after_resolve q db r path w disabled = (w, refused account_disabled)

  unfoldable pub media_auth : Query → Database → Request → Caches → Caches × Verdict
  unfolding auth_token canonical resolve_media_user after_resolve by_share
  media_auth q db r w =
      let path = canonical r.path in
      elim (auth_token r) [
        | none ↦ (w, by_share q db r path)
        | some t ↦
            let (v, answer) = resolve_media_user sha256 q.call db.sessions t w.users in
            after_resolve q db r path (record w { users = v }) answer
      ]
