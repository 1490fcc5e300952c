-- ===== src/MediaAuth/Coherence.antt =====
-- The guard keeps its caches of videos coherent.
use lan_video.Prelude.{
  ◌≡◌, refl, Bool, true, false, ◌&&◌, Option, none, some, Bool-cases, Option-cases, inl, inr,
}
use lan_video.Prelude.Every.{Every-insert}
use lan_video.Prelude.Texts.{Text, text_Eq}
use lan_video.Prelude.Cuts.{ℤ, int_Eq}
use lan_video.Sessions.{
  CachedAuthUser, Entry, MediaAuthResult, authorized, pass, denied, disabled, resolve_media_user,
  stamp,
}
use lan_video.MediaAuth.{
  Request, canonical, is_public_static_media_path, is_chat_media_path, is_valid_chat_media_path,
}
use lan_video.MediaAuth.Queries.{
  Video, Database, Caches, Query, media_is_referenced, chat_reference, chat_media_is_referenced,
  Looked, failed, absent, found, keep_detail, detail_or_row, find_detail, keep_stream,
  stream_or_row, find_by_stream_url,
}
use lan_video.MediaAuth.Guard.{
  auth_token, chat_verdict, chat_request, with_video, video_request, signed_in_request,
  after_resolve, media_auth,
}
use lan_video.MediaAuth.Watching.{IsCoherent, row-test}

keep_detail-IsCoherent :
    (q : Query) (id : ℤ) (l : Looked) (w : Caches)
    → ((v : Video) → l ≡ found v → v.id ≡ id)
    → IsCoherent w
    → IsCoherent (keep_detail q id l w).0
unfolding keep_detail
keep_detail-IsCoherent q id failed w h k = k
keep_detail-IsCoherent q id absent w h k = k
keep_detail-IsCoherent q id (found v) w h k = record {
  details =
      Every-insert (λ i (e : Entry Video). e.value.id ≡ i) id (stamp q.call.now v) w.video_detail
        k.details (h v refl);
  streams = k.streams;
}

keep_stream-IsCoherent :
    (q : Query) (url : Text) (l : Looked) (w : Caches)
    → ((v : Video) → l ≡ found v → v.stream_url ≡ url)
    → IsCoherent w
    → IsCoherent (keep_stream q url l w).0
unfolding keep_stream
keep_stream-IsCoherent q url failed w h k = k
keep_stream-IsCoherent q url absent w h k = k
keep_stream-IsCoherent q url (found v) w h k = record {
  details = k.details;
  streams =
      Every-insert (λ i (e : Entry Video). e.value.stream_url ≡ i) url (stamp q.call.now v)
        w.stream_url k.streams (h v refl);
}

module _ (sha256 : Text → Text) (q : Query) (db : Database) (r : Request) where
  detail_or_row-IsCoherent :
      (id : ℤ) (o : Option Video) (w : Caches)
      → IsCoherent w
      → IsCoherent (detail_or_row q db id o w).0
  unfolding detail_or_row
  detail_or_row-IsCoherent id (some v) w k = k
  detail_or_row-IsCoherent id none w k =
      keep_detail-IsCoherent q id _ w
        (λ v e. (int_Eq.beq_iff v.id id).0 (row-test sha256 q db r _ q.videos_ok v e)) k

  stream_or_row-IsCoherent :
      (url : Text) (o : Option Video) (w : Caches)
      → IsCoherent w
      → IsCoherent (stream_or_row q db url o w).0
  unfolding stream_or_row
  stream_or_row-IsCoherent url (some v) w k = k
  stream_or_row-IsCoherent url none w k =
      keep_stream-IsCoherent q url _ w
        (λ v e. (text_Eq.beq_iff v.stream_url url).0 (row-test sha256 q db r _ q.videos_ok v e)) k

  with_video-IsCoherent :
      (path : Text) (u : CachedAuthUser) (l : Caches × Looked)
      → IsCoherent l.0
      → IsCoherent (with_video sha256 q db r path u l).0
  unfolding with_video
  with_video-IsCoherent path u (w, failed) k = k
  with_video-IsCoherent path u (w, absent) k = k
  with_video-IsCoherent path u (w, found v) k = k

  chat_verdict-IsCoherent : (l : Caches × Bool) → IsCoherent l.0 → IsCoherent (chat_verdict l).0
  unfolding chat_verdict
  chat_verdict-IsCoherent (w, true) k = k
  chat_verdict-IsCoherent (w, false) k = k

  chat_reference-IsCoherent :
      (path : Text) (o : Option Bool) (w : Caches)
      → IsCoherent w
      → IsCoherent (chat_reference q db path o w).0
  unfolding chat_reference
  chat_reference-IsCoherent path (some hit) w k = k
  chat_reference-IsCoherent path none w k =
      elim (Bool-cases (q.chat_ok && media_is_referenced path db.chat_messages)) [
        | inl b ↦ simp b record { details = k.details; streams = k.streams }
        | inr b ↦ simp b k
      ]

  chat_request-IsCoherent :
      (path : Text) (w : Caches) → IsCoherent w → IsCoherent (chat_request q db path w).0
  unfolding chat_request chat_media_is_referenced
  chat_request-IsCoherent path w k = elim (Bool-cases (is_valid_chat_media_path path)) [
    | inl b ↦ simp b (chat_verdict-IsCoherent _ (chat_reference-IsCoherent path _ w k))
    | inr b ↦ simp b k
  ]

  video_request-IsCoherent :
      (path : Text) (u : CachedAuthUser) (o : Option ℤ) (w : Caches)
      → IsCoherent w
      → IsCoherent (video_request sha256 q db r path u o w).0
  unfolding video_request find_detail find_by_stream_url
  video_request-IsCoherent path u (some id) w k =
      with_video-IsCoherent path u _ (detail_or_row-IsCoherent id _ w k)
  video_request-IsCoherent path u none w k = elim (Bool-cases (is_public_static_media_path path)) [
    | inl b ↦ simp b k
    | inr b ↦ simp b (with_video-IsCoherent path u _ (stream_or_row-IsCoherent path _ w k))
  ]

  after_resolve-IsCoherent :
      (path : Text) (w : Caches) (a : MediaAuthResult)
      → IsCoherent w
      → IsCoherent (after_resolve sha256 q db r path w a).0
  unfolding after_resolve signed_in_request
  after_resolve-IsCoherent path w (authorized u) k = elim (Bool-cases (is_chat_media_path path)) [
    | inl b ↦ simp b (chat_request-IsCoherent path w k)
    | inr b ↦ simp b (video_request-IsCoherent path u _ w k)
  ]
  after_resolve-IsCoherent path w pass k = k
  after_resolve-IsCoherent path w denied k = k
  after_resolve-IsCoherent path w disabled k = k

  -- Whatever a request is, the caches of videos that it leaves tell of the video that they are asked
  -- for, if they did before.
  pub media_auth-IsCoherent :
      (w : Caches) → IsCoherent w → IsCoherent (media_auth sha256 q db r w).0
  unfolding media_auth
  media_auth-IsCoherent w k = elim (Option-cases (auth_token r)) [
    | inl h ↦ rw (h, media_auth) k
    | inr (t, h) ↦
        let (v, a) = resolve_media_user sha256 q.call db.sessions t w.users in
        rw (h, media_auth)
          (after_resolve-IsCoherent (canonical r.path) (record w { users = v }) a
            (record { details = k.details; streams = k.streams }))
  ]
