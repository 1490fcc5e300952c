-- ===== src/MediaAuth/Kept.antt =====
-- The guard changes what it knows of accounts by the resolution of a token only.
use lan_video.Prelude.{
  subst, sym, ℕ, ◌∙◌, ◌≡◌, refl, Bool, true, false, ◌&&◌, Option, none, some, Bool-cases,
  Option-cases, inl, inr,
}
use lan_video.Prelude.Texts.{Text, text_Eq}
use lan_video.Prelude.Cuts.{ℤ, int_Eq}
use lan_video.Sessions.{
  Tables, CachedAuthUser, MediaAuthResult, authorized, pass, denied, disabled, resolve_media_user,
}
use lan_video.MediaAuth.{
  Request, canonical, is_public_static_media_path, is_chat_media_path, is_valid_chat_media_path,
}
use lan_video.MediaAuth.Queries.{
  Video, Database, Caches, Query, media_is_referenced, chat_reference, chat_media_is_referenced,
  Looked, failed, absent, found, keep_detail, detail_or_row, find_detail, keep_stream,
  stream_or_row, find_by_stream_url,
}
use lan_video.MediaAuth.Guard.{
  auth_token, chat_verdict, chat_request, with_video, video_request, signed_in_request,
  after_resolve, media_auth,
}
use lan_video.Sessions.Staleness.{IsSound, resolve-Resolved}

keep_detail-users :
    (q : Query) (id : ℤ) (l : Looked) (w : Caches) → (keep_detail q id l w).0.users ≡ w.users
unfolding keep_detail
keep_detail-users q id failed w = refl
keep_detail-users q id absent w = refl
keep_detail-users q id (found v) w = refl

keep_stream-users :
    (q : Query) (url : Text) (l : Looked) (w : Caches) → (keep_stream q url l w).0.users ≡ w.users
unfolding keep_stream
keep_stream-users q url failed w = refl
keep_stream-users q url absent w = refl
keep_stream-users q url (found v) w = refl

module _ (sha256 : Text → Text) (q : Query) (db : Database) (r : Request) where
  detail_or_row-users :
      (id : ℤ) (o : Option Video) (w : Caches) → (detail_or_row q db id o w).0.users ≡ w.users
  unfolding detail_or_row
  detail_or_row-users id (some v) w = refl
  detail_or_row-users id none w = keep_detail-users q id _ w

  stream_or_row-users :
      (url : Text) (o : Option Video) (w : Caches) → (stream_or_row q db url o w).0.users ≡ w.users
  unfolding stream_or_row
  stream_or_row-users url (some v) w = refl
  stream_or_row-users url none w = keep_stream-users q url _ w

  with_video-users :
      (path : Text) (u : CachedAuthUser) (l : Caches × Looked)
      → (with_video sha256 q db r path u l).0.users ≡ l.0.users
  unfolding with_video
  with_video-users path u (w, failed) = refl
  with_video-users path u (w, absent) = refl
  with_video-users path u (w, found v) = refl

  chat_verdict-users : (l : Caches × Bool) → (chat_verdict l).0.users ≡ l.0.users
  unfolding chat_verdict
  chat_verdict-users (w, true) = refl
  chat_verdict-users (w, false) = refl

  chat_reference-users :
      (path : Text) (o : Option Bool) (w : Caches)
      → (chat_reference q db path o w).0.users ≡ w.users
  unfolding chat_reference
  chat_reference-users path (some hit) w = refl
  chat_reference-users path none w =
      elim (Bool-cases (q.chat_ok && media_is_referenced path db.chat_messages)) [
        | inl b ↦ rw (b, chat_reference) refl
        | inr b ↦ rw (b, chat_reference) refl
      ]

  chat_request-users : (path : Text) (w : Caches) → (chat_request q db path w).0.users ≡ w.users
  unfolding chat_request chat_media_is_referenced
  chat_request-users path w = elim (Bool-cases (is_valid_chat_media_path path)) [
    | inl b ↦ rw (b, chat_request) (chat_verdict-users _ ∙ chat_reference-users path _ w)
    | inr b ↦ rw (b, chat_request) refl
  ]

  video_request-users :
      (path : Text) (u : CachedAuthUser) (o : Option ℤ) (w : Caches)
      → (video_request sha256 q db r path u o w).0.users ≡ w.users
  unfolding video_request find_detail find_by_stream_url
  video_request-users path u (some id) w = with_video-users path u _ ∙ detail_or_row-users id _ w
  video_request-users path u none w = elim (Bool-cases (is_public_static_media_path path)) [
    | inl b ↦ rw (b, video_request) refl
    | inr b ↦ rw (b, video_request) (with_video-users path u _ ∙ stream_or_row-users path _ w)
  ]

  after_resolve-users :
      (path : Text) (w : Caches) (a : MediaAuthResult)
      → (after_resolve sha256 q db r path w a).0.users ≡ w.users
  unfolding after_resolve signed_in_request
  after_resolve-users path w (authorized u) = elim (Bool-cases (is_chat_media_path path)) [
    | inl b ↦ rw (b, signed_in_request) (chat_request-users path w)
    | inr b ↦ rw (b, signed_in_request) (video_request-users path u _ w)
  ]
  after_resolve-users path w pass = refl
  after_resolve-users path w denied = refl
  after_resolve-users path w disabled = refl

  pub media_auth-IsSound :
      (history : ℕ → Tables) (w : Caches)
      → db.sessions ≡ history q.call.now
      → IsSound sha256 history q.call.now w.users
      → IsSound sha256 history q.call.now (media_auth sha256 q db r w).0.users
  unfolding media_auth
  media_auth-IsSound history w same s = elim (Option-cases (auth_token r)) [
    | inl h ↦ rw (h, media_auth) s
    | inr (t, h) ↦
        let (v, a) = resolve_media_user sha256 q.call (history q.call.now) t w.users in
        rw (h, same, media_auth)
          (subst (IsSound sha256 history q.call.now)
            (sym (after_resolve-users (canonical r.path) (record w { users = v }) a))
            (resolve-Resolved sha256 history q.call t w.users s).0)
  ]
