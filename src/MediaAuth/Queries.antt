-- ===== src/MediaAuth/Queries.antt =====
-- The queries and caches behind the guard of the media files: `find_by_id` and `find_by_stream_url` of
-- backend/src/repositories/video_repo.rs, `is_valid_token_hash` of
-- backend/src/repositories/share_repo.rs, `media_is_referenced` of
-- backend/src/repositories/chat_repo.rs, and what backend/src/middleware/auth/media.rs keeps of them.
use lan_video.Prelude.{
  ℕ, ltb, Bool, true, false, ◌&&◌, ◌||◌, Option, none, some, List, [], ◌∷◌, any, if◌then◌else◌,
}
use lan_video.Prelude.Assoc.{◌=?◌, filter, lookup, insert}
use lan_video.Prelude.Texts.{Text, text_Eq}
use lan_video.Prelude.Cuts.{ℤ, int_Eq}
use lan_video.Sessions.{Tables, Entry, View, Call, live, stamp}
use lan_video.MediaAuth.{
  Request, or_else, is_valid_share_token, extract_share_token_from_cookie, extract_share_token,
}
use lan_video.MediaAuth.Playback.{Sessions}

pub record Video : Type 0 where
  pub id : ℤ
  pub uploader_id : Option ℕ
  pub stream_url : Text
  pub thumb_url : Option Text
  pub cover_url : Option Text

pub record ShareLink : Type 0 where
  pub id : ℕ
  pub video_id : ℤ
  pub user_id : ℕ
  pub token_hash : Text
  pub expires_at : Option ℕ

pub record ChatMessage : Type 0 where
  pub image_url : Option Text
  pub video_url : Option Text

pub record Database : Type 0 where
  pub sessions : Tables
  pub videos : List Video
  pub shares : List ShareLink
  pub chat_messages : List ChatMessage

-- The caches of a process, and the playback sessions.
pub record Caches : Type 0 where
  pub users : View
  pub video_detail : List (ℤ × Entry Video)
  pub stream_url : List (Text × Entry Video)
  pub chat_media_ref : List (Text × Entry Bool)
  pub playback_sessions : Sessions

-- The instant of a request, and which queries succeed.
pub record Query : Type 0 where
  pub call : Call
  pub videos_ok : Bool
  pub shares_ok : Bool
  pub chat_ok : Bool

abbrev pub video_detail_ttl : ℕ
video_detail_ttl = 60000000000

abbrev pub stream_url_cache_ttl : ℕ
stream_url_cache_ttl = 30000000000

abbrev pub chat_media_ref_cache_ttl : ℕ
chat_media_ref_cache_ttl = 60000000000

-- The first row that a query selects.
unfoldable pub first {ℓ} : {A : Type ℓ} → (A → Bool) → List A → Option A
first p [] = none
first p (x ∷ xs) = let rest = first p xs in if p x then some x else rest

unfoldable pub is_text : Text → Option Text → Bool
is_text t none = false
is_text t (some u) = u =? t

unfoldable pub media_is_referenced : Text → List ChatMessage → Bool
unfolding any is_text
media_is_referenced path ms = any (λ m. is_text path m.image_url || is_text path m.video_url) ms

unfoldable pub chat_reference : Query → Database → Text → Option Bool → Caches → Caches × Bool
unfolding media_is_referenced insert
chat_reference q db path (some hit) w = (w, hit)
chat_reference q db path none w =
    if q.chat_ok && media_is_referenced path db.chat_messages
    then (record w { chat_media_ref = insert path (stamp q.call.now true) w.chat_media_ref }, true)
    else (w, false)

unfoldable pub chat_media_is_referenced : Query → Database → Text → Caches → Caches × Bool
unfolding chat_reference live lookup
chat_media_is_referenced q db path w =
    chat_reference q db path
      (live q.call.now chat_media_ref_cache_ttl (lookup path w.chat_media_ref)) w

-- What a look for a video gives.
pub data Looked : Type 0 where
  failed absent : Looked
  found : Video → Looked

unfoldable pub look_row : Bool → Option Video → Looked
look_row false o = failed
look_row true none = absent
look_row true (some v) = found v

unfoldable pub keep_detail : Query → ℤ → Looked → Caches → Caches × Looked
unfolding insert
keep_detail q id (found v) w =
    (record w { video_detail = insert id (stamp q.call.now v) w.video_detail }, found v)
keep_detail q id l w = (w, l)

unfoldable pub detail_or_row : Query → Database → ℤ → Option Video → Caches → Caches × Looked
unfolding keep_detail look_row first
detail_or_row q db id (some v) w = (w, found v)
detail_or_row q db id none w =
    keep_detail q id (look_row q.videos_ok (first (λ v. v.id =? id) db.videos)) w

unfoldable pub find_detail : Query → Database → ℤ → Caches → Caches × Looked
unfolding live lookup detail_or_row
find_detail q db id w =
    detail_or_row q db id (live q.call.now video_detail_ttl (lookup id w.video_detail)) w

unfoldable pub keep_stream : Query → Text → Looked → Caches → Caches × Looked
unfolding insert
keep_stream q url (found v) w =
    (record w { stream_url = insert url (stamp q.call.now v) w.stream_url }, found v)
keep_stream q url l w = (w, l)

unfoldable pub stream_or_row : Query → Database → Text → Option Video → Caches → Caches × Looked
unfolding keep_stream look_row first
stream_or_row q db url (some v) w = (w, found v)
stream_or_row q db url none w =
    keep_stream q url (look_row q.videos_ok (first (λ v. v.stream_url =? url) db.videos)) w

unfoldable pub find_by_stream_url : Query → Database → Text → Caches → Caches × Looked
unfolding live lookup stream_or_row
find_by_stream_url q db url w =
    stream_or_row q db url (live q.call.now stream_url_cache_ttl (lookup url w.stream_url)) w

-- The token of a share in the request.
unfoldable pub share_token : Request → Option Text
unfolding extract_share_token extract_share_token_from_cookie is_valid_share_token
share_token r =
    filter is_valid_share_token
      (or_else (extract_share_token r) (extract_share_token_from_cookie r))

unfoldable pub unexpired : ℕ → Option ℕ → Bool
unexpired now none = true
unexpired now (some t) = ltb now t

module _ (sha256 : Text → Text) where
  unfoldable pub is_valid_token_hash : Query → Database → Text → Option ShareLink
  unfolding first unexpired
  is_valid_token_hash q db token =
      first (λ s. s.token_hash =? sha256 token && unexpired q.call.now s.expires_at) db.shares

  -- `none` for an error.
  unfoldable pub share_token_authorizes : Query → Database → Request → ℤ → Option Bool
  unfolding share_token is_valid_token_hash
  share_token_authorizes q db r video_id = elim (share_token r) [
    | none ↦ some false
    | some t ↦
        if q.shares_ok
        then elim (is_valid_token_hash q db t) [
          | none ↦ some false
          | some s ↦ some (s.video_id =? video_id)
        ]
        else none
  ]
