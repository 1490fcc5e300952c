-- ===== src/MediaAuth/Privacy.antt =====
-- Who may read a media file: what holds of every request that the guard lets through.
use lan_video.Prelude.{
  ℕ, ◌+◌, ◌≡◌, refl, sym, ap, ◌∙◌, subst, ◌⊎◌, inl, inr, Bool, true, false, ◌&&◌, Option, none,
  some, Bool-cases, Option-cases,
}
use lan_video.Prelude.Assoc.{◌=?◌, lookup}
use lan_video.Prelude.Texts.{Text, text_Eq}
use lan_video.Prelude.Cuts.{ℤ, int_Eq}
use lan_video.Sessions.{
  Tables, CachedAuthUser, View, MediaAuthResult, authorized, pass, denied, disabled, live,
  token_cache_ttl, media_auth_cache_ttl,
}
use lan_video.Sessions.Staleness.{Backed, IsSound, resolve-Resolved}
use lan_video.MediaAuth.{
  Request, canonical, extract_video_id_from_path, is_public_static_media_path, is_chat_media_path,
  is_valid_chat_media_path,
}
use lan_video.MediaAuth.Queries.{
  Video, ShareLink, Database, Caches, Query, chat_media_ref_cache_ttl, media_is_referenced,
  chat_reference, chat_media_is_referenced, Looked, failed, absent, found, find_detail,
  find_by_stream_url, share_token, is_valid_token_hash, first,
}
use lan_video.MediaAuth.Guard.{
  passed, auth_token, chat_verdict, chat_request, video_request, signed_in_request, is_file_of,
  shared_file, shared_verdict, by_share, after_resolve, media_auth,
}
use lan_video.MediaAuth.Watching.{
  IsCoherent, Shared, Watched, IsKnownById, IsKnownByUrl, with_video-Watched, look_row-some,
  detail_or_row-Finds, stream_or_row-Finds,
}

and_right : (a b : Bool) → (a && b) ≡ true → b ≡ true
and_right true b h = h
and_right false b h = absurd (cc h)

module _ (sha256 : Text → Text) (q : Query) (db : Database) (r : Request) where
  -- The video is the one of the path, as the cache or the database knows it.
  abbrev pub IsOfPath : Text → Caches → Video → Type 0
  IsOfPath path w v =
      ((extract_video_id_from_path path ≡ some v.id) × IsKnownById sha256 q db r v.id w v)
      ⊎ ((extract_video_id_from_path path ≡ none)
          × (v.stream_url ≡ path)
          × IsKnownByUrl sha256 q db r path w v)

  -- The path is named by a chat message, or was within the last minute.
  abbrev pub IsReferenced : Text → Caches → Type 0
  IsReferenced path w =
      (live q.call.now chat_media_ref_cache_ttl (lookup path w.chat_media_ref) ≡ some true)
      ⊎ (media_is_referenced path db.chat_messages ≡ true)

  -- What an account may read.
  abbrev pub Readable : Text → CachedAuthUser → Caches → Type 0
  Readable path u w =
      ((is_valid_chat_media_path path ≡ true) × IsReferenced path w)
      ⊎ ((is_public_static_media_path path ≡ true)
          ⊎ ((v : Video) × IsOfPath path w v × Watched sha256 q db r path u w.playback_sessions v))

  chat_verdict-passed : (l : Caches × Bool) → (chat_verdict l).1 ≡ passed → l.1 ≡ true
  unfolding chat_verdict
  chat_verdict-passed (w, true) e = refl
  chat_verdict-passed (w, false) e = absurd (cc e)

  chat_reference-IsReferenced :
      (path : Text) (o : Option Bool) (w : Caches)
      → live q.call.now chat_media_ref_cache_ttl (lookup path w.chat_media_ref) ≡ o
      → (chat_reference q db path o w).1 ≡ true
      → IsReferenced path w
  unfolding chat_reference
  chat_reference-IsReferenced path (some hit) w h e = inl (h ∙ ap some e)
  chat_reference-IsReferenced path none w h e =
      elim (Bool-cases (q.chat_ok && media_is_referenced path db.chat_messages)) [
        | inl b ↦ inr (and_right q.chat_ok _ b)
        | inr b ↦ absurd (let n = rw (b, chat_reference) at e in cc n)
      ]

  chat_request-Readable :
      (path : Text) (u : CachedAuthUser) (w : Caches)
      → (chat_request q db path w).1 ≡ passed
      → Readable path u w
  unfolding chat_request chat_media_is_referenced
  chat_request-Readable path u w e = elim (Bool-cases (is_valid_chat_media_path path)) [
    | inr b ↦ absurd (let n = rw (b, chat_request) at e in cc n)
    | inl b ↦ inl (
      b,
      chat_reference-IsReferenced path _ w refl (chat_verdict-passed _ (rw (b, chat_request) at e)),
    )
  ]

  video_request-Readable :
      (path : Text) (u : CachedAuthUser) (o : Option ℤ) (w : Caches)
      → IsCoherent w
      → extract_video_id_from_path path ≡ o
      → (video_request sha256 q db r path u o w).1 ≡ passed
      → Readable path u w
  unfolding video_request find_detail find_by_stream_url
  video_request-Readable path u (some id) w k h e =
      let (v, (i, n), s) =
        with_video-Watched sha256 q db r path u w _ _
          (detail_or_row-Finds sha256 q db r id _ w k refl) e in
      inr (
        inr
          (v, inl (h ∙ ap some (sym i), subst (λ x. IsKnownById sha256 q db r x w v) (sym i) n), s))
  video_request-Readable path u none w k h e =
      elim (Bool-cases (is_public_static_media_path path)) [
        | inl b ↦ inr (inl b)
        | inr b ↦
            let (v, (i, n), s) =
              with_video-Watched sha256 q db r path u w _ _
                (stream_or_row-Finds sha256 q db r path _ w k refl) (rw (b, video_request) at e) in
            inr (inr (v, inr (h, i, n), s))
      ]

  signed_in-Readable :
      (path : Text) (u : CachedAuthUser) (w : Caches)
      → IsCoherent w
      → (signed_in_request sha256 q db r path u w).1 ≡ passed
      → Readable path u w
  unfolding signed_in_request
  signed_in-Readable path u w k e = elim (Bool-cases (is_chat_media_path path)) [
    | inr b ↦ video_request-Readable path u _ w k refl (rw (b, signed_in_request) at e)
    | inl b ↦ chat_request-Readable path u w (rw (b, signed_in_request) at e)
  ]

  -- What a share link gives: the files of its video.
  pub record BySharing (path : Text) : Type 0 where
    pub video_id : ℤ
    pub shared : Shared sha256 q db r video_id
    pub file :
        (extract_video_id_from_path path ≡ some video_id)
        ⊎ ((v : Video) × (first (λ u. u.id =? video_id) db.videos ≡ some v)
            × (is_file_of path v ≡ true))

  shared_file-passed :
      (path : Text) (l : Looked)
      → shared_file path l ≡ passed
      → (v : Video) × (l ≡ found v) × (is_file_of path v ≡ true)
  unfolding shared_file
  shared_file-passed path failed e = absurd (cc e)
  shared_file-passed path absent e = absurd (cc e)
  shared_file-passed path (found v) e = elim (Bool-cases (is_file_of path v)) [
    | inl b ↦ (v, refl, b)
    | inr b ↦ absurd (let n = rw (b, shared_file) at e in cc n)
  ]

  shared_verdict-BySharing :
      (path t : Text) (s : ShareLink) (o : Option ℤ)
      → share_token r ≡ some t
      → is_valid_token_hash sha256 q db t ≡ some s
      → extract_video_id_from_path path ≡ o
      → shared_verdict q db path o s ≡ passed
      → BySharing path
  unfolding shared_verdict
  shared_verdict-BySharing path t s (some id) held valid h e =
      elim (Bool-cases (id =? s.video_id)) [
        | inr b ↦ absurd (let n = rw (b, shared_verdict) at e in cc n)
        | inl b ↦ record {
          video_id = s.video_id;
          shared = record { token = t; link = s; held = held; valid = valid; bound = refl };
          file = inl (h ∙ ap some ((int_Eq.beq_iff id s.video_id).0 b));
        }
      ]
  shared_verdict-BySharing path t s none held valid h e =
      let (v, l, f) = shared_file-passed path _ e in
      record {
        video_id = s.video_id;
        shared = record { token = t; link = s; held = held; valid = valid; bound = refl };
        file = inr (v, look_row-some sha256 q db r q.videos_ok _ v l, f);
      }

  by_share-BySharing : (path : Text) → by_share sha256 q db r path ≡ passed → BySharing path
  unfolding by_share
  by_share-BySharing path e = elim (Option-cases (share_token r)) [
    | inl h ↦ absurd (let n = rw (h, by_share) at e in cc n)
    | inr (t, h) ↦ elim (Bool-cases q.shares_ok) [
      | inr b ↦ absurd (let n = rw (h, b, by_share) at e in cc n)
      | inl b ↦ elim (Option-cases (is_valid_token_hash sha256 q db t)) [
        | inl k ↦ absurd (let n = rw (h, b, k, by_share) at e in cc n)
        | inr (s, k) ↦ shared_verdict-BySharing path t s _ h k refl (rw (h, b, k, by_share) at e)
      ]
    ]
  ]

-- The request is one of an account that may read the file, whose token the database knew within the
-- last thirty seconds, or it holds a share link.
pub record ByAccount (sha256 : Text → Text) (history : ℕ → Tables) (q : Query) (db : Database)
    (r : Request) (w : Caches) : Type 0 where
  pub token : Text
  pub user : CachedAuthUser
  pub held : auth_token r ≡ some token
  pub backed :
      Backed sha256 history
        (token_cache_ttl + media_auth_cache_ttl + media_auth_cache_ttl)
        q.call.now
        token
        user
  pub reads : Readable sha256 q db r (canonical r.path) user w

abbrev pub Entitled : (Text → Text) → (ℕ → Tables) → Query → Database → Request → Caches → Type 0
Entitled sha256 history q db r w =
    ByAccount sha256 history q db r w ⊎ BySharing sha256 q db r (canonical r.path)

module _ (sha256 : Text → Text) (history : ℕ → Tables) (q : Query) (db : Database)
    (r : Request) where
  with_users-IsCoherent :
      (w : Caches) (v : View) → IsCoherent w → IsCoherent (record w { users = v })
  with_users-IsCoherent w v k = record { details = k.details; streams = k.streams }

  after_resolve-Entitled :
      (w : Caches) (t : Text) (v : View) (a : MediaAuthResult)
      → IsCoherent w
      → auth_token r ≡ some t
      → ((u : CachedAuthUser)
          → a ≡ authorized u
          → Backed sha256 history
              (token_cache_ttl + media_auth_cache_ttl + media_auth_cache_ttl)
              q.call.now
              t
              u)
      → (after_resolve sha256 q db r (canonical r.path) (record w { users = v }) a).1 ≡ passed
      → Entitled sha256 history q db r w
  unfolding after_resolve
  after_resolve-Entitled w t v (authorized u) k h b e = inl (record {
    token = t;
    user = u;
    held = h;
    backed = b u refl;
    reads = signed_in-Readable sha256 q db r (canonical r.path) u _ (with_users-IsCoherent w v k) e;
  })
  after_resolve-Entitled w t v pass k h b e =
      inr (by_share-BySharing sha256 q db r (canonical r.path) e)
  after_resolve-Entitled w t v denied k h b e = absurd (cc e)
  after_resolve-Entitled w t v disabled k h b e = absurd (cc e)

  -- A request passes only where it is entitled.
  pub media_auth-Entitled :
      (w : Caches)
      → db.sessions ≡ history q.call.now
      → IsSound sha256 history q.call.now w.users
      → IsCoherent w
      → (media_auth sha256 q db r w).1 ≡ passed
      → Entitled sha256 history q db r w
  unfolding media_auth
  media_auth-Entitled w same s k e = elim (Option-cases (auth_token r)) [
    | inl h ↦ inr (by_share-BySharing sha256 q db r (canonical r.path) (rw (h, media_auth) at e))
    | inr (t, h) ↦
        after_resolve-Entitled w t _ _ k h (resolve-Resolved sha256 history q.call t w.users s).1
          (rw (h, same, media_auth) at e)
  ]
