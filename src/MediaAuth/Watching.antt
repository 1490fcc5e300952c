-- ===== src/MediaAuth/Watching.antt =====
-- What the guard asks of a request for a video: the share link, the owner and the playback session.
use lan_video.Prelude.{
  ◌≡◌, refl, sym, ap, ◌∙◌, subst, ◌⊎◌, inl, inr, Bool, true, false, Option, none, some, List, [],
  ◌∷◌, Bool-cases, Option-cases, some-injective, if◌then◌else◌,
}
use lan_video.Prelude.Assoc.{◌=?◌, lookup}
use lan_video.Prelude.Every.{Every}
use lan_video.Prelude.Texts.{Text, text_Eq}
use lan_video.Prelude.Cuts.{ℤ, int_Eq, parse_i64}
use lan_video.Sessions.{CachedAuthUser, live}
use lan_video.Sessions.Staleness.{live-some}
use lan_video.MediaAuth.{Request, and_then, is_thumbnail_or_cover_path}
use lan_video.MediaAuth.Playback.{is_active, Sessions}
use lan_video.MediaAuth.Queries.{
  Video, ShareLink, Database, Caches, Query, video_detail_ttl, stream_url_cache_ttl, first, Looked,
  failed, absent, found, look_row, keep_detail, detail_or_row, keep_stream, stream_or_row,
  share_token, is_valid_token_hash, share_token_authorizes,
}
use lan_video.MediaAuth.Guard.{
  Verdict, passed, refused, Refusal, check_header, is_owner, share_answer, video_verdict,
  with_video,
}

-- The caches of videos tell of the video that they are asked for.
pub record IsCoherent (w : Caches) : Type 0 where
  pub details : Every (λ id e. e.value.id ≡ id) w.video_detail
  pub streams : Every (λ url e. e.value.stream_url ≡ url) w.stream_url

-- A row that a query selects passes its test.
pub first-some {ℓ} :
    {A : Type ℓ} (p : A → Bool) (xs : List A) (x : A) → first p xs ≡ some x → p x ≡ true
unfolding first
first-some p [] x h = absurd (cc h)
first-some p (y ∷ ys) x h = elim (Bool-cases (p y)) [
  | inl e ↦ subst (λ z. p z ≡ true) (some-injective (rw e at h)) e
  | inr e ↦ first-some p ys x (rw e at h)
]

video_of : Video → Looked → Video
video_of d (found v) = v
video_of d _ = d

found-injective : {u v : Video} → found u ≡ found v → u ≡ v
unfolding video_of
found-injective {u} e = ap (video_of u) e

module _ (sha256 : Text → Text) (q : Query) (db : Database) (r : Request) where
  -- A live share link that the request holds the token of, for the video.
  pub record Shared (id : ℤ) : Type 0 where
    pub token : Text
    pub link : ShareLink
    pub held : share_token r ≡ some token
    pub valid : is_valid_token_hash sha256 q db token ≡ some link
    pub bound : link.video_id ≡ id

  share_link-Shared :
      (id : ℤ) (t : Text) (o : Option ShareLink)
      → share_token r ≡ some t
      → is_valid_token_hash sha256 q db t ≡ o
      → (elim o as (λ _. Option Bool) [ none ↦ some false | some s ↦ some (s.video_id =? id) ])
        ≡ some true
      → Shared id
  share_link-Shared id t none h k e = absurd (let n = some-injective e in cc n)
  share_link-Shared id t (some s) h k e = record {
    token = t;
    link = s;
    held = h;
    valid = k;
    bound = (int_Eq.beq_iff s.video_id id).0 (some-injective e);
  }

  authorizes-Shared : (id : ℤ) → share_token_authorizes sha256 q db r id ≡ some true → Shared id
  unfolding share_token_authorizes
  authorizes-Shared id e = elim (Option-cases (share_token r)) [
    | inl h ↦ absurd (let n = some-injective (rw (h, share_token_authorizes) at e) in cc n)
    | inr (t, h) ↦ elim (Bool-cases q.shares_ok) [
      | inr b ↦ absurd (let n = rw (h, b, share_token_authorizes) at e in cc n)
      | inl b ↦ share_link-Shared id t _ h refl (rw (h, b, share_token_authorizes) at e)
    ]
  ]

  -- X-Video-ID, where it is there and a number, names the video.
  abbrev pub HeaderFits : ℤ → Type 0
  HeaderFits id = (h : ℤ) → and_then r.x_video_id parse_i64 ≡ some h → h ≡ id

  -- The video is the account's own or an administrator asks, and it is a preview image or is being
  -- played; or the request holds a share link for it.
  abbrev pub Watched : Text → CachedAuthUser → Sessions → Video → Type 0
  Watched path u s v =
      ((is_owner u v ≡ true)
        × ((is_thumbnail_or_cover_path path ≡ true)
            ⊎ (HeaderFits v.id × ((is_active q.call.now u.username v.id s ≡ true) ⊎ Shared v.id))))
      ⊎ Shared v.id

  header_fits :
      (id : ℤ) (o : Option ℤ)
      → and_then r.x_video_id parse_i64 ≡ o
      → (elim o as (λ _. Verdict) [
        | none ↦ passed
        | some h ↦ if h =? id then passed else refused Refusal.id_mismatch
      ])
        ≡ passed
      → HeaderFits id
  header_fits id none k e h i = absurd (let n = sym k ∙ i in cc n)
  header_fits id (some j) k e h i = elim (Bool-cases (j =? id)) [
    | inl b ↦ some-injective (sym i ∙ k) ∙ (int_Eq.beq_iff j id).0 b
    | inr b ↦ absurd (let n = rw b at e in cc n)
  ]

  check_header-fits : (id : ℤ) → check_header r id ≡ passed → HeaderFits id
  unfolding check_header
  check_header-fits id e = header_fits id _ refl e

  share_answer-passed :
      (x : Refusal) (admitted : Verdict) (o : Option Bool)
      → share_answer x admitted o ≡ passed
      → (o ≡ some true) × (admitted ≡ passed)
  unfolding share_answer
  share_answer-passed x a none e = absurd (cc e)
  share_answer-passed x a (some false) e = absurd (cc e)
  share_answer-passed x a (some true) e = (refl, e)

  video_verdict-Watched :
      (path : Text) (u : CachedAuthUser) (s : Sessions) (v : Video)
      → video_verdict sha256 q db r path u s v ≡ passed
      → Watched path u s v
  unfolding video_verdict
  video_verdict-Watched path u s v e = elim (Bool-cases (is_owner u v)) [
    | inr o ↦
        inr (authorizes-Shared v.id (share_answer-passed _ _ _ (rw (o, video_verdict) at e)).0)
    | inl o ↦ inl (
      o,
      elim (Bool-cases (is_thumbnail_or_cover_path path)) [
        | inl t ↦ inl t
        | inr t ↦ inr (elim (Bool-cases (is_active q.call.now u.username v.id s)) [
          | inl a ↦ (check_header-fits v.id (rw (o, t, a, video_verdict) at e), inl a)
          | inr a ↦
              let (f, p) = share_answer-passed _ _ _ (rw (o, t, a, video_verdict) at e) in
              (check_header-fits v.id p, inr (authorizes-Shared v.id f))
        ])
      ],
    )
  ]

  -- What a look for a video does: it leaves the playback sessions alone, and finds what it looks for.
  abbrev pub Finds : Caches → (Video → Type 0) → Caches × Looked → Type 0
  Finds w P l = (l.0.playback_sessions ≡ w.playback_sessions) × ((v : Video) → l.1 ≡ found v → P v)

  pub with_video-Watched :
      (path : Text) (u : CachedAuthUser) (w : Caches) (P : Video → Type 0) (l : Caches × Looked)
      → Finds w P l
      → (with_video sha256 q db r path u l).1 ≡ passed
      → (v : Video) × P v × Watched path u w.playback_sessions v
  unfolding with_video
  with_video-Watched path u w P (w', failed) f e = absurd (cc e)
  with_video-Watched path u w P (w', absent) f e = absurd (cc e)
  with_video-Watched path u w P (w', found v) f e =
      (v, f.1 v refl, subst (λ s. Watched path u s v) f.0 (video_verdict-Watched path u _ v e))

  -- The cache has the video under its id, put there within the last minute, or it is the row that the
  -- query selects.
  abbrev pub IsKnownById : ℤ → Caches → Video → Type 0
  IsKnownById id w v =
      (live q.call.now video_detail_ttl (lookup id w.video_detail) ≡ some v)
      ⊎ (first (λ u. u.id =? id) db.videos ≡ some v)

  -- The same by the path of its file, within the last half minute.
  abbrev pub IsKnownByUrl : Text → Caches → Video → Type 0
  IsKnownByUrl url w v =
      (live q.call.now stream_url_cache_ttl (lookup url w.stream_url) ≡ some v)
      ⊎ (first (λ u. u.stream_url =? url) db.videos ≡ some v)

  keep_detail-Finds :
      (id : ℤ) (P : Video → Type 0) (l : Looked) (w : Caches)
      → ((v : Video) → l ≡ found v → P v)
      → Finds w P (keep_detail q id l w)
  unfolding keep_detail
  keep_detail-Finds id P failed w h = (refl, h)
  keep_detail-Finds id P absent w h = (refl, h)
  keep_detail-Finds id P (found v) w h = (refl, h)

  keep_stream-Finds :
      (url : Text) (P : Video → Type 0) (l : Looked) (w : Caches)
      → ((v : Video) → l ≡ found v → P v)
      → Finds w P (keep_stream q url l w)
  unfolding keep_stream
  keep_stream-Finds url P failed w h = (refl, h)
  keep_stream-Finds url P absent w h = (refl, h)
  keep_stream-Finds url P (found v) w h = (refl, h)

  pub look_row-some :
      (b : Bool) (o : Option Video) (v : Video) → look_row b o ≡ found v → o ≡ some v
  unfolding look_row
  look_row-some false o v e = absurd (cc e)
  look_row-some true none v e = absurd (cc e)
  look_row-some true (some u) v e = ap some (found-injective e)

  pub row-test :
      (p : Video → Bool) (b : Bool) (v : Video)
      → look_row b (first p db.videos) ≡ found v
      → p v ≡ true
  row-test p b v e = first-some p db.videos v (look_row-some b (first p db.videos) v e)

  pub detail_or_row-Finds :
      (id : ℤ) (o : Option Video) (w : Caches)
      → IsCoherent w
      → live q.call.now video_detail_ttl (lookup id w.video_detail) ≡ o
      → Finds w (λ v. (v.id ≡ id) × IsKnownById id w v) (detail_or_row q db id o w)
  unfolding detail_or_row
  detail_or_row-Finds id (some v) w k h = (
    refl,
    λ u e.
        let (i, at, val, lt) =
          live-some q.call.now video_detail_ttl (lookup id w.video_detail) v h in
        (
          subst (λ x. x.id ≡ id) (val ∙ found-injective e) (k.details id i at),
          inl (h ∙ ap some (found-injective e)),
        ),
  )
  detail_or_row-Finds id none w k h =
      keep_detail-Finds id (λ v. (v.id ≡ id) × IsKnownById id w v) _ w
        (λ v e. (
          (int_Eq.beq_iff v.id id).0 (row-test _ q.videos_ok v e),
          inr (look_row-some q.videos_ok _ v e),
        ))

  pub stream_or_row-Finds :
      (url : Text) (o : Option Video) (w : Caches)
      → IsCoherent w
      → live q.call.now stream_url_cache_ttl (lookup url w.stream_url) ≡ o
      → Finds w (λ v. (v.stream_url ≡ url) × IsKnownByUrl url w v) (stream_or_row q db url o w)
  unfolding stream_or_row
  stream_or_row-Finds url (some v) w k h = (
    refl,
    λ u e.
        let (i, at, val, lt) =
          live-some q.call.now stream_url_cache_ttl (lookup url w.stream_url) v h in
        (
          subst (λ x. x.stream_url ≡ url) (val ∙ found-injective e) (k.streams url i at),
          inl (h ∙ ap some (found-injective e)),
        ),
  )
  stream_or_row-Finds url none w k h =
      keep_stream-Finds url (λ v. (v.stream_url ≡ url) × IsKnownByUrl url w v) _ w
        (λ v e. (
          (text_Eq.beq_iff v.stream_url url).0 (row-test _ q.videos_ok v e),
          inr (look_row-some q.videos_ok _ v e),
        ))
