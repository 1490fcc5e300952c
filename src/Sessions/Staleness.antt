-- ===== src/Sessions/Staleness.antt =====
-- How long a token can outlive its row: the three caches of a media request, over any number of
-- processes and any history of the tables.
use lan_video.Prelude.{
  ℕ, ◌+◌, ◌≤◌, ◌<◌, ◌≡◌, refl, ap, ◌∙◌, subst, true, Option, none, some, ltb, ltb→lt, arith, inl,
  inr, Bool-cases, some-injective,
}
use lan_video.Prelude.Assoc.{nat_Eq, lookup}
use lan_video.Prelude.Texts.{Text, text_Eq}
use lan_video.Prelude.Every.{Every, Every-insert}
use lan_video.Sessions.{
  User, Tables, CachedAuthUser, Entry, View, Call, token_cache_ttl, media_auth_cache_ttl, live,
  peek, stamp, Found, failed, unknown, known, MediaAuthResult, authorized, cached_user, query_user,
  remember, query_and_remember, try_cached, find_user_by_token, media_auth_cache_put_redis,
  keep_local, admit_found, from_redis, media_auth_cache_get_redis, from_local, resolve_media_user,
  is_valid_auth_token,
}

-- A live value is that of an entry, within its time.
pub live-some {ℓ} :
    {V : Type ℓ} (now ttl : ℕ) (o : Option (Entry V)) (x : V)
    → live now ttl o ≡ some x
    → (e : Entry V) × (o ≡ some e) × (e.value ≡ x) × (now < e.since + ttl)
unfolding live
live-some now ttl none x h = absurd (cc h)
live-some now ttl (some e) x h = elim (Bool-cases (ltb now (e.since + ttl))) [
  | inl b ↦ (e, refl, some-injective (rw b at h), ltb→lt now (e.since + ttl) b)
  | inr b ↦ absurd (let n = rw b at h in cc n)
]

user_of : User → Found → User
user_of d (known u) = u
user_of d _ = d

known-injective : {u w : User} → known u ≡ known w → u ≡ w
unfolding user_of
known-injective {u} e = ap (user_of u) e

account_of : CachedAuthUser → MediaAuthResult → CachedAuthUser
account_of d (authorized c) = c
account_of d _ = d

authorized-injective : {c d : CachedAuthUser} → authorized c ≡ authorized d → c ≡ d
unfolding account_of
authorized-injective {c} e = ap (account_of c) e

module _ (sha256 : Text → Text) (history : ℕ → Tables) where
  -- The database knew the token at the instant `s`.
  abbrev pub Knew : ℕ → Text → User → Type 0
  Knew s token u = query_user sha256 s token (history s) ≡ some u

  -- At an instant before `at`, by less than `lag`, the database knew the token as one of an approved
  -- account, the one that `c` tells of.
  pub record Backed (lag at_instant : ℕ) (token : Text) (c : CachedAuthUser) : Type 0 where
    pub instant : ℕ
    pub user : User
    pub before : instant ≤ at_instant
    pub recent : at_instant < instant + lag
    pub knew : Knew instant token user
    pub approved : user.approved ≡ true
    pub told : cached_user user ≡ c

  -- An entry that tells of an earlier answer of the database.
  abbrev pub Honest : ℕ → Text → Entry User → Type 0
  Honest now token e = (e.since ≤ now) × Knew e.since token e.value

  abbrev pub Lagging : ℕ → ℕ → Text → Entry CachedAuthUser → Type 0
  Lagging lag now token e = (e.since ≤ now) × Backed lag e.since token e.value

  pub record IsSound (now : ℕ) (v : View) : Type 0 where
    pub tokens : Every (Honest now) v.token_cache
    pub medias : Every (Lagging (token_cache_ttl + media_auth_cache_ttl) now) v.media_cache
    pub shared : Every (Lagging token_cache_ttl now) v.redis

  pub IsSound-later : (now later : ℕ) (v : View) → now ≤ later → IsSound now v → IsSound later v
  IsSound-later now later v h s = record {
    tokens = λ k e l. let (a, b) = s.tokens k e l in (omega arith, b);
    medias = λ k e l. let (a, b) = s.medias k e l in (omega arith, b);
    shared = λ k e l. let (a, b) = s.shared k e l in (omega arith, b);
  }

  -- What the look into the table and its cache gives.
  abbrev pub Answered : ℕ → Text → View → View × Found → Type 0
  Answered now token v r =
      IsSound now r.0
      × ((u : User)
          → r.1 ≡ known u
          → (s : ℕ) × (s ≤ now) × (now < s + token_cache_ttl) × Knew s token u)

  remember-Answered :
      (now : ℕ) (token : Text) (o : Option User) (v : View)
      → IsSound now v
      → query_user sha256 now token (history now) ≡ o
      → Answered now token v (remember now token o v)
  unfolding remember
  remember-Answered now token none v s e = (s, λ u k. absurd (cc k))
  remember-Answered now token (some u) v s e = (
    record {
      tokens =
          Every-insert (Honest now) token (stamp now u) v.token_cache s.tokens (omega arith, e);
      medias = s.medias;
      shared = s.shared;
    },
    λ w k. (now, omega arith, omega arith, e ∙ ap some (known-injective k)),
  )

  try_cached-Answered :
      (c : Call) (token : Text) (o : Option User) (v : View)
      → IsSound c.now v
      → peek c.now token_cache_ttl token v.token_cache ≡ o
      → Answered c.now token v (try_cached sha256 c (history c.now) token o v)
  unfolding try_cached query_and_remember peek
  try_cached-Answered c token (some u) v s h =
      let (e, at, val, lt) = live-some c.now token_cache_ttl (lookup token v.token_cache) u h in
      let (le, knew) = s.tokens token e at in
      (s, λ w k. (e.since, le, lt, knew ∙ ap some (val ∙ known-injective k)))
  try_cached-Answered c token none v s h = elim (Bool-cases c.db_ok) [
    | inr b ↦ simp b (s, λ u k. absurd (cc k))
    | inl b ↦
        simp b
          (remember-Answered c.now token (query_user sha256 c.now token (history c.now)) v s refl)
  ]

  pub find-Answered :
      (c : Call) (token : Text) (v : View)
      → IsSound c.now v
      → Answered c.now token v (find_user_by_token sha256 c (history c.now) token v)
  unfolding find_user_by_token
  find-Answered c token v s = elim (Bool-cases (is_valid_auth_token token)) [
    | inr b ↦ simp b (s, λ u k. absurd (cc k))
    | inl b ↦ simp b (try_cached-Answered c token _ v s refl)
  ]

  -- What `resolve_media_user` gives.
  abbrev pub Resolved : ℕ → Text → View × MediaAuthResult → Type 0
  Resolved now token r =
      IsSound now r.0
      × ((c : CachedAuthUser)
          → r.1 ≡ authorized c
          → Backed (token_cache_ttl + media_auth_cache_ttl + media_auth_cache_ttl) now token c)

  Backed-wider :
      (lag lag' now : ℕ) (token : Text) (c : CachedAuthUser)
      → lag ≤ lag'
      → Backed lag now token c
      → Backed lag' now token c
  Backed-wider lag lag' now token c h b = record {
    instant = b.instant;
    user = b.user;
    before = b.before;
    recent = omega (arith, b.recent);
    knew = b.knew;
    approved = b.approved;
    told = b.told;
  }

  -- Some time later, within the life of an entry.
  Backed-live :
      (lag since now : ℕ) (token : Text) (c : CachedAuthUser)
      → since ≤ now
      → now < since + media_auth_cache_ttl
      → Backed lag since token c
      → Backed (lag + media_auth_cache_ttl) now token c
  Backed-live lag since now token c h k b = record {
    instant = b.instant;
    user = b.user;
    before = omega (arith, b.before);
    recent = omega (arith, b.recent);
    knew = b.knew;
    approved = b.approved;
    told = b.told;
  }

  keep_local-IsSound :
      (now : ℕ) (token : Text) (c : CachedAuthUser) (v : View)
      → IsSound now v
      → Backed (token_cache_ttl + media_auth_cache_ttl) now token c
      → IsSound now (keep_local now token c v)
  unfolding keep_local
  keep_local-IsSound now token c v s b = record {
    tokens = s.tokens;
    medias =
        Every-insert (Lagging (token_cache_ttl + media_auth_cache_ttl) now) token (stamp now c)
          v.media_cache s.medias (omega arith, b);
    shared = s.shared;
  }

  put-IsSound :
      (c : Call) (token : Text) (u : CachedAuthUser) (v : View)
      → IsSound c.now v
      → Backed token_cache_ttl c.now token u
      → IsSound c.now (media_auth_cache_put_redis c token u v)
  unfolding media_auth_cache_put_redis
  put-IsSound c token u v s b = elim (Bool-cases c.put_ok) [
    | inr e ↦ simp e s
    | inl e ↦ simp e record {
      tokens = s.tokens;
      medias = s.medias;
      shared =
          Every-insert (Lagging token_cache_ttl c.now) token (stamp c.now u) v.redis s.shared
            (omega arith, b);
    }
  ]

  admit_found-Resolved :
      (c : Call) (token : Text) (v : View) (r : View × Found)
      → Answered c.now token v r
      → Resolved c.now token (admit_found c token r)
  unfolding admit_found
  admit_found-Resolved c token v (v', failed) a = (a.0, λ u k. absurd (cc k))
  admit_found-Resolved c token v (v', unknown) a = (a.0, λ u k. absurd (cc k))
  admit_found-Resolved c token v (v', known u) a = elim (Bool-cases u.approved) [
    | inr e ↦ simp e (a.0, λ w k. absurd (cc k))
    | inl e ↦
        let (s, le, lt, knew) = a.1 u refl in
        let b : Backed token_cache_ttl c.now token (cached_user u) = record {
          instant = s;
          user = u;
          before = le;
          recent = lt;
          knew = knew;
          approved = e;
          told = refl;
        } in
        simp e (
          put-IsSound c token (cached_user u) _
              (keep_local-IsSound c.now token (cached_user u) v' a.0
                (Backed-wider _ _ c.now token _ (omega arith) b))
              b,
          λ w k.
              subst (Backed _ c.now token) (authorized-injective k)
                (Backed-wider _ _ c.now token _ (omega arith) b),
        )
  ]

  from_redis-Resolved :
      (c : Call) (token : Text) (o : Option CachedAuthUser) (v : View)
      → IsSound c.now v
      → media_auth_cache_get_redis c token v ≡ o
      → Resolved c.now token (from_redis sha256 c (history c.now) token o v)
  unfolding from_redis media_auth_cache_get_redis peek
  from_redis-Resolved c token none v s h =
      admit_found-Resolved c token v _ (find-Answered c token v s)
  from_redis-Resolved c token (some u) v s h = elim (Bool-cases c.get_ok) [
    | inr g ↦ absurd (let n = rw g at h in cc n)
    | inl g ↦
        let (e, at, val, lt) =
          live-some c.now media_auth_cache_ttl (lookup token v.redis) u (rw g at h) in
        let (le, b) = s.shared token e at in
        let told =
          subst (Backed _ c.now token) val (Backed-live _ e.since c.now token e.value le lt b) in
        (
          keep_local-IsSound c.now token u v s told,
          λ w k.
              subst (Backed _ c.now token) (authorized-injective k)
                (Backed-wider _ _ c.now token u (omega arith) told),
        )
  ]

  from_local-Resolved :
      (c : Call) (token : Text) (o : Option CachedAuthUser) (v : View)
      → IsSound c.now v
      → peek c.now media_auth_cache_ttl token v.media_cache ≡ o
      → Resolved c.now token (from_local sha256 c (history c.now) token o v)
  unfolding from_local peek
  from_local-Resolved c token none v s h = from_redis-Resolved c token _ v s refl
  from_local-Resolved c token (some u) v s h =
      let (e, at, val, lt) =
        live-some c.now media_auth_cache_ttl (lookup token v.media_cache) u h in
      let (le, b) = s.medias token e at in
      (
        s,
        λ w k.
            subst (Backed _ c.now token) (val ∙ authorized-injective k)
              (Backed-live _ e.since c.now token e.value le lt b),
      )

  pub resolve-Resolved :
      (c : Call) (token : Text) (v : View)
      → IsSound c.now v
      → Resolved c.now token (resolve_media_user sha256 c (history c.now) token v)
  unfolding resolve_media_user
  resolve-Resolved c token v s = from_local-Resolved c token _ v s refl
