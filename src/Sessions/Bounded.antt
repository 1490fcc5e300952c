-- ===== src/Sessions/Bounded.antt =====
-- How long a token outlives the end of its session, over any run of any number of processes.
use lan_video.Prelude.{
  ℕ, ◌+◌, ◌≤◌, ◌≡◌, sym, ◌∙◌, none, List, [], ◌∷◌, ◌==◌, arith, inl, inr, Bool-cases, if◌then◌else◌,
}
use lan_video.Prelude.Assoc.{nat_Eq, lookup, remove}
use lan_video.Prelude.Texts.{Text, text_Eq}
use lan_video.Prelude.Every.{Every, Every-remove, Every-retain}
use lan_video.Sessions.{
  Tables, CachedAuthUser, Entry, View, Call, token_cache_ttl, media_auth_cache_ttl, members,
  authorized, query_user, resolve_media_user, forget_token, invalidate_media_auth_token,
  invalidate_cached_tokens_for_user, invalidate_media_auth_user, remove_all, is_valid_auth_token,
}
use lan_video.Sessions.Staleness.{
  Backed, Honest, Lagging, IsSound, IsSound-later, find-Answered, resolve-Resolved,
}
use lan_video.Sessions.Runs.{
  World, start, view, update, Act, media, bearer, sign_out, end_sessions, evict, Event,
  sign_out_caches, end_sessions_caches, evict_token, act_on, step, run, Ordered, Admitted,
}

module _ (sha256 : Text → Text) (history : ℕ → Tables) where
  Shared : ℕ → List (Text × Entry CachedAuthUser) → Type 0
  Shared now m = Every (Lagging sha256 history token_cache_ttl now) m

  remove_all-Shared :
      (now : ℕ) (ks : List Text) (m : List (Text × Entry CachedAuthUser))
      → Shared now m
      → Shared now (remove_all ks m)
  unfolding remove_all Shared
  remove_all-Shared now [] m h = h
  remove_all-Shared now (k ∷ ks) m h =
      remove_all-Shared now ks (remove k m) (Every-remove (Lagging sha256 history _ now) k m h)

  forget-IsSound :
      (now : ℕ) (token : Text) (v : View)
      → IsSound sha256 history now v
      → IsSound sha256 history now (forget_token token v)
  unfolding forget_token
  forget-IsSound now token v s = elim (Bool-cases (is_valid_auth_token token)) [
    | inl e ↦ simp e record {
      tokens = Every-remove (Honest sha256 history now) token v.token_cache s.tokens;
      medias = s.medias;
      shared = s.shared;
    }
    | inr e ↦ simp e s
  ]

  invalidate_token-IsSound :
      (c : Call) (token : Text) (v : View)
      → IsSound sha256 history c.now v
      → IsSound sha256 history c.now (invalidate_media_auth_token c token v)
  unfolding invalidate_media_auth_token
  invalidate_token-IsSound c token v s = record {
    tokens = s.tokens;
    medias = Every-remove (Lagging sha256 history _ c.now) token v.media_cache s.medias;
    shared = elim (Bool-cases c.put_ok) [
      | inl e ↦ simp e (Every-remove (Lagging sha256 history _ c.now) token v.redis s.shared)
      | inr e ↦ simp e s.shared
    ];
  }

  invalidate_cached-IsSound :
      (now uid : ℕ) (v : View)
      → IsSound sha256 history now v
      → IsSound sha256 history now (invalidate_cached_tokens_for_user uid v)
  unfolding invalidate_cached_tokens_for_user
  invalidate_cached-IsSound now uid v s = record {
    tokens = Every-retain (Honest sha256 history now) _ v.token_cache s.tokens;
    medias = s.medias;
    shared = s.shared;
  }

  invalidate_user-IsSound :
      (c : Call) (uid : ℕ) (v : View)
      → IsSound sha256 history c.now v
      → IsSound sha256 history c.now (invalidate_media_auth_user c uid v)
  unfolding invalidate_media_auth_user Shared
  invalidate_user-IsSound c uid v s = elim (Bool-cases c.put_ok) [
    | inl e ↦
        let ks = if c.get_ok then members c.now (lookup uid v.user_tokens) else [] in
        simp e record {
          tokens = s.tokens;
          medias = s.medias;
          shared = remove_all-Shared c.now ks v.redis s.shared;
        }
    | inr e ↦ simp e s
  ]

  evict-IsSound :
      (now : ℕ) (token : Text) (v : View)
      → IsSound sha256 history now v
      → IsSound sha256 history now (evict_token token v)
  unfolding evict_token
  evict-IsSound now token v s = record {
    tokens = Every-remove (Honest sha256 history now) token v.token_cache s.tokens;
    medias = Every-remove (Lagging sha256 history _ now) token v.media_cache s.medias;
    shared = Every-remove (Lagging sha256 history _ now) token v.redis s.shared;
  }

  act-IsSound :
      (c : Call) (a : Act) (v : View)
      → IsSound sha256 history c.now v
      → IsSound sha256 history c.now (act_on sha256 history c a v)
  unfolding act_on sign_out_caches end_sessions_caches
  act-IsSound c (media token) v s = (resolve-Resolved sha256 history c token v s).0
  act-IsSound c (bearer token) v s = (find-Answered sha256 history c token v s).0
  act-IsSound c (sign_out token) v s =
      invalidate_token-IsSound c token _ (forget-IsSound c.now token v s)
  act-IsSound c (end_sessions uid) v s =
      invalidate_user-IsSound c uid _ (invalidate_cached-IsSound c.now uid v s)
  act-IsSound c (evict token) v s = evict-IsSound c.now token v s

  -- Every process has sound caches before it.
  abbrev AllSound : ℕ → World → Type 0
  AllSound now w = (p : ℕ) → IsSound sha256 history now (view p w)

  step-AllSound :
      (e : Event) (w : World)
      → AllSound e.call.now w
      → AllSound e.call.now (step sha256 history e w)
  unfolding step update
  step-AllSound e w s q =
      let a = act-IsSound e.call e.act (view e.process w) (s e.process) in
      elim (Bool-cases (q == e.process)) [
        | inl h ↦ record { tokens = simp h a.tokens; medias = simp h a.medias; shared = a.shared }
        | inr h ↦ record {
          tokens = simp h (s q).tokens;
          medias = simp h (s q).medias;
          shared = a.shared;
        }
      ]

  run-AllSound :
      (from : ℕ) (es : List Event) (upto : ℕ) (w : World)
      → Ordered from es upto
      → AllSound from w
      → AllSound upto (run sha256 history es w)
  unfolding run
  run-AllSound from [] upto w o s p = IsSound-later sha256 history from upto _ o (s p)
  run-AllSound from (e ∷ es) upto w (o, os) s p =
      run-AllSound e.call.now es upto (step sha256 history e w) os
        (step-AllSound e w (λ q. IsSound-later sha256 history from e.call.now _ o (s q))) p

  start-AllSound : AllSound 0 start
  unfolding lookup
  start-AllSound p = record {
    tokens = λ k e h. absurd (cc h);
    medias = λ k e h. absurd (cc h);
    shared = λ k e h. absurd (cc h);
  }

  -- After any run from empty caches, of any number of processes over any history of the tables,
  -- with instants that do not go down: if a media request is authorized as an account, then at
  -- some instant before, by less than thirty seconds, the database knew the token as one of an
  -- approved account, and the answer tells of that account.
  pub media-Backed :
      (es : List Event) (c : Call) (p : ℕ) (token : Text) (u : CachedAuthUser)
      → Ordered 0 es c.now
      → (resolve_media_user sha256 c (history c.now) token (view p (run sha256 history es start))).1
        ≡ authorized u
      → Backed sha256 history
          (token_cache_ttl + media_auth_cache_ttl + media_auth_cache_ttl)
          c.now
          token
          u
  media-Backed es c p token u o h =
      (resolve-Resolved sha256 history c token _
          (run-AllSound 0 es c.now start o start-AllSound p)).1
        u h

  -- Where from an instant on the database never knows the token, then thirty seconds later no
  -- process lets the token through, neither for media nor as a bearer, after any run from empty
  -- caches with instants that do not go down.
  pub revoked-Refused :
      (es : List Event) (c : Call) (p : ℕ) (token : Text) (end : ℕ)
      → Ordered 0 es c.now
      → ((s : ℕ) → end ≤ s → query_user sha256 s token (history s) ≡ none)
      → end + (token_cache_ttl + media_auth_cache_ttl + media_auth_cache_ttl) ≤ c.now
      → ¬ Admitted sha256 history c p token (run sha256 history es start)
  revoked-Refused es c p token end o h k (inl (u, e)) =
      let b = media-Backed es c p token u o e in
      absurd (let n = sym b.knew ∙ h b.instant (omega (arith, b.recent)) in cc n)
  revoked-Refused es c p token end o h k (inr (u, e)) =
      let (s, le, lt, knew) =
        (find-Answered sha256 history c token _
            (run-AllSound 0 es c.now start o start-AllSound p)).1
          u e in
      absurd (let n = sym knew ∙ h s (omega arith) in cc n)
