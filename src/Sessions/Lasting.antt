-- ===== src/Sessions/Lasting.antt =====
-- A sign-out is final where no other process still has the token in its caches.
use lan_video.Prelude.{
  ℕ, ◌≤◌, ◌≡◌, refl, sym, ◌∙◌, subst, true, false, Option, none, some, List, [], ◌∷◌, ◌==◌, arith,
  inl, inr, Bool-cases,
}
use lan_video.Prelude.Assoc.{◌=?◌, nat_Eq}
use lan_video.Prelude.Texts.{Text, text_Eq}
use lan_video.Sessions.{
  User, Tables, CachedAuthUser, View, Call, token_cache_ttl, media_auth_cache_ttl, peek, stamp,
  Found, failed, unknown, known, MediaAuthResult, authorized, cached_user, query_user, remember,
  query_and_remember, try_cached, find_user_by_token, admit_found, from_redis,
  media_auth_cache_get_redis, from_local, resolve_media_user, is_valid_auth_token,
}
use lan_video.Sessions.Runs.{
  World, view, Act, media, bearer, sign_out, end_sessions, evict, Event, act_on, step, run, Ordered,
  Admitted,
}
use lan_video.Sessions.SignOut.{
  Absent, IsGone, insert-none, peek-none, keep_local-IsGone, put-IsGone, sign_out-IsGone,
  end_sessions-IsGone, evict-IsGone, update-IsGone, sign_out-Gone,
}

module _ (sha256 : Text → Text) (history : ℕ → Tables) (token : Text) (end : ℕ)
    (over : (s : ℕ) → end ≤ s → query_user sha256 s token (history s) ≡ none) where
  -- The token stays away, and only another key has an answer.
  abbrev Missed : Text → View × Found → Type 0
  Missed k r = IsGone token r.0 × ((u : User) → r.1 ≡ known u → (k =? token) ≡ false)

  abbrev Refused : Text → View × MediaAuthResult → Type 0
  Refused k r =
      IsGone token r.0 × ((u : CachedAuthUser) → r.1 ≡ authorized u → (k =? token) ≡ false)

  remember-Missed :
      (now : ℕ) (k : Text) (o : Option User) (v : View)
      → end ≤ now
      → IsGone token v
      → query_user sha256 now k (history now) ≡ o
      → Missed k (remember now k o v)
  unfolding remember
  remember-Missed now k none v l g h = (g, λ u e. absurd (cc e))
  remember-Missed now k (some u) v l g h = elim (Bool-cases (k =? token)) [
    | inr e ↦ (
      record {
        tokens = insert-none k token (stamp now u) v.token_cache e g.tokens;
        medias = g.medias;
        shared = g.shared;
      },
      λ w i. e,
    )
    | inl e ↦ absurd (
        let a =
          subst (λ i. query_user sha256 now i (history now) ≡ some u)
            ((text_Eq.beq_iff k token).0 e) h in
        let b = sym a ∙ over now l in cc b)
  ]

  try_cached-Missed :
      (c : Call) (k : Text) (o : Option User) (v : View)
      → end ≤ c.now
      → IsGone token v
      → peek c.now token_cache_ttl k v.token_cache ≡ o
      → Missed k (try_cached sha256 c (history c.now) k o v)
  unfolding try_cached query_and_remember
  try_cached-Missed c k (some u) v l g h =
      (g, λ w i. peek-none c.now token_cache_ttl k token v.token_cache u g.tokens h)
  try_cached-Missed c k none v l g h = elim (Bool-cases c.db_ok) [
    | inr b ↦ simp b (g, λ u e. absurd (cc e))
    | inl b ↦ simp b (remember-Missed c.now k _ v l g refl)
  ]

  find-Missed :
      (c : Call) (k : Text) (v : View)
      → end ≤ c.now
      → IsGone token v
      → Missed k (find_user_by_token sha256 c (history c.now) k v)
  unfolding find_user_by_token
  find-Missed c k v l g = elim (Bool-cases (is_valid_auth_token k)) [
    | inr b ↦ simp b (g, λ u e. absurd (cc e))
    | inl b ↦ simp b (try_cached-Missed c k _ v l g refl)
  ]

  admit_found-Refused :
      (c : Call) (k : Text) (r : View × Found) → Missed k r → Refused k (admit_found c k r)
  unfolding admit_found
  admit_found-Refused c k (v, failed) m = (m.0, λ u e. absurd (cc e))
  admit_found-Refused c k (v, unknown) m = (m.0, λ u e. absurd (cc e))
  admit_found-Refused c k (v, known u) m = elim (Bool-cases u.approved) [
    | inr e ↦ simp e (m.0, λ w i. absurd (cc i))
    | inl e ↦
        let other = m.1 u refl in
        simp e (
          put-IsGone c k token (cached_user u) _ other
              (keep_local-IsGone c.now k token (cached_user u) v other m.0),
          λ w i. other,
        )
  ]

  from_redis-Refused :
      (c : Call) (k : Text) (o : Option CachedAuthUser) (v : View)
      → end ≤ c.now
      → IsGone token v
      → media_auth_cache_get_redis c k v ≡ o
      → Refused k (from_redis sha256 c (history c.now) k o v)
  unfolding from_redis media_auth_cache_get_redis
  from_redis-Refused c k none v l g h = admit_found-Refused c k _ (find-Missed c k v l g)
  from_redis-Refused c k (some u) v l g h = elim (Bool-cases c.get_ok) [
    | inr b ↦ absurd (let n = rw b at h in cc n)
    | inl b ↦
        let other = peek-none c.now media_auth_cache_ttl k token v.redis u g.shared (rw b at h) in
        (keep_local-IsGone c.now k token u v other g, λ w i. other)
  ]

  resolve-Refused :
      (c : Call) (k : Text) (o : Option CachedAuthUser) (v : View)
      → end ≤ c.now
      → IsGone token v
      → peek c.now media_auth_cache_ttl k v.media_cache ≡ o
      → Refused k (from_local sha256 c (history c.now) k o v)
  unfolding from_local
  resolve-Refused c k none v l g h = from_redis-Refused c k _ v l g refl
  resolve-Refused c k (some u) v l g h =
      (g, λ w i. peek-none c.now media_auth_cache_ttl k token v.media_cache u g.medias h)

  act-IsGone :
      (c : Call) (a : Act) (v : View)
      → end ≤ c.now
      → IsGone token v
      → IsGone token (act_on sha256 history c a v)
  unfolding act_on resolve_media_user
  act-IsGone c (media k) v l g = (resolve-Refused c k _ v l g refl).0
  act-IsGone c (bearer k) v l g = (find-Missed c k v l g).0
  act-IsGone c (sign_out k) v l g = sign_out-IsGone c k token v g
  act-IsGone c (end_sessions uid) v l g = end_sessions-IsGone c uid token v g
  act-IsGone c (evict k) v l g = evict-IsGone k token v g

  abbrev AllGone : World → Type 0
  AllGone w = (p : ℕ) → IsGone token (view p w)

  step-AllGone :
      (e : Event) (w : World) → end ≤ e.call.now → AllGone w → AllGone (step sha256 history e w)
  unfolding step
  step-AllGone e w l g q =
      update-IsGone e.process q token _ w
        (act-IsGone e.call e.act (view e.process w) l (g e.process))
        (λ n. record { tokens = (g q).tokens; medias = (g q).medias })

  run-AllGone :
      (from : ℕ) (es : List Event) (upto : ℕ) (w : World)
      → end ≤ from
      → Ordered from es upto
      → AllGone w
      → AllGone (run sha256 history es w)
  unfolding run
  run-AllGone from [] upto w l o g = g
  run-AllGone from (e ∷ es) upto w l (o, os) g =
      run-AllGone e.call.now es upto _ (omega arith) os (step-AllGone e w (omega arith) g)

  Ordered-le : (from : ℕ) (es : List Event) (upto : ℕ) → Ordered from es upto → from ≤ upto
  Ordered-le from [] upto o = o
  Ordered-le from (e ∷ es) upto (o, os) = omega (arith, Ordered-le e.call.now es upto os)

  gone-Refused :
      (es : List Event) (c : Call) (q : ℕ) (w : World)
      → Ordered end es c.now
      → AllGone w
      → ¬ Admitted sha256 history c q token (run sha256 history es w)
  unfolding resolve_media_user
  gone-Refused es c q w o g (inl (u, e)) =
      let a = run-AllGone end es c.now w (omega arith) o g q in
      let other = (resolve-Refused c token _ _ (Ordered-le end es c.now o) a refl).1 u e in
      absurd (let n = sym other ∙ (text_Eq.beq_iff token token).1 refl in cc n)
  gone-Refused es c q w o g (inr (u, e)) =
      let a = run-AllGone end es c.now w (omega arith) o g q in
      let other = (find-Missed c token _ (Ordered-le end es c.now o) a).1 u e in
      absurd (let n = sym other ∙ (text_Eq.beq_iff token token).1 refl in cc n)

-- From any world: a process signs out a well-formed token, Redis takes the removal, from that
-- instant on the database does not know the token, and no other process has the token in its own
-- caches. Then after any events with instants that do not go down no process lets the token
-- through.
pub sign_out-Lasting :
    (sha256 : Text → Text) (history : ℕ → Tables) (token : Text) (w : World) (p : ℕ) (c : Call)
    → is_valid_auth_token token ≡ true
    → c.put_ok ≡ true
    → ((s : ℕ) → c.now ≤ s → query_user sha256 s token (history s) ≡ none)
    → ((q : ℕ) → (q == p) ≡ false → Absent token (w.processes q))
    → (es : List Event) (d : Call) (q : ℕ) → Ordered c.now es d.now
    → ¬ Admitted sha256 history d q token
        (run sha256 history (record { process = p; call = c; act = sign_out token } ∷ es) w)
unfolding run step act_on
sign_out-Lasting sha256 history token w p c valid ok over others es d q o =
    gone-Refused sha256 history token c.now over es d q _ o
      (λ r. update-IsGone p r token _ w (sign_out-Gone c token (view p w) valid ok) (others r))
