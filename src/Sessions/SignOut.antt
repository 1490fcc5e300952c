-- ===== src/Sessions/SignOut.antt =====
-- What a sign-out leaves: no cache holds the token, and none gets it again.
use lan_video.Prelude.{
  ℕ, ◌≡◌, refl, sym, ◌∙◌, subst, true, false, none, some, List, [], ◌∷◌, ◌==◌, inl, inr, Bool-cases,
  if◌then◌else◌,
}
use lan_video.Prelude.Assoc.{
  ◌=?◌, nat_Eq, lookup, insert, remove, lookup-insert, lookup-remove, lookup-retain,
}
use lan_video.Prelude.Texts.{Text, text_Eq}
use lan_video.Sessions.{
  CachedAuthUser, Entry, View, Call, peek, stamp, media_auth_cache_put_redis, keep_local,
  is_valid_auth_token, members, forget_token, invalidate_media_auth_token,
  invalidate_cached_tokens_for_user, invalidate_media_auth_user, remove_all,
}
use lan_video.Sessions.Staleness.{live-some}
use lan_video.Sessions.Runs.{
  Process, World, view, update, sign_out_caches, end_sessions_caches, evict_token,
}

module _ {ℓ} {V : Type ℓ} where
  pub insert-none :
      (k j : Text) (v : V) (m : List (Text × V))
      → (k =? j) ≡ false
      → lookup j m ≡ none
      → lookup j (insert k v m) ≡ none
  insert-none k j v m h n = let l = lookup-insert k j v m in l ∙ simp h n

  remove-none :
      (k j : Text) (m : List (Text × V)) → lookup j m ≡ none → lookup j (remove k m) ≡ none
  remove-none k j m n = elim (Bool-cases (k =? j)) [
    | inl h ↦ lookup-remove k j m ∙ simp h refl
    | inr h ↦ lookup-remove k j m ∙ simp h n
  ]

  remove-gone : (k : Text) (m : List (Text × V)) → lookup k (remove k m) ≡ none
  remove-gone k m = lookup-remove k k m ∙ rw ((text_Eq.beq_iff k k).1 refl) refl

remove_all-none :
    (ks : List Text) (j : Text) (m : List (Text × Entry CachedAuthUser))
    → lookup j m ≡ none
    → lookup j (remove_all ks m) ≡ none
unfolding remove_all
remove_all-none [] j m n = n
remove_all-none (k ∷ ks) j m n = remove_all-none ks j (remove k m) (remove-none k j m n)

-- A cache that does not hold the key gives nothing of it.
pub peek-none {ℓ} :
    {V : Type ℓ} (now ttl : ℕ) (k j : Text) (m : List (Text × Entry V)) (x : V)
    → lookup j m ≡ none
    → peek now ttl k m ≡ some x
    → (k =? j) ≡ false
unfolding peek
peek-none now ttl k j m x n h = elim (Bool-cases (k =? j)) [
  | inr e ↦ e
  | inl e ↦
      let (v, at, val, lt) = live-some now ttl (lookup k m) x h in
      absurd
        (let a = sym n ∙ subst (λ i. lookup i m ≡ some v) ((text_Eq.beq_iff k j).0 e) at in cc a)
]

-- No cache that a process has before it holds the token.
pub record IsGone (token : Text) (v : View) : Type 0 where
  pub tokens : lookup token v.token_cache ≡ none
  pub medias : lookup token v.media_cache ≡ none
  pub shared : lookup token v.redis ≡ none

-- A process that has the token in none of its own caches.
pub record Absent (token : Text) (p : Process) : Type 0 where
  pub tokens : lookup token p.token_cache ≡ none
  pub medias : lookup token p.media_cache ≡ none

pub keep_local-IsGone :
    (now : ℕ) (k token : Text) (u : CachedAuthUser) (v : View)
    → (k =? token) ≡ false
    → IsGone token v
    → IsGone token (keep_local now k u v)
unfolding keep_local
keep_local-IsGone now k token u v h g = record {
  tokens = g.tokens;
  medias = insert-none k token (stamp now u) v.media_cache h g.medias;
  shared = g.shared;
}

pub put-IsGone :
    (c : Call) (k token : Text) (u : CachedAuthUser) (v : View)
    → (k =? token) ≡ false
    → IsGone token v
    → IsGone token (media_auth_cache_put_redis c k u v)
unfolding media_auth_cache_put_redis
put-IsGone c k token u v h g = elim (Bool-cases c.put_ok) [
  | inr e ↦ simp e g
  | inl e ↦ simp e record {
    tokens = g.tokens;
    medias = g.medias;
    shared = insert-none k token (stamp c.now u) v.redis h g.shared;
  }
]

forget-IsGone : (k token : Text) (v : View) → IsGone token v → IsGone token (forget_token k v)
unfolding forget_token
forget-IsGone k token v g = elim (Bool-cases (is_valid_auth_token k)) [
  | inr e ↦ simp e g
  | inl e ↦ simp e record {
    tokens = remove-none k token v.token_cache g.tokens;
    medias = g.medias;
    shared = g.shared;
  }
]

pub sign_out-IsGone :
    (c : Call) (k token : Text) (v : View) → IsGone token v → IsGone token (sign_out_caches c k v)
unfolding sign_out_caches invalidate_media_auth_token
sign_out-IsGone c k token v g =
    let f = forget-IsGone k token v g in
    record {
      tokens = f.tokens;
      medias = remove-none k token (forget_token k v).media_cache f.medias;
      shared = elim (Bool-cases c.put_ok) [
        | inl e ↦ simp e (remove-none k token (forget_token k v).redis f.shared)
        | inr e ↦ simp e f.shared
      ];
    }

invalidate_cached-IsGone :
    (uid : ℕ) (token : Text) (v : View)
    → IsGone token v
    → IsGone token (invalidate_cached_tokens_for_user uid v)
unfolding invalidate_cached_tokens_for_user
invalidate_cached-IsGone uid token v g = record {
  tokens = lookup-retain _ token v.token_cache ∙ rw g.tokens refl;
  medias = g.medias;
  shared = g.shared;
}

pub end_sessions-IsGone :
    (c : Call) (uid : ℕ) (token : Text) (v : View)
    → IsGone token v
    → IsGone token (end_sessions_caches c uid v)
unfolding end_sessions_caches invalidate_media_auth_user
end_sessions-IsGone c uid token v g =
    let f = invalidate_cached-IsGone uid token v g in
    elim (Bool-cases c.put_ok) [
      | inr e ↦ simp e f
      | inl e ↦
          let u = invalidate_cached_tokens_for_user uid v in
          let ks = if c.get_ok then members c.now (lookup uid u.user_tokens) else [] in
          simp e record {
            tokens = f.tokens;
            medias = f.medias;
            shared = remove_all-none ks token u.redis f.shared;
          }
    ]

pub evict-IsGone : (k token : Text) (v : View) → IsGone token v → IsGone token (evict_token k v)
unfolding evict_token
evict-IsGone k token v g = record {
  tokens = remove-none k token v.token_cache g.tokens;
  medias = remove-none k token v.media_cache g.medias;
  shared = remove-none k token v.redis g.shared;
}

pub update-IsGone :
    (p q : ℕ) (token : Text) (v : View) (w : World)
    → IsGone token v
    → ((q == p) ≡ false → Absent token (w.processes q))
    → IsGone token (view q (update p v w))
unfolding update
update-IsGone p q token v w g other = elim (Bool-cases (q == p)) [
  | inl e ↦ record { tokens = simp e g.tokens; medias = simp e g.medias; shared = g.shared }
  | inr e ↦
      let o = other e in
      record { tokens = simp e o.tokens; medias = simp e o.medias; shared = g.shared }
]

forget-gone :
    (token : Text) (v : View)
    → is_valid_auth_token token ≡ true
    → lookup token (forget_token token v).token_cache ≡ none
unfolding forget_token
forget-gone token v valid = simp valid (remove-gone token v.token_cache)

-- The signing-out process itself has the token in none of its caches any more.
pub sign_out-Gone :
    (c : Call) (token : Text) (v : View)
    → is_valid_auth_token token ≡ true
    → c.put_ok ≡ true
    → IsGone token (sign_out_caches c token v)
unfolding sign_out_caches invalidate_media_auth_token
sign_out-Gone c token v valid ok = record {
  tokens = forget-gone token v valid;
  medias = remove-gone token (forget_token token v).media_cache;
  shared = simp ok (remove-gone token (forget_token token v).redis);
}
