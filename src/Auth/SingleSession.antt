-- ===== src/Auth/SingleSession.antt =====
-- Which sessions of an account are left after a sign-in, and after a new password.
use Prim.Native.String.{String}
use lan_video.Prelude.{
  ℕ, ◌≤◌, ◌<◌, ◌≡◌, ◌≢◌, refl, sym, ap, subst, ◌∙◌, true, ◌&&◌, Option, none, some, List, [], ◌∷◌,
  map, arith, Bool-cases, inl, inr, ltb, ◌==◌, some-injective, ==_iff,
}
use lan_video.Prelude.Assoc.{◌=?◌, nat_Eq, lookup}
use lan_video.Prelude.Texts.{Text, text_Eq, text_eq-eq}
use lan_video.Prelude.Cuts.{codes}
use lan_video.RateLimit.{Verdict, allowed, limited}
use lan_video.Sessions.{User, TokenRow, select_user, query_user, invalidate_cached_tokens_for_user}
use lan_video.Auth.{
  UserRow, Database, session_user, session_tables, live_row, revoke_row, revoke_tokens_by_user_id,
  has_user, create_token, find_by_username, update_row, update_user, find_valid_reset_token,
  reset_password_and_revoke_tokens,
}
use lan_video.Auth.Rules.{is_password_length, is_password_strong_enough}
use lan_video.Auth.Service.{
  Outside, Server, Env, AuthRequest, granted, finding, revoking, minting, redeeming, updating,
  hand_out, supersede, wrong_answer, wrong_password, login_found, login_checked, login,
  reset_failures, check_ip_rate_limit, check_username_rate_limit, ip_checked,
}
use lan_video.Auth.Mail.{done, reset_password, reset_redeemed, reset_hashed, renewed}
use lan_video.Auth.Rows.{All, All-mono}

users_of : List UserRow → List (ℕ × User)
users_of us = map (λ u. (u.id, session_user u)) us

lookup-id : (us : List UserRow) (k : ℕ) (v : User) → lookup k (users_of us) ≡ some v → v.id ≡ k
unfolding lookup users_of session_user
lookup-id [] k v h = absurd (cc h)
lookup-id (u ∷ us) k v h = elim (Bool-cases (u.id == k)) [
  | inl e ↦ ap (λ x. x.id) (sym (some-injective (rw e at h))) ∙ (==_iff u.id k).0 e
  | inr e ↦ lookup-id us k v (rw e at h)
]

lt→ltb : (a b : ℕ) → a < b → ltb a b ≡ true
lt→ltb a b h = ground arith

-- The live tokens of an account have digests of a kind.
abbrev Limited : ℕ → ℕ → (Text → Type 0) → List TokenRow → Type 0
Limited later uid P rs = All (λ r. r.user_id ≡ uid → live_row later r ≡ true → P r.token_hash) rs

select-Limited :
    (later uid : ℕ) (P : Text → Type 0) (x : Text) (us : List UserRow) (rs : List TokenRow)
    (v : User)
    → Limited later uid P rs
    → select_user later x (users_of us) rs ≡ some v
    → v.id ≡ uid
    → P x
unfolding select_user
select-Limited later uid P x us [] v a h k = absurd (cc h)
select-Limited later uid P x us (r ∷ rs) v a h k = elim (Bool-cases (r.token_hash =? x)) [
  | inl e ↦ elim (Bool-cases (live_row later r)) [
    | inl f ↦
        subst P (text_eq-eq r.token_hash x e)
          (a.0 (sym (lookup-id us r.user_id v (rw (e, f) at h)) ∙ k) f)
    | inr f ↦ select-Limited later uid P x us rs v a.1 (rw (e, f) at h) k
  ]
  | inr e ↦ select-Limited later uid P x us rs v a.1 (rw e at h) k
]

revoke_row-dead :
    (now later uid : ℕ) (r : TokenRow)
    → now ≤ later
    → (revoke_row now uid r).user_id ≡ uid
    → live_row later (revoke_row now uid r) ≡ true
    → ⊥
unfolding revoke_row
revoke_row-dead now later uid r w h k = ground arith

revoke-Limited :
    (now later uid : ℕ) (rs : List TokenRow)
    → now ≤ later
    → Limited later uid (λ x. ⊥) (map (revoke_row now uid) rs)
revoke-Limited now later uid [] w = tt
revoke-Limited now later uid (r ∷ rs) w =
    (revoke_row-dead now later uid r w, revoke-Limited now later uid rs w)

module _ (o : Outside) where
  -- The token that was just made is the one.
  abbrev Is : Text → Text → Type 0
  Is token x = x ≡ o.sha256 token

  create_token-Limited :
      (now later uid : ℕ) (token : Text) (db : Database)
      → Limited later uid (λ x. ⊥) db.tokens
      → Limited later uid (Is token) (create_token o.sha256 now uid token db).tokens
  unfolding create_token
  create_token-Limited now later uid token db a =
      let b : Limited later uid (Is token) db.tokens =
        All-mono (λ r. r.user_id ≡ uid → live_row later r ≡ true → ⊥)
          (λ r. r.user_id ≡ uid → live_row later r ≡ true → Is token r.token_hash) db.tokens
          (λ r f h k. absurd (f h k)) a in
      elim (Bool-cases (has_user uid db)) [ inl e ↦ rw e ((λ h k. refl), b) | inr e ↦ rw e b ]

  hand_out-Limited :
      (e : Env) (q : AuthRequest) (later uid : ℕ) (token t : Text) (s : Server)
      → Limited later uid (λ x. ⊥) s.db.tokens
      → (hand_out o e q uid token s).1 ≡ granted t
      → Limited later uid (Is token) (hand_out o e q uid token s).0.db.tokens
  unfolding hand_out reset_failures
  hand_out-Limited e q later uid token t s a h = elim (Bool-cases (e.works minting)) [
    | inl m ↦ rw m (create_token-Limited e.call.now later uid token s.db a)
    | inr m ↦ absurd (let n = rw m at h in cc n)
  ]

  abbrev cleared : Env → UserRow → Server → Server
  cleared e u s = record s {
    db = revoke_tokens_by_user_id e.call.now u.id s.db;
    view = invalidate_cached_tokens_for_user u.id s.view;
  }

  supersede-Limited :
      (e : Env) (q : AuthRequest) (later : ℕ) (u : UserRow) (token t : Text) (s : Server)
      → e.call.now ≤ later
      → ltb u.role 3 ≡ true
      → (supersede o e q u token s).1 ≡ granted t
      → Limited later u.id (Is token) (supersede o e q u token s).0.db.tokens
  unfolding supersede revoke_tokens_by_user_id
  supersede-Limited e q later u token t s w r h = elim (Bool-cases (e.works revoking)) [
    | inl m ↦
        rw (r, m)
          (hand_out-Limited e q later u.id token t (cleared e u s)
            (revoke-Limited e.call.now later u.id s.db.tokens w) (rw (r, m) at h))
    | inr m ↦ absurd (let n = rw (r, m) at h in cc n)
  ]

  wrong_answer-ne-granted : (p : Server × Verdict) (t : Text) → (wrong_answer o p).1 ≢ granted t
  unfolding wrong_answer
  wrong_answer-ne-granted (s, allowed) t h = cc h
  wrong_answer-ne-granted (s, limited) t h = cc h

  login_found-Limited :
      (e : Env) (q : AuthRequest) (later : ℕ) (u : UserRow) (token t : Text) (s : Server)
      → e.call.now ≤ later
      → ltb u.role 3 ≡ true
      → (login_found o e q (some u) token s).1 ≡ granted t
      → Limited later u.id (Is token) (login_found o e q (some u) token s).0.db.tokens
  unfolding login_found wrong_password
  login_found-Limited e q later u token t s w r h =
      elim (Bool-cases (o.verify q.password u.password_hash)) [
        | inl m ↦ elim (Bool-cases u.approved) [
          | inl n ↦ rw (m, n) (supersede-Limited e q later u token t s w r (rw (m, n) at h))
          | inr n ↦ absurd (let x = rw (m, n) at h in cc x)
        ]
        | inr m ↦
            absurd
              (wrong_answer-ne-granted (check_username_rate_limit o e q.username s) t (rw m at h))
      ]

  login_checked-Limited :
      (e : Env) (q : AuthRequest) (later : ℕ) (u : UserRow) (token t : Text) (p : Server × Verdict)
      → e.call.now ≤ later
      → find_by_username (o.trim q.username) p.0.db ≡ some u
      → ltb u.role 3 ≡ true
      → (login_checked o e q token p).1 ≡ granted t
      → Limited later u.id (Is token) (login_checked o e q token p).0.db.tokens
  unfolding login_checked
  login_checked-Limited e q later u token t (s, limited) w f r h = absurd (cc h)
  login_checked-Limited e q later u token t (s, allowed) w f r h =
      elim (Bool-cases (e.works finding)) [
        | inl m ↦ rw (m, f) (login_found-Limited e q later u token t s w r (rw (m, f) at h))
        | inr m ↦ absurd (let x = rw m at h in cc x)
      ]

  -- The last sign-in is the only one. Where a sign-in hands out a token, to an account of the name that
  -- is no administrator, then from that instant on the tables know no other token that stands for the
  -- account.
  pub login-Single :
      (e : Env) (q : AuthRequest) (later : ℕ) (u : UserRow) (token t x : Text) (v : User)
      (s : Server)
      → find_by_username (o.trim q.username) s.db ≡ some u
      → u.role < 3
      → (login o e q token s).1 ≡ granted t
      → e.call.now ≤ later
      → query_user o.sha256 later x (session_tables (login o e q token s).0.db) ≡ some v
      → v.id ≡ u.id
      → o.sha256 x ≡ o.sha256 token
  unfolding login check_ip_rate_limit ip_checked query_user session_tables users_of
  login-Single e q later u token t x v s f r h w k i =
      select-Limited later u.id (Is token) (o.sha256 x) (login o e q token s).0.db.users
        (login o e q token s).0.db.tokens v
        (login_checked-Limited e q later u token t (check_ip_rate_limit e s) w f (lt→ltb u.role 3 r)
          h)
        k i

  -- What a new password leaves of the tables.
  abbrev Renewed : ℕ → ℕ → String → Database → Type 0
  Renewed later uid hash db =
      Limited later uid (λ x. ⊥) db.tokens × All (λ u. u.id ≡ uid → u.password_hash ≡ hash) db.users

  set_hash :
      (uid : ℕ) (hash : String) (us : List UserRow)
      → All
          (λ u. u.id ≡ uid → u.password_hash ≡ hash)
          (map (update_row uid λ u. record u { password_hash = hash }) us)
  unfolding update_row
  set_hash uid hash [] = tt
  set_hash uid hash (u ∷ us) = (
    elim (Bool-cases (u.id == uid)) [
      | inl e ↦ rw e (λ k. refl)
      | inr e ↦ rw e (λ k. absurd (let n = sym e ∙ (==_iff u.id uid).1 k in cc n))
    ],
    set_hash uid hash us,
  )

  reset_hashed-Renewed :
      (e : Env) (later uid : ℕ) (hash : String) (s : Server)
      → e.call.now ≤ later
      → (reset_hashed o e uid (some hash) s).1 ≡ done
      → Renewed later uid hash (reset_hashed o e uid (some hash) s).0.db
  unfolding reset_hashed renewed reset_password_and_revoke_tokens revoke_tokens_by_user_id
      update_user
  reset_hashed-Renewed e later uid hash s w h = elim (Bool-cases (e.works updating)) [
    | inl m ↦ elim (Bool-cases (has_user uid s.db)) [
      | inl n ↦
          rw (m, n)
            (revoke-Limited e.call.now later uid s.db.tokens w, set_hash uid hash s.db.users)
      | inr n ↦ absurd (let x = rw (m, n) at h in cc x)
    ]
    | inr m ↦ absurd (let x = rw m at h in cc x)
  ]

  redeemed-Renewed :
      (e : Env) (later uid : ℕ) (hash : String) (s : Server) (r : Database × Option ℕ)
      → e.call.now ≤ later
      → r.1 ≡ some uid
      → (reset_redeemed o e (some hash) s r).1 ≡ done
      → Renewed later uid hash (reset_redeemed o e (some hash) s r).0.db
  unfolding reset_redeemed
  redeemed-Renewed e later uid hash s (db, none) w f h = absurd (cc f)
  redeemed-Renewed e later uid hash s (db, some v) w f h =
      subst (λ x. Renewed later x hash (reset_hashed o e v (some hash) (record s { db = db })).0.db)
        (some-injective f) (reset_hashed-Renewed e later v hash (record s { db = db }) w h)

  reset-Renewed :
      (e : Env) (later uid : ℕ) (token : Text) (password hash : String) (s : Server)
      → (find_valid_reset_token o.sha256 e.call.now token s.db).1 ≡ some uid
      → (reset_password o e token password (some hash) s).1 ≡ done
      → e.call.now ≤ later
      → Renewed later uid hash (reset_password o e token password (some hash) s).0.db
  unfolding reset_password
  reset-Renewed e later uid token password hash s f h w =
      elim (Bool-cases (
        is_password_length (codes password)
        && is_password_strong_enough o.is_uppercase o.is_lowercase (codes password))) [
          | inl a ↦ elim (Bool-cases (e.works redeeming)) [
            | inl b ↦
                rw (a, b)
                  (redeemed-Renewed e later uid hash s
                    (find_valid_reset_token o.sha256 e.call.now token s.db) w f (rw (a, b) at h))
            | inr b ↦ absurd (let n = rw (a, b) at h in cc n)
          ]
          | inr a ↦ absurd (let n = rw a at h in cc n)
        ]

  -- A new password ends every session. Where a link sets one for an account, then from that instant on
  -- the tables know no token that stands for the account, and they hold the new hash for it.
  pub reset_password-Renewed :
      (e : Env) (later uid : ℕ) (token : Text) (password hash : String) (x : Text) (v : User)
      (s : Server)
      → (find_valid_reset_token o.sha256 e.call.now token s.db).1 ≡ some uid
      → (reset_password o e token password (some hash) s).1 ≡ done
      → e.call.now ≤ later
      → (query_user o.sha256 later x
              (session_tables (reset_password o e token password (some hash) s).0.db)
            ≡ some v
          → v.id ≢ uid)
        × All
            (λ u. u.id ≡ uid → u.password_hash ≡ hash)
            (reset_password o e token password (some hash) s).0.db.users
  unfolding query_user session_tables users_of
  reset_password-Renewed e later uid token password hash x v s f h w =
      let r = reset-Renewed e later uid token password hash s f h w in
      let s' : Server = (reset_password o e token password (some hash) s).0 in
      (
        λ k i. select-Limited later uid (λ x. ⊥) (o.sha256 x) s'.db.users s'.db.tokens v r.0 k i,
        r.1,
      )
