-- ===== src/Auth/Failures.antt =====
-- What failed sign-ins do to others: to the sign-in with the right password, and to an address.
use Prim.Native.String.{String, ◌++◌}
use text.Mathlib.TextLemmas.{append_assoc}
use lan_video.Prelude.{
  ℕ, ◌+◌, ◌≤◌, ◌<◌, ◌≡◌, refl, sym, ◌∙◌, true, some, arith, Bool-cases, inl, inr, ltb,
}
use lan_video.Prelude.Assoc.{string_Eq, lookup}
use lan_video.Prelude.Texts.{Text}
use lan_video.ServiceError.{rate_limited}
use lan_video.RateLimit.{
  Cache, RedisKeys, Verdict, allowed, limited, connected, check, check_with, check_redis,
  default_limits, from_secs,
}
use lan_video.RateLimit.View.{counting, blocked_till, age, spec}
use lan_video.RateLimit.Redis.{
  ValidAt, view_of, check_redis-view, check_redis-verdict, check_redis-ValidAt, ValidKey-later,
}
use lan_video.Sessions.{invalidate_cached_tokens_for_user}
use lan_video.Auth.{UserRow, find_by_username, revoke_tokens_by_user_id}
use lan_video.Auth.Service.{
  Outside, Server, Env, AuthRequest, failed, finding, revoking, minting, ip_limits, ip_key,
  ip_checked, check_ip_rate_limit, username_key, check_username_rate_limit, hand_out, supersede,
  wrong_answer, wrong_password, login_found, login_checked, login,
}

same_key : (ip : String) → "auth:" ++ ("ip:" ++ ip) ≡ "auth:ip:" ++ ip
same_key ip = sym (append_assoc "auth:" "ip:" ip)

full_view :
    (now later n until : ℕ)
    → 4 ≤ n
    → later < now + from_secs 300
    → age later (spec default_limits now (counting n until)).0 ≡ blocked_till (now + from_secs 300)
unfolding age spec
full_view now later n until b x = ground arith

check_redis-blocked :
    (now later n until : ℕ) (key : String) (r : RedisKeys)
    → ValidAt now r key
    → view_of now key r ≡ counting n until
    → 4 ≤ n
    → now ≤ later
    → later < now + from_secs 300
    → (check_redis ip_limits later key (check_redis default_limits now key r).0).1 ≡ limited
check_redis-blocked now later n until key r v c b w x =
    let r' = (check_redis default_limits now key r).0 in
    let k : view_of later key r' ≡ blocked_till (now + from_secs 300) =
      check_redis-view default_limits now later key key r w v v
      ∙ rw ((string_Eq.beq_iff key key).1 refl, c) (full_view now later n until b x) in
    check_redis-verdict ip_limits later key r' (
      ValidKey-later now later (lookup key r'.blocks) (lookup key r'.counters) w
        (check_redis-ValidAt default_limits now key key r v v))
    ∙ rw k (unfold spec in refl)

module _ (o : Outside) where
  hand_out-answer :
      (e : Env) (q : AuthRequest) (uid : ℕ) (token : Text) (s s' : Server)
      → (hand_out o e q uid token s).1 ≡ (hand_out o e q uid token s').1
  unfolding hand_out
  hand_out-answer e q uid token s s' = elim (Bool-cases (e.works minting)) [
    | inl m ↦ rw m refl
    | inr m ↦ rw m refl
  ]

  abbrev cleared : Env → UserRow → Server → Server
  cleared e u s = record s {
    db = revoke_tokens_by_user_id e.call.now u.id s.db;
    view = invalidate_cached_tokens_for_user u.id s.view;
  }

  supersede-answer :
      (e : Env) (q : AuthRequest) (u : UserRow) (token : Text) (s s' : Server)
      → (supersede o e q u token s).1 ≡ (supersede o e q u token s').1
  unfolding supersede
  supersede-answer e q u token s s' = elim (Bool-cases (ltb u.role 3)) [
    | inl r ↦ elim (Bool-cases (e.works revoking)) [
      | inl m ↦ rw (r, m) (hand_out-answer e q u.id token (cleared e u s) (cleared e u s'))
      | inr m ↦ rw (r, m) refl
    ]
    | inr r ↦ rw r (hand_out-answer e q u.id token s s')
  ]

  login_found-answer :
      (e : Env) (q : AuthRequest) (u : UserRow) (token : Text) (s s' : Server)
      → o.verify q.password u.password_hash ≡ true
      → (login_found o e q (some u) token s).1 ≡ (login_found o e q (some u) token s').1
  unfolding login_found
  login_found-answer e q u token s s' v = elim (Bool-cases u.approved) [
    | inl a ↦ rw (v, a) (supersede-answer e q u token s s')
    | inr a ↦ rw (v, a) refl
  ]

  login_checked-answer :
      (e : Env) (q : AuthRequest) (u : UserRow) (token : Text) (s s' : Server) (v : Verdict)
      → find_by_username (o.trim q.username) s.db ≡ some u
      → find_by_username (o.trim q.username) s'.db ≡ some u
      → o.verify q.password u.password_hash ≡ true
      → (login_checked o e q token (s, v)).1 ≡ (login_checked o e q token (s', v)).1
  unfolding login_checked
  login_checked-answer e q u token s s' limited f g h = refl
  login_checked-answer e q u token s s' allowed f g h = elim (Bool-cases (e.works finding)) [
    | inl m ↦ rw (m, f, g) (login_found-answer e q u token s s' h)
    | inr m ↦ rw m refl
  ]

  -- Failures lock nobody out, and stop no guess. The answer to a sign-in with the right password is the
  -- same whatever the limiter in memory has counted of failures, also while it blocks the name.
  pub login-any_failures :
      (e : Env) (q : AuthRequest) (u : UserRow) (token : Text) (s : Server) (failures : Cache)
      → find_by_username (o.trim q.username) s.db ≡ some u
      → o.verify q.password u.password_hash ≡ true
      → (login o e q token (record s { user_cache = failures })).1 ≡ (login o e q token s).1
  unfolding login check_ip_rate_limit ip_checked
  login-any_failures e q u token s failures f h =
      login_checked-answer e q u token
        (check_ip_rate_limit e (record s { user_cache = failures })).0 (check_ip_rate_limit e s).0
        (check_ip_rate_limit e s).1 f f h

  limited-answer :
      (e : Env) (q : AuthRequest) (token : Text) (p : Server × Verdict)
      → p.1 ≡ limited
      → (login_checked o e q token p).1 ≡ failed rate_limited
  unfolding login_checked
  limited-answer e q token (s, limited) h = refl
  limited-answer e q token (s, allowed) h = absurd (cc h)

  wrong_answer-server : (p : Server × Verdict) → (wrong_answer o p).0 ≡ p.0
  unfolding wrong_answer
  wrong_answer-server (s, allowed) = refl
  wrong_answer-server (s, limited) = refl

  -- The name "ip:" in front of an address has the key of the address. Where the limiters run on Redis,
  -- a wrong password for such a name is charged to the address: the one that reaches the limit shuts
  -- out, for 300 seconds, every sign-in from that address, whatever account it names and whatever
  -- password it brings.
  pub wrong_password-blocks_address :
      (e : Env) (q : AuthRequest) (ip : String) (s : Server) (n until : ℕ) (e' : Env)
      (q' : AuthRequest) (token : Text)
      → e.link ≡ connected
      → o.to_lowercase (o.trim q.username) ≡ "ip:" ++ ip
      → ValidAt e.call.now s.redis (ip_key ip)
      → view_of e.call.now (ip_key ip) s.redis ≡ counting n until
      → 4 ≤ n
      → e'.link ≡ connected
      → e'.client_ip ≡ ip
      → e.call.now ≤ e'.call.now
      → e'.call.now < e.call.now + from_secs 300
      → (login o e' q' token (wrong_password o e q s).0).1 ≡ failed rate_limited
  unfolding login check_ip_rate_limit ip_checked wrong_password check_username_rate_limit
      username_key ip_key check check_with
  wrong_password-blocks_address e q ip s n until e' q' token l k v c b l' a w x =
      limited-answer e' q' token (check_ip_rate_limit e' (wrong_password o e q s).0) (
        rw (wrong_answer-server (check_username_rate_limit o e q.username s), l, l', a, k)
          (rw (same_key ip) (
            check_redis-blocked e.call.now e'.call.now n until ("auth:ip:" ++ ip) s.redis v c b w
              x)))
