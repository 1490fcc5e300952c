-- ===== src/Auth/Service.antt =====
-- backend/src/services/auth_service.rs, with the requests of backend/src/handlers/auth.rs that mail a
-- link or follow one. Argon2, SHA-256 and the Unicode tables are parameters, and so is the random
-- part of what a request makes. The dummy verification for a missing account has no effect.
use Prim.Native.String.{String, ◌++◌}
use lan_video.Prelude.{ℕ, Bool, Option, none, some, ltb, if◌then◌else◌}
use lan_video.Prelude.Texts.{Text}
use lan_video.ServiceError.{ServiceError, internal, rate_limited}
use lan_video.RateLimit.{
  Cache, RedisKeys, Limits, Verdict, allowed, limited, Link, RateLimiter, check_with, check, reset,
}
use lan_video.Sessions.{View, Call, invalidate_cached_tokens_for_user}
use lan_video.Auth.{UserRow, Database, find_by_username, create_token, revoke_tokens_by_user_id}

pub record Outside : Type 0 where
  pub trim : String → String
  pub to_lowercase : String → String
  pub to_string : ℕ → String
  pub is_uppercase : ℕ → Bool
  pub is_lowercase : ℕ → Bool
  pub verify : String → String → Bool
  pub sha256 : Text → Text

-- The tables, the caches of sessions, and the two limiters, which share one Redis.
pub record Server : Type 0 where
  pub db : Database
  pub view : View
  pub user_cache : Cache
  pub ip_cache : Cache
  pub redis : RedisKeys

-- The steps of a request that may fail.
pub data Statement : Type 0 where
  counting finding inserting revoking minting redeeming updating : Statement

-- The instant of a request, what works, and the address of the client.
pub record Env : Type 0 where
  pub call : Call
  pub link : Link
  pub works : Statement → Bool
  pub client_ip : String

-- `AuthRequest`.
pub record AuthRequest : Type 0 where
  pub username : String
  pub password : String

-- The messages of `auth_err`.
pub data Refusal : Type 0 where
  registration_closed empty_field username_length control_characters password_length : Refusal
  weak_password username_taken bad_credentials : Refusal

-- `Result<AuthResponse, ServiceError>`: a token, a registration that waits, a refusal, an error.
pub data AuthAnswer : Type 0 where
  granted : Text → AuthAnswer
  pending : AuthAnswer
  refused : Refusal → AuthAnswer
  failed : ServiceError → AuthAnswer

abbrev pub guest_limits : Limits
guest_limits = record { max_attempts = 20; window_secs = 3600; block_secs = 0 }

abbrev pub ip_limits : Limits
ip_limits = record { max_attempts = 30; window_secs = 60; block_secs = 0 }

abbrev pub user_limiter : Server → RateLimiter
user_limiter s = record { cache = s.user_cache; redis = s.redis }

abbrev pub ip_limiter : Server → RateLimiter
ip_limiter s = record { cache = s.ip_cache; redis = s.redis }

abbrev pub with_user_limiter : Server → RateLimiter → Server
with_user_limiter s r = record s { user_cache = r.cache; redis = r.redis }

abbrev pub with_ip_limiter : Server → RateLimiter → Server
with_ip_limiter s r = record s { ip_cache = r.cache; redis = r.redis }

unfoldable pub ip_key : String → String
ip_key ip = "auth:ip:" ++ ip

unfoldable pub ip_checked : Env → Limits → String → Server → Server × Verdict
ip_checked e l key s =
    let r = check_with e.link (ip_limiter s) l e.call.now key in (with_ip_limiter s r.0, r.1)

unfoldable pub check_ip_rate_limit : Env → Server → Server × Verdict
unfolding ip_checked ip_key
check_ip_rate_limit e s = ip_checked e ip_limits (ip_key e.client_ip) s

module _ (o : Outside) where
  unfoldable pub username_key : String → String
  username_key name = "auth:" ++ o.to_lowercase (o.trim name)

  unfoldable pub check_username_rate_limit : Env → String → Server → Server × Verdict
  unfolding username_key
  check_username_rate_limit e name s =
      let r = check e.link (user_limiter s) e.call.now (username_key name) in
      (with_user_limiter s r.0, r.1)

  unfoldable pub reset_failures : Env → String → Server → Server
  unfolding username_key
  reset_failures e name s = with_user_limiter s (reset e.link (user_limiter s) (username_key name))

  -- The token, and the end of the count of failures, at a sign-in.
  unfoldable pub hand_out : Env → AuthRequest → ℕ → Text → Server → Server × AuthAnswer
  unfolding create_token reset_failures
  hand_out e q uid token s =
      if e.works minting
      then (
        reset_failures e q.username
            (record s { db = create_token o.sha256 e.call.now uid token s.db }),
        granted token,
      )
      else (s, failed internal)

  -- Whoever signs in ends the older sessions of the account, other than an administrator.
  unfoldable pub supersede : Env → AuthRequest → UserRow → Text → Server → Server × AuthAnswer
  unfolding hand_out revoke_tokens_by_user_id invalidate_cached_tokens_for_user
  supersede e q u token s =
      if ltb u.role 3
      then if e.works revoking
        then hand_out e q u.id token (record s {
          db = revoke_tokens_by_user_id e.call.now u.id s.db;
          view = invalidate_cached_tokens_for_user u.id s.view;
        })
        else (s, failed internal)
      else hand_out e q u.id token s

  unfoldable pub wrong_answer : Server × Verdict → Server × AuthAnswer
  wrong_answer (s, allowed) = (s, refused bad_credentials)
  wrong_answer (s, limited) = (s, failed rate_limited)

  unfoldable pub wrong_password : Env → AuthRequest → Server → Server × AuthAnswer
  unfolding wrong_answer check_username_rate_limit
  wrong_password e q s = wrong_answer (check_username_rate_limit e q.username s)

  unfoldable pub login_found :
      Env → AuthRequest → Option UserRow → Text → Server → Server × AuthAnswer
  unfolding supersede wrong_password
  login_found e q none token s = wrong_password e q s
  login_found e q (some u) token s =
      if o.verify q.password u.password_hash
      then if u.approved then supersede e q u token s else (s, refused bad_credentials)
      else wrong_password e q s

  unfoldable pub login_checked : Env → AuthRequest → Text → Server × Verdict → Server × AuthAnswer
  unfolding login_found find_by_username
  login_checked e q token (s, limited) = (s, failed rate_limited)
  login_checked e q token (s, allowed) =
      if e.works finding
      then login_found e q (find_by_username (o.trim q.username) s.db) token s
      else (s, failed internal)

  unfoldable pub login : Env → AuthRequest → Text → Server → Server × AuthAnswer
  unfolding login_checked check_ip_rate_limit
  login e q token s = login_checked e q token (check_ip_rate_limit e s)
