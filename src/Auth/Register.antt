-- ===== src/Auth/Register.antt =====
-- `register` and `create_guest_session` of backend/src/services/auth_service.rs.
use Prim.Native.String.{String, ◌++◌}
use lan_video.Prelude.{ℕ, Bool, ◌&&◌, ◌||◌, Option, none, some, ltb, ◌==◌, any, if◌then◌else◌}
use lan_video.Prelude.Texts.{Text}
use lan_video.Prelude.Cuts.{codes, is_some}
use lan_video.ServiceError.{internal, rate_limited}
use lan_video.RateLimit.{Verdict, allowed, limited}
use lan_video.MediaChecks.{is_control, byte_len}
use lan_video.Auth.{
  Database, count_users, find_by_username, create_user, create_guest_user, create_token,
}
use lan_video.Auth.Rules.{is_password_length, is_password_strong_enough}
use lan_video.Auth.Service.{
  Outside, Server, Env, AuthRequest, AuthAnswer, granted, pending, refused, failed, Refusal,
  registration_closed, empty_field, username_length, control_characters, password_length,
  weak_password, username_taken, counting, finding, inserting, minting, guest_limits, ip_checked,
  check_ip_rate_limit, check_username_rate_limit, reset_failures,
}

-- The two settings.
pub record Settings : Type 0 where
  pub registration_enabled : Bool
  pub allow_first_user_admin : Bool

module _ (o : Outside) where
  -- The tests of a name and a password, in their order.
  unfoldable pub objection : String → String → Option Refusal
  unfolding byte_len any is_control is_password_length is_password_strong_enough
  objection name password =
      let n = codes name in
      let p = codes password in
      if byte_len n == 0 || byte_len p == 0
      then some empty_field
      else if ltb (byte_len n) 2 || ltb 64 (byte_len n)
      then some username_length
      else if any is_control n
      then some control_characters
      else if is_password_length p
      then if is_password_strong_enough o.is_uppercase o.is_lowercase p
        then none
        else some weak_password
      else some password_length

  -- A failed query counts as no account.
  unfoldable pub user_exists : Env → String → Database → Bool
  unfolding find_by_username is_some
  user_exists e name db = e.works finding && is_some (find_by_username name db)

  unfoldable pub role_of : Settings → Database → ℕ
  unfolding count_users
  role_of c db = if count_users db == 0 && c.allow_first_user_admin then 3 else 1

  -- An administrator has a token at once.
  unfoldable pub welcome : Env → ℕ → ℕ → Text → Server → Server × AuthAnswer
  unfolding create_token
  welcome e role uid token s =
      if ltb role 3
      then (s, pending)
      else if e.works minting
      then (record s { db = create_token o.sha256 e.call.now uid token s.db }, granted token)
      else (s, failed internal)

  unfoldable pub inserted :
      Env → AuthRequest → ℕ → Text → Server → Database × Option ℕ → Server × AuthAnswer
  unfolding welcome reset_failures
  inserted e q role token s (db, none) = (s, refused username_taken)
  inserted e q role token s (db, some uid) =
      welcome e role uid token (reset_failures o e q.username (record s { db = db }))

  -- The result of the hash is none where Argon2 fails.
  unfoldable pub store : Env → AuthRequest → ℕ → Option String → Text → Server → Server × AuthAnswer
  unfolding inserted create_user
  store e q role none token s = (s, failed internal)
  store e q role (some hash) token s =
      if e.works inserting
      then inserted e q role token s (create_user (o.trim q.username) hash role s.db)
      else (s, failed internal)

  unfoldable pub register_sound :
      Env → Settings → AuthRequest → Option String → Text → Server → Server × AuthAnswer
  unfolding role_of user_exists store
  register_sound e c q hash token s =
      if e.works counting
      then if user_exists e (o.trim q.username) s.db
        then (s, refused username_taken)
        else store e q (role_of c s.db) hash token s
      else (s, failed internal)

  unfoldable pub register_tested :
      Env
      → Settings
      → AuthRequest
      → Option String
      → Text
      → Server
      → Option Refusal
      → Server × AuthAnswer
  unfolding register_sound
  register_tested e c q hash token s (some r) = (s, refused r)
  register_tested e c q hash token s none = register_sound e c q hash token s

  unfoldable pub register_counted :
      Env → Settings → AuthRequest → Option String → Text → Server × Verdict → Server × AuthAnswer
  unfolding register_tested objection
  register_counted e c q hash token (s, limited) = (s, failed rate_limited)
  register_counted e c q hash token (s, allowed) =
      register_tested e c q hash token s (objection (o.trim q.username) q.password)

  unfoldable pub register_checked :
      Env → Settings → AuthRequest → Option String → Text → Server × Verdict → Server × AuthAnswer
  unfolding register_counted check_username_rate_limit
  register_checked e c q hash token (s, limited) = (s, failed rate_limited)
  register_checked e c q hash token (s, allowed) =
      register_counted e c q hash token (check_username_rate_limit o e q.username s)

  unfoldable pub register :
      Env → Settings → AuthRequest → Option String → Text → Server → Server × AuthAnswer
  unfolding register_checked check_ip_rate_limit
  register e c q hash token s =
      if c.registration_enabled
      then register_checked e c q hash token (check_ip_rate_limit e s)
      else (s, refused registration_closed)

  unfoldable pub guest_made : Env → Text → Server → Database × Option ℕ → Server × AuthAnswer
  unfolding create_token
  guest_made e token s (db, none) = (s, failed internal)
  guest_made e token s (db, some uid) =
      if e.works minting
      then (record s { db = create_token o.sha256 e.call.now uid token db }, granted token)
      else (record s { db = db }, failed internal)

  unfoldable pub guest_checked : Env → String → Text → Server × Verdict → Server × AuthAnswer
  unfolding guest_made create_guest_user
  guest_checked e suffix token (s, limited) = (s, failed rate_limited)
  guest_checked e suffix token (s, allowed) =
      if e.works inserting
      then guest_made e token s (create_guest_user suffix s.db)
      else (s, failed internal)

  unfoldable pub create_guest_session : Env → String → Text → Server → Server × AuthAnswer
  unfolding guest_checked ip_checked
  create_guest_session e suffix token s =
      guest_checked e suffix token (ip_checked e guest_limits ("guest:ip:" ++ e.client_ip) s)
