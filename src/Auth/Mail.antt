-- ===== src/Auth/Mail.antt =====
-- The links that go by mail: the requests of backend/src/handlers/auth.rs that send one, those that
-- follow one, and the one that changes an address. The mails are a list, the newest first, each with
-- its address and its token.
use Prim.Native.String.{String, ◌++◌}
use lan_video.Prelude.{ℕ, Bool, true, false, ◌&&◌, Option, none, some, List, ◌∷◌, if◌then◌else◌}
use lan_video.Prelude.Assoc.{◌=?◌, string_Eq}
use lan_video.Prelude.Texts.{Text}
use lan_video.Prelude.Cuts.{codes}
use lan_video.RateLimit.{Limits, Verdict, allowed, limited, check_with}
use lan_video.Sessions.{invalidate_cached_tokens_for_user, invalidate_media_auth_user}
use lan_video.Auth.{
  UserRow, Database, find_by_email, find_by_username, create_token, revoke_tokens_by_user_id,
  create_password_reset_token, create_email_verification_token, find_valid_reset_token,
  find_valid_email_verification_token, reset_password_and_revoke_tokens, verify_email, update_email,
  get_email,
}
use lan_video.Auth.Rules.{is_password_length, is_password_strong_enough, is_valid_email}
use lan_video.Auth.Service.{
  Outside, Server, Env, finding, minting, revoking, redeeming, updating, user_limiter,
  with_user_limiter, ip_checked,
}

pub record Mail : Type 0 where
  pub address : String
  pub token : Text

-- A request to change an address, the name of the account that sends it, and the token that it gets.
pub record EmailChange : Type 0 where
  pub username : String
  pub email : String
  pub password : String
  pub token : Text

abbrev pub forgot_ip_limits : Limits
forgot_ip_limits = record { max_attempts = 5; window_secs = 60; block_secs = 300 }

abbrev pub forgot_email_limits : Limits
forgot_email_limits = record { max_attempts = 3; window_secs = 3600; block_secs = 60 }

abbrev pub verification_limits : Limits
verification_limits = record { max_attempts = 2; window_secs = 300; block_secs = 600 }

unfoldable pub user_checked : Env → Limits → String → Server → Server × Verdict
user_checked e l key s =
    let r = check_with e.link (user_limiter s) l e.call.now key in (with_user_limiter s r.0, r.1)

-- What following a link answers.
pub data Followed : Type 0 where
  done invalid_link rejected broken : Followed

-- The state of the server and the mails.
abbrev pub Post : Type 0
Post = Server × List Mail

unfoldable pub stored : String → Text → Server → List Mail → Database × Bool → Post
stored address token s out (db, true) =
    (record s { db = db }, record { address = address; token = token } ∷ out)
stored address token s out (db, false) = (s, out)

module _ (o : Outside) where
  unfoldable pub mail_reset : Env → String → Text → Option UserRow → Post → Post
  unfolding stored create_password_reset_token
  mail_reset e address token none p = p
  mail_reset e address token (some u) (s, out) =
      if e.works minting
      then stored address token s out
          (create_password_reset_token o.sha256 e.call.now u.id token s.db)
      else (s, out)

  unfoldable pub forgot_found : Env → String → Text → Server × Verdict → List Mail → Post
  unfolding mail_reset find_by_email
  forgot_found e email token (s, limited) out = (s, out)
  forgot_found e email token (s, allowed) out =
      if e.works finding
      then mail_reset e email token (find_by_email email s.db) (s, out)
      else (s, out)

  unfoldable pub forgot_counted : Env → String → Text → Server × Verdict → List Mail → Post
  unfolding forgot_found user_checked
  forgot_counted e email token (s, limited) out = (s, out)
  forgot_counted e email token (s, allowed) out =
      forgot_found e email token
        (user_checked e forgot_email_limits ("forgot_pwd:email:" ++ email) s) out

  -- Every answer to the client is the same but for its text.
  unfoldable pub forgot_password : Env → String → Text → Post → Post
  unfolding forgot_counted ip_checked
  forgot_password e email token (s, out) =
      forgot_counted e (o.to_lowercase (o.trim email)) token
        (ip_checked e forgot_ip_limits ("forgot_pwd:ip:" ++ e.client_ip) s) out

  unfoldable pub renewed : Env → ℕ → Server → Database × Bool → Server × Followed
  unfolding invalidate_media_auth_user invalidate_cached_tokens_for_user
  renewed e uid s (db, false) = (s, invalid_link)
  renewed e uid s (db, true) = (
    record s {
      db = db;
      view = invalidate_media_auth_user e.call uid (invalidate_cached_tokens_for_user uid s.view);
    },
    done,
  )

  unfoldable pub reset_hashed : Env → ℕ → Option String → Server → Server × Followed
  unfolding renewed reset_password_and_revoke_tokens
  reset_hashed e uid none s = (s, broken)
  reset_hashed e uid (some hash) s =
      if e.works updating
      then renewed e uid s (reset_password_and_revoke_tokens e.call.now uid hash s.db)
      else (s, broken)

  unfoldable pub reset_redeemed :
      Env → Option String → Server → Database × Option ℕ → Server × Followed
  unfolding reset_hashed
  reset_redeemed e hash s (db, none) = (record s { db = db }, invalid_link)
  reset_redeemed e hash s (db, some uid) = reset_hashed e uid hash (record s { db = db })

  -- The token is spent before the new password is hashed and stored.
  unfoldable pub reset_password : Env → Text → String → Option String → Server → Server × Followed
  unfolding reset_redeemed find_valid_reset_token is_password_length is_password_strong_enough
  reset_password e token password hash s =
      if is_password_length (codes password)
        && is_password_strong_enough o.is_uppercase o.is_lowercase (codes password)
      then if e.works redeeming
        then reset_redeemed e hash s (find_valid_reset_token o.sha256 e.call.now token s.db)
        else (s, broken)
      else (s, rejected)

  unfoldable pub new_session : Env → ℕ → Text → Server → Server × Followed
  unfolding create_token invalidate_media_auth_user
  new_session e uid token s =
      if e.works minting
      then (
        record s {
          db = create_token o.sha256 e.call.now uid token s.db;
          view = invalidate_media_auth_user e.call uid s.view;
        },
        done,
      )
      else (s, broken)

  -- The account is signed out everywhere and gets a new token.
  unfoldable pub signed_out : Env → ℕ → Text → Server → Server × Followed
  unfolding new_session revoke_tokens_by_user_id invalidate_cached_tokens_for_user
  signed_out e uid token s =
      if e.works revoking
      then new_session e uid token (record s {
        db = revoke_tokens_by_user_id e.call.now uid s.db;
        view = invalidate_cached_tokens_for_user uid s.view;
      })
      else (s, broken)

  unfoldable pub addressed : Env → ℕ → Text → Server → Database × Option Bool → Server × Followed
  unfolding signed_out
  addressed e uid token s (db, none) = (s, rejected)
  addressed e uid token s (db, some b) = signed_out e uid token (record s { db = db })

  -- `verify_user_password`.
  unfoldable pub verify_user_password : String → Option UserRow → Bool
  verify_user_password password none = false
  verify_user_password password (some u) = o.verify password u.password_hash

  -- `update_email` of the handlers.
  unfoldable pub change_email : Env → ℕ → EmailChange → Server → Server × Followed
  unfolding addressed update_email is_valid_email verify_user_password find_by_username
  change_email e uid q s =
      let a = o.to_lowercase (o.trim q.email) in
      if is_valid_email (codes a)
      then if q.password =? ""
        then (s, rejected)
        else if e.works finding
        then if verify_user_password q.password (find_by_username q.username s.db)
          then if e.works updating
            then addressed e uid q.token s (update_email uid a s.db)
            else (s, broken)
          else (s, rejected)
        else (s, broken)
      else (s, rejected)

  -- `get_email` and the mint, which stand one behind the other.
  unfoldable pub mail_verification : Env → ℕ → Text → Option String → Post → Post
  unfolding stored create_email_verification_token
  mail_verification e uid token none p = p
  mail_verification e uid token (some a) (s, out) =
      if e.works minting
      then stored a token s out (create_email_verification_token o.sha256 e.call.now uid token s.db)
      else (s, out)

  unfoldable pub verification_counted : Env → ℕ → Text → Server × Verdict → List Mail → Post
  unfolding mail_verification get_email
  verification_counted e uid token (s, limited) out = (s, out)
  verification_counted e uid token (s, allowed) out =
      mail_verification e uid token (if e.works finding then get_email uid s.db else none) (s, out)

  -- Without a mail server nothing is done.
  unfoldable pub send_verification_email : Env → Bool → ℕ → Text → Post → Post
  unfolding verification_counted user_checked
  send_verification_email e configured uid token (s, out) =
      if configured
      then verification_counted e uid token
          (user_checked e verification_limits ("verify_email:user:" ++ o.to_string uid) s) out
      else (s, out)

  unfoldable pub marked : Env → ℕ → Server → Server × Followed
  unfolding verify_email
  marked e uid s =
      if e.works updating then (record s { db = (verify_email uid s.db).0 }, done) else (s, broken)

  unfoldable pub spent_link : Env → Text → Server → Server × Option ℕ
  unfolding find_valid_email_verification_token
  spent_link e token s =
      let r = find_valid_email_verification_token o.sha256 e.call.now token s.db in
      (record s { db = r.0 }, r.1)

  unfoldable pub follow_spent : Env → Server × Option ℕ → Server × Followed
  unfolding marked
  follow_spent e (s, none) = (s, invalid_link)
  follow_spent e (s, some uid) = marked e uid s

  -- `verify_email` of the handlers: the token is spent, then the address is marked.
  unfoldable pub follow_verification : Env → Text → Server → Server × Followed
  unfolding follow_spent spent_link
  follow_verification e token s =
      if e.works redeeming then follow_spent e (spent_link e token s) else (s, broken)
