-- ===== src/Auth/Keeping/Sequences.antt =====
-- The same for the links that go by mail, and for sequences of requests.
use lan_video.Prelude.{ℕ, Bool, true, false, ◌&&◌, Option, none, some, List, [], ◌∷◌, if◌then◌else◌}
use Prim.Native.String.{String, ◌++◌}
use lan_video.Prelude.Assoc.{◌=?◌, string_Eq}
use lan_video.Prelude.Texts.{Text}
use lan_video.Prelude.Cuts.{codes}
use lan_video.RateLimit.{Verdict, allowed, limited}
use lan_video.Auth.{
  UserRow, Database, find_by_username, revoke_tokens_by_user_id, create_password_reset_token,
  reset_password_and_revoke_tokens, create_email_verification_token, find_valid_reset_token,
  update_email, find_by_email, get_email,
}
use lan_video.Auth.Rules.{is_password_length, is_password_strong_enough, is_valid_email}
use lan_video.Auth.Service.{
  Outside, Server, Env, ip_checked, finding, minting, revoking, redeeming, updating,
}
use lan_video.Auth.Mail.{
  Mail, Post, stored, user_checked, mail_reset, forgot_found, forgot_counted, forgot_password,
  renewed, reset_hashed, reset_redeemed, reset_password, EmailChange, new_session, signed_out,
  verify_user_password, addressed, change_email, mail_verification, verification_counted,
  send_verification_email, marked, spent_link, follow_spent, follow_verification, forgot_ip_limits,
  forgot_email_limits, verification_limits,
}
use lan_video.Auth.Acts.{
  Act, sign_in, sign_up, come_as_guest, forget, renew, move_mail, ask_mail, follow, sweep, govern,
  Decree, act, acts, Closed, Admits, AllAdmit,
}
use lan_video.Auth.Keeping as Entry

module _ (o : Outside) (Fresh : Text → Type 0) (Role : ℕ → Type 0) (May : Decree → Type 0)
    (I : Database → Type 0) (c : Closed o Fresh Role May I) where
  -- The same for the mails.
  posted : (b : Bool) (x y : Post) → I x.0.db → I y.0.db → I (if b then x else y).0.db
  posted true x y h k = h
  posted false x y h k = k

  stored-keeps :
      (address : String) (token : Text) (s : Server) (out : List Mail) (r : Database × Bool)
      → I s.db
      → I r.0
      → I (stored address token s out r).0.db
  unfolding stored
  stored-keeps address token s out (db, true) i j = j
  stored-keeps address token s out (db, false) i j = i

  mail_reset-keeps :
      (e : Env) (address : String) (token : Text) (u : Option UserRow) (p : Post)
      → Fresh token
      → I p.0.db
      → I (mail_reset o e address token u p).0.db
  unfolding mail_reset
  mail_reset-keeps e address token none p f i = i
  mail_reset-keeps e address token (some u) (s, out) f i =
      posted (e.works minting) _ _
        (stored-keeps address token s out
          (create_password_reset_token o.sha256 e.call.now u.id token s.db) i
          (c.resettable e.call.now u.id token s.db f i))
        i

  forgot_found-keeps :
      (e : Env) (email : String) (token : Text) (p : Server × Verdict) (out : List Mail)
      → Fresh token
      → I p.0.db
      → I (forgot_found o e email token p out).0.db
  unfolding forgot_found
  forgot_found-keeps e email token (s, limited) out f i = i
  forgot_found-keeps e email token (s, allowed) out f i =
      posted (e.works finding) _ _
        (mail_reset-keeps e email token (find_by_email email s.db) (s, out) f i) i

  forgot_counted-keeps :
      (e : Env) (email : String) (token : Text) (p : Server × Verdict) (out : List Mail)
      → Fresh token
      → I p.0.db
      → I (forgot_counted o e email token p out).0.db
  unfolding forgot_counted user_checked
  forgot_counted-keeps e email token (s, limited) out f i = i
  forgot_counted-keeps e email token (s, allowed) out f i =
      forgot_found-keeps e email token
        (user_checked e forgot_email_limits ("forgot_pwd:email:" ++ email) s) out f i

  forgot_password-keeps :
      (e : Env) (email : String) (token : Text) (p : Post)
      → Fresh token
      → I p.0.db
      → I (forgot_password o e email token p).0.db
  unfolding forgot_password ip_checked
  forgot_password-keeps e email token (s, out) f i =
      forgot_counted-keeps e (o.to_lowercase (o.trim email)) token
        (ip_checked e forgot_ip_limits ("forgot_pwd:ip:" ++ e.client_ip) s) out f i

  renewed-keeps :
      (e : Env) (uid : ℕ) (s : Server) (r : Database × Bool)
      → I s.db
      → I r.0
      → I (renewed o e uid s r).0.db
  unfolding renewed
  renewed-keeps e uid s (db, false) i j = i
  renewed-keeps e uid s (db, true) i j = j

  pub reset_hashed-keeps :
      (e : Env) (uid : ℕ) (hash : Option String) (s : Server)
      → I s.db
      → I (reset_hashed o e uid hash s).0.db
  unfolding reset_hashed
  reset_hashed-keeps e uid none s i = i
  reset_hashed-keeps e uid (some hash) s i =
      Entry.either o Fresh Role May I c (e.works updating) _ _
        (renewed-keeps e uid s (reset_password_and_revoke_tokens e.call.now uid hash s.db) i
          (c.renewable e.call.now uid hash s.db i))
        i

  reset_redeemed-keeps :
      (e : Env) (hash : Option String) (s : Server) (r : Database × Option ℕ)
      → I r.0
      → I (reset_redeemed o e hash s r).0.db
  unfolding reset_redeemed
  reset_redeemed-keeps e hash s (db, none) i = i
  reset_redeemed-keeps e hash s (db, some uid) i =
      reset_hashed-keeps e uid hash (record s { db = db }) i

  reset_password-keeps :
      (e : Env) (token : Text) (password : String) (hash : Option String) (s : Server)
      → I s.db
      → I (reset_password o e token password hash s).0.db
  unfolding reset_password
  reset_password-keeps e token password hash s i =
      Entry.either o Fresh Role May I c
        (is_password_length (codes password)
          && is_password_strong_enough o.is_uppercase o.is_lowercase (codes password))
        _ _
        (Entry.either o Fresh Role May I c (e.works redeeming) _ _
          (reset_redeemed-keeps e hash s (find_valid_reset_token o.sha256 e.call.now token s.db)
            (c.redeemed e.call.now token s.db i))
          i)
        i

  signed_out-keeps :
      (e : Env) (uid : ℕ) (token : Text) (s : Server) → I s.db → I (signed_out o e uid token s).0.db
  unfolding signed_out new_session
  signed_out-keeps e uid token s i =
      Entry.either o Fresh Role May I c (e.works revoking) _ _
        (Entry.either o Fresh Role May I c (e.works minting) _ _
          (c.minted e.call.now uid token (revoke_tokens_by_user_id e.call.now uid s.db)
            (c.revoked e.call.now uid s.db i))
          (c.revoked e.call.now uid s.db i))
        i

  addressed-keeps :
      (e : Env) (uid : ℕ) (token : Text) (s : Server) (r : Database × Option Bool)
      → I s.db
      → I r.0
      → I (addressed o e uid token s r).0.db
  unfolding addressed
  addressed-keeps e uid token s (db, none) i j = i
  addressed-keeps e uid token s (db, some b) i j =
      signed_out-keeps e uid token (record s { db = db }) j

  change_email-keeps :
      (e : Env) (uid : ℕ) (q : EmailChange) (s : Server)
      → I s.db
      → I (change_email o e uid q s).0.db
  unfolding change_email
  change_email-keeps e uid q s i =
      let a = o.to_lowercase (o.trim q.email) in
      Entry.either o Fresh Role May I c (is_valid_email (codes a)) _ _
        (Entry.either o Fresh Role May I c (q.password =? "") _ _ i (
          Entry.either o Fresh Role May I c (e.works finding) _ _
            (Entry.either o Fresh Role May I c
              (verify_user_password o q.password (find_by_username q.username s.db)) _ _
              (Entry.either o Fresh Role May I c (e.works updating) _ _
                (addressed-keeps e uid q.token s (update_email uid a s.db) i
                  (c.readdressed uid a s.db i))
                i)
              i)
            i))
        i

  mail_verification-keeps :
      (e : Env) (uid : ℕ) (token : Text) (a : Option String) (p : Post)
      → I p.0.db
      → I (mail_verification o e uid token a p).0.db
  unfolding mail_verification
  mail_verification-keeps e uid token none p i = i
  mail_verification-keeps e uid token (some a) (s, out) i =
      posted (e.works minting) _ _
        (stored-keeps a token s out
          (create_email_verification_token o.sha256 e.call.now uid token s.db) i
          (c.verifiable e.call.now uid token s.db i))
        i

  verification_counted-keeps :
      (e : Env) (uid : ℕ) (token : Text) (p : Server × Verdict) (out : List Mail)
      → I p.0.db
      → I (verification_counted o e uid token p out).0.db
  unfolding verification_counted
  verification_counted-keeps e uid token (s, limited) out i = i
  verification_counted-keeps e uid token (s, allowed) out i =
      mail_verification-keeps e uid token (if e.works finding then get_email uid s.db else none)
        (s, out) i

  send_verification_email-keeps :
      (e : Env) (configured : Bool) (uid : ℕ) (token : Text) (p : Post)
      → I p.0.db
      → I (send_verification_email o e configured uid token p).0.db
  unfolding send_verification_email user_checked
  send_verification_email-keeps e configured uid token (s, out) i =
      posted configured _ _
        (verification_counted-keeps e uid token
          (user_checked e verification_limits ("verify_email:user:" ++ o.to_string uid) s) out i)
        i

  follow_spent-keeps : (e : Env) (p : Server × Option ℕ) → I p.0.db → I (follow_spent o e p).0.db
  unfolding follow_spent marked
  follow_spent-keeps e (s, none) i = i
  follow_spent-keeps e (s, some uid) i =
      Entry.either o Fresh Role May I c (e.works updating) _ _ (c.verified uid s.db i) i

  follow_verification-keeps :
      (e : Env) (token : Text) (s : Server) → I s.db → I (follow_verification o e token s).0.db
  unfolding follow_verification spent_link
  follow_verification-keeps e token s i =
      Entry.either o Fresh Role May I c (e.works redeeming) _ _
        (follow_spent-keeps e (spent_link o e token s) (c.followed e.call.now token s.db i)) i

  pub act-keeps : (a : Act) (p : Post) → Admits o Fresh Role May a → I p.0.db → I (act o a p).0.db
  unfolding act
  act-keeps (sign_in e q token) (s, out) a i = Entry.login-keeps o Fresh Role May I c e q token s i
  act-keeps (sign_up e g q hash token) (s, out) a i =
      Entry.register-keeps o Fresh Role May I c e g q hash token s a i
  act-keeps (come_as_guest e suffix token) (s, out) a i =
      Entry.create_guest_session-keeps o Fresh Role May I c e suffix token s i
  act-keeps (forget e email token) p a i = forgot_password-keeps e email token p a i
  act-keeps (renew e token password hash) (s, out) a i =
      reset_password-keeps e token password hash s i
  act-keeps (move_mail e uid q) (s, out) a i = change_email-keeps e uid q s i
  act-keeps (ask_mail e configured uid token) p a i =
      send_verification_email-keeps e configured uid token p i
  act-keeps (follow e token) (s, out) a i = follow_verification-keeps e token s i
  act-keeps (sweep now) (s, out) a i = c.swept now s.db i
  act-keeps (govern d) (s, out) a i = c.decreed d s.db a i

  pub acts-keeps :
      (as' : List Act) (p : Post) → AllAdmit o Fresh Role May as' → I p.0.db → I (acts o as' p).0.db
  unfolding acts
  acts-keeps [] p a i = i
  acts-keeps (x ∷ xs) p (a, b) i = acts-keeps xs (act o x p) b (act-keeps x p a i)
