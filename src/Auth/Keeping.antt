-- ===== src/Auth/Keeping.antt =====
-- Whatever each statement keeps, a sign-in, a registration and a guest keep.
pub mod Sequences
use lan_video.Prelude.{
  ℕ, ◌≡◌, ◌==◌, ◌∙◌, refl, sym, Bool, true, false, not, ◌&&◌, Option, none, some, List, [], ◌∷◌,
  ltb, if◌then◌else◌, Bool-cases, inl, inr,
}
use Prim.Native.String.{String, ◌++◌}
use lan_video.Prelude.Texts.{Text}
use lan_video.Prelude.Cuts.{codes}
use lan_video.RateLimit.{Verdict, allowed, limited}
use lan_video.Auth.{
  UserRow, Database, create_user, create_guest_user, create_password_reset_token, count_users,
  reset_password_and_revoke_tokens, create_email_verification_token, find_valid_reset_token,
  find_valid_email_verification_token, update_email, find_by_username, find_by_email, get_email,
}
use lan_video.Auth.Rules.{is_password_length, is_password_strong_enough, is_valid_email}
use lan_video.Auth.Service.{
  Outside, Server, Env, AuthRequest, AuthAnswer, Refusal, Statement, hand_out, supersede,
  wrong_answer, wrong_password, login_found, login_checked, login, reset_failures,
  check_ip_rate_limit, check_username_rate_limit, ip_checked, guest_limits, counting, finding,
  inserting, revoking, minting, redeeming, updating,
}
use lan_video.Auth.Register.{
  Settings, objection, role_of, welcome, inserted, store, register_sound, register_tested,
  register_counted, register_checked, register, guest_made, guest_checked, create_guest_session,
  user_exists,
}
use lan_video.Auth.Mail.{
  Mail, Post, Followed, stored, user_checked, mail_reset, forgot_found, forgot_counted,
  forgot_password, renewed, reset_hashed, reset_redeemed, reset_password, addressed, change_email,
  mail_verification, verification_counted, send_verification_email, marked, spent_link,
  follow_spent, follow_verification, forgot_ip_limits, forgot_email_limits, verification_limits,
}
use lan_video.Auth.Acts.{
  Act, sign_in, sign_up, come_as_guest, forget, renew, move_mail, ask_mail, follow, sweep, govern,
  Decree, act, acts, Closed, Admits, AllAdmit,
}

module _ (o : Outside) (Fresh : Text → Type 0) (Role : ℕ → Type 0) (May : Decree → Type 0)
    (I : Database → Type 0) (c : Closed o Fresh Role May I) where
  -- Both ends of a test.
  pub either :
      {A : Type 0} (b : Bool) (x y : Server × A)
      → I x.0.db
      → I y.0.db
      → I (if◌then◌else◌ {A = Server × A} b x y).0.db
  either true x y h k = h
  either false x y h k = k

  hand_out-keeps :
      (e : Env) (q : AuthRequest) (uid : ℕ) (token : Text) (s : Server)
      → I s.db
      → I (hand_out o e q uid token s).0.db
  unfolding hand_out reset_failures
  hand_out-keeps e q uid token s i =
      either (e.works minting) _ _ (c.minted e.call.now uid token s.db i) i

  supersede-keeps :
      (e : Env) (q : AuthRequest) (u : UserRow) (token : Text) (s : Server)
      → I s.db
      → I (supersede o e q u token s).0.db
  unfolding supersede
  supersede-keeps e q u token s i =
      either (ltb u.role 3) _ _
        (either (e.works revoking) _ _
          (hand_out-keeps e q u.id token _ (c.revoked e.call.now u.id s.db i)) i)
        (hand_out-keeps e q u.id token s i)

  wrong_answer-keeps : (p : Server × Verdict) → I p.0.db → I (wrong_answer o p).0.db
  unfolding wrong_answer
  wrong_answer-keeps (s, allowed) i = i
  wrong_answer-keeps (s, limited) i = i

  wrong_password-keeps :
      (e : Env) (q : AuthRequest) (s : Server) → I s.db → I (wrong_password o e q s).0.db
  unfolding wrong_password check_username_rate_limit
  wrong_password-keeps e q s i = wrong_answer-keeps (check_username_rate_limit o e q.username s) i

  login_found-keeps :
      (e : Env) (q : AuthRequest) (u : Option UserRow) (token : Text) (s : Server)
      → I s.db
      → I (login_found o e q u token s).0.db
  unfolding login_found
  login_found-keeps e q none token s i = wrong_password-keeps e q s i
  login_found-keeps e q (some u) token s i =
      either (o.verify q.password u.password_hash) _ _
        (either u.approved _ _ (supersede-keeps e q u token s i) i) (wrong_password-keeps e q s i)

  login_checked-keeps :
      (e : Env) (q : AuthRequest) (token : Text) (p : Server × Verdict)
      → I p.0.db
      → I (login_checked o e q token p).0.db
  unfolding login_checked
  login_checked-keeps e q token (s, limited) i = i
  login_checked-keeps e q token (s, allowed) i =
      either (e.works finding) _ _
        (login_found-keeps e q (find_by_username (o.trim q.username) s.db) token s i) i

  pub login-keeps :
      (e : Env) (q : AuthRequest) (token : Text) (s : Server)
      → I s.db
      → I (login o e q token s).0.db
  unfolding login check_ip_rate_limit ip_checked
  login-keeps e q token s i = login_checked-keeps e q token (check_ip_rate_limit e s) i

  welcome-keeps :
      (e : Env) (role uid : ℕ) (token : Text) (s : Server)
      → I s.db
      → I (welcome o e role uid token s).0.db
  unfolding welcome
  welcome-keeps e role uid token s i =
      either (ltb role 3) _ _ i
        (either (e.works minting) _ _ (c.minted e.call.now uid token s.db i) i)

  inserted-keeps :
      (e : Env) (q : AuthRequest) (role : ℕ) (token : Text) (s : Server) (r : Database × Option ℕ)
      → I s.db
      → I r.0
      → I (inserted o e q role token s r).0.db
  unfolding inserted reset_failures
  inserted-keeps e q role token s (db, none) i j = i
  inserted-keeps e q role token s (db, some uid) i j =
      welcome-keeps e role uid token (reset_failures o e q.username (record s { db = db })) j

  store-keeps :
      (e : Env) (q : AuthRequest) (role : ℕ) (hash : Option String) (token : Text) (s : Server)
      → Role role
      → I s.db
      → I (store o e q role hash token s).0.db
  unfolding store
  store-keeps e q role none token s r i = i
  store-keeps e q role (some hash) token s r i =
      either (e.works inserting) _ _
        (inserted-keeps e q role token s (create_user (o.trim q.username) hash role s.db) i
          (c.registered (o.trim q.username) hash role s.db r i))
        i

  chosen : (b d : Bool) → Role 1 → (d ≡ true → Role 3) → Role (if b && d then 3 else 1)
  chosen true true h k = k refl
  chosen true false h k = h
  chosen false d h k = h

  register_tested-keeps :
      (e : Env) (g : Settings) (q : AuthRequest) (hash : Option String) (token : Text) (s : Server)
      (r : Option Refusal)
      → Role 1 × (g.allow_first_user_admin ≡ true → Role 3)
      → I s.db
      → I (register_tested o e g q hash token s r).0.db
  unfolding register_tested register_sound role_of
  register_tested-keeps e g q hash token s (some r) a i = i
  register_tested-keeps e g q hash token s none a i =
      either (e.works counting) _ _
        (either (user_exists o e (o.trim q.username) s.db) _ _ i (
          store-keeps e q (role_of o g s.db) hash token s
            (chosen (count_users s.db == 0) g.allow_first_user_admin a.0 a.1) i))
        i

  register_counted-keeps :
      (e : Env) (g : Settings) (q : AuthRequest) (hash : Option String) (token : Text)
      (p : Server × Verdict)
      → Role 1 × (g.allow_first_user_admin ≡ true → Role 3)
      → I p.0.db
      → I (register_counted o e g q hash token p).0.db
  unfolding register_counted
  register_counted-keeps e g q hash token (s, limited) a i = i
  register_counted-keeps e g q hash token (s, allowed) a i =
      register_tested-keeps e g q hash token s (objection o (o.trim q.username) q.password) a i

  register_checked-keeps :
      (e : Env) (g : Settings) (q : AuthRequest) (hash : Option String) (token : Text)
      (p : Server × Verdict)
      → Role 1 × (g.allow_first_user_admin ≡ true → Role 3)
      → I p.0.db
      → I (register_checked o e g q hash token p).0.db
  unfolding register_checked check_username_rate_limit
  register_checked-keeps e g q hash token (s, limited) a i = i
  register_checked-keeps e g q hash token (s, allowed) a i =
      register_counted-keeps e g q hash token (check_username_rate_limit o e q.username s) a i

  pub register-keeps :
      (e : Env) (g : Settings) (q : AuthRequest) (hash : Option String) (token : Text) (s : Server)
      → Role 1 × (g.allow_first_user_admin ≡ true → Role 3)
      → I s.db
      → I (register o e g q hash token s).0.db
  unfolding register check_ip_rate_limit ip_checked
  register-keeps e g q hash token s a i =
      either g.registration_enabled _ _
        (register_checked-keeps e g q hash token (check_ip_rate_limit e s) a i) i

  guest_made-keeps :
      (e : Env) (token : Text) (s : Server) (r : Database × Option ℕ)
      → I s.db
      → I r.0
      → I (guest_made o e token s r).0.db
  unfolding guest_made
  guest_made-keeps e token s (db, none) i j = i
  guest_made-keeps e token s (db, some uid) i j =
      either (e.works minting) _ _ (c.minted e.call.now uid token db j) j

  guest_checked-keeps :
      (e : Env) (suffix : String) (token : Text) (p : Server × Verdict)
      → I p.0.db
      → I (guest_checked o e suffix token p).0.db
  unfolding guest_checked
  guest_checked-keeps e suffix token (s, limited) i = i
  guest_checked-keeps e suffix token (s, allowed) i =
      either (e.works inserting) _ _
        (guest_made-keeps e token s (create_guest_user suffix s.db) i (c.guests suffix s.db i)) i

  pub create_guest_session-keeps :
      (e : Env) (suffix : String) (token : Text) (s : Server)
      → I s.db
      → I (create_guest_session o e suffix token s).0.db
  unfolding create_guest_session ip_checked
  create_guest_session-keeps e suffix token s i =
      guest_checked-keeps e suffix token (ip_checked e guest_limits ("guest:ip:" ++ e.client_ip) s)
        i
