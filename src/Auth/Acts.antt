-- ===== src/Auth/Acts.antt =====
-- Sequences of requests around the accounts, and what they keep of the tables: whatever each
-- statement keeps.
use Prim.Native.String.{String}
use lan_video.Prelude.{ℕ, ◌≡◌, Bool, true, Option, List, [], ◌∷◌}
use lan_video.Prelude.Texts.{Text}
use lan_video.Auth.{
  Database, create_user, create_guest_user, create_token, revoke_tokens_by_user_id,
  reset_password_and_revoke_tokens, verify_email, update_email, create_password_reset_token,
  create_email_verification_token, find_valid_reset_token, find_valid_email_verification_token,
  approve_user, toggle_admin, set_user_role, delete_user, cleanup_expired_tokens,
}
use lan_video.Auth.Service.{Outside, Env, AuthRequest, login}
use lan_video.Auth.Register.{Settings, register, create_guest_session}
use lan_video.Auth.Mail.{
  EmailChange, Post, forgot_password, reset_password, change_email, send_verification_email,
  follow_verification,
}

-- What the administration does to an account.
pub data Decree : Type 0 where
  approve : ℕ → Bool → Decree
  toggle remove : ℕ → Decree
  set_role : ℕ → ℕ → Decree

pub data Act : Type 0 where
  sign_in : Env → AuthRequest → Text → Act
  sign_up : Env → Settings → AuthRequest → Option String → Text → Act
  come_as_guest : Env → String → Text → Act
  forget : Env → String → Text → Act
  renew : Env → Text → String → Option String → Act
  move_mail : Env → ℕ → EmailChange → Act
  ask_mail : Env → Bool → ℕ → Text → Act
  follow : Env → Text → Act
  sweep : ℕ → Act
  govern : Decree → Act

unfoldable pub decree : Decree → Database → Database
unfolding approve_user toggle_admin set_user_role delete_user
decree (approve uid b) db = (approve_user uid b db).0
decree (toggle uid) db = (toggle_admin uid db).0
decree (remove uid) db = (delete_user uid db).0
decree (set_role uid role) db = (set_user_role uid role db).0

module _ (o : Outside) where
  unfoldable pub act : Act → Post → Post
  unfolding login register create_guest_session forgot_password reset_password change_email
      send_verification_email follow_verification cleanup_expired_tokens decree
  act (sign_in e q token) (s, out) = ((login o e q token s).0, out)
  act (sign_up e c q hash token) (s, out) = ((register o e c q hash token s).0, out)
  act (come_as_guest e suffix token) (s, out) = ((create_guest_session o e suffix token s).0, out)
  act (forget e email token) p = forgot_password o e email token p
  act (renew e token password hash) (s, out) = ((reset_password o e token password hash s).0, out)
  act (move_mail e uid q) (s, out) = ((change_email o e uid q s).0, out)
  act (ask_mail e configured uid token) p = send_verification_email o e configured uid token p
  act (follow e token) (s, out) = ((follow_verification o e token s).0, out)
  act (sweep now) (s, out) = (record s { db = cleanup_expired_tokens now s.db }, out)
  act (govern d) (s, out) = (record s { db = decree d s.db }, out)

  unfoldable pub acts : List Act → Post → Post
  unfolding act
  acts [] p = p
  acts (a ∷ as') p = acts as' (act a p)

  -- A property of the tables that each statement keeps: with fresh tokens for the links to a new
  -- password, and certain roles and decrees.
  pub record Closed (Fresh : Text → Type 0) (Role : ℕ → Type 0) (May : Decree → Type 0)
      (I : Database → Type 0) : Type 0 where
    pub registered :
        (name hash : String) (role : ℕ) (db : Database)
        → Role role
        → I db
        → I (create_user name hash role db).0
    pub guests : (suffix : String) (db : Database) → I db → I (create_guest_user suffix db).0
    pub minted :
        (now uid : ℕ) (token : Text) (db : Database)
        → I db
        → I (create_token o.sha256 now uid token db)
    pub revoked : (now uid : ℕ) (db : Database) → I db → I (revoke_tokens_by_user_id now uid db)
    pub resettable :
        (now uid : ℕ) (token : Text) (db : Database)
        → Fresh token
        → I db
        → I (create_password_reset_token o.sha256 now uid token db).0
    pub redeemed :
        (now : ℕ) (token : Text) (db : Database)
        → I db
        → I (find_valid_reset_token o.sha256 now token db).0
    pub renewable :
        (now uid : ℕ) (hash : String) (db : Database)
        → I db
        → I (reset_password_and_revoke_tokens now uid hash db).0
    pub readdressed :
        (uid : ℕ) (email : String) (db : Database) → I db → I (update_email uid email db).0
    pub verifiable :
        (now uid : ℕ) (token : Text) (db : Database)
        → I db
        → I (create_email_verification_token o.sha256 now uid token db).0
    pub followed :
        (now : ℕ) (token : Text) (db : Database)
        → I db
        → I (find_valid_email_verification_token o.sha256 now token db).0
    pub verified : (uid : ℕ) (db : Database) → I db → I (verify_email uid db).0
    pub swept : (now : ℕ) (db : Database) → I db → I (cleanup_expired_tokens now db)
    pub decreed : (d : Decree) (db : Database) → May d → I db → I (decree d db)

  -- What is asked of an act.
  abbrev pub Admits : (Text → Type 0) → (ℕ → Type 0) → (Decree → Type 0) → Act → Type 0
  Admits Fresh Role May (sign_up e c q hash token) =
      Role 1 × (c.allow_first_user_admin ≡ true → Role 3)
  Admits Fresh Role May (forget e email token) = Fresh token
  Admits Fresh Role May (govern d) = May d
  Admits Fresh Role May _ = Unit {0}

  abbrev pub AllAdmit : (Text → Type 0) → (ℕ → Type 0) → (Decree → Type 0) → List Act → Type 0
  AllAdmit Fresh Role May [] = Unit {0}
  AllAdmit Fresh Role May (a ∷ as') = Admits Fresh Role May a × AllAdmit Fresh Role May as'
