-- ===== src/Auth.antt =====
-- Accounts and how one gets in: the tables of backend/src/repositories/user_repo.rs, each statement on
-- its own. The look for the user of a token, and the caches, are in Sessions. An instant is a number
-- of nanoseconds, and SHA-256 in hexadecimal a parameter. No index keeps the digests of tokens apart.
pub mod Rules
pub mod Service
pub mod Register
pub mod Mail
pub mod Acts
pub mod Keeping
pub mod Rows
pub mod Privileges
pub mod Links
pub mod SingleSession
pub mod Failures
pub mod Addresses
mod Tests
use Prim.Native.String.{String, ◌++◌}
use lan_video.Prelude.{
  ℕ, suc, ◌+◌, ◌*◌, ltb, leb, ◌==◌, Bool, true, false, not, ◌&&◌, ◌||◌, Option, none, some, List,
  [], ◌∷◌, map, any, retain, length, if◌then◌else◌,
}
use lan_video.Prelude.Assoc.{◌=?◌, string_Eq}
use lan_video.Prelude.Texts.{Text, text_Eq}
use lan_video.Prelude.Cuts.{codes}
use lan_video.Sessions.{User, TokenRow, Tables}
use lan_video.MediaAuth.Queries.{first}

pub record UserRow : Type 0 where
  pub id : ℕ
  pub username : String
  pub password_hash : String
  pub approved : Bool
  pub role : ℕ
  pub email : Option String
  pub email_verified : Bool
  pub is_guest : Bool

-- A row of `password_reset_tokens` or of `email_verification_tokens`.
pub record MailToken : Type 0 where
  pub user_id : ℕ
  pub token_hash : Text
  pub expires_at : ℕ
  pub used : Bool

-- The tables, the newest row first, and the next id of a user.
pub record Database : Type 0 where
  pub users : List UserRow
  pub tokens : List TokenRow
  pub reset_tokens : List MailToken
  pub email_tokens : List MailToken
  pub next_id : ℕ

abbrev pub hour : ℕ
hour = 3600000000000

-- How Sessions sees an account.
unfoldable pub session_user : UserRow → User
session_user u = record {
  id = u.id;
  username = codes u.username;
  role = u.role;
  approved = u.approved;
  is_guest = u.is_guest;
}

unfoldable pub session_tables : Database → Tables
unfolding session_user
session_tables db = record {
  tokens = db.tokens;
  users = map (λ u. (u.id, session_user u)) db.users;
}

unfoldable pub count_users : Database → ℕ
count_users db = length (retain (λ u. not u.is_guest) db.users)

unfoldable pub find_by_username : String → Database → Option UserRow
unfolding first
find_by_username name db = first (λ u. u.username =? name) db.users

-- `email = $1` holds of no row whose address is NULL.
unfoldable pub has_email : String → Option String → Bool
has_email e none = false
has_email e (some a) = a =? e

unfoldable pub find_by_email : String → Database → Option UserRow
unfolding first has_email
find_by_email e db = first (λ u. has_email e u.email) db.users

abbrev email_of : Option UserRow → Option String
email_of none = none
email_of (some u) = u.email

unfoldable pub get_email : ℕ → Database → Option String
unfolding first
get_email uid db = email_of (first (λ u. u.id == uid) db.users)

-- The unique constraint on names; none stands for its violation.
unfoldable pub insert_user : UserRow → Database → Database × Option ℕ
unfolding any
insert_user u db =
    if any (λ v. v.username =? u.username) db.users
    then (db, none)
    else (record db { users = u ∷ db.users; next_id = suc db.next_id }, some u.id)

unfoldable pub create_user : String → String → ℕ → Database → Database × Option ℕ
unfolding insert_user
create_user name hash role db =
    insert_user
      (record {
        id = db.next_id;
        username = name;
        password_hash = hash;
        approved = leb 3 role;
        role = role;
        email = none;
        email_verified = false;
        is_guest = false;
      })
      db

-- The suffix is random.
unfoldable pub create_guest_user : String → Database → Database × Option ℕ
unfolding insert_user
create_guest_user suffix db =
    insert_user
      (record {
        id = db.next_id;
        username = "guest_" ++ suffix;
        password_hash = "";
        approved = true;
        role = 1;
        email = none;
        email_verified = false;
        is_guest = true;
      })
      db

abbrev pub live_row : ℕ → TokenRow → Bool
live_row now r = ltb now r.expires_at && not r.revoked

unfoldable pub revoke_row : ℕ → ℕ → TokenRow → TokenRow
revoke_row now uid r = if r.user_id == uid && live_row now r then record r { revoked = true } else r

unfoldable pub revoke_tokens_by_user_id : ℕ → ℕ → Database → Database
unfolding revoke_row
revoke_tokens_by_user_id now uid db = record db { tokens = map (revoke_row now uid) db.tokens }

-- An update of the row of a user.
unfoldable pub update_row : ℕ → (UserRow → UserRow) → UserRow → UserRow
update_row uid f u = if u.id == uid then f u else u

unfoldable pub has_user : ℕ → Database → Bool
unfolding any
has_user uid db = any (λ u. u.id == uid) db.users

-- The answer says whether there was such a row.
unfoldable pub update_user : ℕ → (UserRow → UserRow) → Database → Database × Bool
unfolding update_row has_user
update_user uid f db = (record db { users = map (update_row uid f) db.users }, has_user uid db)

-- The new password and the end of all sessions, in one transaction.
unfoldable pub reset_password_and_revoke_tokens : ℕ → ℕ → String → Database → Database × Bool
unfolding has_user update_user revoke_tokens_by_user_id
reset_password_and_revoke_tokens now uid hash db =
    if has_user uid db
    then (
      revoke_tokens_by_user_id now uid
          (update_user uid (λ u. record u { password_hash = hash }) db).0,
      true,
    )
    else (db, false)

unfoldable pub approve_user : ℕ → Bool → Database → Database × Bool
unfolding update_user
approve_user uid approve = update_user uid λ u. record u { approved = approve }

unfoldable pub toggle_admin : ℕ → Database → Database × Bool
unfolding update_user
toggle_admin uid = update_user uid λ u. record u {
  role = if leb 3 u.role then 1 else 3;
  approved = if leb 3 u.role then u.approved else true;
}

unfoldable pub set_user_role : ℕ → ℕ → Database → Database × Bool
unfolding update_user
set_user_role uid role = update_user uid λ u. record u { role = role }

unfoldable pub verify_email : ℕ → Database → Database × Bool
unfolding update_user
verify_email uid = update_user uid λ u. record u { email_verified = true }

-- The rows of a user's mail tokens that are still good are used up.
unfoldable pub spend_row : ℕ → MailToken → MailToken
spend_row uid t = if t.user_id == uid && not t.used then record t { used = true } else t

unfoldable pub spend_all : ℕ → List MailToken → List MailToken
unfolding spend_row
spend_all uid ts = map (spend_row uid) ts

unfoldable pub good : ℕ → Text → MailToken → Bool
good now digest t = t.token_hash =? digest && (ltb now t.expires_at && not t.used)

-- `UPDATE .. SET used = true WHERE id = (SELECT .. LIMIT 1) RETURNING user_id`.
unfoldable pub redeem : ℕ → Text → List MailToken → List MailToken × Option ℕ
unfolding good
redeem now digest [] = ([], none)
redeem now digest (t ∷ ts) =
    let rest = redeem now digest ts in
    if good now digest t
    then (record t { used = true } ∷ ts, some t.user_id)
    else (t ∷ rest.0, rest.1)

-- The unique index on addresses: another account has it.
unfoldable pub email_taken : ℕ → String → Database → Bool
unfolding any has_email
email_taken uid e db = any (λ u. not (u.id == uid) && has_email e u.email) db.users

-- None stands for the violation of the index. The tokens go also where there is no such user.
unfoldable pub update_email : ℕ → String → Database → Database × Option Bool
unfolding email_taken has_user update_user spend_all
update_email uid e db = if has_user uid db && email_taken uid e db then (db, none) else (
  record (update_user uid (λ u. record u { email = some e; email_verified = false }) db).0 {
    email_tokens = spend_all uid db.email_tokens;
  },
  some (has_user uid db),
)

unfoldable pub delete_user : ℕ → Database → Database × Bool
unfolding has_user retain
delete_user uid db = (
  record db {
    users = retain (λ u. not (u.id == uid)) db.users;
    tokens = retain (λ r. not (r.user_id == uid)) db.tokens;
    reset_tokens = retain (λ t. not (t.user_id == uid)) db.reset_tokens;
    email_tokens = retain (λ t. not (t.user_id == uid)) db.email_tokens;
  },
  has_user uid db,
)

unfoldable pub cleanup_expired_tokens : ℕ → Database → Database
unfolding retain
cleanup_expired_tokens now db = record db { tokens = retain (live_row now) db.tokens }

module _ (sha256 : Text → Text) where
  -- Seven days. No row for a user that is not there.
  unfoldable pub create_token : ℕ → ℕ → Text → Database → Database
  unfolding has_user
  create_token now uid token db =
      if has_user uid db
      then record db {
        tokens =
            record {
              user_id = uid;
              token_hash = sha256 token;
              expires_at = now + 168 * hour;
              revoked = false;
            }
            ∷ db.tokens;
      }
      else db

  abbrev mail_token : ℕ → ℕ → Text → MailToken
  mail_token until uid token = record {
    user_id = uid;
    token_hash = sha256 token;
    expires_at = until;
    used = false;
  }

  -- The foreign key refuses a token of no user.
  unfoldable pub create_password_reset_token : ℕ → ℕ → Text → Database → Database × Bool
  unfolding spend_all has_user
  create_password_reset_token now uid token db =
      if has_user uid db
      then (
        record db {
          reset_tokens = mail_token (now + hour) uid token ∷ spend_all uid db.reset_tokens;
        },
        true,
      )
      else (db, false)

  unfoldable pub create_email_verification_token : ℕ → ℕ → Text → Database → Database × Bool
  unfolding spend_all has_user
  create_email_verification_token now uid token db =
      if has_user uid db
      then (
        record db {
          email_tokens = mail_token (now + 24 * hour) uid token ∷ spend_all uid db.email_tokens;
        },
        true,
      )
      else (db, false)

  unfoldable pub find_valid_reset_token : ℕ → Text → Database → Database × Option ℕ
  unfolding redeem
  find_valid_reset_token now token db =
      let r = redeem now (sha256 token) db.reset_tokens in (record db { reset_tokens = r.0 }, r.1)

  unfoldable pub find_valid_email_verification_token : ℕ → Text → Database → Database × Option ℕ
  unfolding redeem
  find_valid_email_verification_token now token db =
      let r = redeem now (sha256 token) db.email_tokens in (record db { email_tokens = r.0 }, r.1)
