-- ===== src/Auth/Tests.antt =====
-- Accounts at concrete inputs.
use Prim.Native.String.{String}
use lan_video.Prelude.{
  ℕ, ◌*◌, ◌≡◌, ◌≢◌, refl, true, false, ◌&&◌, Option, none, some, List, [], ◌∷◌, leb, ltb, arith,
  if◌then◌else◌, length, retain, sym, ◌∙◌,
}
use lan_video.Prelude.Assoc.{◌=?◌, string_Eq, lookup}
use lan_video.Prelude.Texts.{Text, text_Eq, text_eq}
use lan_video.Prelude.Cuts.{codes}
use lan_video.ServiceError.{rate_limited}
use lan_video.RateLimit.{
  connected, disabled, check_with, check_memory, check_found, check_slot, renew_window, lift_block,
  fresh_slot, is_blocked, charge, saturating_incr,
}
use lan_video.RateLimit.View.{redis_view}
use lan_video.RateLimit.Redis.{view_of}
use lan_video.Sessions.{TokenRow, query_user}
use lan_video.Auth.{
  UserRow, MailToken, Database, hour, session_user, session_tables, find_by_username,
  find_valid_reset_token, get_email,
}
use lan_video.Auth.Rules.{is_password_strong_enough}
use lan_video.Auth.Rules.Strength.{kinds, is_password_strong_enough-kinds}
use lan_video.Auth.Service.{
  Outside, Server, Env, AuthRequest, failed, login, wrong_password, ip_key,
}
use lan_video.Auth.Register.{Settings}
use lan_video.Auth.Mail.{
  EmailChange, done, reset_password, change_email, spent_link, send_verification_email,
}
use lan_video.Auth.Acts.{Act, acts}
use lan_video.Auth.Rows.{All}
use lan_video.Auth.SingleSession.{login-Single, reset_password-Renewed}
use lan_video.Auth.Links.{unspent, reset_password-once}
use lan_video.Auth.Privileges.{Stands, acts-Stand}
use lan_video.Auth.Failures.{login-any_failures, wrong_password-blocks_address}
use lan_video.Auth.Addresses.{
  mailed, spent, interrupted, NoMailTo, follow-stale, change_email-Unverified,
}

differ : (a b : String) → (a =? b) ≡ false → a ≢ b
differ a b h e = let x = sym h ∙ (string_Eq.beq_iff a b).1 e in cc x

-- Texts of small letters without blanks, a hash that shows the password, and digests that show the token.
abbrev outside : Outside
outside = record {
  trim = λ s. s;
  to_lowercase = λ s. s;
  to_string = λ n. "7";
  is_uppercase = λ c. leb b'A' c && leb c b'Z';
  is_lowercase = λ c. leb b'a' c && leb c b'z';
  verify = λ p h. p =? h;
  sha256 = λ t. t;
}

abbrev mia : UserRow
mia = record {
  id = 7;
  username = "mia";
  password_hash = "Blue-Moon1";
  approved = true;
  role = 1;
  email = some "mia@old.example";
  email_verified = true;
  is_guest = false;
}

abbrev boss : UserRow
boss = record mia { id = 2; username = "boss"; role = 3; email = none }

abbrev old_session : TokenRow
old_session = record {
  user_id = 7;
  token_hash = codes "old";
  expires_at = 100 * hour;
  revoked = false;
}

abbrev link : Text → MailToken
link t = record { user_id = 7; token_hash = t; expires_at = hour; used = false }

abbrev tables : Database
tables = record {
  users = mia ∷ boss ∷ [];
  tokens = old_session ∷ [];
  reset_tokens = link (codes "reset") ∷ [];
  email_tokens = link (codes "verify") ∷ [];
  next_id = 8;
}

abbrev server : Server
server = record {
  db = tables;
  view = record { token_cache = []; media_cache = []; redis = []; user_tokens = [] };
  user_cache = [];
  ip_cache = [];
  redis = record { counters = []; blocks = [] };
}

abbrev at : ℕ → Env
at t = record {
  call = record { now = t; db_ok = true; get_ok = true; put_ok = true };
  link = disabled;
  works = λ x. true;
  client_ip = "10.0.0.9";
}

abbrev as_mia : AuthRequest
as_mia = record { username = "mia"; password = "Blue-Moon1" }

abbrev ordinary : Settings
ordinary = record { registration_enabled = true; allow_first_user_admin = false }

abbrev new_address : EmailChange
new_address = record {
  username = "mia";
  email = "mia@new.example";
  password = "Blue-Moon1";
  token = codes "newest";
}

-- A sign-in, a registration, a guest, a forgotten password and a new address.
abbrev visits : List Act
visits =
    Act.sign_in (at 5) as_mia (codes "new")
    ∷ Act.sign_up (at 6) ordinary (record { username = "tom"; password = "Blue-Moon2" })
        (some "Blue-Moon2") (codes "tom")
    ∷ Act.come_as_guest (at 7) "abc" (codes "guest")
    ∷ Act.forget (at 8) "mia@old.example" (codes "again")
    ∷ Act.move_mail (at 9) 7 new_address
    ∷ []

is_password_strong_enough-kinds_example :
    is_password_strong_enough outside.is_uppercase outside.is_lowercase (codes "Blue-Moon")
    ≡ leb
        (if ltb (length (codes "Blue-Moon")) 12 then 3 else 2)
        (kinds outside.is_uppercase outside.is_lowercase (codes "Blue-Moon"))
is_password_strong_enough-kinds_example =
    is_password_strong_enough-kinds outside.is_uppercase outside.is_lowercase (codes "Blue-Moon")

-- The old session of the account is over, and its new token is the one.
login-Single_example : outside.sha256 (codes "new") ≡ outside.sha256 (codes "new")
unfolding login find_by_username query_user session_tables check_with check_memory check_found
    check_slot renew_window lift_block fresh_slot is_blocked charge saturating_incr lookup text_eq
login-Single_example =
    login-Single outside (at 5) as_mia 6 mia (codes "new") (codes "new") (codes "new")
      (session_user mia) server refl (omega arith) refl (omega arith) refl refl

old_session_over :
    query_user outside.sha256 6
      (codes "old")
      (session_tables (login outside (at 5) as_mia (codes "new") server).0.db)
    ≡ none
unfolding login query_user session_tables text_eq check_with check_memory check_found check_slot
    renew_window lift_block fresh_slot is_blocked charge saturating_incr lookup
old_session_over = refl

reset_password-Renewed_example :
    (query_user outside.sha256 6 (codes "old") (
          session_tables
            (reset_password outside
              (at 5)
              (codes "reset")
              "Red-Sun22"
              (some "Red-Sun22")
              server).0.db)
        ≡ some (session_user mia)
      → mia.id ≢ 7)
    × All
        (λ u. u.id ≡ 7 → u.password_hash ≡ "Red-Sun22")
        (reset_password outside
          (at 5)
          (codes "reset")
          "Red-Sun22"
          (some "Red-Sun22")
          server).0.db.users
unfolding reset_password find_valid_reset_token session_user text_eq
reset_password-Renewed_example =
    reset_password-Renewed outside (at 5) 6 7 (codes "reset") "Red-Sun22" "Red-Sun22" (codes "old")
      (session_user mia) server refl refl (omega arith)

reset_password-once_example :
    (reset_password outside
      (at 20)
      (codes "reset")
      "Sun-Red33"
      (some "Sun-Red33")
      (acts outside visits (
        (reset_password outside (at 4) (codes "reset") "Red-Sun22" (some "Red-Sun22") server).0,
        [],
      )).0).1
    ≢ done
unfolding reset_password unspent text_eq retain
reset_password-once_example =
    reset_password-once outside (at 4) (codes "reset") "Red-Sun22" (some "Red-Sun22") (server, [])
      visits (at 20) "Sun-Red33" (some "Sun-Red33") (omega arith) refl
      (tt, ((tt, λ k. tt), (tt, (refl, (tt, tt)))))

acts-Stand_example : All (Stands server.db.users) (acts outside visits (server, [])).0.db.users
acts-Stand_example = acts-Stand outside visits (server, []) (tt, (refl, (tt, (tt, (tt, tt)))))

-- The name is blocked in memory, and the right password gets in.
login-any_failures_example :
    (login outside (at 9) as_mia (codes "new") (record server {
      user_cache =
          (
            "auth:mia",
            record {
              expires_at = 60000000000;
              entry = record { count = 5; blocked_until = some 300000000000 };
            },
          )
          ∷ [];
    })).1
    ≡ (login outside (at 9) as_mia (codes "new") server).1
unfolding find_by_username
login-any_failures_example =
    login-any_failures outside (at 9) as_mia mia (codes "new") server
      ((
        "auth:mia",
        record {
          expires_at = 60000000000;
          entry = record { count = 5; blocked_until = some 300000000000 };
        },
      )
        ∷ [])
      refl refl

-- With Redis, and four failures of a name that is an address.
abbrev on_redis : ℕ → String → Env
on_redis t ip = record (at t) { link = connected; client_ip = ip }

abbrev as_address : AuthRequest
as_address = record { username = "ip:10.0.0.7"; password = "x" }

abbrev four_failures : Server
four_failures = record server {
  redis = record {
    counters = ("auth:ip:10.0.0.7", record { count = 4; expires_at = 60000000000 }) ∷ [];
    blocks = [];
  };
}

wrong_password-blocks_address_example :
    (login outside
      (on_redis 9 "10.0.0.7")
      as_mia
      (codes "new")
      (wrong_password outside (on_redis 5 "10.0.0.9") as_address four_failures).0).1
    ≡ failed rate_limited
unfolding lookup view_of redis_view ip_key
wrong_password-blocks_address_example =
    wrong_password-blocks_address outside (on_redis 5 "10.0.0.9") as_address "10.0.0.7"
      four_failures 4 60000000000 (on_redis 9 "10.0.0.7") as_mia (codes "new") refl refl
      (omega arith) refl (omega arith) refl refl (omega arith) (omega arith)

-- The address moves while the link of the old one is followed.
abbrev linked : Server × Option ℕ
linked = spent outside (at 5) (codes "fresh") (mailed outside (at 4) 7 (codes "fresh") (server, []))

follow-stale_example :
    All
      (λ u. u.id ≡ 7 → (u.email ≡ some "mia@new.example") × (u.email_verified ≡ true))
      (interrupted outside (at 7) 7 new_address (at 9) linked).db.users
    × NoMailTo outside "mia@new.example" (mailed outside (at 4) 7 (codes "fresh") (server, [])).1
unfolding spent_link change_email text_eq send_verification_email get_email find_by_username
    check_with check_memory check_found lookup check_slot fresh_slot saturating_incr
follow-stale_example =
    follow-stale outside (at 4) 7 (codes "fresh") (server, []) "mia@old.example" (at 5) (at 7)
      new_address (at 9) refl (differ "mia@old.example" "mia@new.example" refl) tt refl refl refl

change_email-Unverified_example :
    All
      (λ u. u.id ≡ 7 → (u.email ≡ some "mia@new.example") × (u.email_verified ≡ false))
      (change_email outside (at 7) 7 new_address server).0.db.users
    × ((spent_link outside
          (at 9)
          (codes "verify")
          (change_email outside (at 7) 7 new_address server).0).1
        ≢ some 7)
unfolding change_email find_by_username
change_email-Unverified_example =
    change_email-Unverified outside (at 7) 7 new_address server (at 9) (codes "verify") refl
