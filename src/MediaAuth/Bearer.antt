-- ===== src/MediaAuth/Bearer.antt =====
-- The guards of the interface, of backend/src/middleware/auth/mod.rs: `bearer_auth` with
-- `csrf_guard`, and `admin_auth` and `role_auth` behind it; with `find_token_detail` of
-- backend/src/repositories/user_repo.rs. The reading of an address is a parameter of the whitelist.
use lan_video.Prelude.{
  ℕ, ltb, leb, Bool, true, false, not, ◌&&◌, Option, none, some, List, [], ◌∷◌, any, if◌then◌else◌,
}
use lan_video.Prelude.Assoc.{Eq, ◌=?◌, nat_Eq, lookup}
use lan_video.Prelude.Texts.{Text, text_Eq}
use lan_video.Prelude.Cuts.{trim, is_some}
use lan_video.Sessions.{
  User, TokenRow, Tables, View, Call, Found, failed, unknown, known, find_user_by_token,
  is_valid_auth_token,
}
use lan_video.MediaAuth.{
  Request, or_else, and_then, non_empty, extract_token_from_cookie, extract_csrf_from_cookie,
  extract_bearer_token,
}

pub record AuthUser : Type 0 where
  pub id : ℕ
  pub username : Text
  pub is_admin : Bool
  pub role : ℕ
  pub is_guest : Bool

pub data Refusal : Type 0 where
  not_logged_in malformed csrf_mismatch kicked expired authentication_failed internal : Refusal
  not_approved : Refusal

pub data Verdict : Type 0 where
  passed : AuthUser → Verdict
  refused : Refusal → Verdict

unfoldable pub equal_texts : Option Text → Option Text → Bool
equal_texts (some h) (some c) = h =? c
equal_texts _ _ = false

unfoldable pub csrf_header : Request → Option Text
unfolding non_empty trim
csrf_header r = and_then r.x_csrf_token (λ v. non_empty (trim v))

unfoldable pub csrf_guard : Request → Bool
unfolding equal_texts csrf_header extract_csrf_from_cookie extract_bearer_token is_some
csrf_guard r =
    if r.is_mutation && not (is_some (extract_bearer_token r))
    then equal_texts (csrf_header r) (extract_csrf_from_cookie r)
    else true

-- The row of a token, whatever its state: `(user, revoked, valid)`.
unfoldable pub select_detail :
    ℕ → Text → List (ℕ × User) → List TokenRow → Option (User × Bool × Bool)
unfolding lookup
select_detail now digest users [] = none
select_detail now digest users (r ∷ rs) =
    let rest = select_detail now digest users rs in
    if r.token_hash =? digest
    then and_then (lookup r.user_id users) (λ u. some (u, r.revoked, ltb now r.expires_at))
    else rest

unfoldable pub auth_user : User → AuthUser
auth_user u = record {
  id = u.id;
  username = u.username;
  is_admin = leb 3 u.role;
  role = u.role;
  is_guest = u.is_guest;
}

-- Why a token is refused that stands for nobody. An error of the query is `none`.
unfoldable pub why : Option (User × Bool × Bool) → Refusal
why (some (u, true, valid)) = kicked
why (some (u, false, false)) = expired
why (some (u, false, true)) = authentication_failed
why none = authentication_failed

unfoldable pub bearer_token : Request → Option Text
unfolding extract_bearer_token extract_token_from_cookie
bearer_token r = or_else (extract_bearer_token r) (extract_token_from_cookie r)

module _ (sha256 : Text → Text) where
  unfoldable pub find_token_detail : Bool → ℕ → Tables → Text → Option (User × Bool × Bool)
  unfolding is_valid_auth_token select_detail
  find_token_detail ok now t token =
      if is_valid_auth_token token && ok
      then select_detail now (sha256 token) t.users t.tokens
      else none

  -- `detail_ok` says whether the second query succeeds.
  unfoldable pub judge : Bool → Call → Tables → Text → Found → Verdict
  unfolding why find_token_detail auth_user
  judge detail_ok c t token failed = refused internal
  judge detail_ok c t token unknown = refused (why (find_token_detail detail_ok c.now t token))
  judge detail_ok c t token (known u) =
      if u.approved then passed (auth_user u) else refused not_approved

  unfoldable pub judged : Bool → Call → Tables → Text → View × Found → View × Verdict
  unfolding judge
  judged detail_ok c t token (w, f) = (w, judge detail_ok c t token f)

  unfoldable pub guarded : Bool → Call → Tables → Request → View → Text → View × Verdict
  unfolding judged find_user_by_token csrf_guard
  guarded detail_ok c t r v token =
      if csrf_guard r
      then judged detail_ok c t token (find_user_by_token sha256 c t token v)
      else (v, refused csrf_mismatch)

  unfoldable pub with_token : Bool → Call → Tables → Request → View → Text → View × Verdict
  unfolding guarded is_valid_auth_token
  with_token detail_ok c t r v token =
      if is_valid_auth_token token then guarded detail_ok c t r v token else (v, refused malformed)

  unfoldable pub bearer_auth : Bool → Call → Tables → Request → View → View × Verdict
  unfolding with_token bearer_token
  bearer_auth detail_ok c t r v = elim (bearer_token r) [
    | none ↦ (v, refused not_logged_in)
    | some token ↦ with_token detail_ok c t r v token
  ]

-- What the guards behind `bearer_auth` answer.
pub data Access : Type 0 where
  granted login_required forbidden : Access

module _ {Ip : Type 0} ⦃e : Eq Ip⦄ (parse : Text → Option Ip) where
  unfoldable pub listed : List Ip → Option Ip → Bool
  unfolding any
  listed whitelist none = false
  listed whitelist (some a) = any (λ b. b =? a) whitelist

  unfoldable pub ip_in_admin_whitelist : Text → List Ip → Bool
  unfolding listed
  ip_in_admin_whitelist ip [] = true
  ip_in_admin_whitelist ip (a ∷ whitelist) = listed (a ∷ whitelist) (parse ip)

  unfoldable pub admin_auth : Text → List Ip → Verdict → Access
  unfolding ip_in_admin_whitelist
  admin_auth ip whitelist (refused x) = login_required
  admin_auth ip whitelist (passed u) =
      if u.is_admin && ip_in_admin_whitelist ip whitelist then granted else forbidden

unfoldable pub role_auth : ℕ → Verdict → Access
role_auth min_role (refused x) = login_required
role_auth min_role (passed u) = if leb min_role u.role then granted else forbidden
