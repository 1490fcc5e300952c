-- ===== src/Sessions.antt =====
-- Which user a token stands for: `find_user_by_token` of backend/src/repositories/user_repo.rs with
-- its cache, and `resolve_media_user` of backend/src/middleware/auth/media.rs with two more, one in
-- the process and one in Redis. SHA-256 in hexadecimal is a parameter. A call takes no time, and an
-- instant is a number of nanoseconds. What Redis keeps of a user is its fields.
pub mod Staleness
pub mod Runs
pub mod Bounded
pub mod SignOut
pub mod Lasting
mod Tests
use lan_video.Prelude.{
  ℕ, suc, ◌+◌, ◌*◌, ltb, leb, ◌==◌, Bool, true, false, not, ◌&&◌, ◌||◌, Option, none, some, List,
  [], ◌∷◌, length, all, any, if◌then◌else◌,
}
use lan_video.Prelude.Assoc.{◌=?◌, nat_Eq, lookup, insert, remove, retain}
use lan_video.Prelude.Texts.{Text, text_Eq}

pub record User : Type 0 where
  pub id : ℕ
  pub username : Text
  pub role : ℕ
  pub approved : Bool
  pub is_guest : Bool

-- A row of `auth_tokens`.
pub record TokenRow : Type 0 where
  pub user_id : ℕ
  pub token_hash : Text
  pub expires_at : ℕ
  pub revoked : Bool

pub record Tables : Type 0 where
  pub tokens : List TokenRow
  pub users : List (ℕ × User)

-- `CachedAuthUser`.
pub record CachedAuthUser : Type 0 where
  pub user_id : ℕ
  pub username : Text
  pub is_admin : Bool

-- A value of a cache, and when it was put there.
pub record Entry {ℓ} (V : Type ℓ) : Type ℓ where
  pub value : V
  pub since : ℕ

-- TOKEN_CACHE and MEDIA_AUTH_CACHE of one process, with the keys `media:auth:...` and
-- `media:auth:user:...` of the Redis that the processes share.
pub record View : Type 0 where
  pub token_cache : List (Text × Entry User)
  pub media_cache : List (Text × Entry CachedAuthUser)
  pub redis : List (Text × Entry CachedAuthUser)
  pub user_tokens : List (ℕ × Entry (List Text))

-- The instant of a call, and what works: the database, and Redis where it is configured.
pub record Call : Type 0 where
  pub now : ℕ
  pub db_ok : Bool
  pub get_ok : Bool
  pub put_ok : Bool

-- TOKEN_CACHE_TTL_SECS and MEDIA_AUTH_CACHE_TTL_SECS, in nanoseconds.
abbrev pub token_cache_ttl : ℕ
token_cache_ttl = 10000000000

abbrev pub media_auth_cache_ttl : ℕ
media_auth_cache_ttl = 10000000000

unfoldable pub is_ascii_alphanumeric : ℕ → Bool
is_ascii_alphanumeric c =
    (leb b'0' c && leb c b'9') || ((leb b'A' c && leb c b'Z') || (leb b'a' c && leb c b'z'))

unfoldable pub is_valid_auth_token : Text → Bool
unfolding all is_ascii_alphanumeric
is_valid_auth_token token = length token == 64 && all is_ascii_alphanumeric token

-- A cache entry that is not past its time.
unfoldable pub live {ℓ} : {V : Type ℓ} → ℕ → ℕ → Option (Entry V) → Option V
live now ttl none = none
live now ttl (some e) = if ltb now (e.since + ttl) then some e.value else none

unfoldable pub peek {ℓ} : {V : Type ℓ} → ℕ → ℕ → Text → List (Text × Entry V) → Option V
unfolding live lookup
peek now ttl k m = live now ttl (lookup k m)

abbrev pub stamp {ℓ} : {V : Type ℓ} → ℕ → V → Entry V
stamp now v = record { value = v; since = now }

-- The join of `auth_tokens` and `users`.
unfoldable pub select_user : ℕ → Text → List (ℕ × User) → List TokenRow → Option User
unfolding lookup
select_user now digest users [] = none
select_user now digest users (r ∷ rs) =
    if (r.token_hash =? digest) && (ltb now r.expires_at && not r.revoked)
    then lookup r.user_id users
    else select_user now digest users rs

-- `Result<Option<UserRow>, sqlx::Error>`.
pub data Found : Type 0 where
  failed unknown : Found
  known : User → Found

-- `MediaAuthResult`: `denied` for an error of the database, `disabled` for an account that is not
-- approved.
pub data MediaAuthResult : Type 0 where
  authorized : CachedAuthUser → MediaAuthResult
  pass denied disabled : MediaAuthResult

unfoldable pub cached_user : User → CachedAuthUser
cached_user u = record { user_id = u.id; username = u.username; is_admin = leb 3 u.role }

-- The tokens that are registered for a user.
unfoldable pub members : ℕ → Option (Entry (List Text)) → List Text
unfolding live
members now o = elim (live now media_auth_cache_ttl o) [ none ↦ [] | some ts ↦ ts ]

unfoldable pub remember : ℕ → Text → Option User → View → View × Found
unfolding insert
remember now token none v = (v, unknown)
remember now token (some u) v =
    (record v { token_cache = insert token (stamp now u) v.token_cache }, known u)

unfoldable pub keep_local : ℕ → Text → CachedAuthUser → View → View
unfolding insert
keep_local now token u v = record v { media_cache = insert token (stamp now u) v.media_cache }

unfoldable pub media_auth_cache_put_redis : Call → Text → CachedAuthUser → View → View
unfolding insert members lookup
media_auth_cache_put_redis c token u v =
    if c.put_ok
    then record v {
      redis = insert token (stamp c.now u) v.redis;
      user_tokens =
          insert u.user_id (stamp c.now (token ∷ members c.now (lookup u.user_id v.user_tokens)))
            v.user_tokens;
    }
    else v

unfoldable pub admit_found : Call → Text → View × Found → View × MediaAuthResult
unfolding keep_local media_auth_cache_put_redis cached_user
admit_found c token (v, failed) = (v, denied)
admit_found c token (v, unknown) = (v, pass)
admit_found c token (v, known u) =
    if u.approved
    then (
      media_auth_cache_put_redis c token (cached_user u) (keep_local c.now token (cached_user u) v),
      authorized (cached_user u),
    )
    else (v, disabled)

-- `media_auth_cache_get_redis`: a failure is a miss.
unfoldable pub media_auth_cache_get_redis : Call → Text → View → Option CachedAuthUser
unfolding peek
media_auth_cache_get_redis c token v =
    if c.get_ok then peek c.now media_auth_cache_ttl token v.redis else none

-- `sha256` is what the source computes of a token before it looks into the table.
module _ (sha256 : Text → Text) where
  unfoldable pub query_user : ℕ → Text → Tables → Option User
  unfolding select_user
  query_user now token t = select_user now (sha256 token) t.users t.tokens

  unfoldable pub query_and_remember : Call → Tables → Text → View → View × Found
  unfolding remember query_user
  query_and_remember c t token v =
      if c.db_ok then remember c.now token (query_user c.now token t) v else (v, failed)

  unfoldable pub try_cached : Call → Tables → Text → Option User → View → View × Found
  unfolding query_and_remember
  try_cached c t token (some u) v = (v, known u)
  try_cached c t token none v = query_and_remember c t token v

  unfoldable pub find_user_by_token : Call → Tables → Text → View → View × Found
  unfolding try_cached is_valid_auth_token peek
  find_user_by_token c t token v =
      if is_valid_auth_token token
      then try_cached c t token (peek c.now token_cache_ttl token v.token_cache) v
      else (v, unknown)

  unfoldable pub from_redis :
      Call → Tables → Text → Option CachedAuthUser → View → View × MediaAuthResult
  unfolding keep_local admit_found find_user_by_token
  from_redis c t token (some u) v = (keep_local c.now token u v, authorized u)
  from_redis c t token none v = admit_found c token (find_user_by_token c t token v)

  unfoldable pub from_local :
      Call → Tables → Text → Option CachedAuthUser → View → View × MediaAuthResult
  unfolding from_redis media_auth_cache_get_redis
  from_local c t token (some u) v = (v, authorized u)
  from_local c t token none v = from_redis c t token (media_auth_cache_get_redis c token v) v

  unfoldable pub resolve_media_user : Call → Tables → Text → View → View × MediaAuthResult
  unfolding from_local peek
  resolve_media_user c t token v =
      from_local c t token (peek c.now media_auth_cache_ttl token v.media_cache) v

-- The caches of `delete_token`, at a sign-out.
unfoldable pub forget_token : Text → View → View
unfolding remove is_valid_auth_token
forget_token token v =
    if is_valid_auth_token token then record v { token_cache = remove token v.token_cache } else v

unfoldable pub invalidate_media_auth_token : Call → Text → View → View
unfolding remove
invalidate_media_auth_token c token v = record v {
  media_cache = remove token v.media_cache;
  redis = if c.put_ok then remove token v.redis else v.redis;
}

-- The caches of `revoke_tokens_by_user_id` and of the other calls that end the tokens of a user.
unfoldable pub invalidate_cached_tokens_for_user : ℕ → View → View
unfolding retain
invalidate_cached_tokens_for_user uid v = record v {
  token_cache = retain (λ e. not (e.value.id == uid)) v.token_cache;
}

unfoldable pub remove_all :
    List Text → List (Text × Entry CachedAuthUser) → List (Text × Entry CachedAuthUser)
unfolding remove
remove_all [] m = m
remove_all (k ∷ ks) m = remove_all ks (remove k m)

-- A failed SMEMBERS gives no members.
unfoldable pub invalidate_media_auth_user : Call → ℕ → View → View
unfolding remove_all remove lookup members
invalidate_media_auth_user c uid v =
    if c.put_ok
    then record v {
      redis =
          remove_all (if c.get_ok then members c.now (lookup uid v.user_tokens) else []) v.redis;
      user_tokens = remove uid v.user_tokens;
    }
    else v
