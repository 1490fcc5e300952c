-- ===== src/Shares.antt =====
-- Share links: backend/src/services/share_service.rs with backend/src/repositories/share_repo.rs. An
-- instant is a number of nanoseconds. The random token is an input, and SHA-256 a parameter.
pub mod Life
mod Tests
use lan_video.Prelude.{
  ℕ, suc, ◌+◌, ◌*◌, ◌==◌, ltb, Bool, true, false, not, ◌&&◌, ◌||◌, Option, none, some, List, [],
  ◌∷◌, any, retain, if◌then◌else◌, inl, inr, ◌⊎◌,
}
use lan_video.Prelude.Assoc.{◌=?◌}
use lan_video.Prelude.Texts.{Text, text_Eq}
use lan_video.Prelude.Cuts.{ℤ, pos, negsuc, int_Eq}
use lan_video.ServiceError.{ServiceError}
use lan_video.MediaAuth.{is_valid_share_token}
use lan_video.MediaAuth.Queries.{ShareLink, first, unexpired}

-- `share_links`, the next number of a row, and the numbers of the videos.
pub record Shares : Type 0 where
  pub links : List ShareLink
  pub next_id : ℕ
  pub videos : List ℤ

abbrev pub hour : ℕ
hour = 3600000000000

-- `days.clamp(1, 365)`.
unfoldable pub clamped_days : ℤ → ℕ
clamped_days (negsuc n) = 1
clamped_days (pos n) = if ltb n 1 then 1 else if ltb 365 n then 365 else n

unfoldable pub lifetime : Option ℤ → ℕ
unfolding clamped_days
lifetime none = 3 * hour
lifetime (some days) = clamped_days days * (24 * hour)

-- A number of rows says whether a deletion took place.
unfoldable pub delete_where : (ShareLink → Bool) → Shares → Shares × Bool
unfolding retain any
delete_where p s = (record s { links = retain (λ l. not (p l)) s.links }, any p s.links)

unfoldable pub found_or_missing : Shares × Bool → Shares × Option ServiceError
found_or_missing (s, true) = (s, none)
found_or_missing (s, false) = (s, some ServiceError.not_found)

-- `ok_or_else(|| ServiceError::not_found(..))`.
unfoldable pub found_link : Option ShareLink → ServiceError ⊎ ShareLink
found_link none = inl ServiceError.not_found
found_link (some l) = inr l

unfoldable pub revoke_my_share : ℕ → ℕ → Shares → Shares × Option ServiceError
unfolding found_or_missing delete_where
revoke_my_share share_id user_id s =
    found_or_missing (delete_where (λ l. l.id == share_id && l.user_id == user_id) s)

unfoldable pub delete_share_link : ℤ → ℕ → ℕ → Bool → Shares → Shares × Option ServiceError
unfolding found_or_missing delete_where
delete_share_link video_id share_id user_id is_admin s = found_or_missing (
    delete_where
      (λ l. l.id == share_id && (l.video_id =? video_id && (is_admin || l.user_id == user_id))) s)

unfoldable pub is_expired : ℕ → ShareLink → Bool
is_expired now l = elim l.expires_at [ none ↦ false | some t ↦ ltb t now ]

unfoldable pub cleanup_expired_links : ℕ → Shares → Shares
unfolding delete_where is_expired
cleanup_expired_links now s = (delete_where (is_expired now) s).0

module _ (sha256 : Text → Text) where
  abbrev pub new_link : ℕ → ℤ → ℕ → Option ℤ → Text → ℕ → ShareLink
  new_link now video_id user_id days token id = record {
    id = id;
    video_id = video_id;
    user_id = user_id;
    token_hash = sha256 token;
    expires_at = some (now + lifetime days);
  }

  -- No row for a video that is not there, which is an error (`RowNotFound`), here none.
  unfoldable pub create_share_link :
      ℕ → ℤ → ℕ → Option ℤ → Text → Shares → Shares × Option ShareLink
  unfolding any lifetime
  create_share_link now video_id user_id days token s =
      if any (λ v. v =? video_id) s.videos
      then (
        record s {
          links = new_link now video_id user_id days token s.next_id ∷ s.links;
          next_id = suc s.next_id;
        },
        some (new_link now video_id user_id days token s.next_id),
      )
      else (s, none)

  unfoldable pub open_link : ℕ → Text → Shares → Option ShareLink
  unfolding first unexpired
  open_link now token s =
      first (λ l. l.token_hash =? sha256 token && unexpired now l.expires_at) s.links

  unfoldable pub get_share_video : ℕ → Text → Shares → ServiceError ⊎ ShareLink
  unfolding is_valid_share_token open_link found_link
  get_share_video now token s =
      if is_valid_share_token token
      then found_link (open_link now token s)
      else inl ServiceError.bad_request
