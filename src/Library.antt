-- ===== src/Library.antt =====
-- backend/src/repositories/video_repo.rs: the transaction that records an uploaded video and
-- charges its uploader. Each statement of the transaction may fail; what PostgreSQL promises of a
-- transaction is that nothing of it stays unless the commit succeeds. The unique index
-- uq_videos_uploader_file_hash refuses a second row of one uploader with one hash, and takes NULL
-- to differ from NULL.
pub mod Accounts
pub mod Deletion
pub mod Refunds
pub mod Merging
mod Tests
use lan_video.Prelude.{
  ℕ, suc, ◌+◌, ◌-◌, ◌^◌, min, Bool, true, false, not, ◌&&◌, ◌||◌, Option, none, some, List, [], ◌∷◌,
  ltb, ◌==◌, if◌then◌else◌, any,
}
use lan_video.Prelude.Assoc.{nat_Eq, lookup, insert}
use lan_video.Prelude.Texts.{Text, text_eq}

pub record VideoRow : Type 0 where
  pub id : ℕ
  pub uploader_id : Option ℕ
  pub file_hash : Option Text
  pub file_size : Option ℕ
  pub stream_url : Text

-- The tables `users` (only `storage_used_bytes`) and `videos`.
pub record Tables : Type 0 where
  pub storage_used : List (ℕ × ℕ)
  pub videos : List VideoRow
  pub next_id : ℕ

-- Which statements succeed.
pub record Statements : Type 0 where
  pub begin_ok : Bool
  pub select_ok : Bool
  pub insert_ok : Bool
  pub charge_ok : Bool
  pub commit_ok : Bool

pub data SaveVideoOutcome : Type 0 where
  saved : ℕ → SaveVideoOutcome
  duplicate quota_exceeded user_not_found : SaveVideoOutcome
  db_error : SaveVideoOutcome  -- `Err(sqlx::Error)`

abbrev pub i64_max : ℕ
i64_max = 2 ^ 63 - 1

-- `i64::saturating_add` at values that are not negative.
abbrev pub saturating_add : ℕ → ℕ → ℕ
saturating_add a b = min (a + b) i64_max

abbrev pub unwrap_or : Option ℕ → ℕ → ℕ
unwrap_or none d = d
unwrap_or (some n) d = n

over_quota : ℕ → ℕ → ℕ → Bool
over_quota quota used size = ltb 0 quota && ltb quota (saturating_add used size)

admit_user : ℕ → ℕ → Option ℕ → Option SaveVideoOutcome
unfolding over_quota
admit_user quota size none = some user_not_found
admit_user quota size (some used) = if over_quota quota used size then some quota_exceeded else none

-- The locked look at the uploader's account: the outcome that ends the transaction, if any.
admit : ℕ → Statements → Option ℕ → Option ℕ → Tables → Option SaveVideoOutcome
unfolding admit_user
admit quota ok none size t = none
admit quota ok (some uid) size t =
    if ok.select_ok
    then admit_user quota (unwrap_or size 0) (lookup uid t.storage_used)
    else some db_error

unfoldable pub same_number : Option ℕ → Option ℕ → Bool
same_number (some a) (some b) = a == b
same_number _ _ = false

same_text : Option Text → Option Text → Bool
same_text (some a) (some b) = text_eq a b
same_text _ _ = false

-- The unique index.
unfoldable pub violates_unique : Option ℕ → Option Text → List VideoRow → Bool
unfolding same_number same_text any
violates_unique uploader hash =
    any λ r. same_number r.uploader_id uploader && same_text r.file_hash hash

add_bytes : ℕ → ℕ → List (ℕ × ℕ) → List (ℕ × ℕ)
add_bytes uid size [] = []
add_bytes uid size ((u, used) ∷ us) =
    if u == uid then (u, used + size) ∷ add_bytes uid size us else (u, used) ∷ add_bytes uid size us

-- `UPDATE users`, for a size above 0: `none` if the statement fails.
charge : Statements → Option ℕ → Option ℕ → List (ℕ × ℕ) → Option (List (ℕ × ℕ))
unfolding add_bytes
charge ok (some uid) (some size) us =
    if ltb 0 size then (if ok.charge_ok then some (add_bytes uid size us) else none) else some us
charge ok _ _ us = some us

pub new_row : Tables → Option ℕ → Option Text → Option ℕ → Text → VideoRow
new_row t uploader hash size url = record {
  id = t.next_id;
  uploader_id = uploader;
  file_hash = hash;
  file_size = size;
  stream_url = url;
}

finish : Statements → Tables → VideoRow → Option (List (ℕ × ℕ)) → Tables × SaveVideoOutcome
finish ok t row none = (t, db_error)
finish ok t row (some us) =
    if ok.commit_ok
    then (
      record { storage_used = us; videos = row ∷ t.videos; next_id = suc t.next_id },
      saved row.id,
    )
    else (t, db_error)

insert_row :
    Statements → Tables → Option ℕ → Option Text → Option ℕ → Text → Tables × SaveVideoOutcome
unfolding violates_unique charge new_row finish
insert_row ok t uploader hash size url =
    if ok.insert_ok
    then (if violates_unique uploader hash t.videos
        then (t, duplicate)
        else finish ok t (new_row t uploader hash size url)
            (charge ok uploader size t.storage_used))
    else (t, db_error)

unfoldable pub save_local_video_with_quota :
    ℕ → Statements → Option ℕ → Option Text → Option ℕ → Text → Tables → Tables × SaveVideoOutcome
unfolding admit insert_row
save_local_video_with_quota quota ok uploader hash size url t =
    if ok.begin_ok
    then elim (admit quota ok uploader size t) [
      | some outcome ↦ (t, outcome)
      | none ↦ insert_row ok t uploader hash size url
    ]
    else (t, db_error)

-- `find_video_by_file_hash`: the id of the uploader's row with this hash.
unfoldable pub find_video_by_file_hash : ℕ → Text → List VideoRow → Option ℕ
unfolding same_number same_text
find_video_by_file_hash uploader hash [] = none
find_video_by_file_hash uploader hash (r ∷ rs) =
    if same_number r.uploader_id (some uploader) && same_text r.file_hash (some hash)
    then some r.id
    else find_video_by_file_hash uploader hash rs
