-- ===== src/Library/Merging.antt =====
-- What `merge_guest_into_user` of backend/src/repositories/user_repo.rs does to the videos and the
-- accounts: the videos go to the account that was signed in to, and the row of the guest goes.
use lan_video.Prelude.{
  ℕ, ◌+◌, ◌≡◌, ◌≢◌, refl, ◌∙◌, Bool, true, false, not, ◌&&◌, some, List, [], ◌∷◌, map, arith,
  if◌then◌else◌, Bool-cases, inl, inr,
}
use lan_video.Prelude.Assoc.{nat_Eq, lookup, remove, lookup-remove}
use lan_video.Library.{VideoRow, Tables, same_number, violates_unique}
use lan_video.Library.Accounts.{total, row_bytes}

unfoldable pub handed_over : ℕ → ℕ → VideoRow → VideoRow
unfolding same_number
handed_over guest target r =
    if same_number r.uploader_id (some guest) then record r { uploader_id = some target } else r

-- The unique index, over all rows.
unfoldable pub is_unique : List VideoRow → Bool
unfolding violates_unique
is_unique [] = true
is_unique (r ∷ rs) = not (violates_unique r.uploader_id r.file_hash rs) && is_unique rs

-- `works` says whether the other statements of the transaction succeed; nothing stays of one that
-- fails. The two accounts have different names.
unfoldable pub merge_guest_into_user : Bool → Bool → ℕ → ℕ → Tables → Tables × Bool
unfolding handed_over is_unique
merge_guest_into_user works is_guest guest target t =
    let rows = map (handed_over guest target) t.videos in
    if works && is_unique rows
    then (
      record t {
        storage_used = if is_guest then remove guest t.storage_used else t.storage_used;
        videos = rows;
      },
      true,
    )
    else (t, false)

total-handed_over :
    (guest target : ℕ) (rs : List VideoRow)
    → guest ≢ target
    → total target (map (handed_over guest target) rs) ≡ total target rs + total guest rs
unfolding total row_bytes handed_over
total-handed_over guest target [] n = omega arith
total-handed_over guest target (r ∷ rs) n = ground (arith, total-handed_over guest target rs)

-- The bytes of a guest are lost to the account. Where the merge goes through, the videos of the account
-- grow by all bytes of the guest's, and what the account has used stays as it was: the quota no longer
-- counts them.
pub merge_guest_into_user-Uncharged :
    (guest target : ℕ) (t : Tables) (works is_guest : Bool)
    → guest ≢ target
    → (merge_guest_into_user works is_guest guest target t).1 ≡ true
    → let t' = (merge_guest_into_user works is_guest guest target t).0 in
      (lookup target t'.storage_used ≡ lookup target t.storage_used)
      × (total target t'.videos ≡ total target t.videos + total guest t.videos)
unfolding merge_guest_into_user
merge_guest_into_user-Uncharged guest target t works is_guest n h =
    elim (Bool-cases (works && is_unique (map (handed_over guest target) t.videos))) [
      | inl e ↦ rw e (left_alone is_guest, total-handed_over guest target t.videos n)
      | inr e ↦ absurd (let x = rw e at h in cc x)
    ]
  where
    left_alone :
        (b : Bool)
        → lookup target (if b then remove guest t.storage_used else t.storage_used)
          ≡ lookup target t.storage_used
    left_alone true = lookup-remove guest target t.storage_used ∙ ground arith
    left_alone false = refl
