-- ===== src/Library/Deletion.antt =====
-- What ends or adds a row beside the uploads: `batch_delete_videos`, `delete_video_cascade` and
-- `save_external_video` of backend/src/repositories/video_repo.rs. Each statement may fail. As in
-- PostgreSQL, SUM is NULL where it meets no number, and GREATEST passes over NULL.
use lan_video.Prelude.{
  ℕ, suc, ◌+◌, ◌-◌, Bool, not, ◌&&◌, Option, none, some, List, [], ◌∷◌, map, any, all, retain,
  length, ltb, ◌==◌, if◌then◌else◌,
}
use lan_video.Prelude.Texts.{Text}
use lan_video.Library.{VideoRow, Tables, same_number}

-- The statements of the deletion.
pub data Statement : Type 0 where
  begin history likes favorites comments tags refund videos commit : Statement

unfoldable pub is_listed : List ℕ → VideoRow → Bool
unfolding any
is_listed ids r = any (λ i. i == r.id) ids

unfoldable pub is_refunded : ℕ → List ℕ → VideoRow → Bool
unfolding is_listed same_number
is_refunded uid ids r = same_number r.uploader_id (some uid) && is_listed ids r

abbrev pub add_size : Option ℕ → Option ℕ → Option ℕ
add_size none s = s
add_size (some n) none = some n
add_size (some n) (some m) = some (n + m)

-- `SUM(file_size)` of a group.
unfoldable pub total_bytes : ℕ → List ℕ → List VideoRow → Option ℕ
unfolding is_refunded
total_bytes uid ids [] = none
total_bytes uid ids (r ∷ rs) =
    let rest = total_bytes uid ids rs in
    if is_refunded uid ids r then add_size r.file_size rest else rest

-- `GREATEST(0, used - total)`.
unfoldable pub lowered : ℕ → Option ℕ → ℕ
lowered used none = 0
lowered used (some n) = used - n

unfoldable pub refund_account : List ℕ → List VideoRow → ℕ × ℕ → ℕ × ℕ
unfolding any is_refunded lowered total_bytes
refund_account ids rs (uid, used) =
    if any (is_refunded uid ids) rs
    then (uid, lowered used (total_bytes uid ids rs))
    else (uid, used)

abbrev pub steps : List Statement
steps = begin ∷ history ∷ likes ∷ favorites ∷ comments ∷ tags ∷ refund ∷ videos ∷ commit ∷ []

unfoldable pub without_listed : List ℕ → Tables → Tables
unfolding refund_account retain is_listed
without_listed ids t = record t {
  storage_used = map (refund_account ids t.videos) t.storage_used;
  videos = retain (λ r. not (is_listed ids r)) t.videos;
}

-- The number of rows that went, or none for an error.
unfoldable pub batch_delete_videos : (Statement → Bool) → List ℕ → Tables → Tables × Option ℕ
unfolding all without_listed retain is_listed
batch_delete_videos works [] t = (t, some 0)
batch_delete_videos works (i ∷ ids) t =
    if all works steps
    then (without_listed (i ∷ ids) t, some (length (retain (is_listed (i ∷ ids)) t.videos)))
    else (t, none)

abbrev at_least_one : Tables × Option ℕ → Tables × Option Bool
at_least_one (t, none) = (t, none)
at_least_one (t, some n) = (t, some (ltb 0 n))

unfoldable pub delete_video_cascade : (Statement → Bool) → ℕ → Tables → Tables × Option Bool
unfolding batch_delete_videos
delete_video_cascade works id t = at_least_one (batch_delete_videos works (id ∷ []) t)

-- The row has no hash and no size.
unfoldable pub save_external_video : Bool → Option ℕ → Text → Tables → Tables × Option ℕ
save_external_video ok uploader url t =
    if ok
    then (
      record t {
        videos =
            record {
              id = t.next_id;
              uploader_id = uploader;
              file_hash = none;
              file_size = none;
              stream_url = url;
            }
            ∷ t.videos;
        next_id = suc t.next_id;
      },
      some t.next_id,
    )
    else (t, none)
