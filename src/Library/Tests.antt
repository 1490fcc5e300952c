-- ===== src/Library/Tests.antt =====
-- The transaction at chosen inputs.
use lan_video.Prelude.{ℕ, ◌≡◌, refl, sym, ap, ◌∙◌, arith, ◌+◌, Bool, all, true, some, [], ◌∷◌}
use lan_video.Prelude.Assoc.{nat_Eq, lookup}
use lan_video.Library.{Tables, Statements, VideoRow, violates_unique, same_number}
use lan_video.Library.Accounts.{IsValid, WithinQuota, save, save-IsValid, save-WithinQuota, total}
use lan_video.Library.Deletion.{
  steps, Statement, batch_delete_videos, delete_video_cascade, save_external_video,
}
use lan_video.Library.Refunds.{AllSized, batch_delete_videos-IsValid, save_external_video-forgets}
use lan_video.Library.Merging.{
  merge_guest_into_user, is_unique, handed_over, merge_guest_into_user-Uncharged,
}

abbrev all_ok : Statements
all_ok = record {
  begin_ok = true;
  select_ok = true;
  insert_ok = true;
  charge_ok = true;
  commit_ok = true;
}

abbrev clip : VideoRow
clip = record {
  id = 4;
  uploader_id = some 7;
  file_hash = some (10 ∷ 11 ∷ []);
  file_size = some 60;
  stream_url = 1 ∷ [];
}

-- One uploader with one video of 60 bytes.
abbrev one_clip : Tables
one_clip = record { storage_used = (7, 60) ∷ []; videos = clip ∷ []; next_id = 5 }

account_of_clip :
    (uid used : ℕ) → lookup uid one_clip.storage_used ≡ some used → (uid ≡ 7) × (used ≡ 60)
unfolding lookup
account_of_clip uid used e = ground arith

one_clip-IsValid : IsValid one_clip
unfolding violates_unique total
one_clip-IsValid = record {
  accounts = λ uid used e.
      let (u, n) = account_of_clip uid used e in n ∙ sym (ap (λ x. total x one_clip.videos) u);
  distinct = (refl, tt);
  fresh = omega arith;
}

abbrev saved_tables : Tables
saved_tables = (save 100 all_ok (some 7) (some (12 ∷ [])) (some 40) (2 ∷ []) one_clip).0

save-IsValid_example : IsValid saved_tables
save-IsValid_example =
    save-IsValid 100 all_ok (some 7) (some (12 ∷ [])) (some 40) (2 ∷ []) one_clip one_clip-IsValid

save-WithinQuota_example : WithinQuota 100 saved_tables
save-WithinQuota_example =
    save-WithinQuota 100 all_ok (some 7) (some (12 ∷ [])) (some 40) (2 ∷ []) one_clip (omega arith)
      (omega arith) λ uid used e. omega (arith, account_of_clip uid used e)

abbrev always : Statement → Bool
always s = true

one_clip_sized : AllSized one_clip.videos
one_clip_sized = (λ n. cc n, tt)

one_clip_used : lookup 7 one_clip.storage_used ≡ some 60
unfolding lookup
one_clip_used = refl

all_succeed : all always steps ≡ true
unfolding all
all_succeed = refl

-- The uploader is a guest, and the account 2 has no video.
abbrev guest_clip : Tables
guest_clip = record one_clip { storage_used = (2, 0) ∷ (7, 60) ∷ [] }

guest_merged : (merge_guest_into_user true true 7 2 guest_clip).1 ≡ true
unfolding merge_guest_into_user is_unique handed_over same_number violates_unique
guest_merged = refl

batch_delete_videos-IsValid_example : IsValid (batch_delete_videos always (4 ∷ 4 ∷ []) one_clip).0
batch_delete_videos-IsValid_example =
    batch_delete_videos-IsValid always (4 ∷ 4 ∷ []) one_clip one_clip_sized one_clip-IsValid

save_external_video-forgets_example :
    lookup 7
      (delete_video_cascade always 5
        (save_external_video true (some 7) (3 ∷ []) one_clip).0).0.storage_used
    ≡ some 0
save_external_video-forgets_example =
    save_external_video-forgets always 7 60 (3 ∷ []) one_clip one_clip-IsValid all_succeed
      one_clip_used

merge_guest_into_user-Uncharged_example :
    let t' = (merge_guest_into_user true true 7 2 guest_clip).0 in
    (lookup 2 t'.storage_used ≡ lookup 2 guest_clip.storage_used)
    × (total 2 t'.videos ≡ total 2 guest_clip.videos + total 7 guest_clip.videos)
merge_guest_into_user-Uncharged_example =
    merge_guest_into_user-Uncharged 7 2 guest_clip true true (λ e. omega (arith, e)) guest_merged
