-- ===== src/Upload/Outcomes.antt =====
-- How storing a complete upload can end.
use lan_video.Prelude.{
  ℕ, ◌≡◌, ◌≢◌, refl, sym, ap, ◌∙◌, ◌⊎◌, inl, inr, Bool, true, false, Option, none, some, ◌∷◌, ◌++◌,
  Bool-cases,
}
use lan_video.Prelude.Texts.{Text}
use lan_video.ServiceError.{ServiceError}
use lan_video.Library.{
  Tables, SaveVideoOutcome, saved, duplicate, quota_exceeded, user_not_found, db_error,
  save_local_video_with_quota, find_video_by_file_hash,
}
use lan_video.Library.Accounts.{save_atomic}
use lan_video.Upload.{Sha256, FileTypes, Io, Disk}
use lan_video.Upload.Store.{
  Stored, stored, refused, remove_tmp, remove_dest, cleanup_upload_temp, media_prefix, conclude,
  move_and_save, check_type, check_duplicate, store_file, upload_video_file_inner,
  validate_category, measure,
}

-- The tables are as they were, and so is the media folder, but for the file that was moved there if
-- its removal fails.
abbrev pub Kept : Io → Disk → Disk → Type 0
Kept io d d' =
    (d'.tables ≡ d.tables)
    × ((d'.media ≡ d.media)
        ⊎ ((io.remove_dest_ok ≡ false)
            × ((bytes : Text) × (d'.media ≡ (io.dest_name, bytes) ∷ d.media))))

-- Refused: nothing is published, and the temporary file is gone or as it was.
pub record Refusal (io : Io) (d : Disk) (r : Disk × Stored) : Type 0 where
  pub error : ServiceError
  pub answers : r.1 ≡ refused error
  pub kept : Kept io d r.0
  pub tmp_kept : (r.0.tmp ≡ none) ⊎ (r.0.tmp ≡ d.tmp)

module _ (quota : ℕ) (io : Io) (uploader size : ℕ) (hash : Text) (d : Disk) where
  abbrev pub save_it : Tables × SaveVideoOutcome
  save_it =
      save_local_video_with_quota quota io.statements (some uploader) (some hash) (some size)
        (media_prefix ++ io.dest_name) d.tables

  -- Stored: the temporary file has become a media file, and its row has the id that is answered.
  pub record Storage (r : Disk × Stored) : Type 0 where
    pub bytes : Text
    pub id : ℕ
    pub tables : Tables
    pub from_tmp : d.tmp ≡ some bytes
    pub row_saved : save_it ≡ (tables, saved id)
    pub result : r ≡ (
      record { tmp = none; media = (io.dest_name, bytes) ∷ d.media; tables = tables },
      stored id,
    )

  abbrev pub Stores : Disk × Stored → Type 0
  Stores r = Storage r ⊎ Refusal io d r

  -- The tables of a refusal are those from before.
  unsaved :
      (t : Tables) (o : SaveVideoOutcome)
      → save_it ≡ (t, o)
      → ((id : ℕ) → o ≢ saved id)
      → t ≡ d.tables
  unsaved t o f n =
      elim (save_atomic quota io.statements (some uploader) (some hash) (some size)
        (media_prefix ++ io.dest_name) d.tables) [
          | inl (e, _, _) ↦ absurd (n d.tables.next_id (sym (ap (λ q. q.1) f) ∙ e))
          | inr (e, _) ↦ sym (ap (λ q. q.0) f) ∙ e
        ]

  dest-Refusal :
      (bytes : Text) (t : Tables) (e : ServiceError)
      → t ≡ d.tables
      → Refusal io d (remove_dest io bytes (record d { tables = t }), refused e)
  unfolding remove_dest
  dest-Refusal bytes t e f = elim (Bool-cases io.remove_dest_ok) [
    | inl b ↦
        simp b (record { error = e; answers = refl; kept = (f, inl refl); tmp_kept = inl refl })
    | inr b ↦ simp b (record {
      error = e;
      answers = refl;
      kept = (f, inr (b, (bytes, refl)));
      tmp_kept = inl refl;
    })
  ]

  conclude-Stores :
      (bytes : Text) (p : Tables × SaveVideoOutcome)
      → d.tmp ≡ some bytes
      → save_it ≡ p
      → Stores (conclude io bytes d p)
  unfolding conclude
  conclude-Stores bytes (t, saved id) e f =
      inl
        (record { bytes = bytes; id = id; tables = t; from_tmp = e; row_saved = f; result = refl })
  conclude-Stores bytes (t, duplicate) e f =
      inr (dest-Refusal bytes t ServiceError.duplicate (unsaved t _ f λ i n. cc n))
  conclude-Stores bytes (t, quota_exceeded) e f =
      inr (dest-Refusal bytes t ServiceError.quota_exceeded (unsaved t _ f λ i n. cc n))
  conclude-Stores bytes (t, user_not_found) e f =
      inr (dest-Refusal bytes t ServiceError.internal (unsaved t _ f λ i n. cc n))
  conclude-Stores bytes (t, db_error) e f =
      inr (dest-Refusal bytes t ServiceError.internal (unsaved t _ f λ i n. cc n))

  kept-Refusal : (e : ServiceError) → Refusal io d (d, refused e)
  kept-Refusal e = record {
    error = e;
    answers = refl;
    kept = (refl, inl refl);
    tmp_kept = inr refl;
  }

  removed-Refusal : (e : ServiceError) → Refusal io d (remove_tmp io d, refused e)
  unfolding remove_tmp
  removed-Refusal e = elim (Bool-cases io.remove_ok) [
    | inl b ↦
        simp b (record { error = e; answers = refl; kept = (refl, inl refl); tmp_kept = inl refl })
    | inr b ↦ simp b (kept-Refusal e)
  ]

  cleanup-Refusal :
      (keep : Bool) (e : ServiceError) → Refusal io d (cleanup_upload_temp io keep d, refused e)
  unfolding cleanup_upload_temp
  cleanup-Refusal true e = kept-Refusal e
  cleanup-Refusal false e = removed-Refusal e

  module _ (h : Sha256) (types : FileTypes) (keep : Bool) (name : Text) where
    move_and_save-Stores :
        (bytes : Text)
        → d.tmp ≡ some bytes
        → Stores (move_and_save h types quota io keep uploader hash size bytes d)
    unfolding move_and_save
    move_and_save-Stores bytes e = elim (Bool-cases io.sync_ok) [
      | inr b ↦ simp b (inr (cleanup-Refusal keep ServiceError.internal))
      | inl b ↦ simp b (elim (Bool-cases io.rename_ok) [
        | inr c ↦ simp c (inr (cleanup-Refusal keep ServiceError.internal))
        | inl c ↦ simp c (conclude-Stores bytes save_it e refl)
      ])
    ]

    check_type-Stores :
        (tmp : Option Text)
        → d.tmp ≡ tmp
        → Stores (check_type h types quota tmp io keep name uploader hash size d)
    unfolding check_type
    check_type-Stores none e = elim (Bool-cases io.check_ok) [
      | inl b ↦ simp b (inr (removed-Refusal ServiceError.bad_request))
      | inr b ↦ simp b (inr (kept-Refusal ServiceError.internal))
    ]
    check_type-Stores (some bytes) e = elim (Bool-cases io.check_ok) [
      | inr b ↦ simp b (inr (kept-Refusal ServiceError.internal))
      | inl b ↦ simp b (elim (Bool-cases (types.accepts name bytes)) [
        | inl c ↦ simp c (move_and_save-Stores bytes e)
        | inr c ↦ simp c (inr (removed-Refusal ServiceError.bad_request))
      ])
    ]

    check_duplicate-Stores :
        (o : Option ℕ) → Stores (check_duplicate h types quota o io keep name uploader hash size d)
    unfolding check_duplicate
    check_duplicate-Stores (some id) = inr (removed-Refusal ServiceError.duplicate)
    check_duplicate-Stores none = check_type-Stores d.tmp refl

    -- Storing a file of known size and hash publishes exactly the bytes of the temporary file under
    -- a row that the database has saved, or publishes nothing.
    pub upload_video_file_inner-Stores :
        (category : Text)
        → Stores (
            upload_video_file_inner h types quota io keep name category uploader
              (some (size, hash))
              d)
    unfolding upload_video_file_inner store_file measure
    upload_video_file_inner-Stores category = elim (Bool-cases (validate_category category)) [
      | inr b ↦ simp b (inr (removed-Refusal ServiceError.bad_request))
      | inl b ↦ simp b (elim (Bool-cases io.query_ok) [
        | inr c ↦ simp c (inr (cleanup-Refusal keep ServiceError.internal))
        | inl c ↦
            simp c (check_duplicate-Stores (find_video_by_file_hash uploader hash d.tables.videos))
      ])
    ]
