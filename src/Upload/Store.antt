-- ===== src/Upload/Store.antt =====
-- `upload_video_file_inner` of mod.rs: a complete temporary file becomes a video.
use lan_video.Prelude.{
  ℕ, Bool, not, ◌&&◌, ◌||◌, Option, none, some, [], ◌∷◌, ◌++◌, ltb, leb, ◌==◌, if◌then◌else◌, any,
  length,
}
use lan_video.Prelude.Texts.{Text}
use lan_video.ServiceError.{ServiceError}
use lan_video.Library.{
  Tables, SaveVideoOutcome, saved, duplicate, quota_exceeded, user_not_found, db_error,
  save_local_video_with_quota, find_video_by_file_hash,
}
use lan_video.Upload.{Sha256, FileTypes, Io, Disk}

abbrev pub max_category_chars : ℕ
max_category_chars = 32

-- `char::is_control`, or a separator of paths.
forbidden_char : ℕ → Bool
forbidden_char c = ltb c 32 || (leb 127 c && leb c 159) || c == b'/' || c == b'\\'

unfoldable pub validate_category : Text → Bool
unfolding forbidden_char any
validate_category category =
    leb (length category) max_category_chars && not (any forbidden_char category)

pub data Stored : Type 0 where
  stored : ℕ → Stored
  refused : ServiceError → Stored

-- `let _ = remove_file(temp)`: a failure is passed over.
unfoldable pub remove_tmp : Io → Disk → Disk
remove_tmp io d = if io.remove_ok then record d { tmp = none } else d

-- `cleanup_upload_temp`.
unfoldable pub cleanup_upload_temp : Io → Bool → Disk → Disk
unfolding remove_tmp
cleanup_upload_temp io keep d = if keep then d else remove_tmp io d

unfoldable pub media_prefix : Text
media_prefix = b'/' ∷ b'm' ∷ b'e' ∷ b'd' ∷ b'i' ∷ b'a' ∷ b'/' ∷ []

-- The file was moved to its place and is removed again, without a look at whether that works.
unfoldable pub remove_dest : Io → Text → Disk → Disk
remove_dest io bytes d =
    if io.remove_dest_ok
    then record d { tmp = none }
    else record d { tmp = none; media = (io.dest_name, bytes) ∷ d.media }

-- The file was moved to its place, and the database has answered.
unfoldable pub conclude : Io → Text → Disk → Tables × SaveVideoOutcome → Disk × Stored
unfolding remove_dest
conclude io bytes d (t, saved id) =
    (record { tmp = none; media = (io.dest_name, bytes) ∷ d.media; tables = t }, stored id)
conclude io bytes d (t, duplicate) =
    (remove_dest io bytes (record d { tables = t }), refused ServiceError.duplicate)
conclude io bytes d (t, quota_exceeded) =
    (remove_dest io bytes (record d { tables = t }), refused ServiceError.quota_exceeded)
conclude io bytes d (t, user_not_found) =
    (remove_dest io bytes (record d { tables = t }), refused ServiceError.internal)
conclude io bytes d (t, db_error) =
    (remove_dest io bytes (record d { tables = t }), refused ServiceError.internal)

module _ (h : Sha256) (types : FileTypes) (quota : ℕ) where
  -- From the sync on: `bytes` are those of the temporary file.
  unfoldable pub move_and_save : Io → Bool → ℕ → Text → ℕ → Text → Disk → Disk × Stored
  unfolding cleanup_upload_temp conclude
  move_and_save io keep uploader hash size bytes d =
      if io.sync_ok
      then (if io.rename_ok
          then conclude io bytes d (
              save_local_video_with_quota quota io.statements (some uploader) (some hash)
                (some size) (media_prefix ++ io.dest_name) d.tables)
          else (cleanup_upload_temp io keep d, refused ServiceError.internal))
      else (cleanup_upload_temp io keep d, refused ServiceError.internal)

  -- The check reads the temporary file; one that is gone is no file of a known type.
  unfoldable pub check_type : Option Text → Io → Bool → Text → ℕ → Text → ℕ → Disk → Disk × Stored
  unfolding remove_tmp move_and_save
  check_type none io keep name uploader hash size d =
      if io.check_ok
      then (remove_tmp io d, refused ServiceError.bad_request)
      else (d, refused ServiceError.internal)
  check_type (some bytes) io keep name uploader hash size d =
      if io.check_ok
      then (if types.accepts name bytes
          then move_and_save io keep uploader hash size bytes d
          else (remove_tmp io d, refused ServiceError.bad_request))
      else (d, refused ServiceError.internal)

  -- The answer of the query for a duplicate.
  unfoldable pub check_duplicate : Option ℕ → Io → Bool → Text → ℕ → Text → ℕ → Disk → Disk × Stored
  unfolding remove_tmp check_type
  check_duplicate (some id) io keep name uploader hash size d =
      (remove_tmp io d, refused ServiceError.duplicate)
  check_duplicate none io keep name uploader hash size d =
      check_type d.tmp io keep name uploader hash size d

  unfoldable pub store_file : Option (ℕ × Text) → Io → Bool → Text → ℕ → Disk → Disk × Stored
  unfolding cleanup_upload_temp check_duplicate
  store_file none io keep name uploader d = (d, refused ServiceError.internal)
  store_file (some (size, hash)) io keep name uploader d =
      if io.query_ok
      then check_duplicate (find_video_by_file_hash uploader hash d.tables.videos) io keep name
          uploader hash size d
      else (cleanup_upload_temp io keep d, refused ServiceError.internal)

  -- `precomputed`: the size and the hash, or what one read of the file gives.
  unfoldable pub measure : Io → Option (ℕ × Text) → Option Text → Option (ℕ × Text)
  measure io (some p) tmp = some p
  measure io none none = none
  measure io none (some bytes) =
      if io.read_ok then some (length bytes, h.finalize (h.update h.new bytes)) else none

  unfoldable pub upload_video_file_inner :
      Io → Bool → Text → Text → ℕ → Option (ℕ × Text) → Disk → Disk × Stored
  unfolding remove_tmp store_file validate_category measure
  upload_video_file_inner io keep name category uploader precomputed d =
      if validate_category category
      then store_file (measure io precomputed d.tmp) io keep name uploader d
      else (remove_tmp io d, refused ServiceError.bad_request)
