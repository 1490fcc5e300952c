-- ===== src/Upload/Append.antt =====
-- `append_upload_chunk`, `finalize_slot` and `cleanup_upload_slots` of session.rs.
use lan_video.Prelude.{
  ℕ, ◌+◌, ◌-◌, Bool, true, ◌&&◌, Option, none, some, ◌++◌, ltb, ◌==◌, if◌then◌else◌, length, take,
}
use lan_video.Prelude.Texts.{eq_ignore_ascii_case}
use lan_video.ServiceError.{ServiceError}
use lan_video.Upload.{Sha256, FileTypes, WriteOutcome, open_failed, torn, written, Io, Disk}
use lan_video.Upload.Store.{Stored, stored, refused, upload_video_file_inner}
use lan_video.Upload.Session.{
  UploadPhase, receiving, completed, offset_mismatch, hash_mismatch, bad_request, internal, Reply,
  appended, failed, Finalized, done, rejected, from_service_error, Request, is_empty, offset_is,
  offset_or, replays, bytes_of, is_there, completed_slot_ttl, upload_temp_ttl, UploadSlot,
  init_slot, Session, start_over, new_slot,
}

module _ (h : Sha256) where
  unfoldable pub answer : Session h × Finalized → Session h × Reply
  answer (s, done id) = (s, appended s.slot.size (some id))
  answer (s, rejected e) = (s, failed e)

  unfoldable pub absorb : Request → Session h → Session h
  unfolding bytes_of
  absorb r s = record {
    slot = record (s.slot) {
      hasher = h.update s.slot.hasher r.chunk;
      size = s.slot.size + length r.chunk;
    };
    disk = record (s.disk) { tmp = some (bytes_of s.disk.tmp ++ r.chunk) };
  }

module _ (h : Sha256) (types : FileTypes) (quota : ℕ) where
  -- What `finalize_slot` makes of the answer of the store. An internal error with the temporary
  -- file still there keeps the upload.
  unfoldable pub settle : Io → UploadSlot h → Disk × Stored → Session h × Finalized
  unfolding start_over is_there from_service_error
  settle io slot (d, stored id) = (
    record { slot = record slot { phase = completed id; last_activity = io.now }; disk = d },
    done id,
  )
  settle io slot (d, refused ServiceError.internal) =
      if io.exists_ok && is_there d.tmp
      then (record { slot = record slot { last_activity = io.now }; disk = d }, rejected internal)
      else (start_over h io (record { slot = slot; disk = d }), rejected internal)
  settle io slot (d, refused e) =
      (start_over h io (record { slot = slot; disk = d }), rejected (from_service_error e))

  unfoldable pub finalize_slot : Io → Request → Session h → Session h × Finalized
  unfolding settle start_over
  finalize_slot io r s =
      let actual = h.finalize s.slot.hasher in
      if eq_ignore_ascii_case actual r.hash
      then settle io s.slot (
          upload_video_file_inner h types quota io true r.file_name r.category r.uploader_id
            (some (s.slot.size, actual)) s.disk)
      else (start_over h io s, rejected hash_mismatch)

  -- An empty chunk asks for the progress, or for the end of a complete upload.
  unfoldable pub query_or_finalize : Io → Request → Session h → Session h × Reply
  unfolding offset_is answer
  query_or_finalize io r s =
      if offset_is r.offset s.slot.size && s.slot.size == r.total_size
      then answer h (finalize_slot io r s)
      else (s, appended s.slot.size none)

  unfoldable pub after_write : Io → Request → Session h → Session h × Reply
  unfolding answer
  after_write io r s =
      if s.slot.size == r.total_size
      then answer h (finalize_slot io r s)
      else (s, appended s.slot.size none)

  -- The write to the file, and the slot only once it is done.
  unfoldable pub write_chunk : WriteOutcome → Io → Request → Session h → Session h × Reply
  unfolding after_write absorb bytes_of
  write_chunk open_failed io r s = (s, failed internal)
  write_chunk (torn n) io r s = (
    record s { disk = record (s.disk) { tmp = some (bytes_of s.disk.tmp ++ take n r.chunk) } },
    failed internal,
  )
  write_chunk written io r s = after_write io r (absorb h r s)

  unfoldable pub receive : Io → Request → Session h → Session h × Reply
  unfolding is_empty query_or_finalize write_chunk offset_or
  receive io r s =
      let expected = s.slot.size in
      if is_empty r.chunk
      then query_or_finalize io r s
      else (if offset_or r.offset expected == expected
          then (if ltb r.total_size (expected + length r.chunk)
              then (s, failed bad_request)
              else write_chunk io.write io r s)
          else (s, failed (offset_mismatch expected)))

  -- A request for an upload that is complete: a replay, a new upload, or out of order.
  unfoldable pub receive_completed : Io → Request → ℕ → Session h → Session h × Reply
  unfolding is_empty replays offset_or offset_is start_over
  receive_completed io r id s =
      if is_empty r.chunk
      then (if offset_is r.offset s.slot.size
          then (s, appended s.slot.size (some id))
          else receive io r s)
      else (if replays r.offset (length r.chunk) s.slot.size
          then (s, appended s.slot.size (some id))
          else (if offset_or r.offset 0 == 0
              then receive io r (start_over h io s)
              else (s, failed (offset_mismatch 0))))

  unfoldable pub receive_in : UploadPhase → Io → Request → Session h → Session h × Reply
  unfolding receive receive_completed
  receive_in receiving io r s = receive io r s
  receive_in (completed id) io r s = receive_completed io r id s

  -- From the slot's initialisation on.
  unfoldable pub handle : Io → Request → Session h → Session h × Reply
  unfolding receive_in start_over
  handle io r s =
      if ltb r.total_size s.slot.size
      then (start_over h io s, failed (offset_mismatch 0))
      else receive_in s.slot.phase io r s

  unfoldable pub append_upload_chunk : Io → Request → Session h → Session h × Reply
  unfolding handle init_slot
  append_upload_chunk io r s =
      if io.permit_ok
      then elim (init_slot h io s.slot s.disk.tmp) [
        | none ↦ (s, failed internal)
        | some slot ↦ handle io r (record s { slot = record slot { last_activity = io.now } })
      ]
      else (s, failed internal)

  -- `upload_received_bytes`.
  unfoldable pub upload_received_bytes : Io → Session h → Session h × Option ℕ
  unfolding init_slot
  upload_received_bytes io s =
      if io.permit_ok
      then elim (init_slot h io s.slot s.disk.tmp) [
        | none ↦ (s, none)
        | some slot ↦ (record s { slot = record slot { last_activity = io.now } }, some slot.size)
      ]
      else (s, none)

  unfoldable pub ttl_of : UploadPhase → ℕ
  ttl_of receiving = upload_temp_ttl
  ttl_of (completed id) = completed_slot_ttl

  -- The closure of `cleanup_upload_slots`: a slot whose lock is held stays. What goes is made anew
  -- by the next request.
  unfoldable pub keeps_slot : ℕ → Bool → UploadSlot h → Bool
  unfolding ttl_of
  keeps_slot now locked slot =
      if locked then true else ltb (now - slot.last_activity) (ttl_of slot.phase)

  unfoldable pub cleanup_upload_slots : ℕ → Bool → Session h → Session h
  unfolding keeps_slot new_slot
  cleanup_upload_slots now locked s =
      if keeps_slot now locked s.slot then s else record s { slot = new_slot h now }
