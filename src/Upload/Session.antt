-- ===== src/Upload/Session.antt =====
-- backend/src/services/media_service/session.rs: one upload in chunks. The slot of an upload is
-- locked for the whole of a request, so the requests of one uploader for one hash are a sequence.

use lan_video.Prelude.{
  ℕ, ◌+◌, ◌*◌, Bool, true, false, Option, none, some, [], ◌∷◌, ◌==◌, if◌then◌else◌, length,
}
use lan_video.Prelude.Texts.{Text}
use lan_video.ServiceError.{ServiceError}
use lan_video.Upload.{Sha256, Io, Disk}
use lan_video.Upload.Store.{remove_tmp}

pub data UploadPhase : Type 0 where
  receiving : UploadPhase
  completed : ℕ → UploadPhase

pub data UploadAppendError : Type 0 where
  offset_mismatch : ℕ → UploadAppendError
  hash_mismatch duplicate quota_exceeded bad_request internal : UploadAppendError

-- `UploadAppendOutcome`, or the error.
pub data Reply : Type 0 where
  appended : ℕ → Option ℕ → Reply
  failed : UploadAppendError → Reply

-- `From<ServiceError>`.
unfoldable pub from_service_error : ServiceError → UploadAppendError
from_service_error ServiceError.duplicate = duplicate
from_service_error ServiceError.quota_exceeded = quota_exceeded
from_service_error ServiceError.bad_request = bad_request
from_service_error _ = internal

-- `Result<i64, UploadAppendError>`.
pub data Finalized : Type 0 where
  done : ℕ → Finalized
  rejected : UploadAppendError → Finalized

-- The arguments of a request.
pub record Request : Type 0 where
  pub uploader_id : ℕ
  pub hash : Text
  pub file_name : Text
  pub total_size : ℕ
  pub category : Text
  pub offset : Option ℕ
  pub chunk : Text

unfoldable pub is_empty : Text → Bool
is_empty [] = true
is_empty (b ∷ bs) = false

-- `offset == Some(n)`.
unfoldable pub offset_is : Option ℕ → ℕ → Bool
offset_is none n = false
offset_is (some off) n = off == n

unfoldable pub offset_or : Option ℕ → ℕ → ℕ
offset_or none n = n
offset_or (some off) n = off

-- `offset.map(|off| off + len == size).unwrap_or(false)`.
unfoldable pub replays : Option ℕ → ℕ → ℕ → Bool
replays none len size = false
replays (some off) len size = off + len == size

unfoldable pub bytes_of : Option Text → Text
bytes_of none = []
bytes_of (some bytes) = bytes

unfoldable pub is_there : Option Text → Bool
is_there none = false
is_there (some bytes) = true

abbrev pub completed_slot_ttl : ℕ
completed_slot_ttl = 10 * 60 * 1000000000

abbrev pub upload_temp_ttl : ℕ
upload_temp_ttl = 24 * 60 * 60 * 1000000000

module _ (h : Sha256) where
  pub record UploadSlot : Type 0 where
    pub initialized : Bool
    pub hasher : h.State
    pub size : ℕ
    pub phase : UploadPhase
    pub last_activity : ℕ

  unfoldable pub new_slot : ℕ → UploadSlot
  new_slot now = record {
    initialized = false;
    hasher = h.new;
    size = 0;
    phase = receiving;
    last_activity = now;
  }

  unfoldable pub reset_slot : ℕ → UploadSlot
  reset_slot now = record {
    initialized = true;
    hasher = h.new;
    size = 0;
    phase = receiving;
    last_activity = now;
  }

  -- The first request reads what an earlier process left in the temporary file. `none` is an error
  -- of that read.
  unfoldable pub rebuild : Io → UploadSlot → Option Text → Option UploadSlot
  rebuild io slot none = some (record slot { initialized = true })
  rebuild io slot (some bytes) =
      if io.read_ok
      then some
          (record slot { initialized = true; hasher = h.update h.new bytes; size = length bytes })
      else none

  unfoldable pub init_slot : Io → UploadSlot → Option Text → Option UploadSlot
  unfolding rebuild
  init_slot io slot tmp = if slot.initialized then some slot else rebuild io slot tmp

  -- The slot of one upload and the disk.
  pub record Session : Type 0 where
    pub slot : UploadSlot
    pub disk : Disk

  unfoldable pub start_over : Io → Session → Session
  unfolding reset_slot remove_tmp
  start_over io s = record { slot = reset_slot io.now; disk = remove_tmp io s.disk }
