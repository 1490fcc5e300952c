-- ===== src/Upload.antt =====
-- backend/src/services/media_service/mod.rs and session.rs: uploads in chunks.
-- SHA-256 is the parameter `Sha256`: a hasher that takes its input in pieces.
pub mod Store
pub mod Session
pub mod Append
pub mod Invariant
pub mod Outcomes
pub mod Publishing
pub mod Requests
pub mod Chunks
pub mod Files
mod Tests
use lan_video.Prelude.{ℕ, Bool, Option, List, [], ◌≡◌, ◌++◌}
use lan_video.Prelude.Texts.{Text}
use lan_video.Library.{Tables, Statements}

-- The hasher: what it has taken in is all that counts, not how it was cut.
pub record Sha256 : Type 1 where
  pub State : Type 0
  pub new : State
  pub update : State → Text → State
  pub finalize : State → Text
  pub update-nil : (s : State) → update s [] ≡ s
  pub update-append : (s : State) (a b : Text) → update (update s a) b ≡ update s (a ++ b)

-- The check of a file's type by its name and first bytes, from validate.rs.
pub record FileTypes : Type 0 where
  pub accepts : Text → Text → Bool

-- How a write to the temporary file ends: not opened, cut short after some bytes, or done.
pub data WriteOutcome : Type 0 where
  open_failed written : WriteOutcome
  torn : ℕ → WriteOutcome

-- What one request meets: the time, and which calls of the system succeed.
pub record Io : Type 0 where
  pub now : ℕ
  pub permit_ok : Bool
  pub read_ok : Bool
  pub write : WriteOutcome
  pub remove_ok : Bool
  -- The removal of a file that was moved to the media folder.
  pub remove_dest_ok : Bool
  pub exists_ok : Bool
  pub query_ok : Bool
  pub check_ok : Bool
  pub sync_ok : Bool
  pub rename_ok : Bool
  pub dest_name : Text
  pub statements : Statements

-- The temporary file of the upload, the files of the media folder, and the tables.
pub record Disk : Type 0 where
  pub tmp : Option Text
  pub media : List (Text × Text)
  pub tables : Tables
