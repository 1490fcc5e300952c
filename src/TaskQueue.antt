-- ===== src/TaskQueue.antt =====
-- backend/src/services/task_queue.rs: the transcoding queue. Here are its tasks and the tables it
-- keeps its jobs in. A statement of SQL is a function on the tables; whether the database carries a
-- statement out is an input, and a statement that fails changes nothing.
pub mod Jobs
pub mod Enqueue
pub mod Run
pub mod Recovery
pub mod Backoff
pub mod Pending
pub mod Attempts
pub mod Drain
pub mod Collapse
mod Tests
use Prim.Native.String.{String}
use lan_video.Prelude.{
  ℕ, suc, ◌*◌, ◌^◌, ◌-◌, min, Bool, true, false, Option, List, [], ◌∷◌, if◌then◌else◌,
}

abbrev pub poll_interval : ℕ
poll_interval = 1

abbrev pub max_attempts : ℕ
max_attempts = 3

abbrev pub retry_base_delay : ℕ
retry_base_delay = 5

abbrev pub retry_max_delay : ℕ
retry_max_delay = 60

abbrev pub max_retry_tracked : ℕ
max_retry_tracked = 10000

-- The column `status` of a job, and the enum `TaskStatus`.
pub data TaskStatus : Type 0 where
  pending processing completed failed : TaskStatus

pub record TranscodeTask : Type 0 where
  pub id : ℕ
  pub video_id : ℕ
  pub input_path : String
  pub resolutions : List String
  pub status : TaskStatus
  pub created_at : ℕ

-- A row of `transcoding_jobs`.
pub record Job : Type 0 where
  pub id : ℕ
  pub video_id : ℕ
  pub status : TaskStatus
  pub resolution : String
  pub progress : ℕ
  pub error_message : Option String
  pub started_at : Option ℕ
  pub completed_at : Option ℕ

-- `VideoVariant`, what the transcoder returns.
pub record VideoVariant : Type 0 where
  pub resolution : String
  pub file_path : String
  pub file_size : ℕ
  pub bitrate : ℕ
  pub codec : String

-- A row of `videos`, less the columns the queue does not read. `is_local` is
-- `source_type LIKE 'local%'`.
pub record Video : Type 0 where
  pub id : ℕ
  pub is_local : Bool
  pub stream_url : String
  pub has_variants : Bool

-- The tables `transcoding_jobs`, `video_variants` (each row with its video) and `videos`.
pub record Tables : Type 0 where
  pub jobs : List Job
  pub variants : List (ℕ × VideoVariant)
  pub videos : List Video
  pub next_id : ℕ

-- The state that the worker and the requests share, and the worker's bookkeeping.
pub record Worker : Type 0 where
  pub queue : List TranscodeTask
  pub retries : List (ℕ × ℕ)
  pub next_attempt_at : List (ℕ × ℕ)
  pub tables : Tables

unfoldable pub is_pending : TaskStatus → Bool
is_pending pending = true
is_pending _ = false

unfoldable pub is_processing : TaskStatus → Bool
is_processing processing = true
is_processing _ = false

-- `status IN ('failed', 'completed')`.
unfoldable pub is_over : TaskStatus → Bool
is_over completed = true
is_over failed = true
is_over _ = false

-- The seconds to wait after the nth failed attempt.
unfoldable pub retry_backoff : ℕ → ℕ
retry_backoff attempt = min (retry_base_delay * 2 ^ min (attempt - 1) 4) retry_max_delay
