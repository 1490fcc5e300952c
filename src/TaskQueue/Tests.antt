-- ===== src/TaskQueue/Tests.antt =====
-- The transcoding queue at chosen inputs.
use lan_video.Prelude.{ℕ, ◌≡◌, refl, arith, true, none, some, [], ◌∷◌}
use lan_video.Prelude.Assoc.{nat_Eq}
use lan_video.TaskQueue.{TranscodeTask, Job, Worker, pending}
use lan_video.TaskQueue.Enqueue.{queued}
use lan_video.TaskQueue.Run.{Attempt, run_task, drain_queue}
use lan_video.TaskQueue.Attempts.{Tried, run_task-Tried}
use lan_video.TaskQueue.Drain.{Settled, drain_queue_ends}

abbrev low_job : Job
low_job = record {
  id = 11;
  video_id = 3;
  status = pending;
  resolution = "360p";
  progress = 0;
  error_message = none;
  started_at = none;
  completed_at = none;
}

abbrev low_task : TranscodeTask
low_task = record {
  id = 11;
  video_id = 3;
  input_path = "/m/a.mp4";
  resolutions = "360p" ∷ [];
  status = pending;
  created_at = 90;
}

-- One job waits, and its task has failed once.
abbrev once_failed : Worker
once_failed = record {
  queue = low_task ∷ [];
  retries = (11, 1) ∷ [];
  next_attempt_at = (11, 100) ∷ [];
  tables = record { jobs = low_job ∷ []; variants = []; videos = []; next_id = 12 };
}

-- The transcoder fails, and the database does not.
abbrev no_output : ℕ → Attempt
no_output n = record {
  checked_at = 100;
  now = 101;
  select_ok = true;
  mark_ok = true;
  reset_ok = true;
  dead_ok = true;
  persisted = 9;
  canonicalize = λ p. some ("m" ∷ []);
  media_root = "/m";
  transcode = λ v p rs. none;
}

run_task-Tried_example :
    Tried (no_output 0) low_task once_failed (run_task (no_output 0) low_task once_failed)
run_task-Tried_example = run_task-Tried (no_output 0) low_task once_failed

drain_queue_ends_example :
    (w : Worker) × (drain_queue 3 no_output (low_task ∷ []) once_failed ≡ some w)
    × Settled no_output w
unfolding queued
drain_queue_ends_example = drain_queue_ends no_output once_failed (refl, tt) (omega arith)
