-- ===== src/TaskQueue/Enqueue.antt =====
-- `TaskQueue` of backend/src/services/task_queue.rs: what the requests do with the queue.
use Prim.Native.String.{String}
use lan_video.Prelude.{
  ℕ, ◌==◌, Bool, ◌&&◌, Option, none, some, List, [], ◌∷◌, ◌++◌, if◌then◌else◌, any, length,
}
use lan_video.TaskQueue.{pending, TranscodeTask, Job, Tables, Worker, is_pending}
use lan_video.TaskQueue.Jobs.{revive, insert_jobs, min_id}

abbrev pub with_queue : List TranscodeTask → Worker → Worker
with_queue q w = record {
  queue = q;
  retries = w.retries;
  next_attempt_at = w.next_attempt_at;
  tables = w.tables;
}

abbrev pub with_tables : Tables → Worker → Worker
with_tables t w = record {
  queue = w.queue;
  retries = w.retries;
  next_attempt_at = w.next_attempt_at;
  tables = t;
}

-- `queue.iter().any(|t| t.id == id)`.
unfoldable pub queued : ℕ → List TranscodeTask → Bool
unfolding any
queued id = any (λ t. t.id == id)

unfoldable pub add_task : TranscodeTask → List TranscodeTask → List TranscodeTask
unfolding is_pending queued
add_task task q =
    if is_pending task.status then (if queued task.id q then q else q ++ task ∷ []) else q

-- Which of the three statements succeed.
pub record Submission : Type 0 where
  pub revive_ok : Bool
  pub insert_ok : Bool
  pub select_ok : Bool

pub data Submitted : Type 0 where
  db_error nothing_to_do : Submitted
  task_key : ℕ → Submitted

-- `WHERE video_id = $1 AND status = 'pending'`.
unfoldable pub waits_for : ℕ → Job → Bool
unfolding is_pending
waits_for video j = j.video_id == video && is_pending j.status

unfoldable pub video_task : ℕ → ℕ → ℕ → String → List String → TranscodeTask
video_task now id video path rs = record {
  id = id;
  video_id = video;
  input_path = path;
  resolutions = rs;
  status = pending;
  created_at = now;
}

unfoldable pub enqueue_pending :
    ℕ → ℕ → String → List String → Option ℕ → Worker → Worker × Submitted
unfolding add_task video_task
enqueue_pending now video path rs none w = (w, nothing_to_do)
enqueue_pending now video path rs (some id) w =
    (with_queue (add_task (video_task now id video path rs) w.queue) w, task_key id)

select_min : Submission → ℕ → ℕ → String → List String → Worker → Worker × Submitted
unfolding enqueue_pending min_id waits_for
select_min ok now video path rs w =
    if ok.select_ok
    then enqueue_pending now video path rs (min_id (waits_for video) w.tables.jobs) w
    else (w, db_error)

insert_then_select : Submission → ℕ → ℕ → String → List String → Worker → Worker × Submitted
unfolding select_min insert_jobs
insert_then_select ok now video path rs w =
    if ok.insert_ok
    then select_min ok now video path rs (with_tables (insert_jobs video rs w.tables) w)
    else (w, db_error)

unfoldable pub add_video_transcode :
    Submission → ℕ → ℕ → String → List String → Worker → Worker × Submitted
unfolding insert_then_select revive
add_video_transcode ok now video path rs w =
    if ok.revive_ok
    then insert_then_select ok now video path rs (with_tables (revive video w.tables) w)
    else (w, db_error)

-- `pop_front`.
unfoldable pub process_next : List TranscodeTask → Option TranscodeTask × List TranscodeTask
process_next [] = (none, [])
process_next (t ∷ q) = (some t, q)

unfoldable pub get_queue_size : List TranscodeTask → ℕ
get_queue_size q = length q

unfoldable pub clear_queue : List TranscodeTask → List TranscodeTask
clear_queue q = []
