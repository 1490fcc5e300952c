-- ===== src/TaskQueue/Run.antt =====
-- The worker of backend/src/services/task_queue.rs: one attempt at a task, and the loop that drains
-- the queue. The clock, the file system, the transcoder and what the database carries out are the
-- inputs of an attempt.
use Prim.Native.String.{String}
use lan_video.Prelude.{
  ℕ, zero, suc, ◌+◌, ltb, Bool, true, false, ◌&&◌, Option, none, some, List, [], ◌∷◌, ◌++◌,
  if◌then◌else◌, length,
}
use lan_video.Prelude.Assoc.{◌=?◌, string_Eq, nat_Eq, lookup, insert, remove}
use lan_video.TaskQueue.{
  TranscodeTask, VideoVariant, Tables, Worker, max_attempts, max_retry_tracked, retry_backoff,
}
use lan_video.TaskQueue.Jobs.{
  pending_resolutions, mark_processing, reset_jobs_to_pending, dead_letter, persist_variants,
}
use lan_video.TaskQueue.Enqueue.{with_tables}

-- `select_ok` to `dead_ok`: which statements succeed, and for `persist_variants` how many of them.
-- `canonicalize` gives a path by its components.
pub record Attempt : Type 0 where
  pub checked_at : ℕ
  pub now : ℕ
  pub select_ok : Bool
  pub mark_ok : Bool
  pub reset_ok : Bool
  pub dead_ok : Bool
  pub persisted : ℕ
  pub canonicalize : String → Option (List String)
  pub media_root : String
  pub transcode : ℕ → String → List String → Option (List VideoVariant)

-- `Path::starts_with`.
unfoldable pub starts_with : List String → List String → Bool
starts_with path [] = true
starts_with [] (r ∷ root) = false
starts_with (c ∷ path) (r ∷ root) = (c =? r) && starts_with path root

below : Option (List String) → Option (List String) → Bool
unfolding starts_with
below (some path) (some root) = starts_with path root
below _ _ = false

unfoldable pub is_within_media_root : (String → Option (List String)) → String → String → Bool
unfolding below
is_within_media_root canonicalize path root = below (canonicalize path) (canonicalize root)

unfoldable pub count_or_zero : Option ℕ → ℕ
count_or_zero none = 0
count_or_zero (some n) = n

-- `retries.remove(&task.id); next_attempt_at.remove(&task.id)`.
unfoldable pub forget : ℕ → Worker → Worker
unfolding remove
forget id w = record {
  queue = w.queue;
  retries = remove id w.retries;
  next_attempt_at = remove id w.next_attempt_at;
  tables = w.tables;
}

unfoldable pub retry_or_bury : Attempt → TranscodeTask → ℕ → Worker → Worker
unfolding forget dead_letter insert retry_backoff
retry_or_bury env task attempt w =
    if ltb attempt max_attempts
    then record {
      queue = w.queue ++ task ∷ [];
      retries = insert task.id attempt w.retries;
      next_attempt_at = insert task.id (env.now + retry_backoff attempt) w.next_attempt_at;
      tables = w.tables;
    }
    else with_tables (dead_letter env.dead_ok env.now task.video_id w.tables) (forget task.id w)

unfoldable pub schedule_retry : Attempt → TranscodeTask → Worker → Worker
unfolding retry_or_bury count_or_zero
schedule_retry env task w =
    retry_or_bury env task (suc (count_or_zero (lookup task.id w.retries))) w

-- Both failures after the rows were marked: they wait again, and the task is scheduled.
unfoldable pub reset_and_retry : Attempt → TranscodeTask → List String → Worker → Worker
unfolding schedule_retry reset_jobs_to_pending
reset_and_retry env task rs w =
    schedule_retry env task
      (with_tables (reset_jobs_to_pending env.reset_ok task.video_id rs w.tables) w)

unfoldable pub after_persist : Attempt → TranscodeTask → Tables × Bool → Worker → Worker
unfolding reset_and_retry forget
after_persist env task (t, true) w = forget task.id (with_tables t w)
after_persist env task (t, false) w = reset_and_retry env task task.resolutions (with_tables t w)

unfoldable pub after_transcode :
    Attempt → TranscodeTask → Option (List VideoVariant) → Worker → Worker
unfolding after_persist reset_and_retry persist_variants
after_transcode env task none w = reset_and_retry env task task.resolutions w
after_transcode env task (some vs) w =
    after_persist env task (persist_variants env.persisted env.now task.video_id vs w.tables) w

-- The rows are marked.
unfoldable pub transcode_marked : Attempt → TranscodeTask → List String → Worker → Worker
unfolding after_transcode reset_and_retry is_within_media_root
transcode_marked env task rs w =
    if is_within_media_root env.canonicalize task.input_path env.media_root
    then after_transcode env task (env.transcode task.video_id task.input_path rs) w
    else reset_and_retry env task rs w

unfoldable pub run_pending : Attempt → TranscodeTask → List String → Worker → Worker
unfolding forget transcode_marked mark_processing schedule_retry
run_pending env task [] w = forget task.id w
run_pending env task (r ∷ rs) w =
    if env.mark_ok
    then transcode_marked env task (r ∷ rs)
        (with_tables (mark_processing env.now task.video_id (r ∷ rs) w.tables) w)
    else schedule_retry env task w

unfoldable pub run_task : Attempt → TranscodeTask → Worker → Worker
unfolding run_pending pending_resolutions schedule_retry
run_task env task w =
    if env.select_ok
    then run_pending env task (pending_resolutions task.video_id task.resolutions w.tables.jobs) w
    else schedule_retry env task w

unfoldable pub not_due : ℕ → Option ℕ → Bool
not_due now none = false
not_due now (some until) = ltb now until

-- The safety valve.
unfoldable pub trim : Worker → Worker
trim w =
    if ltb max_retry_tracked (length w.retries)
    then record { queue = w.queue; retries = []; next_attempt_at = []; tables = w.tables }
    else w

unfoldable pub popped : List TranscodeTask → Worker → Worker
popped q w = record {
  queue = q;
  retries = w.retries;
  next_attempt_at = w.next_attempt_at;
  tables = w.tables;
}

-- The inner loop: it ends at an empty queue, or at a task that is not due, which goes back to the
-- front. `none`: out of fuel.
unfoldable pub drain_queue : ℕ → (ℕ → Attempt) → List TranscodeTask → Worker → Option Worker
unfolding not_due popped lookup
drain_queue fuel envs [] w = some (popped [] w)
drain_queue zero envs (t ∷ q) w = none
drain_queue (suc fuel) envs (t ∷ q) w =
    let w' = trim (run_task (envs 0) t (popped q w)) in
    let rest = drain_queue fuel (λ n. envs (suc n)) w'.queue w' in
    if not_due (envs 0).checked_at (lookup t.id w.next_attempt_at)
    then some (popped (t ∷ q) w)
    else rest
