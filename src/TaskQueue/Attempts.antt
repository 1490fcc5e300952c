-- ===== src/TaskQueue/Attempts.antt =====
-- The bookkeeping of backend/src/services/task_queue.rs: how often a task is tried.
use lan_video.Prelude.{
  ◌↔◌, sym, ap, subst, ◌∙◌, ℕ, suc, ◌+◌, ◌≤◌, ◌<◌, ◌≡◌, refl, ◌⊎◌, inl, inr, Option, none, some,
  arith, true, false, List, [], ◌∷◌, ◌++◌, if◌then◌else◌, ltb, Bool-cases, Bool, ltb→lt,
}
use lan_video.Prelude.Assoc.{nat_Eq, lookup, insert, remove, lookup-insert, lookup-remove}
use Prim.Native.String.{String}
use lan_video.TaskQueue.Enqueue.{with_tables}
use lan_video.TaskQueue.Jobs.{
  reset_jobs_to_pending, persist_variants, mark_processing, pending_resolutions, dead_letter, among,
}
use lan_video.TaskQueue.Pending.{
  StillWaits, NoneActive, NoneActive-bury, StillWaits-reset, pending-among, jobs-persist,
}
use lan_video.TaskQueue.{
  Job, TranscodeTask, Tables, VideoVariant, Worker, max_attempts, retry_backoff,
}
use lan_video.TaskQueue.Run.{
  Attempt, count_or_zero, forget, retry_or_bury, schedule_retry, reset_and_retry, after_persist,
  after_transcode, transcode_marked, run_pending, run_task,
}

-- How many attempts at a task have failed.
abbrev pub attempts : ℕ → Worker → ℕ
attempts id w = count_or_zero (lookup id w.retries)

-- What the bookkeeping says of one task.
abbrev pub Sound : ℕ → List (ℕ × ℕ) → List (ℕ × ℕ) → Type 0
Sound id counts times =
    (count_or_zero (lookup id counts) < max_attempts)
    × ((lookup id counts ≡ none) ↔ (lookup id times ≡ none))

Sound-remove :
    (k id : ℕ) (counts times : List (ℕ × ℕ))
    → Sound id counts times
    → Sound id (remove k counts) (remove k times)
unfolding count_or_zero
Sound-remove k id counts times s =
    ground (arith, lookup-remove k id counts, lookup-remove k id times)

Sound-insert :
    (k id n until : ℕ) (counts times : List (ℕ × ℕ))
    → n < max_attempts
    → Sound id counts times
    → Sound id (insert k n counts) (insert k until times)
unfolding count_or_zero
Sound-insert k id n until counts times h s =
    ground (arith, lookup-insert k id n counts, lookup-insert k id until times)

module _ (env : Attempt) (task : TranscodeTask) (w : Worker) where
  abbrev pub Work : List Job → Type 0
  Work js = StillWaits task.video_id task.resolutions w.tables.jobs js

  -- The task is out of the queue, and nothing is kept about it.
  pub record Gone (w' : Worker) : Type 0 where
    pub queue_kept : w'.queue ≡ w.queue
    pub retries_gone : w'.retries ≡ remove task.id w.retries
    pub times_gone : w'.next_attempt_at ≡ remove task.id w.next_attempt_at

  -- The attempt was the last one, and the jobs are marked as failed if the database does it.
  pub record Buried (w' : Worker) : Type 0 where
    pub gone : Gone w'
    pub at_limit : max_attempts ≤ suc (attempts task.id w)
    pub buried : env.dead_ok ≡ true → NoneActive task.video_id w'.tables.jobs

  -- The task waits at the back of the queue for its next attempt, and finds its work again.
  pub record Again (w' : Worker) : Type 0 where
    pub requeued : w'.queue ≡ w.queue ++ task ∷ []
    pub below_limit : suc (attempts task.id w) < max_attempts
    pub counted : w'.retries ≡ insert task.id (suc (attempts task.id w)) w.retries
    pub delayed :
        w'.next_attempt_at
        ≡ insert task.id (env.now + retry_backoff (suc (attempts task.id w))) w.next_attempt_at
    pub work_kept : env.reset_ok ≡ true → Work w'.tables.jobs

  -- Nothing waited, or the transcoder's output is recorded.
  abbrev pub Finished : Worker → Type 0
  Finished w' =
      let rs = pending_resolutions task.video_id task.resolutions w.tables.jobs in
      (rs ≡ [])
      ⊎ ((vs : List VideoVariant) × (env.transcode task.video_id task.input_path rs ≡ some vs)
          × (persist_variants env.persisted env.now task.video_id vs
                (mark_processing env.now task.video_id rs w.tables)
              ≡ (w'.tables, true)))

  abbrev pub Tried : Worker → Type 0
  Tried w' = (Gone w' × Finished w') ⊎ Buried w' ⊎ Again w'

  abbrev Failed : Worker → Type 0
  Failed w' = Buried w' ⊎ Again w'

  retry-Failed :
      (t : Tables)
      → (env.reset_ok ≡ true → Work t.jobs)
      → Failed (schedule_retry env task (with_tables t w))
  unfolding schedule_retry retry_or_bury forget dead_letter
  retry-Failed t k = elim (Bool-cases (ltb (suc (attempts task.id w)) max_attempts)) [
    | inl e ↦ simp e (
        inr record {
          requeued = refl;
          below_limit = ltb→lt (suc (attempts task.id w)) max_attempts e;
          counted = refl;
          delayed = refl;
          work_kept = k;
        })
    | inr e ↦ simp e (
        inl record {
          gone = record { queue_kept = refl; retries_gone = refl; times_gone = refl };
          at_limit = ground arith;
          buried = λ d. rw d (NoneActive-bury env.now task.video_id t.jobs);
        })
  ]

  abbrev waiting : List String
  waiting = pending_resolutions task.video_id task.resolutions w.tables.jobs

  abbrev marked : Tables
  marked = mark_processing env.now task.video_id waiting w.tables

  reset-Failed :
      (qs : List String) (t : Tables)
      → t.jobs ≡ marked.jobs
      → ((r : String) → among waiting r ≡ true → among qs r ≡ true)
      → Failed (reset_and_retry env task qs (with_tables t w))
  unfolding reset_and_retry reset_jobs_to_pending mark_processing
  reset-Failed qs t e c = retry-Failed (reset_jobs_to_pending env.reset_ok task.video_id qs t) λ ok.
      rw (ok, e)
        (StillWaits-reset env.now task.video_id task.resolutions waiting qs c w.tables.jobs)

  reset_all :
      (t : Tables)
      → t.jobs ≡ marked.jobs
      → Failed (reset_and_retry env task task.resolutions (with_tables t w))
  reset_all t e =
      reset-Failed task.resolutions t e (pending-among task.video_id task.resolutions w.tables.jobs)

  persist-Tried :
      (vs : List VideoVariant) (r : Tables × Bool)
      → env.transcode task.video_id task.input_path waiting ≡ some vs
      → persist_variants env.persisted env.now task.video_id vs marked ≡ r
      → Tried (after_persist env task r (with_tables marked w))
  unfolding after_persist forget persist_variants
  persist-Tried vs (t, true) e p =
      inl (record { queue_kept = refl; retries_gone = refl; times_gone = refl }, inr (vs, e, p))
  persist-Tried vs (t, false) e p = inr (
      reset_all t (
        sym (ap (λ x. x.0.jobs) p)
        ∙ jobs-persist env.persisted env.now task.video_id vs vs marked (ap (λ x. x.1) p)))

  transcode-Tried :
      (o : Option (List VideoVariant))
      → env.transcode task.video_id task.input_path waiting ≡ o
      → Tried (after_transcode env task o (with_tables marked w))
  unfolding after_transcode
  transcode-Tried none e = inr (reset_all marked refl)
  transcode-Tried (some vs) e = persist-Tried vs _ e refl

  marked-Tried : Tried (transcode_marked env task waiting (with_tables marked w))
  unfolding transcode_marked
  marked-Tried = ground (
    arith,
    transcode-Tried (env.transcode task.video_id task.input_path waiting) refl,
    reset-Failed waiting marked refl (λ r h. h),
  )

  started-Tried : Tried (
      if env.mark_ok
      then transcode_marked env task waiting (with_tables marked w)
      else schedule_retry env task w)
  started-Tried = elim (Bool-cases env.mark_ok) [
    | inl e ↦ simp e marked-Tried
    | inr e ↦ simp e (inr (retry-Failed w.tables (λ ok r h. h)))
  ]

  pending-Tried : (rs : List String) → waiting ≡ rs → Tried (run_pending env task rs w)
  unfolding run_pending forget
  pending-Tried [] e =
      inl (record { queue_kept = refl; retries_gone = refl; times_gone = refl }, inl e)
  pending-Tried (r ∷ rs) e =
      subst
        (λ x. Tried (
          if env.mark_ok
          then transcode_marked env task x
              (with_tables (mark_processing env.now task.video_id x w.tables) w)
          else schedule_retry env task w))
        e started-Tried

  -- An attempt at a task leaves one of three situations, whatever fails. The task is finished,
  -- because nothing of it waited or the transcoder's output is recorded, and nothing is kept about
  -- it. Or its last attempt has failed, nothing is kept about it, and, if the database carries out
  -- the statement, none of the video's jobs waits or runs any more. Or the task is at the back of
  -- the queue, with one more failed attempt counted, the limit not reached and the backoff from now
  -- as its next time, and, if the database carries out the reset, what waited before waits again.
  pub run_task-Tried : Tried (run_task env task w)
  unfolding run_task
  run_task-Tried = elim (Bool-cases env.select_ok) [
    | inl e ↦ simp e (pending-Tried waiting refl)
    | inr e ↦ simp e (inr (retry-Failed w.tables (λ ok r h. h)))
  ]

-- The bookkeeping is sound: each count is below the limit, and the tasks that have failed are those
-- that have a next time.
abbrev pub Booked : Worker → Type 0
Booked w = (id : ℕ) → Sound id w.retries w.next_attempt_at

-- An attempt at any task keeps the bookkeeping sound, whatever fails.
pub run_task-Booked :
    (env : Attempt) (task : TranscodeTask) (w : Worker) → Booked w → Booked (run_task env task w)
run_task-Booked env task w b id = elim (run_task-Tried env task w) [
  | inl (o, d) ↦
      rw (o.retries_gone, o.times_gone) (Sound-remove task.id id w.retries w.next_attempt_at (b id))
  | inr (inl o) ↦
      rw (o.gone.retries_gone, o.gone.times_gone)
        (Sound-remove task.id id w.retries w.next_attempt_at (b id))
  | inr (inr a) ↦
      rw (a.counted, a.delayed)
        (Sound-insert task.id id _ _ w.retries w.next_attempt_at a.below_limit (b id))
]
