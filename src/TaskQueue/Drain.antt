-- ===== src/TaskQueue/Drain.antt =====
-- The inner loop of the worker of backend/src/services/task_queue.rs ends: each round uses up an
-- attempt of some task, and no task has more than three.
use lan_video.Prelude.{
  ℕ, zero, suc, ◌+◌, ◌-◌, ◌*◌, ◌≤◌, ◌<◌, ◌≡◌, refl, ◌⊎◌, inl, inr, some, arith, true, false, List,
  [], ◌∷◌, ◌++◌, ◌==◌, ltb-false, Bool-cases, length,
}
use lan_video.Prelude.Assoc.{
  nat_Eq, lookup, insert, remove, lookup-insert, lookup-remove, length-remove,
}
use lan_video.TaskQueue.{is_pending, TranscodeTask, Worker, max_attempts, max_retry_tracked}
use lan_video.TaskQueue.Enqueue.{queued, add_task}
use lan_video.TaskQueue.Run.{Attempt, count_or_zero, run_task, trim, popped, not_due, drain_queue}
use lan_video.TaskQueue.Attempts.{Tried, run_task-Tried}

-- No two tasks share an id.
abbrev pub Apart : List TranscodeTask → Type 0
Apart [] = Unit {0}
Apart (t ∷ q) = (queued t.id q ≡ false) × Apart q

-- The attempts that are left for the tasks of a queue.
unfoldable budget : List TranscodeTask → List (ℕ × ℕ) → ℕ
budget [] r = 0
budget (t ∷ q) r = suc (2 - count_or_zero (lookup t.id r)) + budget q r

budget_le : (q : List TranscodeTask) (r : List (ℕ × ℕ)) → budget q r ≤ 3 * length q
unfolding budget
budget_le [] r = omega arith
budget_le (t ∷ q) r = omega (arith, budget_le q r)

budget-append :
    (q : List TranscodeTask) (t : TranscodeTask) (r : List (ℕ × ℕ))
    → budget (q ++ t ∷ []) r ≡ budget q r + suc (2 - count_or_zero (lookup t.id r))
unfolding budget
budget-append [] t r = omega arith
budget-append (u ∷ q) t r = omega (arith, budget-append q t r)

budget-insert :
    (q : List TranscodeTask) (id n : ℕ) (r : List (ℕ × ℕ))
    → queued id q ≡ false
    → budget q (insert id n r) ≡ budget q r
unfolding budget queued
budget-insert [] id n r h = refl
budget-insert (t ∷ q) id n r h = ground (arith, budget-insert q id n r, lookup-insert id t.id n r)

budget-remove :
    (q : List TranscodeTask) (id : ℕ) (r : List (ℕ × ℕ))
    → queued id q ≡ false
    → budget q (remove id r) ≡ budget q r
unfolding budget queued
budget-remove [] id r h = refl
budget-remove (t ∷ q) id r h = ground (arith, budget-remove q id r, lookup-remove id t.id r)

budget-positive :
    (q : List TranscodeTask) (t : TranscodeTask) (r : List (ℕ × ℕ)) → 0 < budget (t ∷ q) r
unfolding budget
budget-positive q t r = omega arith

lookup_inserted : (id n : ℕ) (r : List (ℕ × ℕ)) → count_or_zero (lookup id (insert id n r)) ≡ n
unfolding lookup insert count_or_zero
lookup_inserted id n r = ground arith

queued-append :
    (id : ℕ) (q : List TranscodeTask) (t : TranscodeTask)
    → queued id q ≡ false
    → (t.id == id) ≡ false
    → queued id (q ++ t ∷ []) ≡ false
unfolding queued
queued-append id [] t h k = ground arith
queued-append id (u ∷ q) t h k = ground (arith, queued-append id q t)

pub Apart-append :
    (q : List TranscodeTask) (t : TranscodeTask)
    → Apart q
    → queued t.id q ≡ false
    → Apart (q ++ t ∷ [])
unfolding queued
Apart-append [] t a h = (refl, tt)
Apart-append (u ∷ q) t a h =
    (queued-append u.id q t a.0 (ground arith), Apart-append q t a.1 (ground arith))

-- What holds of a queue and its bookkeeping in each round.
record Fits (q : List TranscodeTask) (r : List (ℕ × ℕ)) : Type 0 where
  apart : Apart q
  tracked : length r + budget q r ≤ max_retry_tracked

-- A round that starts at `b` leaves less to do.
record Less (b : ℕ) (q : List TranscodeTask) (r : List (ℕ × ℕ)) : Type 0 where
  fits : Fits q r
  less : budget q r < b

module _ (t : TranscodeTask) (q : List TranscodeTask) (r : List (ℕ × ℕ)) (f : Fits (t ∷ q) r) where
  settled_shrinks : Less (budget (t ∷ q) r) q (remove t.id r)
  unfolding budget
  settled_shrinks = record {
    fits = record {
      apart = f.apart.1;
      tracked = omega (arith, f.tracked, budget-remove q t.id r f.apart.0, length-remove t.id r);
    };
    less = omega (arith, budget-remove q t.id r f.apart.0);
  }

  -- The count of the task in hand goes up.
  again_budget :
      suc (count_or_zero (lookup t.id r)) < max_attempts
      → budget (q ++ t ∷ []) (insert t.id (suc (count_or_zero (lookup t.id r))) r)
        < budget (t ∷ q) r
  unfolding budget
  again_budget h =
      let n = suc (count_or_zero (lookup t.id r)) in
      omega (
        arith,
        budget-append q t (insert t.id n r),
        budget-insert q t.id n r f.apart.0,
        lookup_inserted t.id n r,
        h,
      )

  requeued_shrinks :
      suc (count_or_zero (lookup t.id r)) < max_attempts
      → Less (budget (t ∷ q) r) (q ++ t ∷ []) (insert t.id (suc (count_or_zero (lookup t.id r))) r)
  unfolding insert
  requeued_shrinks h = record {
    fits = record {
      apart = Apart-append q t f.apart.1 f.apart.0;
      tracked = omega (arith, f.tracked, again_budget h, length-remove t.id r);
    };
    less = again_budget h;
  }

attempt_shrinks :
    (env : Attempt) (t : TranscodeTask) (q : List TranscodeTask) (w w' : Worker)
    → Fits (t ∷ q) w.retries
    → Tried env t (popped q w) w'
    → Less (budget (t ∷ q) w.retries) w'.queue w'.retries
unfolding popped
attempt_shrinks env t q w w' f (inl (o, d)) =
    rw (o.queue_kept, o.retries_gone) (settled_shrinks t q w.retries f)
attempt_shrinks env t q w w' f (inr (inl b)) =
    rw (b.gone.queue_kept, b.gone.retries_gone) (settled_shrinks t q w.retries f)
attempt_shrinks env t q w w' f (inr (inr a)) =
    rw (a.requeued, a.counted) (requeued_shrinks t q w.retries f a.below_limit)

trim-kept : (w : Worker) → length w.retries ≤ max_retry_tracked → trim w ≡ w
unfolding trim
trim-kept w h = rw (ltb-false max_retry_tracked (length w.retries) h) refl

-- Nothing of the queue can run now: it is empty, or the task at its head was found not due.
abbrev pub Settled : (ℕ → Attempt) → Worker → Type 0
Settled envs w =
    (w.queue ≡ [])
    ⊎ ((i : ℕ) × (t : TranscodeTask) × (q : List TranscodeTask) × (w.queue ≡ t ∷ q)
        × (not_due (envs i).checked_at (lookup t.id w.next_attempt_at) ≡ true))

abbrev Drained : ℕ → (ℕ → Attempt) → List TranscodeTask → Worker → Type 0
Drained fuel envs q w = (w' : Worker) × (drain_queue fuel envs q w ≡ some w') × Settled envs w'

Settled-suc : (envs : ℕ → Attempt) (w : Worker) → Settled (λ n. envs (suc n)) w → Settled envs w
Settled-suc envs w (inl e) = inl e
Settled-suc envs w (inr (i, t, q, e, d)) = inr (suc i, t, q, e, d)

drains :
    (fuel : ℕ) (envs : ℕ → Attempt) (q : List TranscodeTask) (w : Worker)
    → Fits q w.retries
    → budget q w.retries ≤ fuel
    → Drained fuel envs q w
unfolding drain_queue popped
drains fuel envs [] w f h = (popped [] w, refl, inl refl)
drains zero envs (t ∷ q) w f h = absurd (omega (arith, h, budget-positive q t w.retries))
drains (suc fuel) envs (t ∷ q) w f h =
    elim (Bool-cases (not_due (envs 0).checked_at (lookup t.id w.next_attempt_at))) [
      | inl e ↦ (popped (t ∷ q) w, rw e refl, inr (0, t, q, refl, e))
      | inr e ↦
          let w' = run_task (envs 0) t (popped q w) in
          let l = attempt_shrinks (envs 0) t q w w' f (run_task-Tried (envs 0) t (popped q w)) in
          let (w'', eq, s) =
            drains fuel (λ n. envs (suc n)) w'.queue w' l.fits (omega (arith, l.less)) in
          (w'', rw (e, trim-kept w' (omega (arith, l.fits.tracked))) eq, Settled-suc envs w'' s)
    ]

-- With tasks of different ids, and not so many of them that the safety valve could act, the loop
-- ends within three rounds for each task of the queue, whatever the attempts meet, and it leaves
-- the queue empty or with a task at its head that it found not due.
pub drain_queue_ends :
    (envs : ℕ → Attempt) (w : Worker)
    → Apart w.queue
    → length w.retries + 3 * length w.queue ≤ max_retry_tracked
    → (w' : Worker) × (drain_queue (3 * length w.queue) envs w.queue w ≡ some w') × Settled envs w'
drain_queue_ends envs w a h =
    let b = budget_le w.queue w.retries in
    drains (3 * length w.queue) envs w.queue w record { apart = a; tracked = omega (arith, h, b) } b

-- A task that is added leaves the tasks of the queue with different ids, and one whose id is in the
-- queue, or that does not wait, changes nothing.
pub add_task-Apart :
    (t : TranscodeTask) (q : List TranscodeTask)
    → Apart q
    → Apart (add_task t q)
      × (((is_pending t.status ≡ false) ⊎ (queued t.id q ≡ true)) → add_task t q ≡ q)
unfolding add_task
add_task-Apart t q a = elim (Bool-cases (is_pending t.status)) [
  | inr e ↦ rw e (a, λ h. refl)
  | inl e ↦ rw e (elim (Bool-cases (queued t.id q)) [
    | inl k ↦ rw k (a, λ h. refl)
    | inr k ↦
        rw k (Apart-append q t a k, λ h. elim h [ inl x ↦ absurd (cc x) | inr x ↦ absurd (cc x) ])
  ])
]
