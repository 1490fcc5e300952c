-- ===== src/TaskQueue/Collapse.antt =====
-- A video that is submitted again, in backend/src/services/task_queue.rs.
use Prim.Native.String.{String}
use lan_video.Prelude.{
  subst, ℕ, suc, true, ◌==◌, ◌&&◌, ◌||◌, ◌≡◌, refl, sym, ap, ◌∙◌, Option, none, some, List, [], ◌∷◌,
  ◌++◌, map, any, if◌then◌else◌, arith, Bool-cases, inl, inr,
}
use lan_video.Prelude.Assoc.{◌=?◌, string_Eq}
use lan_video.TaskQueue.{pending, Job, VideoVariant, Tables, TranscodeTask, Worker, is_over}
use lan_video.TaskQueue.Jobs.{revive_row, revived, revive, has_job, new_job, insert_jobs, min_id}
use lan_video.TaskQueue.Enqueue.{
  Submission, add_task, queued, video_task, enqueue_pending, add_video_transcode, waits_for,
  with_tables,
}

-- The UPDATE changes nothing in the rows.
abbrev Revived : List (ℕ × VideoVariant) → ℕ → List Job → Type 0
Revived vs video [] = Unit {0}
Revived vs video (j ∷ js) = (revive_row vs video j ≡ j) × Revived vs video js

revive_row-twice :
    (vs : List (ℕ × VideoVariant)) (video : ℕ) (j : Job)
    → revive_row vs video (revive_row vs video j) ≡ revive_row vs video j
unfolding revive_row revived is_over
revive_row-twice vs video j = ground arith

Revived-map :
    (vs : List (ℕ × VideoVariant)) (video : ℕ) (js : List Job)
    → Revived vs video (map (revive_row vs video) js)
Revived-map vs video [] = tt
Revived-map vs video (j ∷ js) = (revive_row-twice vs video j, Revived-map vs video js)

map-Revived :
    (vs : List (ℕ × VideoVariant)) (video : ℕ) (js : List Job)
    → Revived vs video js
    → map (revive_row vs video) js ≡ js
map-Revived vs video [] r = refl
map-Revived vs video (j ∷ js) r = rw (r.0, map-Revived vs video js r.1) refl

Revived-append :
    (vs : List (ℕ × VideoVariant)) (video : ℕ) (js : List Job) (id : ℕ) (r : String)
    → Revived vs video js
    → Revived vs video (js ++ new_job id video r ∷ [])
unfolding revive_row new_job is_over
Revived-append vs video [] id r h = (ground arith, tt)
Revived-append vs video (j ∷ js) id r h = (h.0, Revived-append vs video js id r h.1)

has_job-append :
    (video : ℕ) (r : String) (js : List Job) (j : Job)
    → has_job video r (js ++ j ∷ [])
      ≡ has_job video r js || (j.video_id == video && (j.resolution =? r))
unfolding has_job any
has_job-append video r [] j = ground arith
has_job-append video r (k ∷ js) j = ground (arith, has_job-append video r js j)

-- The jobs after one row of the INSERT.
abbrev inserted : ℕ → String → Tables → List Job
inserted video r t =
    if has_job video r t.jobs then t.jobs else t.jobs ++ new_job t.next_id video r ∷ []

abbrev stepped : ℕ → String → Tables → Tables
stepped video r t = record {
  jobs = inserted video r t;
  variants = t.variants;
  videos = t.videos;
  next_id = suc t.next_id;
}

has_job-inserted :
    (video : ℕ) (r : String) (t : Tables) → has_job video r (inserted video r t) ≡ true
unfolding new_job
has_job-inserted video r t =
    ground (arith, has_job-append video r t.jobs (new_job t.next_id video r), string_Eq.beq_iff r r)

has_job-step :
    (video : ℕ) (s r : String) (t : Tables)
    → has_job video s t.jobs ≡ true
    → has_job video s (inserted video r t) ≡ true
has_job-step video s r t h =
    ground (arith, has_job-append video s t.jobs (new_job t.next_id video r))

has_job-insert_jobs :
    (video : ℕ) (s : String) (rs : List String) (t : Tables)
    → has_job video s t.jobs ≡ true
    → has_job video s (insert_jobs video rs t).jobs ≡ true
unfolding insert_jobs
has_job-insert_jobs video s [] t h = h
has_job-insert_jobs video s (r ∷ rs) t h =
    has_job-insert_jobs video s rs (stepped video r t) (has_job-step video s r t h)

inserted-kept :
    (video : ℕ) (r : String) (t : Tables)
    → has_job video r t.jobs ≡ true
    → inserted video r t ≡ t.jobs
inserted-kept video r t h = rw h refl

abbrev Covers : ℕ → List String → List Job → Type 0
Covers video [] js = Unit {0}
Covers video (r ∷ rs) js = (has_job video r js ≡ true) × Covers video rs js

insert_jobs-Covers :
    (video : ℕ) (rs : List String) (t : Tables) → Covers video rs (insert_jobs video rs t).jobs
unfolding insert_jobs
insert_jobs-Covers video [] t = tt
insert_jobs-Covers video (r ∷ rs) t = (
  has_job-insert_jobs video r rs (stepped video r t) (has_job-inserted video r t),
  insert_jobs-Covers video rs (stepped video r t),
)

Covers-kept :
    (video : ℕ) (rs : List String) (t : Tables)
    → Covers video rs t.jobs
    → (insert_jobs video rs t).jobs ≡ t.jobs
unfolding insert_jobs
Covers-kept video [] t c = refl
Covers-kept video (r ∷ rs) t c =
    let e = inserted-kept video r t c.0 in
    Covers-kept video rs (stepped video r t) (subst (Covers video rs) (sym e) c.1) ∙ e

insert_jobs-Revived :
    (video : ℕ) (rs : List String) (t : Tables)
    → Revived t.variants video t.jobs
    → Revived t.variants video (insert_jobs video rs t).jobs
unfolding insert_jobs
insert_jobs-Revived video [] t h = h
insert_jobs-Revived video (r ∷ rs) t h =
    insert_jobs-Revived video rs (stepped video r t) (elim (Bool-cases (has_job video r t.jobs)) [
      | inl e ↦ rw e h
      | inr e ↦ rw e (Revived-append t.variants video t.jobs t.next_id r h)
    ])

variants-insert_jobs :
    (video : ℕ) (rs : List String) (t : Tables) → (insert_jobs video rs t).variants ≡ t.variants
unfolding insert_jobs
variants-insert_jobs video [] t = refl
variants-insert_jobs video (r ∷ rs) t = variants-insert_jobs video rs (stepped video r t)

-- The tables after both statements.
unfoldable submitted : ℕ → List String → Tables → Tables
submitted video rs t = insert_jobs video rs (revive video t)

submitted_twice :
    (video : ℕ) (rs : List String) (t : Tables)
    → (submitted video rs (submitted video rs t)).jobs ≡ (submitted video rs t).jobs
unfolding submitted revive
submitted_twice video rs t =
    let t' = submitted video rs t in
    let r = insert_jobs-Revived video rs (revive video t) (Revived-map t.variants video t.jobs) in
    let v = variants-insert_jobs video rs (revive video t) in
    let m =
      map-Revived t'.variants video t'.jobs (subst (λ x. Revived x video t'.jobs) (sym v) r) in
    Covers-kept video rs (revive video t')
      (subst (Covers video rs) (sym m) (insert_jobs-Covers video rs (revive video t)))
    ∙ m

queued-append_self : (t : TranscodeTask) (q : List TranscodeTask) → queued t.id (q ++ t ∷ []) ≡ true
unfolding queued any
queued-append_self t [] = ground arith
queued-append_self t (u ∷ q) = ground (arith, queued-append_self t q)

queued-add_task :
    (t : TranscodeTask) (q : List TranscodeTask)
    → t.status ≡ pending
    → queued t.id (add_task t q) ≡ true
unfolding add_task queued
queued-add_task t q h = ground (arith, queued-append_self t q)

abbrev pub all_ok : Submission
all_ok = record { revive_ok = true; insert_ok = true; select_ok = true }

enqueue_twice :
    (now now' video : ℕ) (path path' : String) (rs rs' : List String) (id : Option ℕ)
    (w w' : Worker)
    → w'.queue ≡ (enqueue_pending now video path rs id w).0.queue
    → ((enqueue_pending now' video path' rs' id w').1 ≡ (enqueue_pending now video path rs id w).1)
      × ((enqueue_pending now' video path' rs' id w').0.queue ≡ w'.queue)
unfolding enqueue_pending video_task
enqueue_twice now now' video path path' rs rs' none w w' e = (refl, refl)
enqueue_twice now now' video path path' rs rs' (some id) w w' e =
    let h = queued-add_task (video_task now id video path rs) w.queue refl in (refl, rw (e, h) refl)

tables-enqueue_pending :
    (now video : ℕ) (path : String) (rs : List String) (id : Option ℕ) (w : Worker)
    → (enqueue_pending now video path rs id w).0.tables ≡ w.tables
unfolding enqueue_pending
tables-enqueue_pending now video path rs none w = refl
tables-enqueue_pending now video path rs (some id) w = refl

-- The task key, for given jobs.
unfoldable key : ℕ → List Job → Option ℕ
key video js = min_id (waits_for video) js

submit-all_ok :
    (now video : ℕ) (path : String) (rs : List String) (w : Worker)
    → let t = submitted video rs w.tables in
      add_video_transcode all_ok now video path rs w
      ≡ enqueue_pending now video path rs (key video t.jobs) (with_tables t w)
unfolding add_video_transcode submitted key
submit-all_ok now video path rs w = refl

-- A video that is submitted again, with all statements carried out, changes neither the queue nor
-- the jobs, and the caller gets the answer that it got before.
pub add_video_transcode-twice :
    (now now' video : ℕ) (path path' : String) (rs : List String) (w : Worker)
    → let first = add_video_transcode all_ok now video path rs w in
      let again = add_video_transcode all_ok now' video path' rs first.0 in
      (again.1 ≡ first.1)
      × (again.0.queue ≡ first.0.queue)
      × (again.0.tables.jobs ≡ first.0.tables.jobs)
add_video_transcode-twice now now' video path path' rs w =
    let t = submitted video rs w.tables in
    let first = enqueue_pending now video path rs (key video t.jobs) (with_tables t w) in
    let f = tables-enqueue_pending now video path rs (key video t.jobs) (with_tables t w) in
    let t' = submitted video rs first.0.tables in
    let e =
      subst (λ x. (submitted video rs x).jobs ≡ t.jobs) (sym f)
        (submitted_twice video rs w.tables) in
    rw
      (
        submit-all_ok now video path rs w,
        submit-all_ok now' video path' rs first.0,
        ap (key video) e,
      )
      (let (a, q) =
          enqueue_twice now now' video path path' rs rs (key video t.jobs) (with_tables t w)
            (with_tables t' first.0) refl in
        (
          a,
          q,
          ap (λ x. x.jobs)
                (tables-enqueue_pending now' video path' rs (key video t.jobs)
                  (with_tables t' first.0))
              ∙ e
              ∙ sym (ap (λ x. x.jobs) f),
        ))
