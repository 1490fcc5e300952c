-- ===== src/TaskQueue/Pending.antt =====
-- The jobs that wait, across the statements of an attempt in backend/src/services/task_queue.rs.
use Prim.Native.String.{String}
use lan_video.Prelude.{
  ℕ, zero, suc, true, false, ◌==◌, ◌&&◌, ◌||◌, ◌≡◌, refl, List, [], ◌∷◌, map, any, arith,
  Bool-cases, sym, ◌∙◌, inl, inr, none, some, subst,
}
use lan_video.Prelude.Assoc.{◌=?◌, string_Eq}
use lan_video.TaskQueue.{
  TaskStatus, pending, processing, completed, failed, Job, VideoVariant, Tables, is_pending,
  is_processing,
}
use lan_video.TaskQueue.Jobs.{
  among, waits, runs, pending_resolutions, mark_row, reset_row, bury_row, with_status, concluded,
  persist_from, conclude_variants,
}

-- What waited for a task still does.
abbrev pub StillWaits : ℕ → List String → List Job → List Job → Type 0
StillWaits video rs js js' =
    (r : String)
    → among (pending_resolutions video rs js) r ≡ true
    → among (pending_resolutions video rs js') r ≡ true

pending-not_processing : (s : TaskStatus) → is_pending s ≡ true → is_processing s ≡ false
unfolding is_pending is_processing
pending-not_processing pending h = refl
pending-not_processing processing h = absurd (cc h)
pending-not_processing completed h = refl
pending-not_processing failed h = refl

pending-cons :
    (video : ℕ) (rs : List String) (j : Job) (js : List Job) (r : String)
    → among (pending_resolutions video rs (j ∷ js)) r
      ≡ (waits video rs j && (j.resolution =? r)) || among (pending_resolutions video rs js) r
unfolding pending_resolutions among
pending-cons video rs j js r = elim (Bool-cases (waits video rs j)) [
  | inl e ↦ simp e refl
  | inr e ↦ simp e refl
]

waits-among :
    (video : ℕ) (rs : List String) (j : Job)
    → waits video rs j ≡ true
    → among rs j.resolution ≡ true
unfolding waits
waits-among video rs j h = ground arith

pub pending-among :
    (video : ℕ) (rs : List String) (js : List Job) (r : String)
    → among (pending_resolutions video rs js) r ≡ true
    → among rs r ≡ true
unfolding among pending_resolutions
pending-among video rs [] r h = ground arith
pending-among video rs (j ∷ js) r h =
    let k = sym (pending-cons video rs j js r) ∙ h in
    elim (Bool-cases (waits video rs j && (j.resolution =? r))) [
      | inl e ↦
          subst (λ x. among rs x ≡ true) ((string_Eq.beq_iff j.resolution r).0 (ground arith))
            (waits-among video rs j (ground arith))
      | inr e ↦ pending-among video rs js r (rw e at k)
    ]

-- A row that waited waits again after it was marked and then reset.
module _ (now video : ℕ) (rs ps qs : List String) where
  mark-runs :
      (j : Job)
      → waits video ps j ≡ true
      → runs video ps (with_status processing (some now) j) ≡ true
  unfolding waits runs with_status is_processing
  mark-runs j h = ground arith

  covered :
      ((r : String) → among ps r ≡ true → among qs r ≡ true)
      → (j : Job) → runs video ps j ≡ true
      → runs video qs j ≡ true
  unfolding runs
  covered c j h = ground (arith, c j.resolution)

  waits-runs : (j : Job) → waits video rs j ≡ true → runs video qs j ≡ false
  unfolding waits runs is_pending is_processing
  waits-runs j h = ground (arith, pending-not_processing j.status)

  waits-among-reset :
      (j : Job)
      → waits video rs j ≡ true
      → waits video rs (with_status pending none (with_status processing (some now) j)) ≡ true
  unfolding waits with_status is_pending
  waits-among-reset j h = ground arith

  waits-again :
      ((r : String) → among ps r ≡ true → among qs r ≡ true)
      → (j : Job) → waits video rs j ≡ true
      → waits video rs (reset_row video qs (mark_row now video ps j)) ≡ true
  unfolding reset_row mark_row
  waits-again c j h = elim (Bool-cases (waits video ps j)) [
    | inl e ↦ rw e (
        rw (covered c (with_status processing (some now) j) (mark-runs j e))
          (waits-among-reset j h))
    | inr e ↦ rw e (rw (waits-runs j h) h)
  ]

  resolution-again :
      (j : Job) → (reset_row video qs (mark_row now video ps j)).resolution ≡ j.resolution
  unfolding reset_row mark_row with_status
  resolution-again j = ground arith

  pub StillWaits-reset :
      ((r : String) → among ps r ≡ true → among qs r ≡ true)
      → (js : List Job)
      → StillWaits video rs js (map (reset_row video qs) (map (mark_row now video ps) js))
  unfolding pending_resolutions among
  StillWaits-reset c [] r h = h
  StillWaits-reset c (j ∷ js) r h =
      let rest = StillWaits-reset c js r in
      let k = sym (pending-cons video rs j js r) ∙ h in
      let e = waits-again c j in
      rw
        (
          pending-cons video rs (reset_row video qs (mark_row now video ps j))
              (map (reset_row video qs) (map (mark_row now video ps) js)) r,
          resolution-again j,
        )
        (ground arith)

-- No job of the video waits or runs.
abbrev pub NoneActive : ℕ → List Job → Type 0
NoneActive video js =
    any (λ j. j.video_id == video && (is_pending j.status || is_processing j.status)) js ≡ false

pub NoneActive-bury :
    (now video : ℕ) (js : List Job) → NoneActive video (map (bury_row now video) js)
unfolding bury_row concluded is_pending is_processing any
NoneActive-bury now video [] = refl
NoneActive-bury now video (j ∷ js) = ground (arith, NoneActive-bury now video js)

-- Where `persist_variants` fails, it has not come to the jobs.
pub jobs-persist :
    (left now video : ℕ) (all vs : List VideoVariant) (t : Tables)
    → (persist_from left now video all vs t).1 ≡ false
    → (persist_from left now video all vs t).0.jobs ≡ t.jobs
unfolding persist_from conclude_variants
jobs-persist zero now video all [] t h = refl
jobs-persist (suc zero) now video all [] t h = refl
jobs-persist (suc (suc left)) now video all [] t h = absurd (cc h)
jobs-persist zero now video all (v ∷ vs) t h = refl
jobs-persist (suc left) now video all (v ∷ vs) t h = jobs-persist left now video all vs _ h
