-- ===== src/TaskQueue/Jobs.antt =====
-- The SQL statements of backend/src/services/task_queue.rs. An UPDATE is a function on each row.
use Prim.Native.String.{String}
use lan_video.Prelude.{
  ℕ, zero, suc, ◌==◌, Bool, true, false, not, ◌&&◌, ◌||◌, Option, none, some, List, [], ◌∷◌, ◌++◌,
  map, if◌then◌else◌, ltb, any, retain,
}
use lan_video.Prelude.Assoc.{◌=?◌, string_Eq}
use lan_video.TaskQueue.{
  TaskStatus, pending, processing, completed, failed, Job, VideoVariant, Video, Tables, is_pending,
  is_processing, is_over,
}

-- `resolution = ANY($2)`.
unfoldable pub among : List String → String → Bool
unfolding any
among rs r = any (λ x. x =? r) rs

-- `EXISTS (SELECT 1 FROM video_variants ...)`.
unfoldable pub has_variant : List (ℕ × VideoVariant) → ℕ → String → Bool
unfolding any
has_variant vs video r = any (λ v. v.0 == video && (v.1.resolution =? r)) vs

unfoldable pub with_status : TaskStatus → Option ℕ → Job → Job
with_status s started j = record {
  id = j.id;
  video_id = j.video_id;
  status = s;
  resolution = j.resolution;
  progress = j.progress;
  error_message = j.error_message;
  started_at = started;
  completed_at = j.completed_at;
}

unfoldable pub concluded : TaskStatus → Option String → ℕ → Job → Job
concluded s message now j = record {
  id = j.id;
  video_id = j.video_id;
  status = s;
  resolution = j.resolution;
  progress = j.progress;
  error_message = message;
  started_at = j.started_at;
  completed_at = some now;
}

unfoldable pub revived : Job → Job
revived j = record {
  id = j.id;
  video_id = j.video_id;
  status = pending;
  resolution = j.resolution;
  progress = 0;
  error_message = none;
  started_at = j.started_at;
  completed_at = j.completed_at;
}

abbrev pub with_jobs : List Job → Tables → Tables
with_jobs js t = record { jobs = js; variants = t.variants; videos = t.videos; next_id = t.next_id }

-- A job of the video, for one of the resolutions, that waits.
unfoldable pub waits : ℕ → List String → Job → Bool
unfolding is_pending among
waits video rs j = j.video_id == video && (among rs j.resolution && is_pending j.status)

-- A job of the video, for one of the resolutions, that is being worked on.
unfoldable pub runs : ℕ → List String → Job → Bool
unfolding is_processing among
runs video rs j = j.video_id == video && (among rs j.resolution && is_processing j.status)

-- The SELECT of `pending_resolutions`.
unfoldable pub pending_resolutions : ℕ → List String → List Job → List String
unfolding waits retain
pending_resolutions video rs js = map (λ j. j.resolution) (retain (waits video rs) js)

unfoldable pub mark_row : ℕ → ℕ → List String → Job → Job
unfolding waits with_status
mark_row now video rs j = if waits video rs j then with_status processing (some now) j else j

unfoldable pub mark_processing : ℕ → ℕ → List String → Tables → Tables
unfolding mark_row
mark_processing now video rs t = with_jobs (map (mark_row now video rs) t.jobs) t

unfoldable pub reset_row : ℕ → List String → Job → Job
unfolding runs with_status
reset_row video rs j = if runs video rs j then with_status pending none j else j

-- `reset_jobs_to_pending`: a failed statement is only logged.
unfoldable pub reset_jobs_to_pending : Bool → ℕ → List String → Tables → Tables
unfolding reset_row
reset_jobs_to_pending ok video rs t =
    if ok then with_jobs (map (reset_row video rs) t.jobs) t else t

abbrev pub dead_letter_message : String
dead_letter_message = "Transcode failed after all retry attempts"

unfoldable pub bury_row : ℕ → ℕ → Job → Job
unfolding concluded is_pending is_processing
bury_row now video j =
    if j.video_id == video && (is_pending j.status || is_processing j.status)
    then concluded failed (some dead_letter_message) now j
    else j

unfoldable pub dead_letter : Bool → ℕ → ℕ → Tables → Tables
unfolding bury_row
dead_letter ok now video t = if ok then with_jobs (map (bury_row now video) t.jobs) t else t

-- The upsert of a variant.
unfoldable pub upsert_variant : ℕ → VideoVariant → List (ℕ × VideoVariant) → List (ℕ × VideoVariant)
upsert_variant video v [] = (video, v) ∷ []
upsert_variant video v ((u, w) ∷ vs) =
    let rest = upsert_variant video v vs in
    if u == video && (w.resolution =? v.resolution) then (video, v) ∷ vs else (u, w) ∷ rest

unfoldable pub complete_row : ℕ → ℕ → List VideoVariant → Job → Job
unfolding concluded any
complete_row now video vs j =
    if j.video_id == video && any (λ v. v.resolution =? j.resolution) vs
    then concluded completed j.error_message now j
    else j

flag_row : ℕ → Video → Video
flag_row video v =
    if v.id == video
    then record { id = v.id; is_local = v.is_local; stream_url = v.stream_url; has_variants = true }
    else v

-- The last two statements: flag the video, complete the jobs. `left` statements succeed.
unfoldable pub conclude_variants : ℕ → ℕ → ℕ → List VideoVariant → Tables → Tables × Bool
unfolding flag_row complete_row
conclude_variants zero now video vs t = (t, false)
conclude_variants (suc zero) now video vs t = (
  record {
    jobs = t.jobs;
    variants = t.variants;
    videos = map (flag_row video) t.videos;
    next_id = t.next_id;
  },
  false,
)
conclude_variants (suc (suc left)) now video vs t = (
  record {
    jobs = map (complete_row now video vs) t.jobs;
    variants = t.variants;
    videos = map (flag_row video) t.videos;
    next_id = t.next_id;
  },
  true,
)

-- `persist_variants`: the first `left` statements succeed, and the next one ends it with an error.
-- They are in no transaction, so what came before stays.
unfoldable pub persist_from :
    ℕ → ℕ → ℕ → List VideoVariant → List VideoVariant → Tables → Tables × Bool
unfolding upsert_variant conclude_variants
persist_from left now video all [] t = conclude_variants left now video all t
persist_from zero now video all (v ∷ vs) t = (t, false)
persist_from (suc left) now video all (v ∷ vs) t = persist_from left now video all vs record {
  jobs = t.jobs;
  variants = upsert_variant video v t.variants;
  videos = t.videos;
  next_id = t.next_id;
}

unfoldable pub persist_variants : ℕ → ℕ → ℕ → List VideoVariant → Tables → Tables × Bool
unfolding persist_from
persist_variants left now video vs t = persist_from left now video vs vs t

-- The UPDATE of `add_video_transcode`: what can be done again waits again.
unfoldable pub revive_row : List (ℕ × VideoVariant) → ℕ → Job → Job
unfolding revived is_over has_variant
revive_row vs video j =
    if j.video_id == video && (is_over j.status && not (has_variant vs j.video_id j.resolution))
    then revived j
    else j

unfoldable pub revive : ℕ → Tables → Tables
unfolding revive_row
revive video t = with_jobs (map (revive_row t.variants video) t.jobs) t

-- A row of the unique index UNIQUE(video_id, resolution).
unfoldable pub has_job : ℕ → String → List Job → Bool
unfolding any
has_job video r = any (λ j. j.video_id == video && (j.resolution =? r))

unfoldable pub new_job : ℕ → ℕ → String → Job
new_job id video r = record {
  id = id;
  video_id = video;
  status = pending;
  resolution = r;
  progress = 0;
  error_message = none;
  started_at = none;
  completed_at = none;
}

-- `INSERT ... ON CONFLICT DO NOTHING`. A conflict uses up an id of the sequence too.
unfoldable pub insert_jobs : ℕ → List String → Tables → Tables
unfolding has_job new_job
insert_jobs video [] t = t
insert_jobs video (r ∷ rs) t = insert_jobs video rs record {
  jobs = if has_job video r t.jobs then t.jobs else t.jobs ++ new_job t.next_id video r ∷ [];
  variants = t.variants;
  videos = t.videos;
  next_id = suc t.next_id;
}

-- `SELECT MIN(id)` over the rows that a test keeps.
unfoldable pub lesser : ℕ → Option ℕ → Option ℕ
lesser n none = some n
lesser n (some m) = some (if ltb n m then n else m)

unfoldable pub min_id : (Job → Bool) → List Job → Option ℕ
unfolding lesser
min_id p [] = none
min_id p (j ∷ js) = let rest = min_id p js in if p j then lesser j.id rest else rest
