-- ===== src/TaskQueue/Recovery.antt =====
-- `recover_stale_jobs` of backend/src/services/task_queue.rs, and `safe_media_path` of
-- backend/src/services/media_service/validate.rs.
use Prim.Native.String.{String}
use lan_video.Prelude.{
  ℕ, ◌+◌, ltb, Bool, true, not, ◌&&◌, Option, none, some, List, [], ◌∷◌, ◌++◌, map, retain,
  if◌then◌else◌,
}
use lan_video.TaskQueue.{TranscodeTask, Job, Video, Tables, Worker, pending, is_processing}
use lan_video.TaskQueue.Jobs.{with_status, with_jobs, has_variant, min_id}
use lan_video.TaskQueue.Enqueue.{waits_for, video_task, with_queue, with_tables}
use lan_video.TaskQueue.Run.{starts_with}

-- The strings and paths of the standard library and the file system: `strip_prefix("/media/")`,
-- `media_root.join`, `canonicalize` with a path by its components, and `is_file`.
pub record Paths : Type 0 where
  pub strip_media : String → Option String
  pub join : String → String
  pub canonicalize : String → Option (List String)
  pub media_root : String
  pub is_file : List String → Bool
  pub to_string : List String → String

guard_root : Option (List String) → List String → Option (List String)
unfolding starts_with
guard_root none path = none
guard_root (some root) path = if starts_with path root then some path else none

inside_root : Paths → Option (List String) → Option (List String)
unfolding guard_root
inside_root fs none = none
inside_root fs (some path) = guard_root (fs.canonicalize fs.media_root) path

safe_relative : Paths → Option String → Option (List String)
unfolding inside_root
safe_relative fs none = none
safe_relative fs (some relative) = inside_root fs (fs.canonicalize (fs.join relative))

unfoldable pub safe_media_path : Paths → String → Option (List String)
unfolding safe_relative
safe_media_path fs url = safe_relative fs (fs.strip_media url)

-- `started_at IS NULL OR started_at < NOW() - INTERVAL '10 minutes'`.
stale : ℕ → Option ℕ → Bool
stale now none = true
stale now (some started) = ltb (started + 600) now

unfoldable pub unstale_row : ℕ → Job → Job
unfolding stale is_processing with_status
unstale_row now j =
    if is_processing j.status && stale now j.started_at then with_status pending none j else j

-- A job that the second statement selects for a video.
unfoldable pub recoverable : Tables → ℕ → Job → Bool
unfolding waits_for has_variant
recoverable t video j = waits_for video j && not (has_variant t.variants video j.resolution)

enqueue_file : Paths → TranscodeTask → Option (List String) → List TranscodeTask
unfolding video_task
enqueue_file fs task none = []
enqueue_file fs task (some path) =
    if fs.is_file path
    then video_task task.created_at task.id task.video_id (fs.to_string path) task.resolutions ∷ []
    else []

-- The task of one video, if it has recoverable jobs. `order` is the ORDER BY of `array_agg`.
unfoldable pub recover_video :
    (List String → List String) → Paths → ℕ → Tables → Video → List TranscodeTask
unfolding enqueue_file safe_media_path recoverable min_id video_task retain
recover_video order fs now t v =
    if v.is_local
    then elim (min_id (recoverable t v.id) t.jobs) [
      | none ↦ []
      | some id ↦
          enqueue_file fs
            (video_task now id v.id v.stream_url
              (order (map (λ j. j.resolution) (retain (recoverable t v.id) t.jobs))))
            (safe_media_path fs v.stream_url)
    ]
    else []

unfoldable pub recover_videos :
    (List String → List String) → Paths → ℕ → Tables → List Video → List TranscodeTask
unfolding recover_video
recover_videos order fs now t [] = []
recover_videos order fs now t (v ∷ vs) =
    recover_video order fs now t v ++ recover_videos order fs now t vs

reset_stale : Bool → ℕ → Tables → Tables
unfolding unstale_row
reset_stale ok now t = if ok then with_jobs (map (unstale_row now) t.jobs) t else t

-- The rows of the SELECT come in the order of `videos`; SQL leaves that order open.
unfoldable pub recover_stale_jobs :
    Bool → Bool → (List String → List String) → Paths → ℕ → Worker → Worker
unfolding reset_stale recover_videos
recover_stale_jobs reset_ok select_ok order fs now w =
    let t = reset_stale reset_ok now w.tables in
    if select_ok
    then with_queue (w.queue ++ recover_videos order fs now t t.videos) (with_tables t w)
    else with_tables t w
