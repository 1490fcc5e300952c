-- ===== src/Comments.antt =====
-- backend/src/services/comment_service.rs, with the queries of
-- backend/src/repositories/comment_repo.rs. The replies of a video hang below its top comments. The
-- HTML cleaner (the crate ammonia) and `str::trim` are parameters, and so is what the other requests
-- do to the tables between the look at the parent and the INSERT.
pub mod Threads
pub mod Creation
mod Tests
use lan_video.Prelude.{
  ℕ, zero, suc, ltb, ◌==◌, Bool, true, false, ◌&&◌, ◌||◌, Option, none, some, List, [], ◌∷◌, length,
  any, if◌then◌else◌,
}
use lan_video.Prelude.Assoc.{nat_Eq, lookup}
use lan_video.Prelude.Texts.{Text}

abbrev pub max_comment_len : ℕ
max_comment_len = 2000

abbrev pub max_reply_depth : ℕ
max_reply_depth = 10

pub record Comment : Type 0 where
  pub video_id : ℕ
  pub user_id : ℕ
  pub content : Text
  pub parent_id : Option ℕ

-- The table `comments` by id, and `videos` with the uploader of each.
pub record Tables : Type 0 where
  pub comments : List (ℕ × Comment)
  pub videos : List (ℕ × Option ℕ)
  pub next_id : ℕ

-- The errors, each message of the source a constructor.
pub data CommentError : Type 0 where
  forbidden video_missing bad_length parent_missing parent_elsewhere too_deep : CommentError
  invalid_content not_found database : CommentError

pub data Created : Type 0 where
  rejected : CommentError → Created
  created : ℕ → Comment → Created

-- The parent that a comment gets: an error, no parent, or a comment.
pub data Parent : Type 0 where
  refused : CommentError → Parent
  top : Parent
  under : ℕ → Parent

-- What the request meets: `meta_ok n` is whether the query succeeds at which n levels are left.
pub record Calls : Type 0 where
  pub owner_ok : Bool
  pub exists_ok : Bool
  pub meta_ok : ℕ → Bool
  pub insert_ok : Bool
  pub user_exists : Bool
  pub trim : Text → Text
  pub clean : Text → Text
  pub meanwhile : Tables → Tables

unfoldable pub exists {ℓ} : {A : Type ℓ} → Option A → Bool
exists none = false
exists (some x) = true

owned_by : ℕ → Option (Option ℕ) → Option CommentError
owned_by user none = some video_missing
owned_by user (some none) = some forbidden
owned_by user (some (some uploader)) = if uploader == user then none else some forbidden

unfoldable pub check_video_ownership : Calls → ℕ → ℕ → Tables → Option CommentError
unfolding owned_by lookup
check_video_ownership env video user t =
    if env.owner_ok then owned_by user (lookup video t.videos) else some database

-- `none`: the content is refused.
unfoldable pub sanitize_content : Calls → Text → Option Text
sanitize_content env raw =
    let content = env.clean (env.trim raw) in
    if length content == 0 || ltb max_comment_len (length content) then none else some content

-- One round of the loop: the answer, or the ancestor to look at next.
pub data Level : Type 0 where
  answer : Parent → Level
  ascend : ℕ → Level

above : ℕ → Option ℕ → Level
above id none = answer (under id)
above id (some a) = ascend a

unfoldable pub look : ℕ → ℕ → Option Comment → Level
unfolding above
look video id none = answer (refused parent_missing)
look video id (some c) =
    if c.video_id == video then above id c.parent_id else answer (refused parent_elsewhere)

-- The query of a round fails, or it leads to the answer or to the next round.
unfoldable pub settle : Bool → (ℕ → Parent) → Level → Parent
settle false next l = refused database
settle true next (answer p) = p
settle true next (ascend a) = next a

-- The loop up the parents. The number is how many levels are left to try.
unfoldable pub climb : Calls → ℕ → ℕ → Tables → ℕ → Parent
unfolding lookup
climb env video zero t id = refused too_deep
climb env video (suc left) t id =
    settle (env.meta_ok (suc left)) (climb env video left t) (look video id (lookup id t.comments))

unfoldable pub resolve_parent_comment : Calls → ℕ → Option ℕ → Tables → Parent
unfolding climb exists lookup
resolve_parent_comment env video none t =
    if env.exists_ok
    then (if exists (lookup video t.videos) then top else refused video_missing)
    else refused database
resolve_parent_comment env video (some id) t = climb env video max_reply_depth t id

unfoldable pub parent_violated : Option ℕ → Tables → Option CommentError
unfolding exists lookup
parent_violated none t = none
parent_violated (some p) t = if exists (lookup p t.comments) then none else some parent_missing

-- The foreign keys of a new row, with the errors that `map_create_error` gives.
unfoldable pub violated : Calls → ℕ → Option ℕ → Tables → Option CommentError
unfolding exists lookup parent_violated
violated env video parent t =
    if exists (lookup video t.videos)
    then (if env.user_exists then parent_violated parent t else some invalid_content)
    else some video_missing

unfoldable pub new_comment : ℕ → ℕ → Text → Option ℕ → Comment
new_comment video user content parent = record {
  video_id = video;
  user_id = user;
  content = content;
  parent_id = parent;
}

unfoldable pub insert_comment : Tables → Comment → Tables
insert_comment t c = record {
  comments = (t.next_id, c) ∷ t.comments;
  videos = t.videos;
  next_id = suc t.next_id;
}

unfoldable pub store : Tables → Comment → Option CommentError → Tables × Created
unfolding insert_comment
store t c none = (insert_comment t c, created t.next_id c)
store t c (some e) = (t, rejected e)

unfoldable pub write : Calls → Tables → Comment → Tables × Created
unfolding store violated
write env t c =
    if env.insert_ok
    then store t c (violated env c.video_id c.parent_id t)
    else (t, rejected database)

unfoldable pub create_under : Calls → ℕ → ℕ → Text → Parent → Tables → Tables × Created
unfolding write new_comment
create_under env video user content (refused e) t = (t, rejected e)
create_under env video user content top t =
    write env (env.meanwhile t) (new_comment video user content none)
create_under env video user content (under p) t =
    write env (env.meanwhile t) (new_comment video user content (some p))

unfoldable pub create_content : Calls → ℕ → ℕ → Option Text → Option ℕ → Tables → Tables × Created
unfolding create_under resolve_parent_comment
create_content env video user none parent t = (t, rejected bad_length)
create_content env video user (some content) parent t =
    create_under env video user content (resolve_parent_comment env video parent t) t

unfoldable pub create_allowed :
    Calls → ℕ → ℕ → Text → Option ℕ → Option CommentError → Tables → Tables × Created
unfolding create_content sanitize_content
create_allowed env video user raw parent (some e) t = (t, rejected e)
create_allowed env video user raw parent none t =
    create_content env video user (sanitize_content env raw) parent t

unfoldable pub create_comment : Calls → ℕ → ℕ → Text → Option ℕ → Bool → Tables → Tables × Created
unfolding create_allowed check_video_ownership
create_comment env video user raw parent is_admin t =
    create_allowed env video user raw parent
      (if is_admin then none else check_video_ownership env video user t) t
