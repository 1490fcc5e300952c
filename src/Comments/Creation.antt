-- ===== src/Comments/Creation.antt =====
-- `create_comment` of backend/src/services/comment_service.rs, with the other requests that run
-- between its queries.
use lan_video.Prelude.{
  ℕ, ◌==◌, ◌≡◌, refl, sym, ap, ◌∙◌, subst, inl, inr, Bool, Option, none, some, if◌then◌else◌, arith,
  Bool-cases, Option-cases, some-injective,
}
use lan_video.Prelude.Assoc.{nat_Eq, lookup}
use lan_video.Prelude.Texts.{Text}
use lan_video.Comments.{
  Comment, Tables, CommentError, Parent, refused, top, under, Calls, max_reply_depth,
  resolve_parent_comment, violated, new_comment, insert_comment, write, store, parent_violated,
  create_under, create_comment, create_content, create_allowed, check_video_ownership,
  sanitize_content, exists,
}
use lan_video.Comments.Threads.{IsTop, Hangs, Threaded, Keeps, climb-IsTop}

Hangs-insert_comment :
    (t : Tables) (c : Comment) (video : ℕ) (parent : Option ℕ)
    → Threaded t
    → Hangs t video parent
    → Hangs (insert_comment t c) video parent
unfolding insert_comment lookup
Hangs-insert_comment t c video none th h = tt
Hangs-insert_comment t c video (some p) th (d, e, v, n) = (d, ground (arith, th.fresh p d), v, n)

insert_comment-Threaded :
    (t : Tables) (c : Comment)
    → Threaded t
    → Hangs t c.video_id c.parent_id
    → Threaded (insert_comment t c)
unfolding insert_comment lookup
insert_comment-Threaded t c th h = record {
  hangs = λ id d e. elim (Bool-cases (t.next_id == id)) [
    | inl q ↦
        let same = some-injective (rw q at e) in
        subst (λ x. Hangs (insert_comment t c) x.video_id x.parent_id) same
          (Hangs-insert_comment t c c.video_id c.parent_id th h)
    | inr q ↦ Hangs-insert_comment t c d.video_id d.parent_id th (th.hangs id d (rw q at e))
  ];
  fresh = λ id d e. ground (arith, th.fresh id d);
}

violated-Hangs :
    (env : Calls) (t : Tables) (video : ℕ) (parent : Option ℕ)
    → violated env video parent t ≡ none
    → ((p : ℕ) (d : Comment)
        → parent ≡ some p
        → lookup p t.comments ≡ some d
        → (d.video_id ≡ video) × (d.parent_id ≡ none))
    → Hangs t video parent
unfolding violated parent_violated exists
violated-Hangs env t video none v k = tt
violated-Hangs env t video (some p) v k = elim (Option-cases (lookup p t.comments)) [
  | inl e ↦ absurd (ground arith)
  | inr (d, e) ↦ (let (x, y) = k p d refl e in (d, e, x, y))
]

-- The INSERT keeps the tables threaded, if the parent, where it still is there, is at the top.
write-Threaded :
    (env : Calls) (t : Tables) (c : Comment)
    → Threaded t
    → ((p : ℕ) (d : Comment)
        → c.parent_id ≡ some p
        → lookup p t.comments ≡ some d
        → (d.video_id ≡ c.video_id) × (d.parent_id ≡ none))
    → Threaded (write env t c).0
unfolding write store
write-Threaded env t c th k = elim (Bool-cases env.insert_ok) [
  | inr e ↦ simp e th
  | inl e ↦ simp e (elim (Option-cases (violated env c.video_id c.parent_id t)) [
    | inr (x, v) ↦ simp v th
    | inl v ↦
        simp v (insert_comment-Threaded t c th (violated-Hangs env t c.video_id c.parent_id v k))
  ])
]

resolve_parent_comment-IsTop :
    (env : Calls) (video : ℕ) (parent : Option ℕ) (t : Tables) (p : ℕ)
    → resolve_parent_comment env video parent t ≡ under p
    → IsTop t video p
unfolding resolve_parent_comment
resolve_parent_comment-IsTop env video none t p h = absurd (ground arith)
resolve_parent_comment-IsTop env video (some id) t p h =
    climb-IsTop env video t max_reply_depth id p h

create_under-Threaded :
    (env : Calls) (video user : ℕ) (content : Text) (r : Parent) (t : Tables)
    → Threaded t
    → Keeps t (env.meanwhile t)
    → ((p : ℕ) → r ≡ under p → IsTop t video p)
    → Threaded (create_under env video user content r t).0
unfolding create_under new_comment
create_under-Threaded env video user content (refused e) t th k i = th
create_under-Threaded env video user content top t th k i =
    write-Threaded env (env.meanwhile t) (new_comment video user content none) k.threaded
      λ p d e l. absurd (cc e)
create_under-Threaded env video user content (under p) t th k i =
    let (c, h, v, n) = i p refl in
    write-Threaded env (env.meanwhile t) (new_comment video user content (some p)) k.threaded
      λ q d e l.
        let same =
          k.same p c d h (
            subst (λ x. lookup x (env.meanwhile t).comments ≡ some d) (sym (some-injective e)) l) in
        (ap (λ x. x.video_id) same ∙ v, ap (λ x. x.parent_id) same ∙ n)

create_content-Threaded :
    (env : Calls) (video user : ℕ) (content : Option Text) (parent : Option ℕ) (t : Tables)
    → Threaded t
    → Keeps t (env.meanwhile t)
    → Threaded (create_content env video user content parent t).0
unfolding create_content
create_content-Threaded env video user none parent t th k = th
create_content-Threaded env video user (some content) parent t th k =
    create_under-Threaded env video user content (resolve_parent_comment env video parent t) t th k
      (resolve_parent_comment-IsTop env video parent t)

create_allowed-Threaded :
    (env : Calls) (video user : ℕ) (raw : Text) (parent : Option ℕ) (e : Option CommentError)
    (t : Tables)
    → Threaded t
    → Keeps t (env.meanwhile t)
    → Threaded (create_allowed env video user raw parent e t).0
unfolding create_allowed
create_allowed-Threaded env video user raw parent (some e) t th k = th
create_allowed-Threaded env video user raw parent none t th k =
    create_content-Threaded env video user (sanitize_content env raw) parent t th k

-- A comment that is created hangs at the top of its video or below such a comment, also when other
-- requests change the tables between the look at the parent and the INSERT; if it is refused, the
-- tables stay threaded too. The other requests keep the tables threaded and change no comment.
pub create_comment-Threaded :
    (env : Calls) (video user : ℕ) (raw : Text) (parent : Option ℕ) (is_admin : Bool) (t : Tables)
    → Threaded t
    → Keeps t (env.meanwhile t)
    → Threaded (create_comment env video user raw parent is_admin t).0
unfolding create_comment
create_comment-Threaded env video user raw parent is_admin t th k =
    create_allowed-Threaded env video user raw parent
      (if is_admin then none else check_video_ownership env video user t) t th k
