-- ===== src/Comments/Threads.antt =====
-- The threads of backend/src/services/comment_service.rs: a comment is at the top of its video, or
-- it hangs below a comment that is.
use lan_video.Prelude.{
  ℕ, zero, suc, ◌==◌, ◌<◌, ◌≡◌, refl, sym, ap, ◌∙◌, ap₂, subst, ◌⊎◌, inl, inr, Bool, true, false,
  Option, none, some, arith, Bool-cases, Option-cases, ==_iff, ◌≢◌,
}
use lan_video.Prelude.Assoc.{nat_Eq, lookup}
use lan_video.Comments.{
  Comment, Tables, CommentError, settle, Parent, refused, under, Calls, look, Level, answer, ascend,
  climb, resolve_parent_comment,
}

-- The comment is at the top of the video's comments.
abbrev pub IsTop : Tables → ℕ → ℕ → Type 0
IsTop t video id =
    (c : Comment) × (lookup id t.comments ≡ some c) × (c.video_id ≡ video) × (c.parent_id ≡ none)

abbrev pub Hangs : Tables → ℕ → Option ℕ → Type 0
Hangs t video none = Unit {0}
Hangs t video (some p) = IsTop t video p

pub record Threaded (t : Tables) : Type 0 where
  pub hangs :
      (id : ℕ) (c : Comment) → lookup id t.comments ≡ some c → Hangs t c.video_id c.parent_id
  pub fresh : (id : ℕ) (c : Comment) → lookup id t.comments ≡ some c → id < t.next_id

-- The comment at whose place a reply to `id` hangs.
abbrev pub root : ℕ → Option ℕ → ℕ
root id none = id
root id (some p) = p

-- What the other requests may do: the tables stay threaded, and a comment that is there under an old
-- id is the one that was there.
pub record Keeps (t t' : Tables) : Type 0 where
  pub threaded : Threaded t'
  pub same :
      (id : ℕ) (c c' : Comment)
      → lookup id t.comments ≡ some c
      → lookup id t'.comments ≡ some c'
      → c' ≡ c

target : Level → ℕ
target (answer (under p)) = p
target _ = 0

under-injective : {p q : ℕ} → answer (under p) ≡ answer (under q) → p ≡ q
unfolding target
under-injective e = ap target e

refused-ne-under : {e : CommentError} (p : ℕ) → answer (refused e) ≢ answer (under p)
refused-ne-under p e = cc e

ascend-ne-under : (a p : ℕ) → ascend a ≢ answer (under p)
ascend-ne-under a p e = cc e

look-under :
    (video id p : ℕ) (o : Option Comment)
    → look video id o ≡ answer (under p)
    → (p ≡ id) × ((c : Comment) × (o ≡ some c) × (c.video_id ≡ video) × (c.parent_id ≡ none))
unfolding look
look-under video id p none h = absurd (cc h)
look-under video id p (some c) h = elim (Bool-cases (c.video_id == video)) [
  | inr e ↦ absurd (refused-ne-under p (rw e at h))
  | inl e ↦ elim (Option-cases c.parent_id) [
    | inl n ↦ (sym (under-injective (rw (e, n) at h)), (c, refl, ground arith, n))
    | inr (a, n) ↦ absurd (ascend-ne-under a p (rw (e, n) at h))
  ]
]

look-top :
    (video id : ℕ) (c : Comment)
    → c.video_id ≡ video
    → c.parent_id ≡ none
    → look video id (some c) ≡ answer (under id)
unfolding look
look-top video id c v n = rw ((==_iff c.video_id video).1 v, n) refl

look-child :
    (video id a : ℕ) (c : Comment)
    → c.video_id ≡ video
    → c.parent_id ≡ some a
    → look video id (some c) ≡ ascend a
unfolding look
look-child video id a c v n = rw ((==_iff c.video_id video).1 v, n) refl

module _ (env : Calls) (video : ℕ) (t : Tables) where
  settle-under :
      (ok : Bool) (next : ℕ → Parent) (l : Level) (p : ℕ)
      → settle ok next l ≡ under p
      → (l ≡ answer (under p)) ⊎ ((a : ℕ) × (l ≡ ascend a) × (next a ≡ under p))
  unfolding settle
  settle-under false next l p h = absurd (cc h)
  settle-under true next (answer q) p h = inl (ap answer h)
  settle-under true next (ascend a) p h = inr (a, refl, h)

  -- A parent that the loop answers is at the top of the video's comments.
  pub climb-IsTop : (left id p : ℕ) → climb env video left t id ≡ under p → IsTop t video p
  unfolding climb
  climb-IsTop zero id p h = absurd (cc h)
  climb-IsTop (suc left) id p h =
      elim (settle-under (env.meta_ok (suc left)) (climb env video left t)
        (look video id (lookup id t.comments)) p h) [
          | inl e ↦
              let (i, c) = look-under video id p (lookup id t.comments) e in
              subst (IsTop t video) (sym i) c
          | inr (a, e, k) ↦ climb-IsTop left a p k
        ]

  climb-answer :
      (left id : ℕ) (p : Parent)
      → env.meta_ok (suc left) ≡ true
      → look video id (lookup id t.comments) ≡ answer p
      → climb env video (suc left) t id ≡ p
  unfolding climb settle
  climb-answer left id p ok e = ap₂ (λ b l. settle b (climb env video left t) l) ok e

  climb-ascend :
      (left id a : ℕ)
      → env.meta_ok (suc left) ≡ true
      → look video id (lookup id t.comments) ≡ ascend a
      → climb env video (suc left) t id ≡ climb env video left t a
  unfolding climb settle
  climb-ascend left id a ok e = ap₂ (λ b l. settle b (climb env video left t) l) ok e

  climb-top :
      (left id : ℕ)
      → env.meta_ok (suc left) ≡ true
      → IsTop t video id
      → climb env video (suc left) t id ≡ under id
  climb-top left id ok (c, h, v, n) =
      climb-answer left id (under id) ok (rw h (look-top video id c v n))

  -- In threaded tables, and with the queries carried out, a reply to a comment of the video hangs at
  -- the top of that comment's thread: the limit on the depth is never met.
  pub resolve_parent_comment-root :
      (id : ℕ) (c : Comment)
      → Threaded t
      → ((n : ℕ) → env.meta_ok n ≡ true)
      → lookup id t.comments ≡ some c
      → c.video_id ≡ video
      → resolve_parent_comment env video (some id) t ≡ under (root id c.parent_id)
  unfolding resolve_parent_comment
  resolve_parent_comment-root id c th ok h v = elim (Option-cases c.parent_id) [
    | inl n ↦ rw n (climb-top 9 id (ok 10) (c, h, v, n))
    | inr (a, n) ↦
        let i = subst (λ x. IsTop t x a) v (subst (Hangs t c.video_id) n (th.hangs id c h)) in
        rw n (
          climb-ascend 9 id a (ok 10) (rw h (look-child video id a c v n)) ∙ climb-top 8 a (ok 9) i)
  ]
