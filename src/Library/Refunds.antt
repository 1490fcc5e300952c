-- ===== src/Library/Refunds.antt =====
-- What a deletion keeps of the accounts, and what it loses.
use lan_video.Prelude.{
  ℕ, ◌+◌, ◌≡◌, ◌≢◌, refl, ap, ◌∙◌, Bool, true, false, not, Option, none, some, List, [], ◌∷◌, map,
  any, all, retain, arith, ◌==◌, if◌then◌else◌, Bool-cases, inl, inr,
}
use lan_video.Prelude.Assoc.{nat_Eq, lookup}
use lan_video.Prelude.Texts.{Text}
use lan_video.Library.{VideoRow, Tables, violates_unique, unwrap_or}
use lan_video.Library.Deletion.{
  Statement, is_listed, is_refunded, total_bytes, lowered, refund_account, without_listed,
  batch_delete_videos, delete_video_cascade, save_external_video, steps,
}
use lan_video.Library.Accounts.{total, row_bytes, Distinct, Fresh, IsValid}

-- Every row has a size.
abbrev pub AllSized : List VideoRow → Type 0
AllSized [] = Unit {0}
AllSized (r ∷ rs) = (r.file_size ≢ none) × AllSized rs

total-retain :
    (uid : ℕ) (ids : List ℕ) (rs : List VideoRow)
    → total uid rs
      ≡ total uid (retain (λ r. not (is_listed ids r)) rs) + unwrap_or (total_bytes uid ids rs) 0
unfolding total row_bytes retain total_bytes is_refunded
total-retain uid ids [] = omega arith
total-retain uid ids (r ∷ rs) = ground (arith, total-retain uid ids rs)

sized-ne-none :
    (uid : ℕ) (ids : List ℕ) (rs : List VideoRow)
    → AllSized rs
    → any (is_refunded uid ids) rs ≡ true
    → total_bytes uid ids rs ≢ none
unfolding any total_bytes
sized-ne-none uid ids [] a h = cc h
sized-ne-none uid ids (r ∷ rs) (s, a) h = ground (arith, s, sized-ne-none uid ids rs a)

no_group-none :
    (uid : ℕ) (ids : List ℕ) (rs : List VideoRow)
    → any (is_refunded uid ids) rs ≡ false
    → total_bytes uid ids rs ≡ none
unfolding any total_bytes
no_group-none uid ids [] h = refl
no_group-none uid ids (r ∷ rs) h = ground (arith, no_group-none uid ids rs)

any-retain {ℓ} :
    {A : Type ℓ} (p q : A → Bool) (xs : List A) → any p xs ≡ false → any p (retain q xs) ≡ false
unfolding any retain
any-retain p q [] h = refl
any-retain p q (x ∷ xs) h = ground (arith, any-retain p q xs)

Distinct-retain : (q : VideoRow → Bool) (rs : List VideoRow) → Distinct rs → Distinct (retain q rs)
unfolding retain violates_unique
Distinct-retain q [] d = tt
Distinct-retain q (r ∷ rs) (u, d) = elim (Bool-cases (q r)) [
  | inl e ↦ rw e (any-retain _ q rs u, Distinct-retain q rs d)
  | inr e ↦ rw e (Distinct-retain q rs d)
]

Fresh-retain :
    (n : ℕ) (q : VideoRow → Bool) (rs : List VideoRow) → Fresh n rs → Fresh n (retain q rs)
unfolding retain
Fresh-retain n q [] f = tt
Fresh-retain n q (r ∷ rs) (h, f) = elim (Bool-cases (q r)) [
  | inl e ↦ rw e (h, Fresh-retain n q rs f)
  | inr e ↦ rw e (Fresh-retain n q rs f)
]

-- What the refund makes of what an account has used.
after_refund : List ℕ → List VideoRow → ℕ → ℕ → ℕ
after_refund ids rs uid used =
    if any (is_refunded uid ids) rs then lowered used (total_bytes uid ids rs) else used

lookup-refund :
    (ids : List ℕ) (rs : List VideoRow) (j used : ℕ) (us : List (ℕ × ℕ))
    → lookup j (map (refund_account ids rs) us) ≡ some used
    → (old : ℕ) × (lookup j us ≡ some old) × (used ≡ after_refund ids rs j old)
unfolding lookup refund_account after_refund
lookup-refund ids rs j used [] h = absurd (cc h)
lookup-refund ids rs j used ((u, n) ∷ us) h = elim (Bool-cases (u == j)) [
  | inl e ↦ (n, rw e refl, ground arith)
  | inr e ↦ let (old, k, m) = lookup-refund ids rs j used us (ground arith) in (old, rw e k, m)
]

abbrev kept : List ℕ → Tables → List VideoRow
kept ids t = retain (λ r. not (is_listed ids r)) t.videos

refund_settles :
    (ids : List ℕ) (t : Tables) (uid old : ℕ)
    → AllSized t.videos
    → old ≡ total uid t.videos
    → after_refund ids t.videos uid old ≡ total uid (kept ids t)
unfolding after_refund
refund_settles ids t uid old a h = elim (Bool-cases (any (is_refunded uid ids) t.videos)) [
  | inl e ↦ rw e (
      settled (total_bytes uid ids t.videos) (sized-ne-none uid ids t.videos a e)
        (h ∙ total-retain uid ids t.videos))
  | inr e ↦
      rw e (h ∙ total-retain uid ids t.videos ∙ rw (no_group-none uid ids t.videos e) (omega arith))
]
  where
    settled :
        (s : Option ℕ)
        → s ≢ none
        → old ≡ total uid (kept ids t) + unwrap_or s 0
        → lowered old s ≡ total uid (kept ids t)
    settled none n k = absurd (n refl)
    settled (some m) n k = unfold lowered in omega arith

without_listed-IsValid :
    (ids : List ℕ) (t : Tables) → AllSized t.videos → IsValid t → IsValid (without_listed ids t)
unfolding without_listed
without_listed-IsValid ids t a v = record {
  accounts = λ uid used h.
      let (old, k, m) = lookup-refund ids t.videos uid used t.storage_used h in
      m ∙ refund_settles ids t uid old a (v.accounts uid old k);
  distinct = Distinct-retain (λ r. not (is_listed ids r)) t.videos v.distinct;
  fresh = Fresh-retain t.next_id (λ r. not (is_listed ids r)) t.videos v.fresh;
}

-- A deletion of any videos, in whatever order and however often they are listed, keeps the tables well
-- formed where every video has a size, whichever statements fail: each account again holds the sum of
-- its uploader's videos, no two videos share an uploader and a hash, and each id is below the next one.
pub batch_delete_videos-IsValid :
    (works : Statement → Bool) (ids : List ℕ) (t : Tables)
    → AllSized t.videos
    → IsValid t
    → IsValid (batch_delete_videos works ids t).0
unfolding batch_delete_videos
batch_delete_videos-IsValid works [] t a v = v
batch_delete_videos-IsValid works (i ∷ ids) t a v = elim (Bool-cases (all works steps)) [
  | inl e ↦ rw e (without_listed-IsValid (i ∷ ids) t a v)
  | inr e ↦ rw e v
]

-- The rows of other ids are not listed.
alone : (n uid : ℕ) (rs : List VideoRow) → Fresh n rs → any (is_refunded uid (n ∷ [])) rs ≡ false
unfolding any is_refunded is_listed
alone n uid [] f = refl
alone n uid (r ∷ rs) (h, f) = ground (arith, alone n uid rs f)

refund-lookup :
    (ids : List ℕ) (rs : List VideoRow) (j old : ℕ) (us : List (ℕ × ℕ))
    → lookup j us ≡ some old
    → lookup j (map (refund_account ids rs) us) ≡ some (after_refund ids rs j old)
unfolding lookup refund_account after_refund
refund-lookup ids rs j old [] h = absurd (cc h)
refund-lookup ids rs j old ((u, n) ∷ us) h = elim (Bool-cases (u == j)) [
  | inl e ↦ ground arith
  | inr e ↦ ground (arith, refund-lookup ids rs j old us)
]

external_refund :
    (n uid old : ℕ) (url : Text) (rs : List VideoRow)
    → Fresh n rs
    → after_refund
        (n ∷ [])
        (record {
          id = n;
          uploader_id = some uid;
          file_hash = none;
          file_size = none;
          stream_url = url;
        }
          ∷ rs)
        uid
        old
      ≡ 0
unfolding after_refund any total_bytes is_refunded is_listed lowered
external_refund n uid old url rs f =
    let k = no_group-none uid (n ∷ []) rs (alone n uid rs f) in rw k (ground arith)

-- An external video empties an account. Where an account saves one and deletes it again, and all
-- statements succeed, the account holds no bytes, whatever its other videos hold.
pub save_external_video-forgets :
    (works : Statement → Bool) (uid used : ℕ) (url : Text) (t : Tables)
    → IsValid t
    → all works steps ≡ true
    → lookup uid t.storage_used ≡ some used
    → lookup uid
        (delete_video_cascade works t.next_id
          (save_external_video true (some uid) url t).0).0.storage_used
      ≡ some 0
unfolding delete_video_cascade batch_delete_videos save_external_video without_listed
save_external_video-forgets works uid used url t v w h = rw w (
    refund-lookup _ _ uid used t.storage_used h
    ∙ ap some (external_refund t.next_id uid used url t.videos v.fresh))
