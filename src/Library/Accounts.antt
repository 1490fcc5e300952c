-- ===== src/Library/Accounts.antt =====
-- What the transaction keeps: the accounts, the unique index, the quota, and all or nothing.
use lan_video.Prelude.{
  ℕ, suc, ◌+◌, ◌-◌, ◌≤◌, ◌<◌, ◌≡◌, refl, ◌⊎◌, inl, inr, ◌≢◌, ◌∙◌, Option, none, some, arith,
  if◌then◌else◌, true, false, ◌==◌, List, [], ◌∷◌, subst, sym, ap, Option-cases, Bool-cases,
}
use lan_video.Prelude.Assoc.{nat_Eq, lookup}
use lan_video.Prelude.Texts.{Text}
use lan_video.Library.{
  VideoRow, Tables, Statements, SaveVideoOutcome, saved, i64_max, unwrap_or, same_number,
  violates_unique, add_bytes, charge, new_row, finish, insert_row, admit,
  save_local_video_with_quota,
}

unfoldable pub row_bytes : ℕ → VideoRow → ℕ
row_bytes uid r = if same_number r.uploader_id (some uid) then unwrap_or r.file_size 0 else 0

-- The bytes of an uploader's videos.
unfoldable pub total : ℕ → List VideoRow → ℕ
unfolding row_bytes same_number
total uid [] = 0
total uid (r ∷ rs) = row_bytes uid r + total uid rs

-- No two rows share an uploader and a hash.
abbrev pub Distinct : List VideoRow → Type 0
Distinct [] = Unit {0}
Distinct (r ∷ rs) = (violates_unique r.uploader_id r.file_hash rs ≡ false) × Distinct rs

abbrev pub Fresh : ℕ → List VideoRow → Type 0
Fresh n [] = Unit {0}
Fresh n (r ∷ rs) = (r.id < n) × Fresh n rs

pub record IsValid (t : Tables) : Type 0 where
  pub accounts : (uid used : ℕ) → lookup uid t.storage_used ≡ some used → used ≡ total uid t.videos
  pub distinct : Distinct t.videos
  pub fresh : Fresh t.next_id t.videos

abbrev pub WithinQuota : ℕ → Tables → Type 0
WithinQuota quota t = (uid used : ℕ) → lookup uid t.storage_used ≡ some used → used ≤ quota

abbrev plus : ℕ → Option ℕ → Option ℕ
plus n none = none
plus n (some used) = some (used + n)

lookup-add_bytes :
    (uid size j : ℕ) (us : List (ℕ × ℕ))
    → lookup j (add_bytes uid size us) ≡ (if uid == j then plus size (lookup j us) else lookup j us)
unfolding lookup add_bytes
lookup-add_bytes uid size j [] = ground arith
lookup-add_bytes uid size j ((u, used) ∷ us) = ground (arith, lookup-add_bytes uid size j us)

Fresh-mono : (n : ℕ) (rs : List VideoRow) → Fresh n rs → Fresh (suc n) rs
Fresh-mono n [] f = tt
Fresh-mono n (r ∷ rs) f = (omega arith, Fresh-mono n rs f.1)

-- What `charge` leaves in an account.
charge-lookup :
    (ok : Statements) (uploader size : Option ℕ) (us us' : List (ℕ × ℕ)) (uid used : ℕ)
    → charge ok uploader size us ≡ some us'
    → lookup uid us' ≡ some used
    → (old : ℕ) × (lookup uid us ≡ some old)
      × (used ≡ old + (if same_number uploader (some uid) then unwrap_or size 0 else 0))
unfolding charge same_number
charge-lookup ok none size us us' uid used h e = (used, ground arith, ground arith)
charge-lookup ok (some u) none us us' uid used h e = (used, ground arith, ground arith)
charge-lookup ok (some u) (some n) us us' uid used h e = (
  used - (if u == uid then n else 0),
  ground (arith, lookup-add_bytes u n uid us),
  ground (arith, lookup-add_bytes u n uid us),
)

module _ (quota : ℕ) (ok : Statements) (uploader : Option ℕ) (hash : Option Text) (size : Option ℕ)
    (url : Text) (t : Tables) where
  abbrev pub save : Tables × SaveVideoOutcome
  save = save_local_video_with_quota quota ok uploader hash size url t

  -- What is known when the transaction has saved the row.
  record Saved (t' : Tables) : Type 0 where
    us : List (ℕ × ℕ)
    admitted : admit quota ok uploader size t ≡ none
    unique : violates_unique uploader hash t.videos ≡ false
    charged : charge ok uploader size t.storage_used ≡ some us
    result : t' ≡ record {
      storage_used = us;
      videos = new_row t uploader hash size url ∷ t.videos;
      next_id = suc t.next_id;
    }

  -- The tables stay as they were, and no id is handed out.
  abbrev Refused : Tables × SaveVideoOutcome → Type 0
  Refused r = (r.0 ≡ t) × ((id : ℕ) → r.1 ≢ saved id)

  admit-ne-saved : (id : ℕ) → admit quota ok uploader size t ≢ some (saved id)
  unfolding admit
  admit-ne-saved id = ground arith

  finish_cases :
      (o : Option (List (ℕ × ℕ)))
      → charge ok uploader size t.storage_used ≡ o
      → admit quota ok uploader size t ≡ none
      → violates_unique uploader hash t.videos ≡ false
      → let r = finish ok t (new_row t uploader hash size url) o in
        ((r.1 ≡ saved t.next_id) × Saved r.0) ⊎ Refused r
  unfolding finish new_row
  finish_cases none e a u = inr (refl, λ id. λ e. cc)
  finish_cases (some us) e a u = elim (Bool-cases ok.commit_ok) [
    | inl c ↦
        simp c
          (inl (refl, record { us = us; admitted = a; unique = u; charged = e; result = refl }))
    | inr c ↦ simp c (inr (refl, λ id. λ e. cc))
  ]

  insert_cases :
      admit quota ok uploader size t ≡ none
      → let r = insert_row ok t uploader hash size url in
        ((r.1 ≡ saved t.next_id) × Saved r.0) ⊎ Refused r
  unfolding insert_row
  insert_cases a = elim (Bool-cases ok.insert_ok) [
    | inr c ↦ simp c (inr (refl, λ id. λ e. cc))
    | inl c ↦ simp c (elim (Bool-cases (violates_unique uploader hash t.videos)) [
      | inl u ↦ simp u (inr (refl, λ id. λ e. cc))
      | inr u ↦ simp u (finish_cases (charge ok uploader size t.storage_used) refl a u)
    ])
  ]

  -- A transaction saves its row, under the next id, or leaves the tables as they were.
  save_cases : ((save.1 ≡ saved t.next_id) × Saved save.0) ⊎ Refused save
  unfolding save_local_video_with_quota
  save_cases = elim (Bool-cases ok.begin_ok) [
    | inr c ↦ simp c (inr (refl, λ id. λ e. cc))
    | inl c ↦ simp c (elim (Option-cases (admit quota ok uploader size t)) [
      | inl a ↦ simp a (insert_cases a)
      | inr (o, a) ↦ simp a (inr (refl, λ id e. admit-ne-saved id (a ∙ ap some e)))
    ])
  ]

  -- All or nothing: the transaction hands out the next id and adds exactly its row, which breaks no
  -- unique index, or it hands out no id and leaves the tables as they were.
  pub save_atomic :
      ((save.1 ≡ saved t.next_id)
        × (save.0.videos ≡ new_row t uploader hash size url ∷ t.videos)
        × (violates_unique uploader hash t.videos ≡ false))
      ⊎ ((save.0 ≡ t) × ((id : ℕ) → save.1 ≢ saved id))
  save_atomic = elim save_cases [
    | inl (e, s) ↦ inl (e, ap (λ x. x.videos) s.result, s.unique)
    | inr e ↦ inr e
  ]

  Saved-IsValid : (t' : Tables) → Saved t' → IsValid t → IsValid t'
  unfolding new_row total row_bytes
  Saved-IsValid t' s v = rw s.result record {
    accounts = λ uid used e.
        let (old, had, sum) =
          charge-lookup ok uploader size t.storage_used s.us uid used s.charged e in
        omega (arith, sum, v.accounts uid old had);
    distinct = (s.unique, v.distinct);
    fresh = (omega arith, Fresh-mono t.next_id t.videos v.fresh);
  }

  -- The transaction keeps the tables well formed, whichever statements fail: each account holds
  -- the sum of its uploader's videos, no two videos share an uploader and a hash, and each id is
  -- below the next one.
  pub save-IsValid : IsValid t → IsValid save.0
  save-IsValid v = elim save_cases [
    | inl (e, s) ↦ Saved-IsValid save.0 s v
    | inr e ↦ subst IsValid (sym e.0) v
  ]

  admitted_within :
      (uid old : ℕ)
      → admit quota ok uploader size t ≡ none
      → lookup uid t.storage_used ≡ some old
      → same_number uploader (some uid) ≡ true
      → 0 < quota
      → quota < i64_max
      → old + unwrap_or size 0 ≤ quota
  unfolding admit same_number
  admitted_within uid old a e h p q = ground arith

  Saved-WithinQuota :
      (t' : Tables)
      → 0 < quota
      → quota < i64_max
      → Saved t'
      → WithinQuota quota t
      → WithinQuota quota t'
  Saved-WithinQuota t' p q s w = rw s.result λ uid used e.
      let (old, had, sum) =
        charge-lookup ok uploader size t.storage_used s.us uid used s.charged e in
      elim (Bool-cases (same_number uploader (some uid))) [
        | inl h ↦ omega (arith, rw h at sum, admitted_within uid old s.admitted had h p q)
        | inr h ↦ omega (arith, rw h at sum, w uid old had)
      ]

  -- No upload takes an account past a quota that is set and fits below the largest `i64`.
  pub save-WithinQuota :
      0 < quota → quota < i64_max → WithinQuota quota t → WithinQuota quota save.0
  save-WithinQuota p q w = elim save_cases [
    | inl (e, s) ↦ Saved-WithinQuota save.0 p q s w
    | inr e ↦ subst (WithinQuota quota) (sym e.0) w
  ]
