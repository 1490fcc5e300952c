-- ===== src/Upload/Invariant.antt =====
-- What holds of an upload between two requests.
use lan_video.Prelude.{
  ℕ, ◌≡◌, refl, ap, sym, ◌≢◌, ◌∙◌, ◌⊎◌, inl, inr, true, false, Option, none, some, ◌∷◌, arith,
  length, length-append,
}
use lan_video.Prelude.Texts.{Text, eq_ignore_ascii_case}
use lan_video.Library.{saved}
use lan_video.Upload.{Sha256, FileTypes, WriteOutcome, open_failed, torn, written, Io, Disk}
use lan_video.Upload.Store.{remove_tmp}
use lan_video.Upload.Outcomes.{save_it, Kept}
use lan_video.Upload.Session.{
  receiving, completed, UploadAppendError, Reply, appended, failed, Request, bytes_of, UploadSlot,
  Session, start_over,
}
use lan_video.Upload.Append.{absorb}

-- A write that leaves part of the chunk behind is the one that the slot does not account for.
abbrev pub IsWhole : WriteOutcome → Type 0
IsWhole open_failed = Unit {0}
IsWhole written = Unit {0}
IsWhole (torn n) = ⊥

-- The hash of a whole file.
abbrev pub hash_of : Sha256 → Text → Text
hash_of h bytes = h.finalize (h.update h.new bytes)

module _ (h : Sha256) where
  -- The slot describes the temporary file.
  pub record Describes (slot : UploadSlot h) (tmp : Option Text) : Type 0 where
    pub hashed : slot.hasher ≡ h.update h.new (bytes_of tmp)
    pub measured : slot.size ≡ length (bytes_of tmp)

  -- While it receives, an initialised slot describes the temporary file; any other slot is new.
  pub record IsValid (s : Session h) : Type 0 where
    pub described :
        s.slot.initialized ≡ true → s.slot.phase ≡ receiving → Describes s.slot s.disk.tmp
    pub fresh :
        s.slot.initialized ≡ false
        → (s.slot.phase ≡ receiving) × (s.slot.size ≡ 0) × (s.slot.hasher ≡ h.new)

  pub start_over-IsValid :
      (io : Io) (s : Session h) → io.remove_ok ≡ true → IsValid (start_over h io s)
  unfolding start_over bytes_of
  start_over-IsValid io s e = simp e (record {
    described = λ _ _. record { hashed = sym (h.update-nil h.new); measured = refl };
    fresh = λ e. cc;
  })

  -- The lemmas below are about slots that are initialised and receive.
  pub record IsReady (s : Session h) : Type 0 where
    pub ready : s.slot.initialized ≡ true
    pub receives : s.slot.phase ≡ receiving
    pub describes : Describes s.slot s.disk.tmp

  pub IsReady-IsValid : (s : Session h) → IsReady s → IsValid s
  IsReady-IsValid s v = record { described = λ _ _. v.describes; fresh = λ e. cc (v.ready) }

  pub start_over-IsReady :
      (io : Io) (s : Session h) → io.remove_ok ≡ true → IsReady (start_over h io s)
  unfolding start_over bytes_of remove_tmp
  start_over-IsReady io s e = simp e (record {
    ready = refl;
    receives = refl;
    describes = record { hashed = sym (h.update-nil h.new); measured = refl };
  })

  absorb-Describes :
      (r : Request) (s : Session h)
      → Describes s.slot s.disk.tmp
      → Describes (absorb h r s).slot (absorb h r s).disk.tmp
  unfolding absorb bytes_of
  absorb-Describes r s v = record {
    hashed =
        ap (λ x. h.update x r.chunk) v.hashed ∙ h.update-append h.new (bytes_of s.disk.tmp) r.chunk;
    measured = omega (arith, v.measured, length-append {0} (bytes_of s.disk.tmp) r.chunk);
  }

  pub absorb-IsReady : (r : Request) (s : Session h) → IsReady s → IsReady (absorb h r s)
  unfolding absorb
  absorb-IsReady r s v = record {
    ready = v.ready;
    receives = v.receives;
    describes = absorb-Describes r s v.describes;
  }

module _ (h : Sha256) (types : FileTypes) (quota : ℕ) (io : Io) (r : Request) (d : Disk) where
  -- The upload is published: the bytes of the file have the declared length and hash, the database
  -- has saved their row, the answer has its id, and the slot is complete.
  pub record Published (q : Session h × Reply) : Type 0 where
    pub bytes : Text
    pub id : ℕ
    pub replies : q.1 ≡ appended r.total_size (some id)
    pub in_media : q.0.disk.media ≡ (io.dest_name, bytes) ∷ d.media
    pub complete : length bytes ≡ r.total_size
    pub declared : eq_ignore_ascii_case (hash_of h bytes) r.hash ≡ true
    pub recorded :
        save_it quota io r.uploader_id r.total_size (hash_of h bytes) d
        ≡ (q.0.disk.tables, saved id)
    pub phase_completed : q.0.slot.phase ≡ completed id
    pub valid : IsValid h q.0

  -- No row is saved and no file is published, but the moved file stays in the media folder, without a
  -- row, if its removal fails; and the slot is well formed.
  pub record Unpublished (q : Session h × Reply) : Type 0 where
    pub no_id : (n id : ℕ) → q.1 ≢ appended n (some id)
    pub kept : Kept io d q.0.disk
    pub valid : IsValid h q.0

  abbrev pub Outcome : Session h × Reply → Type 0
  Outcome q = Published q ⊎ Unpublished q

  pub failed-Outcome :
      (e : UploadAppendError) (s : Session h)
      → IsValid h s
      → Kept io d s.disk
      → Outcome (s, failed e)
  failed-Outcome e s v m = inr (record { no_id = λ n id e'. cc; kept = m; valid = v })

  pub progress-Outcome :
      (s : Session h) → IsValid h s → Kept io d s.disk → Outcome (s, appended s.slot.size none)
  progress-Outcome s v m = inr (record { no_id = λ n id e'. cc; kept = m; valid = v })

module _ (h : Sha256) (types : FileTypes) (quota : ℕ) (io : Io) (r : Request) where
  Kept-media :
      (d d' e : Disk)
      → d.media ≡ d'.media
      → ((e.media ≡ d.media)
          ⊎ ((io.remove_dest_ok ≡ false)
              × ((bytes : Text) × (e.media ≡ (io.dest_name, bytes) ∷ d.media))))
      → ((e.media ≡ d'.media)
          ⊎ ((io.remove_dest_ok ≡ false)
              × ((bytes : Text) × (e.media ≡ (io.dest_name, bytes) ∷ d'.media))))
  Kept-media d d' e m (inl k) = inl (k ∙ m)
  Kept-media d d' e m (inr (b, (bytes, k))) =
      inr (b, (bytes, k ∙ ap (λ x. (io.dest_name, bytes) ∷ x) m))

  -- Of the disk before the request only the media folder and the tables matter.
  pub Outcome-same :
      (d d' : Disk) (q : Session h × Reply)
      → d.media ≡ d'.media
      → d.tables ≡ d'.tables
      → Outcome h types quota io r d q
      → Outcome h types quota io r d' q
  Outcome-same d d' q m t (inl z) = inl (record {
    bytes = z.bytes;
    id = z.id;
    replies = z.replies;
    in_media = z.in_media ∙ ap (λ x. (io.dest_name, z.bytes) ∷ x) m;
    complete = z.complete;
    declared = z.declared;
    recorded =
        ap
          (λ x.
            save_it quota io r.uploader_id r.total_size (hash_of h z.bytes)
              (record d' { tables = x }))
          (sym t)
        ∙ z.recorded;
    phase_completed = z.phase_completed;
    valid = z.valid;
  })
  Outcome-same d d' q m t (inr z) = inr (record {
    no_id = z.no_id;
    kept = (z.kept.0 ∙ t, Kept-media d d' q.0.disk m z.kept.1);
    valid = z.valid;
  })
