-- ===== src/Upload/Publishing.antt =====
-- Each request either publishes what was declared or publishes nothing, and keeps the slot sound.
use lan_video.Prelude.{
  ℕ, ◌+◌, ◌≡◌, refl, ap, ap₂, sym, ◌∙◌, ◌⊎◌, inl, inr, true, ◌&&◌, none, some, arith, Bool-cases,
  length, ◌==◌, ltb,
}
use lan_video.Prelude.Texts.{Text, eq_ignore_ascii_case}
use lan_video.ServiceError.{ServiceError}
use lan_video.Upload.{Sha256, FileTypes, WriteOutcome, open_failed, torn, written, Io, Disk}
use lan_video.Upload.Store.{Stored, refused, remove_tmp, upload_video_file_inner}
use lan_video.Upload.Outcomes.{Kept, Refusal, Storage, save_it, upload_video_file_inner-Stores}
use lan_video.Upload.Session.{
  UploadAppendError, hash_mismatch, internal, offset_mismatch, bad_request, appended, failed,
  Finalized, done, rejected, Request, bytes_of, is_there, is_empty, offset_is, offset_or,
  UploadSlot, Session, start_over, from_service_error,
}
use lan_video.Upload.Append.{
  settle, finalize_slot, answer, query_or_finalize, absorb, after_write, write_chunk, receive,
  receive_in, handle,
}
use lan_video.Upload.Invariant.{
  IsWhole, IsValid, IsReady, IsReady-IsValid, start_over-IsReady, start_over-IsValid,
  absorb-IsReady, hash_of, Outcome, failed-Outcome, progress-Outcome, Outcome-same,
}

module _ (h : Sha256) (types : FileTypes) (quota : ℕ) (io : Io) (r : Request)
    (removes : io.remove_ok ≡ true) where
  -- A refusal that leaves the slot sound.
  abbrev Sound : Disk → Session h × Finalized → Type 0
  Sound d q = ((x : UploadAppendError) × (q.1 ≡ rejected x)) × IsValid h q.0 × Kept io d q.0.disk

  -- One that leaves the tables and the media folder as they were.
  abbrev Still : Disk → Session h × Finalized → Type 0
  Still d q =
      ((x : UploadAppendError) × (q.1 ≡ rejected x))
      × IsValid h q.0
      × (q.0.disk.tables ≡ d.tables)
      × (q.0.disk.media ≡ d.media)

  pub start_over-media : (s : Session h) → (start_over h io s).disk.media ≡ s.disk.media
  unfolding start_over remove_tmp
  start_over-media s = ground arith

  start_over-tables : (s : Session h) → (start_over h io s).disk.tables ≡ s.disk.tables
  unfolding start_over remove_tmp
  start_over-tables s = ground arith

  start_over-Kept : (s : Session h) → Kept io s.disk (start_over h io s).disk
  start_over-Kept s = (start_over-tables s, inl (start_over-media s))

  start_over-Still :
      (slot : UploadSlot h) (d : Disk) (x : UploadAppendError)
      → Still d (start_over h io (record { slot = slot; disk = d }), rejected x)
  start_over-Still slot d x = (
    (x, refl),
    start_over-IsValid h io (record { slot = slot; disk = d }) removes,
    start_over-tables (record { slot = slot; disk = d }),
    start_over-media (record { slot = slot; disk = d }),
  )

  kept_IsValid :
      (s : Session h) (d : Disk)
      → IsReady h s
      → (d.tmp ≡ none) ⊎ (d.tmp ≡ s.disk.tmp)
      → is_there d.tmp ≡ true
      → IsValid h (record { slot = record (s.slot) { last_activity = io.now }; disk = d })
  unfolding is_there
  kept_IsValid s d v (inl e) i = absurd (cc (ap is_there e))
  kept_IsValid s d v (inr e) i = record {
    described = λ _ _. record {
      hashed = v.describes.hashed ∙ ap (λ x. h.update h.new (bytes_of x)) (sym e);
      measured = v.describes.measured ∙ ap (λ x. length (bytes_of x)) (sym e);
    };
    fresh = λ e'. absurd (cc v.ready);
  }

  settle_refused :
      (s : Session h) (d : Disk) (e : ServiceError)
      → IsReady h s
      → (d.tmp ≡ none) ⊎ (d.tmp ≡ s.disk.tmp)
      → Still d (settle h types quota io s.slot (d, refused e))
  unfolding settle
  settle_refused s d ServiceError.internal v t =
      elim (Bool-cases (io.exists_ok && is_there d.tmp)) [
        | inl b ↦ simp b ((internal, refl), kept_IsValid s d v t (ground arith), refl, refl)
        | inr b ↦ simp b (start_over-Still s.slot d internal)
      ]
  settle_refused s d e v t = start_over-Still s.slot d (from_service_error e)

  abbrev actual : Session h → Text
  actual s = h.finalize s.slot.hasher

  still_Kept :
      (d d' e : Disk) → (e.tables ≡ d'.tables) × (e.media ≡ d'.media) → Kept io d d' → Kept io d e
  still_Kept d d' e (t, m) (t', inl m') = (t ∙ t', inl (m ∙ m'))
  still_Kept d d' e (t, m) (t', inr (b, (bytes, m'))) = (t ∙ t', inr (b, (bytes, m ∙ m')))

  finalize_unstored :
      (s : Session h) (q : Disk × Stored)
      → IsReady h s
      → Refusal io s.disk q
      → Sound s.disk (settle h types quota io s.slot q)
  finalize_unstored s (d, a) v f =
      let z = settle_refused s d f.error v f.tmp_kept in
      rw f.answers (
        z.0,
        z.1,
        still_Kept s.disk d (settle h types quota io s.slot (d, refused f.error)).0.disk (z.2, z.3)
            f.kept,
      )

  abbrev stored_as : Session h → Disk × Stored
  stored_as s =
      upload_video_file_inner h types quota io true r.file_name r.category r.uploader_id
        (some (s.slot.size, actual s)) s.disk

  Sound-Outcome :
      (d : Disk) (s : Session h) (f : Finalized)
      → Sound d (s, f)
      → Outcome h types quota io r d (answer h (s, f))
  unfolding answer
  Sound-Outcome d s (done id) z = cc (z.0.1)
  Sound-Outcome d s (rejected e) z = failed-Outcome h types quota io r d e s z.1 z.2

  stored-Outcome :
      (s : Session h) (q : Disk × Stored)
      → IsReady h s
      → s.slot.size ≡ r.total_size
      → eq_ignore_ascii_case (actual s) r.hash ≡ true
      → Storage quota io r.uploader_id s.slot.size (actual s) s.disk q
      → Outcome h types quota io r s.disk (answer h (settle h types quota io s.slot q))
  unfolding settle answer
  stored-Outcome s q v c e z =
      let content : bytes_of s.disk.tmp ≡ z.bytes =
        ap bytes_of z.from_tmp ∙ unfold bytes_of in refl in
      let same : actual s ≡ hash_of h z.bytes =
        ap h.finalize (v.describes.hashed ∙ ap (h.update h.new) content) in
      rw z.result (
        inl (record {
          bytes = z.bytes;
          id = z.id;
          replies = ap (λ n. appended n (some z.id)) c;
          in_media = refl;
          complete = ap length (sym content) ∙ sym v.describes.measured ∙ c;
          declared = ap (λ x. eq_ignore_ascii_case x r.hash) (sym same) ∙ e;
          recorded =
              ap₂ (λ n x. save_it quota io r.uploader_id n x s.disk) (sym c) (sym same)
              ∙ z.row_saved;
          phase_completed = refl;
          valid = record { described = λ _ e'. cc; fresh = λ e'. absurd (cc v.ready) };
        }))

  -- The end of a complete upload.
  finalize-Outcome :
      (s : Session h)
      → IsReady h s
      → s.slot.size ≡ r.total_size
      → Outcome h types quota io r s.disk (answer h (finalize_slot h types quota io r s))
  unfolding finalize_slot answer
  finalize-Outcome s v c = elim (Bool-cases (eq_ignore_ascii_case (actual s) r.hash)) [
    | inr e ↦ simp e (
        failed-Outcome h types quota io r s.disk hash_mismatch (start_over h io s)
          (start_over-IsValid h io s removes) (start_over-Kept s))
    | inl e ↦
        simp e
          (elim (upload_video_file_inner-Stores quota io r.uploader_id s.slot.size (actual s) s.disk
            h types true r.file_name r.category) [
              | inl z ↦ stored-Outcome s (stored_as s) v c e z
              | inr z ↦
                  Sound-Outcome s.disk (settle h types quota io s.slot (stored_as s)).0
                    (settle h types quota io s.slot (stored_as s)).1
                    (finalize_unstored s (stored_as s) v z)
            ])
  ]

  query-Outcome :
      (s : Session h)
      → IsReady h s
      → Outcome h types quota io r s.disk (query_or_finalize h types quota io r s)
  unfolding query_or_finalize
  query-Outcome s v =
      elim (Bool-cases (offset_is r.offset s.slot.size && s.slot.size == r.total_size)) [
        | inl b ↦ simp b (finalize-Outcome s v (ground arith))
        | inr b ↦
            simp b (
              progress-Outcome h types quota io r s.disk s (IsReady-IsValid h s v) (refl, inl refl))
      ]

  after_write-Outcome :
      (s : Session h)
      → IsReady h s
      → Outcome h types quota io r s.disk (after_write h types quota io r s)
  unfolding after_write
  after_write-Outcome s v = elim (Bool-cases (s.slot.size == r.total_size)) [
    | inl b ↦ simp b (finalize-Outcome s v (ground arith))
    | inr b ↦
        simp b
          (progress-Outcome h types quota io r s.disk s (IsReady-IsValid h s v) (refl, inl refl))
  ]

  write_chunk-Outcome :
      (w : WriteOutcome) (s : Session h)
      → IsWhole w
      → IsReady h s
      → Outcome h types quota io r s.disk (write_chunk h types quota w io r s)
  unfolding write_chunk
  write_chunk-Outcome open_failed s w v =
      failed-Outcome h types quota io r s.disk internal s (IsReady-IsValid h s v) (refl, inl refl)
  write_chunk-Outcome (torn n) s w v = absurd w
  write_chunk-Outcome written s w v =
      Outcome-same h types quota io r (absorb h r s).disk s.disk _ (unfold absorb in refl)
        (unfold absorb in refl) (after_write-Outcome (absorb h r s) (absorb-IsReady h r s v))

  receive-Outcome :
      (s : Session h)
      → IsWhole io.write
      → IsReady h s
      → Outcome h types quota io r s.disk (receive h types quota io r s)
  unfolding receive
  receive-Outcome s w v =
      let keep = IsReady-IsValid h s v in
      elim (Bool-cases (is_empty r.chunk)) [
        | inl b ↦ simp b (query-Outcome s v)
        | inr b ↦ simp b (elim (Bool-cases (offset_or r.offset s.slot.size == s.slot.size)) [
          | inr c ↦ simp c (
              failed-Outcome h types quota io r s.disk (offset_mismatch s.slot.size) s keep
                (refl, inl refl))
          | inl c ↦ simp c (elim (Bool-cases (ltb r.total_size (s.slot.size + length r.chunk))) [
            | inl e ↦
                simp e
                  (failed-Outcome h types quota io r s.disk bad_request s keep (refl, inl refl))
            | inr e ↦ simp e (write_chunk-Outcome io.write s w v)
          ])
        ])
      ]

  pub restart-Outcome :
      (s : Session h)
      → IsWhole io.write
      → Outcome h types quota io r s.disk (receive h types quota io r (start_over h io s))
  restart-Outcome s w =
      Outcome-same h types quota io r (start_over h io s).disk s.disk _ (start_over-media s)
        (start_over-tables s)
        (receive-Outcome (start_over h io s) w (start_over-IsReady h io s removes))

  pub too_long-Outcome :
      (s : Session h)
      → Outcome h types quota io r s.disk (start_over h io s, failed (offset_mismatch 0))
  too_long-Outcome s =
      failed-Outcome h types quota io r s.disk (offset_mismatch 0) (start_over h io s)
        (start_over-IsValid h io s removes) (start_over-Kept s)

  pub handle-Outcome :
      (s : Session h)
      → IsWhole io.write
      → IsReady h s
      → Outcome h types quota io r s.disk (handle h types quota io r s)
  unfolding handle receive_in
  handle-Outcome s w v = elim (Bool-cases (ltb r.total_size s.slot.size)) [
    | inl b ↦ simp b (too_long-Outcome s)
    | inr b ↦ simp (b, v.receives) (receive-Outcome s w v)
  ]
