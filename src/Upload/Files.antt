-- ===== src/Upload/Files.antt =====
-- What chunks add up to: the file of a sequence of chunks, and the file after a torn write.
use lan_video.Prelude.{
  ℕ, ◌+◌, ◌<◌, ◌≡◌, refl, ap, sym, subst, ◌≢◌, ◌∙◌, inl, inr, true, false, ◌&&◌, some, List, [],
  ◌∷◌, ◌++◌, arith, Bool-cases, length, length-append, take,
}
use mathlib.Core.List.{append-nil, append_assoc}
use lan_video.Prelude.Texts.{Text, eq_ignore_ascii_case}
use lan_video.ServiceError.{ServiceError}
use lan_video.Upload.{Sha256, FileTypes, torn, written, Io, Disk}
use lan_video.Upload.Store.{Stored, refused}
use lan_video.Upload.Outcomes.{Stores, upload_video_file_inner-Stores}
use lan_video.Upload.Session.{
  receiving, appended, Finalized, done, rejected, Request, bytes_of, is_there, is_empty, offset_or,
  UploadSlot, Session,
}
use lan_video.Upload.Append.{absorb, answer, settle, finalize_slot, append_upload_chunk}
use lan_video.Upload.Chunks.{touched, Continues, append-absorb, append-torn, append-last}

abbrev pub concat : List Text → Text
concat [] = []
concat (c ∷ cs) = c ++ concat cs

abbrev pub NonEmpty : List Text → Type 0
NonEmpty [] = Unit {0}
NonEmpty (c ∷ cs) = (is_empty c ≡ false) × NonEmpty cs

module _ (h : Sha256) (types : FileTypes) (quota : ℕ) (io : Io) (r : Request) where
  -- An answer with an id comes from the store.
  settle-done :
      (slot : UploadSlot h) (q : Disk × Stored) (e : ServiceError)
      → q.1 ≡ refused e
      → (id : ℕ) → (settle h types quota io slot q).1 ≢ done id
  unfolding settle
  settle-done slot (d, a) ServiceError.internal p id =
      rw p (elim (Bool-cases (io.exists_ok && is_there d.tmp)) [
        | inl b ↦ simp b (λ x. cc)
        | inr b ↦ simp b (λ x. cc)
      ])
  settle-done slot (d, a) e p id = rw p (λ x. cc)

  answered_id :
      (q : Session h × Finalized) (n id : ℕ) → (answer h q).1 ≡ appended n (some id) → q.1 ≡ done id
  unfolding answer
  answered_id (s, done x) n id e = ground arith
  answered_id (s, rejected x) n id e = cc

  answer-media : (q : Session h × Finalized) → (answer h q).0.disk.media ≡ q.0.disk.media
  unfolding answer
  answer-media (s, done x) = refl
  answer-media (s, rejected x) = refl

  settled_media :
      (s : Session h) (q : Disk × Stored) (id : ℕ)
      → Stores quota io r.uploader_id s.slot.size (h.finalize s.slot.hasher) s.disk q
      → (settle h types quota io s.slot q).1 ≡ done id
      → (settle h types quota io s.slot q).0.disk.media
        ≡ (io.dest_name, bytes_of s.disk.tmp) ∷ s.disk.media
  unfolding settle bytes_of
  settled_media s q id (inl z) e = rw (z.result, z.from_tmp)
  settled_media s q id (inr z) e = absurd (settle-done s.slot q z.error z.answers id e)

  finalized_media :
      (s : Session h) (id : ℕ)
      → (finalize_slot h types quota io r s).1 ≡ done id
      → (finalize_slot h types quota io r s).0.disk.media
        ≡ (io.dest_name, bytes_of s.disk.tmp) ∷ s.disk.media
  unfolding finalize_slot
  finalized_media s id =
      elim (Bool-cases (eq_ignore_ascii_case (h.finalize s.slot.hasher) r.hash)) [
        | inr e ↦ simp e (λ x. cc)
        | inl e ↦ simp e (
            settled_media s _ id (
              upload_video_file_inner-Stores quota io r.uploader_id s.slot.size
                (h.finalize s.slot.hasher) s.disk h types true r.file_name r.category))
      ]

  answered_media :
      (s : Session h) (n id : ℕ)
      → (answer h (finalize_slot h types quota io r (absorb h r s))).1 ≡ appended n (some id)
      → (answer h (finalize_slot h types quota io r (absorb h r s))).0.disk.media
        ≡ (io.dest_name, bytes_of s.disk.tmp ++ r.chunk) ∷ s.disk.media
  unfolding absorb
  answered_media s n id e =
      answer-media (finalize_slot h types quota io r (absorb h r s))
      ∙ (finalized_media (absorb h r s) id
            (answered_id (finalize_slot h types quota io r (absorb h r s)) n id e)
          ∙ unfold bytes_of in refl)

module _ (h : Sha256) (types : FileTypes) (quota : ℕ) (io again : Io) (r : Request)
    (s : Session h) where
  abbrev torn_session : Session h
  torn_session = (append_upload_chunk h types quota io r s).0

  -- The last chunk of an upload is written only in part, and the client sends it again, at the
  -- offset that the server still expects. If the second request is answered with an id, then the
  -- published file has the part of the first write between the earlier bytes and the chunk.
  pub torn_retry_publishes :
      (n id : ℕ)
      → Continues h types quota io r s
      → io.write ≡ torn n
      → again.permit_ok ≡ true
      → again.write ≡ written
      → s.slot.size + length r.chunk ≡ r.total_size
      → (append_upload_chunk h types quota again r torn_session).1 ≡ appended r.total_size (some id)
      → (append_upload_chunk h types quota again r torn_session).0.disk.media
        ≡ (again.dest_name, (bytes_of s.disk.tmp ++ take n r.chunk) ++ r.chunk) ∷ s.disk.media
  unfolding bytes_of
  torn_retry_publishes n id c w p w' f e =
      let t = append-torn h types quota io r s n c w in
      subst
        (λ x.
          (append_upload_chunk h types quota again r x).1 ≡ appended r.total_size (some id)
          → (append_upload_chunk h types quota again r x).0.disk.media
            ≡ (again.dest_name, (bytes_of s.disk.tmp ++ take n r.chunk) ++ r.chunk) ∷ s.disk.media)
        (sym (ap (λ q. q.0) t)) (λ e'. retried e') e
    where
      left : Session h
      left = record {
        slot = record (s.slot) { last_activity = io.now };
        disk = record (s.disk) { tmp = some (bytes_of s.disk.tmp ++ take n r.chunk) };
      }

      continues : Continues h types quota again r left
      continues = record {
        ready = c.ready;
        receives = c.receives;
        permitted = p;
        has_bytes = c.has_bytes;
        in_place = c.in_place;
        fits = c.fits;
      }

      retried :
          (append_upload_chunk h types quota again r left).1 ≡ appended r.total_size (some id)
          → (append_upload_chunk h types quota again r left).0.disk.media
            ≡ (again.dest_name, (bytes_of s.disk.tmp ++ take n r.chunk) ++ r.chunk) ∷ s.disk.media
      retried = rw (append-last h types quota again r left continues w' f) (
          answered_media h types quota again r (touched h types quota again r left) r.total_size id)

module _ (h : Sha256) (types : FileTypes) (quota : ℕ) (io : Io) (r : Request) where
  -- The request that sends a chunk where the server stands.
  abbrev pub next_chunk : Session h → Text → Request
  next_chunk s c = record r { offset = some (s.slot.size); chunk = c }

  -- Chunks that a client sends one after the other.
  pub send : Session h → List Text → Session h
  send s [] = s
  send s (c ∷ cs) = send (append_upload_chunk h types quota io (next_chunk s c) s).0 cs

  -- `t` is `s` with more bytes received.
  pub record Grown (s t : Session h) (bytes : Text) : Type 0 where
    pub ready : t.slot.initialized ≡ true
    pub receives : t.slot.phase ≡ receiving
    pub size : t.slot.size ≡ s.slot.size + length bytes
    pub file : bytes_of t.disk.tmp ≡ bytes_of s.disk.tmp ++ bytes
    pub hasher : t.slot.hasher ≡ h.update s.slot.hasher bytes
    pub media : t.disk.media ≡ s.disk.media

  Grown-refl : (s : Session h) → s.slot.initialized ≡ true → s.slot.phase ≡ receiving → Grown s s []
  Grown-refl s i p = record {
    ready = i;
    receives = p;
    size = omega arith;
    file = sym (append-nil (bytes_of s.disk.tmp));
    hasher = sym (h.update-nil s.slot.hasher);
    media = refl;
  }

  Grown-trans : (s t u : Session h) (a b : Text) → Grown s t a → Grown t u b → Grown s u (a ++ b)
  Grown-trans s t u a b g k = record {
    ready = k.ready;
    receives = k.receives;
    size = omega (arith, g.size, k.size, length-append {0} a b);
    file = k.file ∙ ap (λ x. x ++ b) g.file ∙ append_assoc (bytes_of s.disk.tmp) a b;
    hasher = k.hasher ∙ ap (λ x. h.update x b) g.hasher ∙ h.update-append s.slot.hasher a b;
    media = k.media ∙ g.media;
  }

  module _ (permitted : io.permit_ok ≡ true) (writes : io.write ≡ written) where
    one_chunk :
        (s : Session h) (c : Text)
        → s.slot.initialized ≡ true
        → s.slot.phase ≡ receiving
        → is_empty c ≡ false
        → s.slot.size + length c < r.total_size
        → Grown s (append_upload_chunk h types quota io (next_chunk s c) s).0 c
    unfolding absorb bytes_of offset_or
    one_chunk s c i p b f =
        rw
          (append-absorb h types quota io (next_chunk s c) s
            (record {
              ready = i;
              receives = p;
              permitted = permitted;
              has_bytes = b;
              in_place = refl;
              fits = omega arith;
            })
            writes f)
          (record {
            ready = i;
            receives = p;
            size = refl;
            file = refl;
            hasher = refl;
            media = refl;
          })

    -- Where the server admits the requests and the writes succeed: chunks sent one after the other to
    -- an initialised slot that receives, none of them empty and short of the declared size together, are
    -- all received: the temporary file, the size and the hasher take in exactly their
    -- concatenation, however the bytes are cut, and nothing is published yet.
    pub send-Grown :
        (s : Session h) (cs : List Text)
        → s.slot.initialized ≡ true
        → s.slot.phase ≡ receiving
        → NonEmpty cs
        → s.slot.size + length (concat cs) < r.total_size
        → Grown s (send s cs) (concat cs)
    unfolding send
    send-Grown s [] i p b f = Grown-refl s i p
    send-Grown s (c ∷ cs) i p b f =
        let l = length-append {0} c (concat cs) in
        let g = one_chunk s c i p b.0 (omega (arith, l)) in
        let t : Session h = (append_upload_chunk h types quota io (next_chunk s c) s).0 in
        Grown-trans s t (send t cs) c (concat cs) g
          (send-Grown t cs g.ready g.receives b.1 (omega (arith, l, g.size)))
