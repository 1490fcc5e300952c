-- ===== src/Upload/Chunks.antt =====
-- Single chunks: what a request with a chunk does to the slot and the file.
use lan_video.Prelude.{
  ℕ, ◌+◌, ◌≤◌, ◌<◌, ◌≡◌, ◌≢◌, ◌∙◌, ◌⊎◌, inl, inr, true, false, none, some, ◌++◌, arith, length,
  take, ◌==◌, ltb, ==_iff, tests,
}
use lan_video.Upload.{Sha256, FileTypes, torn, written, Io}
use lan_video.Upload.Session.{
  receiving, completed, internal, offset_mismatch, appended, failed, Request, bytes_of, is_empty,
  offset_is, offset_or, replays, init_slot, Session,
}
use lan_video.Upload.Append.{
  absorb, after_write, write_chunk, receive, receive_completed, receive_in, handle, answer,
  finalize_slot, append_upload_chunk,
}

module _ (h : Sha256) (types : FileTypes) (quota : ℕ) (io : Io) (r : Request) (s : Session h) where
  -- The session when the request is let in.
  abbrev pub touched : Session h
  touched = record s { slot = record (s.slot) { last_activity = io.now } }

  let_in :
      s.slot.initialized ≡ true
      → io.permit_ok ≡ true
      → append_upload_chunk h types quota io r s ≡ handle h types quota io r touched
  unfolding append_upload_chunk init_slot
  let_in i p = simp (p, i)

  taken :
      s.slot.phase ≡ receiving
      → ltb r.total_size s.slot.size ≡ false
      → is_empty r.chunk ≡ false
      → (offset_or r.offset s.slot.size == s.slot.size) ≡ true
      → ltb r.total_size (s.slot.size + length r.chunk) ≡ false
      → handle h types quota io r touched ≡ write_chunk h types quota io.write io r touched
  unfolding handle receive_in receive
  taken p a b c d = simp (a, p, b, c, d)

  -- The chunk continues the upload where the server stands, and stays within the declared size.
  pub record Continues : Type 0 where
    pub ready : s.slot.initialized ≡ true
    pub receives : s.slot.phase ≡ receiving
    pub permitted : io.permit_ok ≡ true
    pub has_bytes : is_empty r.chunk ≡ false
    pub in_place : offset_or r.offset s.slot.size ≡ s.slot.size
    pub fits : s.slot.size + length r.chunk ≤ r.total_size

  pub append-write_chunk :
      Continues
      → append_upload_chunk h types quota io r s ≡ write_chunk h types quota io.write io r touched
  append-write_chunk c =
      let_in c.ready c.permitted
      ∙ taken c.receives (omega (tests, c.fits)) c.has_bytes ((==_iff _ _).1 c.in_place)
          (omega (tests, c.fits))

  -- A chunk that does not start where the server stands is refused with the server's position, and
  -- leaves the session as it was but for the time of its last activity.
  pub append-offset_mismatch :
      s.slot.initialized ≡ true
      → s.slot.phase ≡ receiving
      → io.permit_ok ≡ true
      → s.slot.size ≤ r.total_size
      → is_empty r.chunk ≡ false
      → offset_or r.offset s.slot.size ≢ s.slot.size
      → append_upload_chunk h types quota io r s ≡ (touched, failed (offset_mismatch s.slot.size))
  unfolding handle receive_in receive
  append-offset_mismatch i p q f b o =
      let o' : (offset_or r.offset s.slot.size == s.slot.size) ≡ false = ground arith in
      let f' : ltb r.total_size s.slot.size ≡ false = ground arith in
      let_in i q ∙ simp (f', p, b, o')

  -- A request to a complete upload that repeats its last chunk, or that sends nothing at its end,
  -- gets the id once more and changes nothing but the time of the last activity.
  pub append-replay :
      (id : ℕ)
      → s.slot.initialized ≡ true
      → s.slot.phase ≡ completed id
      → io.permit_ok ≡ true
      → s.slot.size ≤ r.total_size
      → ((is_empty r.chunk ≡ false) × (replays r.offset (length r.chunk) s.slot.size ≡ true))
        ⊎ ((is_empty r.chunk ≡ true) × (offset_is r.offset s.slot.size ≡ true))
      → append_upload_chunk h types quota io r s ≡ (touched, appended s.slot.size (some id))
  unfolding handle receive_in receive_completed
  append-replay id i p q f (inl (b, o)) =
      let f' : ltb r.total_size s.slot.size ≡ false = ground arith in
      let_in i q ∙ simp (f', p, b, o)
  append-replay id i p q f (inr (b, o)) =
      let f' : ltb r.total_size s.slot.size ≡ false = ground arith in
      let_in i q ∙ simp (f', p, b, o)

  -- A write that is cut short leaves its bytes in the file, and the slot where it was.
  pub append-torn :
      (n : ℕ)
      → Continues
      → io.write ≡ torn n
      → append_upload_chunk h types quota io r s ≡ (
        record touched {
          disk = record (s.disk) { tmp = some (bytes_of s.disk.tmp ++ take n r.chunk) };
        },
        failed internal,
      )
  unfolding write_chunk
  append-torn n c w = append-write_chunk c ∙ simp w

  -- A chunk short of the end is taken: the file and the slot grow by it.
  pub append-absorb :
      Continues
      → io.write ≡ written
      → s.slot.size + length r.chunk < r.total_size
      → append_upload_chunk h types quota io r s
        ≡ (absorb h r touched, appended (s.slot.size + length r.chunk) none)
  unfolding write_chunk after_write absorb
  append-absorb c w f =
      let f' : ((s.slot.size + length r.chunk) == r.total_size) ≡ false = ground arith in
      append-write_chunk c ∙ simp (w, f')

  -- The last chunk is taken, and the upload is finalized.
  pub append-last :
      Continues
      → io.write ≡ written
      → s.slot.size + length r.chunk ≡ r.total_size
      → append_upload_chunk h types quota io r s
        ≡ answer h (finalize_slot h types quota io r (absorb h r touched))
  unfolding write_chunk after_write absorb
  append-last c w f =
      let f' : ((s.slot.size + length r.chunk) == r.total_size) ≡ true = ground arith in
      append-write_chunk c ∙ simp (w, f')
