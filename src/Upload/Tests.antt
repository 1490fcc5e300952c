-- ===== src/Upload/Tests.antt =====
-- Uploads with a hasher that keeps its input, and all file types accepted.
use mathlib.Core.List.{append_assoc, append-nil}
use lan_video.Prelude.{◌≡◌, refl, true, none, some, [], ◌∷◌, ◌++◌, arith}
use lan_video.Prelude.Texts.{Text, eq_ignore_ascii_case}
use lan_video.Library.{save_local_video_with_quota, find_video_by_file_hash}
use lan_video.Upload.{Sha256, FileTypes, Io, Disk, written, torn}
use lan_video.Upload.Session.{Request, receiving, completed, Session, bytes_of, is_empty, offset_or}
use lan_video.Upload.Store.{upload_video_file_inner}
use lan_video.Prelude.Assoc.{lookup}
use lan_video.Upload.Append.{finalize_slot, append_upload_chunk}
use lan_video.Upload.Files.{torn_retry_publishes, send, Grown, send-Grown}

abbrev keeping : Sha256
keeping = record {
  State = Text;
  new = [];
  update = λ s a. s ++ a;
  finalize = λ s. s;
  update-nil = λ s. append-nil s;
  update-append = λ s a b. append_assoc s a b;
}

abbrev any_type : FileTypes
any_type = record { accepts = λ name bytes. true }

abbrev calm : Io
calm = record {
  now = 50;
  permit_ok = true;
  read_ok = true;
  write = written;
  remove_ok = true;
  remove_dest_ok = true;
  exists_ok = true;
  query_ok = true;
  check_ok = true;
  sync_ok = true;
  rename_ok = true;
  dest_name = 100 ∷ [];
  statements = record {
    begin_ok = true;
    select_ok = true;
    insert_ok = true;
    charge_ok = true;
    commit_ok = true;
  };
}

abbrev cut_short : Io
cut_short = record calm { write = torn 1 }

-- Two bytes of a file of four have been received.
abbrev half_disk : Disk
half_disk = record {
  tmp = some (1 ∷ 2 ∷ []);
  media = [];
  tables = record { storage_used = (7, 0) ∷ []; videos = []; next_id = 3 };
}

abbrev half : Session keeping
half = record {
  slot = record {
    initialized = true;
    hasher = 1 ∷ 2 ∷ [];
    size = 2;
    phase = receiving;
    last_activity = 0;
  };
  disk = half_disk;
}

abbrev last_chunk : Request
last_chunk = record {
  uploader_id = 7;
  hash = 1 ∷ 2 ∷ 3 ∷ 4 ∷ [];
  file_name = 97 ∷ [];
  total_size = 4;
  category = [];
  offset = some 2;
  chunk = 3 ∷ 4 ∷ [];
}

abbrev whole : Session keeping
whole = record {
  slot = record {
    initialized = true;
    hasher = 1 ∷ 2 ∷ 3 ∷ 4 ∷ [];
    size = 4;
    phase = completed 3;
    last_activity = 0;
  };
  disk = record half_disk { tmp = none };
}

-- The published file is 1 2 3 3 4, and its declared hash is that of 1 2 3 4.
torn_retry_publishes_example :
    (append_upload_chunk keeping any_type 100 calm last_chunk
      (append_upload_chunk keeping any_type 100 cut_short last_chunk half).0).0.disk.media
    ≡ (100 ∷ [], 1 ∷ 2 ∷ 3 ∷ 3 ∷ 4 ∷ []) ∷ []
unfolding append_upload_chunk bytes_of is_empty offset_or finalize_slot eq_ignore_ascii_case
    upload_video_file_inner find_video_by_file_hash save_local_video_with_quota lookup
torn_retry_publishes_example =
    torn_retry_publishes keeping any_type 100 cut_short calm last_chunk half 1 3
      (record {
        ready = refl;
        receives = refl;
        permitted = refl;
        has_bytes = refl;
        in_place = refl;
        fits = omega arith;
      })
      refl refl refl refl refl

send-Grown_example :
    Grown keeping any_type 100 calm
      (record last_chunk { total_size = 9 })
      half
      (send keeping any_type 100 calm
        (record last_chunk { total_size = 9 })
        half
        ((3 ∷ 4 ∷ []) ∷ (5 ∷ []) ∷ []))
      (3 ∷ 4 ∷ 5 ∷ [])
unfolding is_empty
send-Grown_example =
    send-Grown keeping any_type 100 calm (record last_chunk { total_size = 9 }) refl refl half
      ((3 ∷ 4 ∷ []) ∷ (5 ∷ []) ∷ []) refl refl (refl, (refl, tt)) (omega arith)
