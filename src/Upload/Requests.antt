-- ===== src/Upload/Requests.antt =====
-- Whole requests: `append_upload_chunk` from any state of the slot.
use lan_video.Upload.{Sha256, Io}
use lan_video.Upload.Session.{UploadSlot, Session}

module _ (h : Sha256) (io : Io) where
  abbrev touch : UploadSlot h → UploadSlot h
  touch slot = record slot { last_activity = io.now }
