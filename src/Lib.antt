-- ===== src/Lib.antt =====
-- The backend of lan-video, a video site for a local network: a Rust service over PostgreSQL, the
-- file system and, if it is configured, Redis. This library models the parts of it that decide, with
-- the theorems that make them correct.
--
-- The parts and their files. Paths are from the repository's root.
--
-- RateLimit: the limiter of attempts per key of backend/src/middleware/rate_limit.rs. RateLimit.antt
-- has the entry of the cache in memory (`check_memory`, `reset`, `cleanup_expired`) and the script
-- that Redis runs (`check_redis`). RateLimit/View reads a key's state at an instant and states the
-- limiter's contract; Memory and Redis prove it of the two stores; Calls compares whole sequences of
-- calls against either store; Budget says what a key is granted. An instant is a number of nanoseconds.
--
-- Upload: uploads in chunks. Upload/Session has the slot of an upload (`UploadSlot`, `UploadPhase`),
-- Upload/Append the request (`append_upload_chunk`, `finalize_slot`, `cleanup_upload_slots`) of
-- backend/src/services/media_service/session.rs, and Upload/Store the step that makes the temporary
-- file a video (`upload_video_file_inner` of backend/src/services/media_service/mod.rs). A slot is
-- locked for the whole of a request, so the requests for one slot are a sequence. The calls to the
-- disk, each with its ways to fail, are an argument of a request (`Io`). Upload/Outcomes, Invariant,
-- Chunks, Files, Publishing and Requests carry the proofs.
--
-- Library: the transaction `save_local_video_with_quota` of backend/src/repositories/video_repo.rs,
-- which Upload/Store calls. It checks the uploader's quota, inserts the row under a unique index and
-- charges the account. Library/Accounts says what it keeps. Library/Deletion has the deletion of videos
-- with the refund of their bytes and the external videos, Refunds what that does to the accounts.
-- Library/Merging is `merge_guest_into_user` of backend/src/repositories/user_repo.rs, as to videos and
-- accounts.
--
-- TaskQueue: the transcoding queue of backend/src/services/task_queue.rs. TaskQueue.antt has the tasks
-- and the tables, TaskQueue/Jobs a function for each statement of SQL, TaskQueue/Enqueue the requests
-- (`add_task`, `add_video_transcode`), TaskQueue/Run the worker (`run_task`, `schedule_retry`, the
-- inner loop of `start_worker`), TaskQueue/Recovery the start after a crash (`recover_stale_jobs`, with
-- `safe_media_path` of backend/src/services/media_service/validate.rs). Backoff, Pending, Attempts,
-- Drain and Collapse carry the proofs.
--
-- Comments: `create_comment` and what it calls of backend/src/services/comment_service.rs. The other
-- requests run between its queries, as a function on the tables. Comments/Threads is about the loop up
-- the parents, Comments/Creation about the whole request.
--
-- Gateway: the one-time entries of the sign-in through the gateway (`start`, `callback`, `exchange`) of
-- backend/src/services/gateway_service.rs, and its coding of URLs. Gateway.antt has the two tables,
-- Gateway/Tickets and Gateway/Bounds are about sequences of requests, Gateway/Url about the coding,
-- on bytes. The random texts are inputs.
--
-- Sessions: which account a token stands for, `find_user_by_token` of
-- backend/src/repositories/user_repo.rs and `resolve_media_user` of
-- backend/src/middleware/auth/media.rs, with the caches of a process and the one in Redis
-- (Sessions.antt). Sessions/Runs has several processes with one Redis and one database, whose tables
-- are a function of the instant. Staleness and Bounded say how old an answer can be, SignOut and Lasting
-- what a sign-out leaves.
--
-- MediaAuth: the guards of requests in backend/src/middleware/auth/media.rs and
-- backend/src/middleware/auth/mod.rs. MediaAuth.antt reads paths, headers and queries,
-- MediaAuth/Playback is the tracker of backend/src/state.rs, MediaAuth/Queries has the rows and the
-- caches of videos and chat files, MediaAuth/Guard is `media_auth`, MediaAuth/Bearer is `bearer_auth`
-- with the guards behind it. `media_auth` resolves its token by Sessions. Watching, Privacy, Coherence,
-- Kept, Requests, FlatNames, Layouts, Heartbeats and Accounts carry the proofs.
--
-- MediaChecks: the checks of backend/src/services/media_service/validate.rs. MediaChecks.antt has the
-- cleaning of file names and the check of a file's type, MediaChecks/Addresses the IP addresses,
-- MediaChecks/Urls the check of external URLs. Names and Playlists carry the proofs.
--
-- Bandwidth: the buckets of backend/src/middleware/upload_bandwidth.rs, with what a request is charged by
-- its range. Bandwidth/Budget is about sequences of requests.
--
-- Shares: the links of backend/src/services/share_service.rs with
-- backend/src/repositories/share_repo.rs: making, revoking, deleting, cleaning and opening them.
-- Shares/Life is about sequences of these acts. The index on the digests of tokens is dropped by the
-- migrations, so two rows may hold one digest.
--
-- Auth: accounts and how one gets in. Auth.antt has a function for each statement of
-- backend/src/repositories/user_repo.rs on the accounts, their tokens and the tokens that go by mail,
-- Auth/Rules the rules on passwords and addresses, Auth/Service the sign-in (`login`) and
-- Auth/Register the registration (`register`) and the guests (`create_guest_session`) of
-- backend/src/services/auth_service.rs with both limiters of RateLimit on one Redis, and Auth/Mail the
-- links to a new password and for an address (`forgot_password`, `reset_password`,
-- `send_verification_email`, `verify_email` and `update_email` of backend/src/handlers/auth.rs) with
-- the mails that go out. Auth/Acts puts these and the statements of
-- the administration in sequences; Auth/Keeping says that a sequence keeps whatever each statement
-- keeps, on which Links and Privileges rest. SingleSession, Failures, Addresses and
-- Rules/Strength carry the other proofs. A session is looked up by the query of Sessions.
--
-- ClientIp: which address a request comes from, backend/src/util/net.rs and
-- backend/src/util/cloudflare_ips.rs. ClientIp/Trust says who may name it. The other parts take the
-- address of a client as an input.
--
-- ServiceError has the errors of backend/src/util/error.rs, without their messages. Prelude has the
-- names and lemmas that the other modules share.
--
-- Numbers. The numbers of the source that cannot be negative are natural numbers. Where the source
-- saturates or could overflow, the bound is written out (`saturating_add`). Counts stay small by the
-- limits of the source. A time is a number, and each call has its own.
--
-- Loops. The loop up the parents of a comment recurses on the levels that are left, as many as the
-- source allows. The inner loop of the transcoding worker runs on fuel, and Drain proves which fuel is
-- enough.
--
-- Code that is not in the repository is a parameter: SHA-256 with the law that its input may come in
-- pieces (`Sha256`), PostgreSQL by which statements succeed, the file system, the transcoder, the HTML
-- cleaner, Argon2, what is random in a request, and what Unicode says of blanks and of capital and small
-- letters (`Outside`; for comments, `str::trim`). The uploads take the check of a file's type as the parameter `FileTypes`; MediaChecks has
-- the check itself, on what the file system and the package `infer` say of a file.
--
-- What is not modelled: the other HTTP handlers, the router and the other middleware; what the merging of a
-- guest does beside videos and accounts, avatars and profiles, and the accounts of the sign-in through the gateway; search,
-- recommendations, playlists, tags and chat; playback records; the handlers of shares; deleting and
-- listing comments; the other queries of the repositories; the transcoder and what it makes of its
-- files; configuration, metrics and logs; the web application. A deletion of a video or a cancel by an
-- administrator while a task runs is not modelled either. A call on the caches of sessions takes no time. A request of
-- Auth is not interrupted by others, but where a theorem says so.
pub mod Prelude
pub mod RateLimit
pub mod Library
pub mod ServiceError
pub mod Upload
pub mod TaskQueue
pub mod Comments
pub mod Gateway
pub mod Sessions
pub mod MediaAuth
pub mod MediaChecks
pub mod Bandwidth
pub mod Shares
pub mod Auth
pub mod ClientIp
