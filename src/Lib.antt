-- ===== src/Lib.antt =====
-- The Persian speech-to-text service of this repository: the lifecycle of its jobs, and the editor
-- of its sessions of several clips. The API (app/main.py, app/sessions.py, app/live.py) and the
-- workers (app/tasks.py) share the tables of app/db.py, the Redis of app/queue.py and the audio
-- files of app/storage.py. A job is created or closed into the queue by the API, claimed and
-- supervised by `run_isolated`, decoded by `run_transcription` in a process of its own, and may be
-- canceled, retried, reopened or deleted meanwhile.
--
-- Files, and the code they model:
--   Database    app/db.py: the rows Job, LiveBlock, AudioClip and the state `World` of all tables,
--               files and Redis calls; next_block_seq
--   Http        the outcome of a handler: a value or an HTTPException by its status code
--   Auth        app/auth.py: require_user, owned_job; Auth/Limits is rate_limit, Auth/Challenges is
--               consume_challenge, Auth/Logins is issue_session and lookup_session, Auth/Phones is
--               normalize_phone
--   Boundary    app/main.py: account_boundary, the middleware of every request
--   Accounts    app/accounts.py: the state `Site` of all tables, signup and bale_login;
--               Accounts/Passwords is password_login, reset_password, change_password, logout and me,
--               Accounts/Admin is list_users and set_status, Accounts/Startup is bootstrap_admin of
--               app/auth.py
--   Bale        app/bale.py: deliver_code and process_update; Bale/Requests is create_challenge of
--               app/accounts.py; Bale/Delivered, Bale/Accepted and Bale/Ties prove
--   Reach       the transactions of the accounts and the bot as a step relation; Reach/Handlers is on
--               the handlers as sequences of steps, the other modules are on invariants of the steps
--   Queue       app/queue.py: enqueue, enqueue_clip, cancel, request_cancel, clear_cancel,
--               is_cancel_requested
--   Config      app/config.py: the settings that the other parts read; Config/Validate is validate
--   Storage     app/storage.py: save_upload and the audio folder
--   Tasks       app/tasks.py: _update, _cleanup_canceled and the claim of a job; Tasks/Supervisor is
--               run_isolated, Tasks/Transcription is run_transcription; Tasks/Invariant, Writes,
--               Supervised and Transcribed carry a predicate of the tables through all the writes of
--               a worker, Tasks/Canceled, Claims and Outcomes apply it; Tasks/Maintenance is
--               transcribe_clip and sweep_retention, Tasks/Sweep proves
--   Jobs        app/main.py: create_job, cancel_job, retry, delete_job, get_audio; Jobs/Queries is
--               list_jobs, get_job, get_segments and download up to the format
--   Sessions    app/sessions.py: create_session and list_clips; Sessions/Clips is append_clip,
--               remove_clip and clip_audio, Sessions/Reorder is reorder, Sessions/Closing is
--               close_session, reopen and retry_clip; the other modules prove
--   Live        app/live.py: the blocks of a transcript and their REST handlers; Live/History is their
--               operations in any order, Live/Socket is live_socket and transcribe_pcm
--   Speakers    app/diarize.py: assign_speakers
--   Prelude     tables as lists of rows, their queries and writes, texts, stable sorting
--   Tests       runs on small tables
--
-- Conventions. A UUID is a natural number, since the code only compares it; fresh ones are
-- arguments. Times are whole seconds, durations milliseconds, progress ten-thousandths. A table is a
-- list of rows in the order of insertion. A handler of the code is a function of the world: its
-- transaction `X_body` returns the new world or an error, and on an error the world stays. Redis is
-- the list of the calls that reached it, newest first; `up` says whether it answers. The cancel flag
-- of Redis is taken to last from its SET to its DELETE (its expiry after a day is not modelled). What
-- other processes commit meanwhile is an argument `meanwhile`, any function of the world; the
-- results of the decoder (app/asr.py, app/media.py, app/diarize.py), which call libraries, are fields
-- of `Weather`. The polls of a supervisor are a list, each with what others write before it, the exit
-- code and the monotonic clock that it sees, and the run is `polling` when the list ends: the loop of
-- the code goes on there. There is no other fuel.
--
-- A handler of accounts is several transactions, since a rate limit and a wrong code are committed
-- also when the request fails: `and_then` composes them. The hashes (SHA-256, HMAC, Argon2) are the
-- fields of `Secrets`, any functions; the random ids and codes are arguments, and ids are assumed new
-- where a theorem says so. A microphone connection is the list of its messages, each with what its
-- lookups find; the decoder is a field of `Engine`. The order in which a database lists rows of the
-- same time is not fixed: the order of `list_jobs` is an argument.
--
-- Not modelled: the pages, static files and forms of requests (app/main.py), the decoders (app/asr.py, app/media.py), the exporters and
-- the text normalisation (app/exporters.py, app/normalize.py), the calls of the Bale API and the
-- polling loop (app/bale.py), the entry points of the processes.
mod Prelude
pub mod Database
pub mod Http
pub mod Auth
pub mod Queue
pub mod Config
pub mod Storage
pub mod Tasks
pub mod Jobs
pub mod Sessions
pub mod Live
pub mod Speakers
pub mod Boundary
pub mod Accounts
pub mod Bale
pub mod Reach
pub mod Tests
