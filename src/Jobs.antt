-- ===== src/Jobs.antt =====
-- app/main.py: the handlers that create, cancel, retry and delete a job. `up` says whether Redis
-- answers, `now` is the time that `utcnow` reads.
pub mod Cancel
pub mod Retry
pub mod Queries
pub mod Delete
pub mod Gone
use voice_2_text.Prelude.{
  ℕ, ◌==◌, ltb, Bool, true, false, not, ◌&&◌, ◌||◌, Option, none, some, String, List, [], ◌∷◌, ◌++◌,
  Text, strip, is_empty, length, find_first, select, delete_where, update_where, count_where,
  if◌then◌else◌,
}
use voice_2_text.Http.{Result, ok, raise, HttpError, require, found, commit, ◌>>=◌, ◌>>◌}
use voice_2_text.Config.{Config, contains}
use voice_2_text.Database.{
  JobStatus, Job, AudioClip, LiveBlock, QueueItem, Stage, StoredName, World, is_queued, is_running,
  is_canceled, is_canceling, of_job, clip_of_job,
}
use voice_2_text.Auth.{Account, require_user, owned_job}
use voice_2_text.Queue
use voice_2_text.Storage.{save_upload, on_disk, unlink}
use voice_2_text.Tasks.{by_id, _update, delete_result}
use voice_2_text.Tasks.Transcription.{unlink_all}

-- An `UploadFile`: its sanitized name, its extension and the sizes of its chunks.
pub record Upload : Type 0 where
  pub filename : Text
  pub ext : String
  pub chunks : List ℕ

abbrev pub is_active : JobStatus → Bool
is_active JobStatus.queued = true
is_active JobStatus.running = true
is_active _ = false

abbrev pub is_over : JobStatus → Bool
is_over JobStatus.done = true
is_over JobStatus.failed = true
is_over JobStatus.canceled = true
is_over _ = false

abbrev pub is_retryable : JobStatus → Bool
is_retryable JobStatus.failed = true
is_retryable JobStatus.canceled = true
is_retryable _ = false

unfoldable pub new_job : Config → ℕ → ℕ → Account → Text → String → Upload → StoredName → ℕ → Job
new_job config job_id now account title tier upload stored_name size = record {
  id = job_id;
  owner_id = some account.id;
  is_session = false;
  title = if is_empty title then none else some title;
  original_name = upload.filename;
  stored_name = stored_name;
  size_bytes = size;
  duration_ms = none;
  status = JobStatus.queued;
  progress = 0;
  stage = Stage.queued;
  error = none;
  tier = tier;
  language = config.language;
  detected_language = none;
  diarized = false;
  num_speakers = none;
  num_segments = 0;
  text_chars = 0;
  audio_deleted = false;
  rq_job_id = none;
  created_at = now;
  started_at = none;
  finished_at = none;
}

unfoldable pub enqueue_failed : Text → Job → Job
enqueue_failed message j = record j { status = JobStatus.failed; error = some message }

unfoldable pub delivered : QueueItem → Job → Job
delivered item j = record j { rq_job_id = some item }

-- `session.commit()` after `job.rq_job_id = rq_id`; the reply is the row.
unfoldable pub remember_item : Option Account → ℕ → QueueItem → World → Result Job × World
remember_item user job_id item w = commit w (do
  job ← owned_job w.jobs user job_id
  ok (delivered item job, record w { jobs = update_where (by_id job_id) (delivered item) w.jobs }))

-- create_job, once the row is in the table
unfoldable pub queue_job : Bool → Option Account → ℕ → Text → World → Result Job × World
queue_job up user job_id message w = elim (Queue.enqueue up job_id w).0 [
  | some item ↦ remember_item user job_id item (Queue.enqueue up job_id w).1
  | none ↦ (
    raise HttpError.unavailable,
    record w { jobs = update_where (by_id job_id) (enqueue_failed message) w.jobs },
  )
]

-- `wanted` is the form's tier, or the default one where it is empty, stripped.
unfoldable pub create_job :
    Config
    → Bool
    → ℕ
    → ℕ
    → Text
    → Option Account
    → Upload
    → Text
    → String
    → World
    → Result Job × World
create_job config up job_id now message user upload title wanted w =
    let stored = save_upload config w job_id upload.ext upload.chunks in
    if ltb 200 (length (strip title)) || not (contains wanted config.enabled_tiers)
    then (raise HttpError.bad_request, w)
    else elim stored.0 [
      | none ↦ (raise HttpError.bad_request, stored.1)
      | some (name, size) ↦ elim (require_user user true false) [
        | raise e ↦ (raise e, stored.1)
        | ok account ↦
            let row = new_job config job_id now account (strip title) wanted upload name size in
            let added = record stored.1 { jobs = stored.1.jobs ++ row ∷ [] } in
            queue_job up user job_id message added
      ]
    ]

abbrev pub active_job : ℕ → Job → Bool
active_job job_id j = j.id == job_id && is_active j.status

-- the CASE expressions of the UPDATE
unfoldable pub canceling_fields : ℕ → Job → Job
canceling_fields now j = record j {
  stage = if is_running j.status then Stage.canceling else Stage.canceled;
  finished_at = if is_running j.status then none else some now;
  status = JobStatus.canceled;
}

abbrev pub drop_item : Bool → Option QueueItem → World → World
drop_item up none w = w
drop_item up (some item) w = (Queue.cancel up item w).1

-- `meanwhile` is what other processes commit between the read of the row and the UPDATE. An error
-- leaves the flag that was set before.
unfoldable pub cancel_job :
    Bool → (World → World) → ℕ → Option Account → ℕ → World → Result Job × World
cancel_job up meanwhile now user job_id w = elim (owned_job w.jobs user job_id) [
  | raise e ↦ (raise e, w)
  | ok job ↦
      let seen = meanwhile (Queue.request_cancel up job_id w).1 in
      let changed = record seen {
        jobs = update_where (active_job job_id) (canceling_fields now) seen.jobs;
      } in
      let after = (Queue.request_cancel up job_id (drop_item up job.rq_job_id changed)).1 in
      if is_over job.status
      then (raise HttpError.conflict, w)
      else if count_where (active_job job_id) seen.jobs == 0
      then (raise HttpError.conflict, seen)
      else (found (find_first (by_id job_id) changed.jobs) HttpError.server_error, after)
]

unfoldable pub all_on_disk : World → List AudioClip → Bool
all_on_disk w [] = true
all_on_disk w (c ∷ cs) = let rest = all_on_disk w cs in on_disk w c.stored_name && rest

unfoldable pub source_exists : World → Job → Bool
source_exists w job =
    let clips = select (clip_of_job job.id) w.clips in
    if job.is_session
    then not (is_empty clips) && all_on_disk w clips
    else on_disk w job.stored_name

unfoldable pub requeued : Job → Job
requeued j = record j {
  status = JobStatus.queued;
  progress = 0;
  stage = Stage.queued;
  error = none;
  started_at = none;
  finished_at = none;
}

unfoldable pub retry_body : Option Account → ℕ → World → Result (Job × World)
retry_body user job_id w = do
  job ← owned_job w.jobs user job_id
  require (not (is_canceling job.stage)) HttpError.conflict
  require (is_retryable job.status) HttpError.conflict
  require (source_exists w job) HttpError.conflict
  ok (requeued job, record w { jobs = update_where (by_id job_id) requeued w.jobs })

unfoldable pub not_queued : Text → Job → Job
not_queued message j = record j {
  status = JobStatus.failed;
  stage = Stage.failed;
  error = some message;
}

-- `qmod.enqueue`, and `_update` where Redis does not answer
unfoldable pub deliver : Bool → Option Account → ℕ → Text → World → Result Job × World
deliver up user job_id message w = elim (Queue.enqueue up job_id w).0 [
  | some item ↦ remember_item user job_id item (Queue.enqueue up job_id w).1
  | none ↦ (raise HttpError.unavailable, _update job_id (not_queued message) w)
]

unfoldable pub retry : Bool → Text → Option Account → ℕ → World → Result Job × World
retry up message user job_id w = elim (retry_body user job_id w) [
  | raise e ↦ (raise e, w)
  | ok (job, queued) ↦ deliver up user job_id message (Queue.clear_cancel up job_id queued)
]

abbrev pub clip_files : List AudioClip → List StoredName
clip_files [] = []
clip_files (c ∷ cs) = c.stored_name ∷ clip_files cs

unfoldable pub delete_job : Bool → Option Account → ℕ → World → Result Bool × World
delete_job up user job_id w = elim (owned_job w.jobs user job_id) [
  | raise e ↦ (raise e, w)
  | ok job ↦
      let flagged = (Queue.request_cancel up job_id w).1 in
      let clips = select (clip_of_job job_id) flagged.clips in
      let unlinked = unlink_all (clip_files clips) flagged in
      let deleted = record unlinked {
        blocks = delete_where (of_job job_id) unlinked.blocks;
        clips = delete_where (clip_of_job job_id) unlinked.clips;
        jobs = delete_where (by_id job_id) unlinked.jobs;
      } in
      let quiet = drop_item up job.rq_job_id (Queue.request_cancel up job_id deleted).1 in
      (ok (is_running job.status), delete_result job_id (unlink job.stored_name quiet))
]

-- `GET .../audio`: the file that is sent
unfoldable pub get_audio : Option Account → ℕ → World → Result StoredName
get_audio user job_id w = do
  job ← owned_job w.jobs user job_id
  require (on_disk w job.stored_name) HttpError.not_found
  ok job.stored_name
