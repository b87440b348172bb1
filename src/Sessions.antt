-- ===== src/Sessions.antt =====
-- app/sessions.py: the editor of a session of several clips: its creation and its guard. The other
-- handlers are in the modules below. `up` says whether Redis answers.
pub mod Clips
pub mod Quota
pub mod Uploads
pub mod Access
pub mod Booking
pub mod Ledger
pub mod Positions
pub mod Frozen
pub mod StaleFlag
pub mod Reorder
pub mod Closing
use voice_2_text.Prelude.{
  ℕ, ◌+◌, ◌-◌, ◌*◌, ◌==◌, ltb, Bool, true, false, not, ◌&&◌, ◌||◌, Option, none, some, String, List,
  [], ◌∷◌, ◌++◌, map, Text, strip, is_empty, is_some, length, take, sum, maximum, find_first,
  select, delete_where, update_where, exists, sort_by, if◌then◌else◌,
}
use voice_2_text.Http.{Result, ok, raise, HttpError, require, found, commit, ◌>>=◌, ◌>>◌}
use voice_2_text.Config.{Config, contains}
use voice_2_text.Database.{
  JobStatus, Job, AudioClip, LiveBlock, BlockState, Source, QueueItem, Segment, Stage, StoredName,
  World, is_opened, is_canceling, is_block_done, is_block_failed, is_file, is_key, of_job,
  clip_of_job, next_block_seq,
}
use voice_2_text.Auth.{Account, require_user, owned_job}
use voice_2_text.Live.{resolve_file_block, done_of_job, clip_block_of, same_block}
use voice_2_text.Queue
use voice_2_text.Storage.{save_upload, on_disk, unlink}
use voice_2_text.Tasks.{by_id, _update, delete_result, save_result}
use voice_2_text.Jobs.{Upload, all_on_disk, is_retryable, deliver}

unfoldable pub editable : List Job → Option Account → ℕ → Result Job
editable jobs user job_id = do
  job ← owned_job jobs user job_id
  require (job.is_session && is_opened job.status) HttpError.conflict
  ok job

unfoldable pub new_session : Config → ℕ → ℕ → Account → Text → String → Job
new_session config job_id now account title tier = record {
  id = job_id;
  owner_id = some account.id;
  is_session = true;
  title = some title;
  original_name = title;
  stored_name = record { stem = job_id; ext = "mp3" };
  size_bytes = 0;
  duration_ms = none;
  status = JobStatus.opened;
  progress = 0;
  stage = Stage.opened;
  error = none;
  tier = tier;
  language = config.language;
  detected_language = none;
  diarized = false;
  num_speakers = none;
  num_segments = 0;
  text_chars = 0;
  audio_deleted = false;
  rq_job_id = none;
  created_at = now;
  started_at = none;
  finished_at = none;
}

-- `tier` is the body's, or the default one where it is empty.
unfoldable pub create_session_body :
    Config → ℕ → ℕ → Option Account → Text → String → World → Result (Job × World)
create_session_body config job_id now user title tier w = do
  account ← require_user user true false
  require (not (is_empty (strip title))) HttpError.bad_request
  require (contains tier config.enabled_tiers) HttpError.bad_request
  let job = new_session config job_id now account (strip title) tier
  ok (job, record w { jobs = w.jobs ++ job ∷ [] })

unfoldable pub create_session :
    Config → ℕ → ℕ → Option Account → Text → String → World → Result Job × World
create_session config job_id now user title tier w =
    commit w (create_session_body config job_id now user title tier w)

unfoldable pub list_clips : World → Option Account → ℕ → Result (Job × List AudioClip)
list_clips w user job_id = do
  job ← owned_job w.jobs user job_id
  ok (job, sort_by (λ c. c.position) (select (clip_of_job job.id) w.clips))
