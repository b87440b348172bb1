-- ===== src/Sessions/Closing.antt =====
-- app/sessions.py: `close_session`, `reopen` and `retry_clip`.
use voice_2_text.Prelude.{
  ℕ, ◌+◌, Bool, true, false, not, ◌&&◌, Option, none, some, List, [], ◌∷◌, map, Text, is_empty,
  is_some, length, sum, find_first, select, update_where, sort_by, if◌then◌else◌,
}
use voice_2_text.Http.{Result, ok, raise, HttpError, require, found, ◌>>=◌, ◌>>◌}
use voice_2_text.Database.{
  JobStatus, Job, AudioClip, LiveBlock, BlockState, Segment, Stage, World, is_canceling,
  is_block_failed, clip_of_job,
}
use voice_2_text.Auth.{Account, owned_job}
use voice_2_text.Live.{resolve_file_block, done_of_job, clip_block_of, same_block}
use voice_2_text.Queue
use voice_2_text.Storage.{unlink}
use voice_2_text.Tasks.{by_id, delete_result, save_result}
use voice_2_text.Jobs.{all_on_disk, is_retryable, deliver}
use voice_2_text.Sessions.{editable}
use voice_2_text.Sessions.Clips.{clip_in}

-- The segments of a session without clips: the blocks, one after the other in time.
unfoldable pub live_segments : ℕ → List LiveBlock → List Segment
live_segments elapsed [] = []
live_segments elapsed (b ∷ bs) =
    record { start = elapsed; end = elapsed + b.duration_ms; text = b.text }
    ∷ live_segments (elapsed + b.duration_ms) bs

unfoldable pub live_done : ℕ → List LiveBlock → Job → Job
live_done now blocks j = record j {
  status = JobStatus.done;
  stage = Stage.done;
  progress = 10000;
  finished_at = some now;
  audio_deleted = true;
  duration_ms = some (sum (map (λ b. b.duration_ms) blocks));
  num_segments = length blocks;
  text_chars = sum (map (λ b. length b.text) blocks);
}

unfoldable pub submitted : Job → Job
submitted j = record j {
  status = JobStatus.queued;
  stage = Stage.queued;
  progress = 0;
  error = none;
  audio_deleted = false;
}

-- what the first session of `close_session` does: it ends the session here, or it has set the job
-- into the queue
pub data Closed : Type 0 where
  finished enqueue : Job → World → Closed

-- the branch of a session with no clips: its microphone text is the result
unfoldable pub close_live : ℕ → ℕ → Job → List LiveBlock → World → Result Closed
close_live now job_id job blocks w = do
  require (not (is_empty blocks)) HttpError.bad_request
  ok (
      finished (live_done now blocks job) (
        save_result job_id (live_segments 0 blocks)
          (record w { jobs = update_where (by_id job_id) (live_done now blocks) w.jobs })))

unfoldable pub close_clips : ℕ → Job → List AudioClip → World → Result Closed
close_clips job_id job clips w = do
  require (all_on_disk w clips) HttpError.conflict
  ok (
      Closed.enqueue (submitted job)
        (record w { jobs = update_where (by_id job_id) submitted w.jobs }))

unfoldable pub close_body : ℕ → Option Account → ℕ → World → Result Closed
close_body now user job_id w = do
  job ← editable w.jobs user job_id
  let clips = select (clip_of_job job_id) w.clips
  let blocks = sort_by (λ b. b.seq) (select (done_of_job job_id) w.blocks)
  if is_empty clips then close_live now job_id job blocks w else close_clips job_id job clips w

unfoldable pub close_session : Bool → ℕ → Text → Option Account → ℕ → World → Result Job × World
close_session up now message user job_id w = elim (close_body now user job_id w) [
  | raise e ↦ (raise e, w)
  | ok (finished job closed) ↦ (ok job, closed)
  | ok (enqueue job queued) ↦ deliver up user job_id message queued
]

unfoldable pub reopened : Job → Job
reopened j = record j {
  status = JobStatus.opened;
  stage = Stage.opened;
  error = none;
  progress = 0;
  started_at = none;
  finished_at = none;
}

unfoldable pub reopen_body : Option Account → ℕ → World → Result (Job × World)
reopen_body user job_id w = do
  job ← owned_job w.jobs user job_id
  require (job.is_session && (is_retryable job.status && not (is_canceling job.stage)))
      HttpError.conflict
  ok (job, record w { jobs = update_where (by_id job_id) reopened w.jobs })

unfoldable pub reopen : Bool → Option Account → ℕ → World → Result Job × World
reopen up user job_id w = elim (reopen_body user job_id w) [
  | raise e ↦ (raise e, w)
  | ok (job, opened) ↦ (
    ok (reopened job),
    unlink job.stored_name (delete_result job_id (Queue.clear_cancel up job_id opened)),
  )
]

unfoldable pub waiting : LiveBlock → LiveBlock
waiting b = record b { state = BlockState.pending; text = [] }

unfoldable pub retry_clip_body : Option Account → ℕ → ℕ → World → Result (Unit {0} × World)
retry_clip_body user job_id clip_id w = do
  job ← editable w.jobs user job_id
  clip ← found (find_first (clip_in job_id clip_id) w.clips) HttpError.not_found
  block ← found (find_first (clip_block_of job_id clip_id) w.blocks) HttpError.not_found
  require (is_block_failed block.state) HttpError.conflict
  ok (tt, record w { blocks = update_where (same_block block) waiting w.blocks })

unfoldable pub retry_clip : Bool → Text → Option Account → ℕ → ℕ → World → Result (Unit {0}) × World
retry_clip up message user job_id clip_id w = elim (retry_clip_body user job_id clip_id w) [
  | raise e ↦ (raise e, w)
  | ok (_, pending) ↦
      let (queued, told) = Queue.enqueue_clip up job_id clip_id pending in
      if is_some queued
      then (ok tt, told)
      else (raise HttpError.unavailable, resolve_file_block told job_id clip_id message 0 true)
]
