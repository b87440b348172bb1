-- ===== src/Tasks.antt =====
-- app/tasks.py, the writes of a worker to the job and its files, and app/results.py as far as they
-- use it. `up` says whether Redis answers, `now` is the time that `utcnow` reads.
pub mod Supervisor
pub mod Transcription
pub mod Invariant
pub mod Writes
pub mod Supervised
pub mod Transcribed
pub mod Canceled
pub mod Claims
pub mod Outcomes
pub mod Maintenance
pub mod Sweep
use voice_2_text.Prelude.{
  ℕ, ◌+◌, ◌==◌, ltb, Bool, true, false, not, ◌&&◌, Option, none, some, List, ◌∷◌, String,
  find_first, count_where, delete_where, update_where, if◌then◌else◌,
}
use voice_2_text.Database.{
  JobStatus, Job, StoredName, Stage, Segment, World, is_canceled, is_queued,
}
use voice_2_text.Queue.{clear_cancel, is_cancel_requested}
use voice_2_text.Storage.{unlink}

abbrev pub by_id : ℕ → Job → Bool
by_id job_id j = j.id == job_id

-- `Job.id == job_id, Job.status != CANCELED`
abbrev pub live_job : ℕ → Job → Bool
live_job job_id j = j.id == job_id && not (is_canceled j.status)

-- `fields` writes the keyword arguments of the call
unfoldable pub _update : ℕ → (Job → Job) → World → World
_update job_id fields w = record w { jobs = update_where (live_job job_id) fields w.jobs }

-- results.delete
unfoldable pub delete_result : ℕ → World → World
delete_result job_id w = record w { results = delete_where (λ r. r.0 == job_id) w.results }

-- results.save
unfoldable pub save_result : ℕ → List Segment → World → World
save_result job_id segments w = record w {
  results = (job_id, segments) ∷ (delete_result job_id w).results;
}

-- the glob `{job_id}.*`
abbrev pub named_after : ℕ → StoredName → Bool
named_after job_id name = name.stem == job_id

unfoldable pub _purge_audio : ℕ → World → ℕ × World
_purge_audio job_id w = (
  count_where (named_after job_id) w.audio,
  record w { audio = delete_where (named_after job_id) w.audio },
)

unfoldable pub stopped : Bool → ℕ → Job → Job
stopped fully_stopped now j = record j {
  status = JobStatus.canceled;
  stage = if fully_stopped then Stage.canceled else Stage.canceling;
  finished_at = if fully_stopped then some now else none;
}

-- the session of `_cleanup_canceled`, after the files and the flag are gone
unfoldable pub mark_canceled : ℕ → Bool → ℕ → World → World
mark_canceled job_id fully_stopped now w = elim (find_first (by_id job_id) w.jobs) [
  | none ↦ (_purge_audio job_id w).1
  | some job ↦ record w { jobs = update_where (by_id job_id) (stopped fully_stopped now) w.jobs }
]

unfoldable pub _cleanup_canceled : Bool → ℕ → Bool → ℕ → World → World
_cleanup_canceled up job_id fully_stopped now w =
    let bare = unlink (record { stem = job_id; ext = "assembling.mp3" }) (delete_result job_id w) in
    mark_canceled job_id fully_stopped now
      (if fully_stopped then clear_cancel up job_id bare else bare)

-- The UPDATE of `run_isolated`: only a queued job can be claimed.
abbrev pub claimable : ℕ → Job → Bool
claimable job_id j = j.id == job_id && is_queued j.status

unfoldable pub claimed : ℕ → Job → Job
claimed now j = record j {
  status = JobStatus.running;
  stage = Stage.probing;
  started_at = some now;
}

unfoldable pub claim : ℕ → ℕ → World → Bool × World
claim job_id now w = (
  ltb 0 (count_where (claimable job_id) w.jobs),
  record w { jobs = update_where (claimable job_id) (claimed now) w.jobs },
)

-- `job is None or job.status == JobStatus.CANCELED`
unfoldable pub gone : ℕ → World → Bool
gone job_id w = elim (find_first (by_id job_id) w.jobs) [
  | none ↦ true
  | some j ↦ is_canceled j.status
]
