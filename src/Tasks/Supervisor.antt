-- ===== src/Tasks/Supervisor.antt =====
-- app/tasks.py: `run_isolated`.
use voice_2_text.Prelude.{
  ℕ, ◌+◌, ◌==◌, ltb, Bool, true, ◌||◌, Option, none, some, List, [], ◌∷◌, Text, find_first,
  if◌then◌else◌,
}
use voice_2_text.Database.{JobStatus, Job, Stage, World}
use voice_2_text.Queue.{is_cancel_requested}
use voice_2_text.Tasks.{by_id, _update, _cleanup_canceled, claim, gone}

-- One round of the `while` loop: what the other processes have written since the last one, what
-- `process.poll()` returns, what the monotonic clock shows
-- then, and the time of day.
pub record Poll : Type 0 where
  pub meanwhile : World → World
  pub returncode : Option ℕ
  pub clock : ℕ
  pub now : ℕ

-- The dictionary that is returned, by its status; `raised` for an exception, and `polling` while
-- the loop goes on.
pub data Outcome : Type 0 where
  skipped raised polling : Outcome
  ended : JobStatus → Outcome

unfoldable pub failed_with : Text → ℕ → Job → Job
failed_with message now j = record j {
  status = JobStatus.failed;
  stage = Stage.failed;
  finished_at = some now;
  error = some message;
}

-- `except BaseException`
unfoldable pub report_failure : ℕ → Text → ℕ → World → Outcome × World
report_failure job_id message now w = (raised, _update job_id (failed_with message now) w)

-- after the loop, with the exit code of the process
unfoldable pub conclude : Bool → ℕ → Text → ℕ → ℕ → World → Outcome × World
conclude up job_id message now code w =
    if code == 0
    then (elim (find_first (by_id job_id) w.jobs) [
      | none ↦ (ended JobStatus.canceled, _cleanup_canceled up job_id true now w)
      | some j ↦
          (ended j.status, if gone job_id w then _cleanup_canceled up job_id true now w else w)
    ])
    else report_failure job_id message now w

-- `message` is the text of the exception, which the model does not compute; `timeout` is the setting
-- WORKER_JOB_TIMEOUT, and `begun` what the clock showed at the start.
unfoldable pub supervise : Bool → ℕ → Text → ℕ → ℕ → List Poll → World → Outcome × World
supervise up job_id message timeout begun [] w = (polling, w)
supervise up job_id message timeout begun (p ∷ ps) w =
    let seen = p.meanwhile w in
    let rest = supervise up job_id message timeout begun ps seen in
    if gone job_id seen || is_cancel_requested up job_id seen
    then (ended JobStatus.canceled, _cleanup_canceled up job_id true p.now seen)
    else elim p.returncode [
      | some code ↦ conclude up job_id message p.now code seen
      | none ↦
          if ltb (begun + timeout) p.clock then report_failure job_id message p.now seen else rest
    ]

-- `launched` says whether `Popen` succeeds.
unfoldable pub run_isolated :
    Bool → Bool → ℕ → Text → ℕ → ℕ → ℕ → List Poll → World → Outcome × World
run_isolated up launched job_id message timeout begun now polls w =
    let (won, started) = claim job_id now w in
    if won
    then (if launched
        then supervise up job_id message timeout begun polls started
        else report_failure job_id message now started)
    else (skipped, started)
