-- ===== src/Tasks/Outcomes.antt =====
-- app/tasks.py: what the outcome of a supervised run says about the job.
use voice_2_text.Prelude.{
  Distinct, only_row, All-map, All-written, count-zero, ◌++◌, exists-delete, ap, ◌∙◌, ◌+◌, ◌<◌,
  ◌||◌, ℕ, ◌≡◌, ◌≢◌, ◌==◌, refl, Bool, true, false, Option, none, some, List, [], ◌∷◌, Text, All,
  All-of_each, arith, find_first, find_first-update, find_first_holds, find_first-none,
  update_where, if◌then◌else◌, exists,
}
use voice_2_text.Database.{JobStatus, Job, Stage, World}
use voice_2_text.Storage.{unlink}
use voice_2_text.Queue.{flagged, is_cancel_requested, clear_cancel}
use voice_2_text.Tasks.{
  by_id, named_after, _purge_audio, live_job, _update, _cleanup_canceled, mark_canceled, claim,
  claimable, delete_result, stopped, gone,
}
use voice_2_text.Tasks.Supervisor.{
  Poll, polling, ended, failed_with, report_failure, conclude, supervise, run_isolated,
}

-- Where no two jobs have the same id, the error that a supervisor reports reaches any job but a
-- canceled one: also a job that the user has put into the queue again, or a session that is open
-- again, since its process failed. Then the next delivery of it is skipped.
pub report_failure-overwrites :
    (job_id : ℕ) (message : Text) (now later : ℕ) (w : World) (j : Job)
    → Distinct (λ k. k.id) w.jobs
    → find_first (by_id job_id) w.jobs ≡ some j
    → j.status ≢ JobStatus.canceled
    → let t = (report_failure job_id message now w).1 in
      (find_first (by_id job_id) t.jobs ≡ some (failed_with message now j))
      × ((claim job_id later t).0 ≡ false)
unfolding report_failure _update claim failed_with
report_failure-overwrites job_id message now later w j d here live = (
  ground (
    arith,
    find_first-update (by_id job_id) (live_job job_id) (failed_with message now) w.jobs j
        (λ k. refl) here,
    find_first_holds (by_id job_id) w.jobs j here,
  ),
  ground (
    arith,
    count-zero (claimable job_id) (update_where (live_job job_id) (failed_with message now) w.jobs)
        idle,
  ),
)
  where
    at_row :
        (k : Job)
        → (k.id ≡ j.id → k ≡ j)
        → claimable job_id (if live_job job_id k then failed_with message now k else k) ≡ false
    at_row k same = ground (arith, same, find_first_holds (by_id job_id) w.jobs j here)

    idle :
        All
          (λ k. claimable job_id k ≡ false)
          (update_where (live_job job_id) (failed_with message now) w.jobs)
    idle =
        All-written (λ k. claimable job_id k ≡ false) (live_job job_id) (failed_with message now)
          w.jobs (All-map w.jobs at_row (only_row (λ k. k.id) (by_id job_id) w.jobs j d here))

supervise_ends :
    (up : Bool) (job_id : ℕ) (message : Text) (timeout begun : ℕ) (polls : List Poll) (p : Poll)
    (w : World)
    → begun + timeout < p.clock
    → (supervise up job_id message timeout begun (polls ++ p ∷ []) w).0 ≢ polling
unfolding supervise conclude report_failure
supervise_ends up job_id message timeout begun [] p w late = ground arith
supervise_ends up job_id message timeout begun (q ∷ qs) p w late =
    ground (arith, supervise_ends up job_id message timeout begun qs p (q.meanwhile w) late)

-- A delivery returns or raises at the latest with the poll at which the clock is more than the
-- timeout past the start, whatever the polls before it have seen.
pub run_isolated_ends :
    (up launched : Bool) (job_id : ℕ) (message : Text) (timeout begun now : ℕ) (polls : List Poll)
    (p : Poll) (w : World)
    → begun + timeout < p.clock
    → (run_isolated up launched job_id message timeout begun now (polls ++ p ∷ []) w).0 ≢ polling
unfolding run_isolated report_failure
run_isolated_ends up launched job_id message timeout begun now polls p w late =
    ground
      (arith, supervise_ends up job_id message timeout begun polls p (claim job_id now w).1 late)

-- After a cleanup of a stopped run nothing is left of it: the flag is cleared, if Redis answers, the
-- partial result is gone, the row reads `canceled`, and if the row is gone too, the upload is
-- deleted.
pub _cleanup_canceled-clean :
    (job_id now : ℕ) (w : World)
    → let t = _cleanup_canceled true job_id true now w in
      (is_cancel_requested true job_id t ≡ false)
      × (exists (λ r. r.0 == job_id) t.results ≡ false)
      × All
          (λ j. j.id ≡ job_id → (j.status ≡ JobStatus.canceled) × (j.stage ≡ Stage.canceled))
          t.jobs
      × (find_first (by_id job_id) w.jobs ≡ none → exists (named_after job_id) t.audio ≡ false)
unfolding stopped _cleanup_canceled mark_canceled clear_cancel delete_result unlink
    is_cancel_requested flagged _purge_audio
_cleanup_canceled-clean job_id now w = go (find_first (by_id job_id) w.jobs) refl
  where
    go :
        (o : Option Job)
        → find_first (by_id job_id) w.jobs ≡ o
        → let t = _cleanup_canceled true job_id true now w in
          (is_cancel_requested true job_id t ≡ false)
          × (exists (λ r. r.0 == job_id) t.results ≡ false)
          × All
              (λ j. j.id ≡ job_id → (j.status ≡ JobStatus.canceled) × (j.stage ≡ Stage.canceled))
              t.jobs
          × (find_first (by_id job_id) w.jobs ≡ none → exists (named_after job_id) t.audio ≡ false)
    go none e = (
      ground arith,
      ground (arith, exists-delete (λ r. r.0 == job_id) w.results),
      rw (e, mark_canceled)
          (All-map w.jobs (λ k (n : by_id job_id k ≡ false) i. absurd (ground arith))
            (find_first-none (by_id job_id) w.jobs e)),
      λ _. ground (
        arith,
        exists-delete (named_after job_id)
            (unlink (record { stem = job_id; ext = "assembling.mp3" }) w).audio,
      ),
    )
    go (some j) e = (
      ground arith,
      ground (arith, exists-delete (λ r. r.0 == job_id) w.results),
      rw (e, mark_canceled)
          (All-written _ (by_id job_id) (stopped true now) w.jobs
            (All-of_each _ w.jobs (λ k i. ground arith))),
      λ n. absurd (ground arith),
    )

polls_on :
    (job_id : ℕ) (message : Text) (timeout begun : ℕ) (polls more : List Poll) (w v : World)
    → supervise true job_id message timeout begun polls w ≡ (polling, v)
    → supervise true job_id message timeout begun (polls ++ more) w
      ≡ supervise true job_id message timeout begun more v
unfolding supervise conclude report_failure
polls_on job_id message timeout begun [] more w v h =
    ap (λ u. supervise true job_id message timeout begun more u) (ap (λ r. r.1) h)
polls_on job_id message timeout begun (q ∷ qs) more w v h =
    ground (arith, polls_on job_id message timeout begun qs more (q.meanwhile w) v)

supervise-append :
    (job_id : ℕ) (message : Text) (timeout begun : ℕ) (polls more : List Poll) (p : Poll)
    (w v : World)
    → supervise true job_id message timeout begun polls w ≡ (polling, v)
    → (gone job_id (p.meanwhile v) || is_cancel_requested true job_id (p.meanwhile v)) ≡ true
    → supervise true job_id message timeout begun (polls ++ p ∷ more) w
      ≡ (ended JobStatus.canceled, _cleanup_canceled true job_id true p.now (p.meanwhile v))
unfolding supervise
supervise-append job_id message timeout begun polls more p w v still sees =
    polls_on job_id message timeout begun polls (p ∷ more) w v still ∙ ground arith

-- Where a delivery is still polling, a cancellation that the next poll sees ends it there, whatever
-- the exit code or the clock: the run returns `canceled`, the flag is cleared, the partial result is
-- gone and the row, if there is one, reads `canceled`. Redis answers.
pub supervise_stops :
    (job_id : ℕ) (message : Text) (timeout begun : ℕ) (polls more : List Poll) (p : Poll)
    (w v : World)
    → supervise true job_id message timeout begun polls w ≡ (polling, v)
    → (gone job_id (p.meanwhile v) || is_cancel_requested true job_id (p.meanwhile v)) ≡ true
    → let r = supervise true job_id message timeout begun (polls ++ p ∷ more) w in
      (r.0 ≡ ended JobStatus.canceled)
      × (is_cancel_requested true job_id r.1 ≡ false)
      × (exists (λ k. k.0 == job_id) r.1.results ≡ false)
      × All
          (λ j. j.id ≡ job_id → (j.status ≡ JobStatus.canceled) × (j.stage ≡ Stage.canceled))
          r.1.jobs
supervise_stops job_id message timeout begun polls more p w v still sees =
    let end = supervise-append job_id message timeout begun polls more p w v still sees in
    let clean = _cleanup_canceled-clean job_id p.now (p.meanwhile v) in
    rw end (refl, clean.0, clean.1, clean.2)
