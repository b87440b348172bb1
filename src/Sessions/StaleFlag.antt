-- ===== src/Sessions/StaleFlag.antt =====
-- app/main.py `cancel_job` and app/sessions.py `close_session`: the cancel flag of a session that is
-- open.
use voice_2_text.Prelude.{
  ℕ, ◌≡◌, refl, true, Option, none, some, List, Text, All-map, Distinct, only_row, find_first_holds,
  count_where, count-zero, arith, ==_refl, ap, subst, sym,
}
use voice_2_text.Http.{Result, ok, raise, HttpError}
use voice_2_text.Database.{JobStatus, Job, World, set_cancel}
use voice_2_text.Auth.{Account, owned_job, owns}
use voice_2_text.Queue.{call, flagged, is_cancel_requested, request_cancel}
use voice_2_text.Jobs.{cancel_job, active_job}
use voice_2_text.Sessions.{editable}
use voice_2_text.Sessions.Closing.{close_session, close_body, Closed, finished, enqueue}
use voice_2_text.Sessions.Frozen.{editable-eq-ok, close_body-finished, close_body-enqueue}
use voice_2_text.Jobs.Retry.{deliver-eq-ok}

idle :
    (jobs : List Job) (user : Option Account) (job_id : ℕ) (job : Job)
    → Distinct (λ j. j.id) jobs
    → owned_job jobs user job_id ≡ ok job
    → job.status ≡ JobStatus.opened
    → count_where (active_job job_id) jobs ≡ 0
unfolding owned_job owns
idle jobs none job_id job d h s = absurd (ground arith)
idle jobs (some a) job_id job d h s = count-zero (active_job job_id) jobs (
    All-map jobs
      (λ k (same : k.id ≡ job.id → k ≡ job).
        ground (arith, same, find_first_holds (owns a.id job_id) jobs job))
      (only_row (λ k. k.id) (owns a.id job_id) jobs job d (ground arith)))

-- the request is refused, but its flag is set
cancel_job-editable :
    (now : ℕ) (user : Option Account) (job_id : ℕ) (w : World) (job : Job)
    → Distinct (λ j. j.id) w.jobs
    → editable w.jobs user job_id ≡ ok job
    → cancel_job true (λ t. t) now user job_id w
      ≡ (raise HttpError.conflict, call (set_cancel job_id) w)
unfolding cancel_job request_cancel
cancel_job-editable now user job_id w job d h =
    let x = editable-eq-ok w.jobs user job_id job h in
    ground (arith, x.0, x.2, idle w.jobs user job_id job d x.0 x.2)

-- Where no two jobs have the same id and Redis answers, a session that is open can not be
-- canceled: the request is answered with a conflict. But it has set the cancel flag, and closing
-- the session does not clear it: the flag stands after the session is closed, where the first poll
-- of `run_isolated` reads it.
pub close_session-flag :
    (now later : ℕ) (message : Text) (user : Option Account) (job_id : ℕ) (w : World) (job r : Job)
    → Distinct (λ j. j.id) w.jobs
    → editable w.jobs user job_id ≡ ok job
    → let flagged = cancel_job true (λ t. t) now user job_id w in
      (close_session true later message user job_id flagged.1).0 ≡ ok r
      → (flagged.0 ≡ raise HttpError.conflict)
        × (is_cancel_requested true job_id
              (close_session true later message user job_id flagged.1).1
            ≡ true)
unfolding close_session
close_session-flag now later message user job_id w job r d e h = (
  ap (λ x. x.0) stale,
  unfold is_cancel_requested in go (close_body later user job_id marked) refl,
)
  where
    marked : World
    marked = (cancel_job true (λ t. t) now user job_id w).1

    stale :
        cancel_job true (λ t. t) now user job_id w
        ≡ (raise HttpError.conflict, call (set_cancel job_id) w)
    stale = cancel_job-editable now user job_id w job d e

    set : flagged job_id marked.redis ≡ true
    set =
        subst (λ x. flagged job_id x.1.redis ≡ true) (sym stale)
          (unfold flagged in ground (arith, ==_refl job_id))

    go :
        (o : Result Closed)
        → close_body later user job_id marked ≡ o
        → flagged job_id (close_session true later message user job_id marked).1.redis ≡ true
    go (raise x) eq = absurd (ground arith)
    go (ok (finished j t)) eq =
        let x = close_body-finished later user job_id marked j t eq in ground (arith, set, x.4)
    go (ok (enqueue j t)) eq =
        let x = close_body-enqueue later user job_id marked j t eq in
        let y = deliver-eq-ok true user job_id message t r (ground arith) in
        unfold flagged in ground (arith, set, x.2, y.4)
