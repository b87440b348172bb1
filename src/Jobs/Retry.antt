-- ===== src/Jobs/Retry.antt =====
-- app/main.py: `retry`.
use voice_2_text.Prelude.{
  ℕ, ◌≡◌, ◌≢◌, refl, Bool, true, false, Option, some, ◌∷◌, Text, update_where, arith,
}
use voice_2_text.Http.{Result, ok, raise}
use voice_2_text.Database.{
  JobStatus, Job, QueueItem, transcribe, enqueued, delete_cancel, Stage, World,
}
use voice_2_text.Auth.{Account, owned_job, owned_job-update}
use voice_2_text.Queue.{call, flagged, is_cancel_requested, enqueue, clear_cancel}
use voice_2_text.Tasks.{by_id}
use voice_2_text.Jobs.{
  retry, retry_body, requeued, source_exists, is_retryable, deliver, remember_item, delivered,
}

retry_body-eq-ok :
    (user : Option Account) (job_id : ℕ) (w : World) (r : Job) (t : World)
    → retry_body user job_id w ≡ ok (r, t)
    → (job : Job) × (owned_job w.jobs user job_id ≡ ok job)
      × (is_retryable job.status ≡ true)
      × (job.stage ≢ Stage.canceling)
      × (source_exists w job ≡ true)
      × (r ≡ requeued job)
      × (t ≡ record w { jobs = update_where (by_id job_id) requeued w.jobs })
unfolding retry_body
retry_body-eq-ok user job_id w r t h = ground arith

pub remember_item-eq-ok :
    (user : Option Account) (job_id : ℕ) (item : QueueItem) (w : World) (r : Job)
    → (remember_item user job_id item w).0 ≡ ok r
    → (job : Job) × (owned_job w.jobs user job_id ≡ ok job)
      × (r ≡ delivered item job)
      × ((remember_item user job_id item w).1
          ≡ record w { jobs = update_where (by_id job_id) (delivered item) w.jobs })
unfolding remember_item
remember_item-eq-ok user job_id item w r h = ground arith

pub deliver-eq-ok :
    (up : Bool) (user : Option Account) (job_id : ℕ) (message : Text) (w : World) (r : Job)
    → (deliver up user job_id message w).0 ≡ ok r
    → (job : Job) × (up ≡ true)
      × (owned_job w.jobs user job_id ≡ ok job)
      × (r ≡ delivered (transcribe job_id) job)
      × ((deliver up user job_id message w).1 ≡ record w {
        jobs = update_where (by_id job_id) (delivered (transcribe job_id)) w.jobs;
        redis = enqueued (transcribe job_id) ∷ w.redis;
      })
unfolding deliver enqueue
deliver-eq-ok false user job_id message w r h = absurd (ground arith)
deliver-eq-ok true user job_id message w r h =
    let x =
      remember_item-eq-ok user job_id (transcribe job_id) (call (enqueued (transcribe job_id)) w) r
        h in
    (x.0, refl, x.1, x.2, x.3)

-- A retry succeeds only for the owner of a job that has failed or is canceled, and is not stopping
-- still, while its audio is there and Redis answers. The job is in the queue once more, and no flag
-- of an earlier cancellation is left that would stop it.
pub retry-ok :
    (up : Bool) (message : Text) (user : Option Account) (job_id : ℕ) (w : World) (r : Job)
    → (retry up message user job_id w).0 ≡ ok r
    → let t = (retry up message user job_id w).1 in
      (job : Job) × (owned_job w.jobs user job_id ≡ ok job)
      × (is_retryable job.status ≡ true)
      × (job.stage ≢ Stage.canceling)
      × (source_exists w job ≡ true)
      × (up ≡ true)
      × (r.status ≡ JobStatus.queued)
      × (r.rq_job_id ≡ some (transcribe job_id))
      × (t.redis ≡ enqueued (transcribe job_id) ∷ delete_cancel job_id ∷ w.redis)
      × (is_cancel_requested up job_id t ≡ false)
unfolding retry requeued delivered clear_cancel is_cancel_requested flagged
retry-ok up message user job_id w r h = go (retry_body user job_id w) refl
  where
    go :
        (o : Result (Job × World))
        → retry_body user job_id w ≡ o
        → let t = (retry up message user job_id w).1 in
          (job : Job) × (owned_job w.jobs user job_id ≡ ok job)
          × (is_retryable job.status ≡ true)
          × (job.stage ≢ Stage.canceling)
          × (source_exists w job ≡ true)
          × (up ≡ true)
          × (r.status ≡ JobStatus.queued)
          × (r.rq_job_id ≡ some (transcribe job_id))
          × (t.redis ≡ enqueued (transcribe job_id) ∷ delete_cancel job_id ∷ w.redis)
          × (is_cancel_requested up job_id t ≡ false)
    go (raise e) eq = absurd (ground arith)
    go (ok (j, q)) eq =
        let x = retry_body-eq-ok user job_id w j q eq in
        let v = clear_cancel up job_id q in
        let y = deliver-eq-ok up user job_id message v r (ground arith) in
        let again = owned_job-update w.jobs user job_id x.0 requeued (λ k. (refl, refl)) x.1 in
        (x.0, x.1, x.2, x.3, x.4, y.1, ground arith, ground arith, ground arith, ground arith)
