-- ===== src/Jobs/Cancel.antt =====
-- app/main.py: `cancel_job`.
use voice_2_text.Prelude.{
  ℕ, ◌≡◌, ◌≢◌, inl, inr, refl, Bool, true, Option, none, some, List, All-map, All-of_each, All₂,
  All₂-update, Distinct, only_row, find_first, find_first-update, find_first-update_none,
  find_first_holds, update_where, count_where, count-zero, arith, if◌then◌else◌, Bool-cases,
}
use voice_2_text.Http.{Result, ok, raise}
use voice_2_text.Database.{JobStatus, Job, QueueItem, Stage, World, is_running}
use voice_2_text.Auth.{Account, owned_job}
use voice_2_text.Queue
use voice_2_text.Queue.{flagged, is_cancel_requested, request_cancel}
use voice_2_text.Tasks.{by_id}
use voice_2_text.Jobs.{cancel_job, canceling_fields, active_job, is_active, drop_item}

-- What the UPDATE finds, after the other processes.
abbrev pub seen : Bool → (World → World) → ℕ → World → World
seen up meanwhile job_id w = meanwhile (request_cancel up job_id w).1

request_cancel-jobs :
    (up : Bool) (job_id : ℕ) (w : World) → (request_cancel up job_id w).1.jobs ≡ w.jobs
unfolding request_cancel
request_cancel-jobs up job_id w = ground arith

drop_item-jobs : (up : Bool) (o : Option QueueItem) (w : World) → (drop_item up o w).jobs ≡ w.jobs
unfolding Queue.cancel
drop_item-jobs up none w = refl
drop_item-jobs up (some item) w = ground arith

-- the rows after the UPDATE
abbrev changed : ℕ → ℕ → World → List Job
changed job_id now t = update_where (active_job job_id) (canceling_fields now) t.jobs

cancel_job-eq-ok :
    (up : Bool) (meanwhile : World → World) (now : ℕ) (user : Option Account) (job_id : ℕ)
    (w : World) (r : Job)
    → (cancel_job up meanwhile now user job_id w).0 ≡ ok r
    → (job : Job) × (owned_job w.jobs user job_id ≡ ok job)
      × (count_where (active_job job_id) (seen up meanwhile job_id w).jobs ≢ 0)
      × (find_first (by_id job_id) (changed job_id now (seen up meanwhile job_id w)) ≡ some r)
      × ((cancel_job up meanwhile now user job_id w).1.jobs
          ≡ changed job_id now (seen up meanwhile job_id w))
cancel_job-eq-ok up meanwhile now user job_id w r h = go (owned_job w.jobs user job_id) refl
  where
    go :
        (o : Result Job)
        → owned_job w.jobs user job_id ≡ o
        → (job : Job) × (owned_job w.jobs user job_id ≡ ok job)
          × (count_where (active_job job_id) (seen up meanwhile job_id w).jobs ≢ 0)
          × (find_first (by_id job_id) (changed job_id now (seen up meanwhile job_id w)) ≡ some r)
          × ((cancel_job up meanwhile now user job_id w).1.jobs
              ≡ changed job_id now (seen up meanwhile job_id w))
    go (raise e) eq = absurd (unfold cancel_job in ground arith)
    go (ok job) eq =
        let t = seen up meanwhile job_id w in
        let c : World = record t { jobs = changed job_id now t } in
        unfold cancel_job in
        (
          job,
          eq,
          ground arith,
          ground arith,
          ground (
            arith,
            request_cancel-jobs up job_id (drop_item up job.rq_job_id c),
            drop_item-jobs up job.rq_job_id c,
          ),
        )

-- The row that the reply shows is the one that the UPDATE has changed.
found_row :
    (job_id now : ℕ) (t : World) (r : Job)
    → Distinct (λ j. j.id) t.jobs
    → count_where (active_job job_id) t.jobs ≢ 0
    → find_first (by_id job_id) (changed job_id now t) ≡ some r
    → (j : Job) × (find_first (by_id job_id) t.jobs ≡ some j)
      × (is_active j.status ≡ true)
      × (r ≡ canceling_fields now j)
found_row job_id now t r d some_active here = go (find_first (by_id job_id) t.jobs) refl
  where
    go :
        (o : Option Job)
        → find_first (by_id job_id) t.jobs ≡ o
        → (j : Job) × (find_first (by_id job_id) t.jobs ≡ some j)
          × (is_active j.status ≡ true)
          × (r ≡ canceling_fields now j)
    go none e = absurd (
        ground (
          arith,
          find_first-update_none (by_id job_id) (active_job job_id) (canceling_fields now) t.jobs
              (λ j. unfold canceling_fields in refl) e,
        ))
    go (some j) e = elim (Bool-cases (is_active j.status)) [
      | inl active ↦ (
        j,
        e,
        active,
        ground (
          arith,
          find_first_holds (by_id job_id) t.jobs j e,
          find_first-update (by_id job_id) (active_job job_id) (canceling_fields now) t.jobs j
              (λ k. unfold canceling_fields in refl) e,
        ),
      )
      | inr idle ↦ absurd (
          some_active (
            count-zero (active_job job_id) t.jobs (
              All-map t.jobs
                (λ k (same : k.id ≡ j.id → k ≡ j).
                  ground (arith, same, find_first_holds (by_id job_id) t.jobs j e))
                (only_row (λ k. k.id) (by_id job_id) t.jobs j d e))))
    ]

-- Where no two jobs have the same id, a cancellation succeeds only for the owner of a job that is
-- queued or running still when the UPDATE is made; the reply is the row as it is stored after that,
-- which differs from the row before by the status `canceled`, the stage `canceling` and no end if the
-- job was running, the stage `canceled` and the end now if it was not; and no other job changes.
pub cancel_job-ok :
    (up : Bool) (meanwhile : World → World) (now : ℕ) (user : Option Account) (job_id : ℕ)
    (w : World) (r : Job)
    → Distinct (λ j. j.id) (seen up meanwhile job_id w).jobs
    → (cancel_job up meanwhile now user job_id w).0 ≡ ok r
    → (job : Job) × (j : Job) × (owned_job w.jobs user job_id ≡ ok job)
      × (find_first (by_id job_id) (seen up meanwhile job_id w).jobs ≡ some j)
      × (is_active j.status ≡ true)
      × (find_first (by_id job_id) (cancel_job up meanwhile now user job_id w).1.jobs ≡ some r)
      × (r ≡ record j {
        status = JobStatus.canceled;
        stage = if is_running j.status then Stage.canceling else Stage.canceled;
        finished_at = if is_running j.status then none else some now;
      })
      × All₂
          (λ a b. (a.id ≢ job_id → b ≡ a) × (b.id ≡ a.id))
          (seen up meanwhile job_id w).jobs
          (cancel_job up meanwhile now user job_id w).1.jobs
unfolding canceling_fields
cancel_job-ok up meanwhile now user job_id w r d h =
    let x = cancel_job-eq-ok up meanwhile now user job_id w r h in
    let row = found_row job_id now (seen up meanwhile job_id w) r d x.2 x.3 in
    (
      x.0,
      row.0,
      x.1,
      row.1,
      row.2,
      rw x.4 (x.3),
      row.3,
      rw x.4 (
          All₂-update _ (active_job job_id) (canceling_fields now) _ (λ j. (λ _. refl, refl))
            (All-of_each _ (seen up meanwhile job_id w).jobs
              (λ j t. (λ n. absurd (n (ground arith)), refl)))),
    )
