-- ===== src/Tests/Jobs.antt =====
-- The theorems on app/main.py, app/auth.py and app/storage.py, at one job.
use voice_2_text.Prelude
use voice_2_text.Prelude.{
  ℕ, ◌+◌, ◌*◌, ◌≡◌, ◌≢◌, ◌≤◌, length, refl, Bool, true, false, not, ◌&&◌, ltb, sum, is_some, Option,
  none, some, List, [], ◌∷◌, ◌++◌, All, All₂, find_first, select, arith, if◌then◌else◌,
}
use voice_2_text.Http.{ok, raise, HttpError}
use voice_2_text.Config.{contains}
use voice_2_text.Database.{
  StoredName, JobStatus, Stage, Job, World, enqueued, delete_cancel, transcribe, is_running,
  clip_of_job,
}
use voice_2_text.Auth
use voice_2_text.Auth.{Account, UserStatus, owned_job, owned_job_access}
use voice_2_text.Queue
use voice_2_text.Queue.{is_cancel_requested}
use voice_2_text.Storage
use voice_2_text.Storage.{save_upload, on_disk, save_upload-eq-some}
use voice_2_text.Tasks.{by_id}
use voice_2_text.Jobs
use voice_2_text.Jobs.{
  retry, cancel_job, delete_job, is_retryable, is_active, source_exists, clip_files,
}
use voice_2_text.Jobs.Retry.{retry-ok}
use voice_2_text.Jobs.Cancel.{seen, cancel_job-ok}
use voice_2_text.Jobs.{get_audio}
use voice_2_text.Jobs.Gone.{delete_job-unreachable}
use voice_2_text.Jobs.Delete.{IsDeleted, delete_job-ok}
use voice_2_text.Tests.{settings, sina, with_job, job_at, quiet}

abbrev running : World
running = with_job JobStatus.running Stage.transcribing

abbrev failed : World
failed = with_job JobStatus.failed Stage.failed

retried : (retry true [] (some sina) 1 failed).0 ≡ ok (job_at JobStatus.queued Stage.queued false)
unfolding retry Jobs.retry_body Jobs.requeued Jobs.source_exists Jobs.deliver Jobs.delivered
    Jobs.remember_item owned_job Auth.owns Auth.require_user Prelude.find_first Prelude.update_where
    Prelude.exists on_disk Storage.same_name Queue.enqueue Queue.clear_cancel
retried = refl

retry-ok_example :
    let r = job_at JobStatus.queued Stage.queued false in
    let t = (retry true [] (some sina) 1 failed).1 in
    (job : Job) × (owned_job failed.jobs (some sina) 1 ≡ ok job)
    × (is_retryable job.status ≡ true)
    × (job.stage ≢ Stage.canceling)
    × (source_exists failed job ≡ true)
    × (true ≡ true)
    × (r.status ≡ JobStatus.queued)
    × (r.rq_job_id ≡ some (transcribe 1))
    × (t.redis ≡ enqueued (transcribe 1) ∷ delete_cancel 1 ∷ failed.redis)
    × (is_cancel_requested true 1 t ≡ false)
retry-ok_example =
    retry-ok true [] (some sina) 1 failed (job_at JobStatus.queued Stage.queued false) retried

abbrev stopping : Job
stopping = job_at JobStatus.canceled Stage.canceling false

canceling : (cancel_job true quiet 9 (some sina) 1 running).0 ≡ ok stopping
unfolding cancel_job Jobs.canceling_fields owned_job Auth.owns Auth.require_user Prelude.find_first
    Prelude.update_where Prelude.count_where Queue.request_cancel
canceling = refl

cancel_job-ok_example :
    (job : Job) × (j : Job) × (owned_job running.jobs (some sina) 1 ≡ ok job)
    × (find_first (by_id 1) (seen true quiet 1 running).jobs ≡ some j)
    × (is_active j.status ≡ true)
    × (find_first (by_id 1) (cancel_job true quiet 9 (some sina) 1 running).1.jobs ≡ some stopping)
    × (stopping ≡ record j {
      status = JobStatus.canceled;
      stage = if is_running j.status then Stage.canceling else Stage.canceled;
      finished_at = if is_running j.status then none else some 9;
    })
    × All₂
        (λ a b. (a.id ≢ 1 → b ≡ a) × (b.id ≡ a.id))
        (seen true quiet 1 running).jobs
        (cancel_job true quiet 9 (some sina) 1 running).1.jobs
cancel_job-ok_example =
    cancel_job-ok true quiet 9 (some sina) 1 running stopping
      (unfold Queue.request_cancel in (tt, tt)) canceling

deleting : (delete_job true (some sina) 1 running).0 ≡ ok true
unfolding delete_job owned_job Auth.owns Auth.require_user Prelude.find_first
deleting = refl

delete_job-ok_example :
    (job : Job) × (owned_job running.jobs (some sina) 1 ≡ ok job)
    × IsDeleted true 1 job
        (clip_files (select (clip_of_job 1) running.clips))
        (delete_job true (some sina) 1 running).1
delete_job-ok_example = delete_job-ok true (some sina) 1 running true deleting

abbrev running_job : Job
running_job = job_at JobStatus.running Stage.transcribing false

save_upload-eq-some_example :
    let name : StoredName = record { stem = 2; ext = "mp3" } in
    let r = save_upload settings running 2 "mp3" (5 ∷ 6 ∷ []) in
    (r.0 ≡ (
      if contains "mp3" ("mp3" ∷ []) && (ltb 0 11 && not (ltb (1 * 1024 * 1024) 11))
      then some (name, 11)
      else none))
    × (contains "mp3" ("mp3" ∷ []) ≡ true → on_disk r.1 name ≡ is_some r.0)
    × (contains "mp3" ("mp3" ∷ []) ≡ false → r.1 ≡ running)
save_upload-eq-some_example = save_upload-eq-some settings running 2 "mp3" (5 ∷ 6 ∷ [])

abbrev deleted : World
deleted = (delete_job true (some sina) 1 running).1

delete_job-unreachable_example :
    (get_audio (some sina) 1 deleted ≡ raise HttpError.not_found)
    × (cancel_job true quiet 9 (some sina) 1 deleted ≡ (raise HttpError.not_found, deleted))
    × (retry true [] (some sina) 1 deleted ≡ (raise HttpError.not_found, deleted))
    × (delete_job true (some sina) 1 deleted ≡ (raise HttpError.not_found, deleted))
delete_job-unreachable_example =
    delete_job-unreachable true (some sina) 1 running true quiet 9 [] deleting
