-- ===== src/Jobs/Delete.antt =====
-- app/main.py: `delete_job`.
use voice_2_text.Prelude.{
  ℕ, ◌==◌, ◌≡◌, refl, Bool, true, false, Option, none, some, List, [], ◌∷◌, exists, exists-delete,
  exists-delete_absent, All, All-map, subst, select, arith,
}
use voice_2_text.Http.{Result, ok, raise}
use voice_2_text.Database.{Job, QueueItem, StoredName, World, of_job, clip_of_job}
use voice_2_text.Auth.{Account, owned_job}
use voice_2_text.Queue
use voice_2_text.Queue.{flagged, is_cancel_requested, request_cancel}
use voice_2_text.Storage.{unlink, on_disk, same_name}
use voice_2_text.Tasks.{by_id, delete_result}
use voice_2_text.Tasks.Transcription.{unlink_all}
use voice_2_text.Jobs.{delete_job, drop_item, clip_files}

unlink-absent :
    (n m : StoredName) (w : World) → on_disk w n ≡ false → on_disk (unlink m w) n ≡ false
unfolding on_disk unlink
unlink-absent n m w h = exists-delete_absent (same_name n) (same_name m) w.audio h

unlink_all-absent :
    (n : StoredName) (ms : List StoredName) (w : World)
    → on_disk w n ≡ false
    → on_disk (unlink_all ms w) n ≡ false
unfolding unlink_all
unlink_all-absent n [] w h = h
unlink_all-absent n (m ∷ ms) w h = unlink_all-absent n ms (unlink m w) (unlink-absent n m w h)

-- A list of files that are all unlinked, one after the other.
unlink_all-clean :
    (ns : List StoredName) (w : World) → All (λ n. on_disk (unlink_all ns w) n ≡ false) ns
unfolding unlink_all
unlink_all-clean [] w = tt
unlink_all-clean (n ∷ ns) w = (
  unlink_all-absent n ns (unlink n w)
      (unfold on_disk unlink in exists-delete (same_name n) w.audio),
  unlink_all-clean ns (unlink n w),
)

-- What a deletion leaves of a job with the files `names`: no row, no clip, no block, no result and no
-- file; and if Redis answers, the flag that stops the worker that has it.
abbrev pub IsDeleted : Bool → ℕ → Job → List StoredName → World → Type 0
IsDeleted up job_id job names t =
    (exists (by_id job_id) t.jobs ≡ false)
    × (exists (clip_of_job job_id) t.clips ≡ false)
    × (exists (of_job job_id) t.blocks ≡ false)
    × (exists (λ r. r.0 == job_id) t.results ≡ false)
    × (on_disk t job.stored_name ≡ false)
    × All (λ n. on_disk t n ≡ false) names
    × (is_cancel_requested up job_id t ≡ up)

-- The calls of Redis and the files, after the rows are gone.
rows_gone-IsDeleted :
    (up : Bool) (job_id : ℕ) (job : Job) (names : List StoredName) (o : Option QueueItem)
    (z : World)
    → exists (by_id job_id) z.jobs ≡ false
    → exists (clip_of_job job_id) z.clips ≡ false
    → exists (of_job job_id) z.blocks ≡ false
    → All (λ n. on_disk z n ≡ false) names
    → IsDeleted up job_id job names (
        delete_result job_id
          (unlink job.stored_name (drop_item up o (request_cancel up job_id z).1)))
unfolding delete_result unlink request_cancel Queue.cancel on_disk is_cancel_requested flagged
rows_gone-IsDeleted false job_id job names none z a b c f = (
  a,
  b,
  c,
  exists-delete _ z.results,
  exists-delete (same_name job.stored_name) z.audio,
  All-map names
      (λ n (h : exists (same_name n) z.audio ≡ false).
        exists-delete_absent (same_name n) (same_name job.stored_name) z.audio h)
      f,
  refl,
)
rows_gone-IsDeleted false job_id job names (some i) z a b c f = (
  a,
  b,
  c,
  exists-delete _ z.results,
  exists-delete (same_name job.stored_name) z.audio,
  All-map names
      (λ n (h : exists (same_name n) z.audio ≡ false).
        exists-delete_absent (same_name n) (same_name job.stored_name) z.audio h)
      f,
  refl,
)
rows_gone-IsDeleted true job_id job names none z a b c f = (
  a,
  b,
  c,
  exists-delete _ z.results,
  exists-delete (same_name job.stored_name) z.audio,
  All-map names
      (λ n (h : exists (same_name n) z.audio ≡ false).
        exists-delete_absent (same_name n) (same_name job.stored_name) z.audio h)
      f,
  ground arith,
)
rows_gone-IsDeleted true job_id job names (some i) z a b c f = (
  a,
  b,
  c,
  exists-delete _ z.results,
  exists-delete (same_name job.stored_name) z.audio,
  All-map names
      (λ n (h : exists (same_name n) z.audio ≡ false).
        exists-delete_absent (same_name n) (same_name job.stored_name) z.audio h)
      f,
  ground arith,
)

-- The owner's deletion of a job removes its row, its clips and blocks, its result, its audio file and
-- the files of its clips; and it asks a worker to stop, if Redis answers.
pub delete_job-ok :
    (up : Bool) (user : Option Account) (job_id : ℕ) (w : World) (was_running : Bool)
    → (delete_job up user job_id w).0 ≡ ok was_running
    → (job : Job) × (owned_job w.jobs user job_id ≡ ok job)
      × IsDeleted up job_id job
          (clip_files (select (clip_of_job job_id) w.clips))
          (delete_job up user job_id w).1
unfolding delete_job on_disk
delete_job-ok up user job_id w b h = go (owned_job w.jobs user job_id) refl
  where
    v : World
    v = (request_cancel up job_id w).1

    same : v.clips ≡ w.clips
    same = unfold request_cancel in ground arith

    clips_gone :
        All
          (λ n. on_disk (unlink_all (clip_files (select (clip_of_job job_id) v.clips)) v) n ≡ false)
          (clip_files (select (clip_of_job job_id) w.clips))
    clips_gone =
        subst
          (λ cs.
            All
              (λ n.
                on_disk (unlink_all (clip_files (select (clip_of_job job_id) v.clips)) v) n ≡ false)
              (clip_files (select (clip_of_job job_id) cs)))
          same (unlink_all-clean (clip_files (select (clip_of_job job_id) v.clips)) v)

    go :
        (o : Result Job)
        → owned_job w.jobs user job_id ≡ o
        → (job : Job) × (owned_job w.jobs user job_id ≡ ok job)
          × IsDeleted up job_id job
              (clip_files (select (clip_of_job job_id) w.clips))
              (delete_job up user job_id w).1
    go (raise e) eq = absurd (ground arith)
    go (ok job) eq = (
      job,
      eq,
      rw (eq, delete_job)
          (rows_gone-IsDeleted up job_id job _ job.rq_job_id _ (exists-delete (by_id job_id) _)
            (exists-delete (clip_of_job job_id) _) (exists-delete (of_job job_id) _) clips_gone),
    )
