-- ===== src/Tasks/Canceled.antt =====
-- app/tasks.py: a worker never revives a canceled job.
use voice_2_text.Prelude.{
  suc, subst, ◌≢◌, ◌<◌, ◌⊎◌, inl, inr, ℕ, ◌≡◌, refl, Bool, All, arith, Bool-cases, ltb,
}
use voice_2_text.Database.{JobStatus, World}
use voice_2_text.Tasks.{claimed, stopped}
use voice_2_text.Tasks.Invariant.{WorkerInvariant, RowInvariant, rows_invariant}
use voice_2_text.Tasks.Supervised.{Keeps}
use voice_2_text.Tasks.Transcription.{Weather, RunOutcome, run_transcription}
use voice_2_text.Tasks.Transcribed
use voice_2_text.Tasks.Transcribed.{EndsIn}

-- The job is canceled, or its row is gone.
abbrev pub IsCanceled : ℕ → World → Type 0
IsCanceled job_id w = All (λ j. j.id ≡ job_id → j.status ≡ JobStatus.canceled) w.jobs

pub canceled_row : (job_id : ℕ) → RowInvariant (λ j. j.id ≡ job_id → j.status ≡ JobStatus.canceled)
unfolding claimed stopped
canceled_row job_id = record {
  written = λ other f j ok t q e. ground (arith, ok j, q (ground (arith, ok j)));
  taken = λ other now j t q e. ground (arith, q e);
  ended = λ fully now j q e. refl;
}

phase_invariant : (job_id : ℕ) (T : Type 0) → WorkerInvariant (λ w. T → IsCanceled job_id w)
phase_invariant job_id T =
    let inv = rows_invariant (canceled_row job_id) in
    record {
      update = λ other fields w ok h t. inv.update other fields w ok (h t);
      claims = λ other now w h t. inv.claims other now w (h t);
      cleanup = λ up other fully now w h t. inv.cleanup up other fully now w (h t);
      clear = λ up other w h t. inv.clear up other w (h t);
      save = λ other segments w h t. inv.save other segments w (h t);
      drop = λ name w h t. inv.drop name w (h t);
      make = λ name w h t. inv.make name w (h t);
      purge = λ other w h t. inv.purge other w (h t);
    }

lt-or-eq : (k i : ℕ) → k < suc i → (k < i) ⊎ (k ≡ i)
lt-or-eq k i h = elim (Bool-cases (ltb k i)) [
  | inl before ↦ inl (ground arith)
  | inr now ↦ inr (ground arith)
]

-- A run that ends so has surely passed the k-th step: one that returns its result all of them, one
-- that raises the first three.
abbrev pub Passes : ℕ → RunOutcome → Type 0
Passes k (RunOutcome.done n) = Unit
Passes k RunOutcome.raised = k < 3
Passes k RunOutcome.deleted = ⊥
Passes k RunOutcome.canceled = ⊥

-- A job that another process cancels, or deletes, at a step of a transcription, and that no process
-- brings back, is so at the end of the run: neither the late progress, nor the failure, nor the
-- result that is reported after that step revives it. The steps count from 0; the step is any but the
-- one of number 2, within the joining of clips, and the run is one that returns its result, or one
-- that raises, where the step is the one before it reads the job or the one before it marks the job as
-- running.
pub run_transcription-IsCanceled :
    (job_id k : ℕ) (up : Bool) (env : Weather) (other : ℕ) (w : World)
    → k ≢ 2
    → k < 6
    → ((v : World) → IsCanceled job_id (env.meanwhile k v))
    → ((i : ℕ) → k < i → Keeps (IsCanceled job_id) (env.meanwhile i))
    → Passes k (run_transcription up env other w).0
    → IsCanceled job_id (run_transcription up env other w).1
run_transcription-IsCanceled job_id k up env other w not_joining in_run cancels keeps passed =
    ended (run_transcription up env other w) passed (
      Transcribed.run_transcription-Ends (λ i. phase_invariant job_id (k < i)) up env next
        (λ v h t. h (omega (arith, t, not_joining))) (λ v h t. h t) (λ v h t. h (omega (arith, t)))
        (phase_invariant job_id (k < 3)) other w (λ t. absurd (omega (arith, t))))
  where
    next :
        (i : ℕ) (v : World)
        → (k < i → IsCanceled job_id v)
        → k < suc i
        → IsCanceled job_id (env.meanwhile i v)
    next i v h t = elim (lt-or-eq k i t) [
      | inl before ↦ keeps i before v (h before)
      | inr now ↦ subst (λ n. IsCanceled job_id (env.meanwhile n v)) now (cancels v)
    ]

    ended :
        (r : RunOutcome × World)
        → Passes k r.0
        → EndsIn (λ v. k < 6 → IsCanceled job_id v) (λ v. k < 3 → IsCanceled job_id v) r
        → IsCanceled job_id r.1
    ended (RunOutcome.done n, t) p h = h in_run
    ended (RunOutcome.raised, t) p h = h p
    ended (RunOutcome.deleted, t) p h = absurd p
    ended (RunOutcome.canceled, t) p h = absurd p
