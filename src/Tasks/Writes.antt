-- ===== src/Tasks/Writes.antt =====
-- app/tasks.py: the writes that a worker hands to `_update`.
use voice_2_text.Prelude.{ℕ, Text, List, refl, inl, inr}
use voice_2_text.Database.{Stage, Segment}
use voice_2_text.Tasks.Invariant.{WorkerWrite}
use voice_2_text.Tasks.Supervisor.{failed_with}
use voice_2_text.Tasks.Transcription.{Weather, starting, staged, measured, progressed, finishing}

pub failed_with-WorkerWrite : (message : Text) (now : ℕ) → WorkerWrite (failed_with message now)
unfolding failed_with
failed_with-WorkerWrite message now j = (refl, refl, inr refl, inr refl)

pub starting-WorkerWrite : (now : ℕ) → WorkerWrite (starting now)
unfolding starting
starting-WorkerWrite now j = (refl, refl, inr refl, inr refl)

pub assembling-WorkerWrite : WorkerWrite (staged Stage.assembling)
unfolding staged
assembling-WorkerWrite j = (refl, refl, inl refl, inr refl)

pub measured-WorkerWrite : (ms : ℕ) → WorkerWrite (measured ms)
unfolding measured
measured-WorkerWrite ms j = (refl, refl, inl refl, inl refl)

pub transcribing-WorkerWrite : (f : ℕ) → WorkerWrite (progressed f Stage.transcribing)
unfolding progressed
transcribing-WorkerWrite f j = (refl, refl, inl refl, inr refl)

pub diarizing-WorkerWrite : (f : ℕ) → WorkerWrite (progressed f Stage.diarizing)
unfolding progressed
diarizing-WorkerWrite f j = (refl, refl, inl refl, inr refl)

pub finishing-WorkerWrite :
    (env : Weather) (segments : List Segment) → WorkerWrite (finishing env segments)
unfolding finishing
finishing-WorkerWrite env segments j = (refl, refl, inr refl, inr refl)
