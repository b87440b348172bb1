-- ===== src/Tasks/Transcribed.antt =====
-- app/tasks.py: what a transcription keeps, step by step.
use voice_2_text.Prelude.{
  if_holds, suc, ℕ, ◌==◌, Bool, ◌||◌, ◌&&◌, Option, none, some, List, [], ◌∷◌, ◌++◌, find_first,
  if_elim, if◌then◌else◌, is_empty,
}
use voice_2_text.Database.{Job, Stage, StoredName, Segment, World, is_canceled}
use voice_2_text.Queue.{clear_cancel, is_cancel_requested}
use voice_2_text.Storage.{on_disk, unlink}
use voice_2_text.Tasks.{by_id, _update, _purge_audio, save_result}
use voice_2_text.Tasks.Invariant.{WorkerInvariant}
use voice_2_text.Tasks.Writes.{
  failed_with-WorkerWrite, starting-WorkerWrite, assembling-WorkerWrite, measured-WorkerWrite,
  transcribing-WorkerWrite, diarizing-WorkerWrite, finishing-WorkerWrite,
}
use voice_2_text.Tasks.Supervised.{if_pair}
use voice_2_text.Tasks.Supervisor.{failed_with}
use voice_2_text.Tasks.Transcription.{
  Weather, Decoded, decoded, RunOutcome, starting, staged, measured, progressed, report_progress,
  canceled_run, failed_run, clip_paths, assemble, mic_segments, unlink_all, finish, after_decoding,
  decode, execute, run_transcription, should_cancel,
}

module _ {P : World → Type 0} (inv : WorkerInvariant P) where
  report_progress-P : (other : ℕ) (fs : List ℕ) (w : World) → P w → P (report_progress other fs w)
  unfolding report_progress
  report_progress-P other [] w h = h
  report_progress-P other (f ∷ fs) w h =
      report_progress-P other fs _
        (inv.update other (progressed f Stage.transcribing) w (transcribing-WorkerWrite f) h)

  unlink_all-P : (names : List StoredName) (w : World) → P w → P (unlink_all names w)
  unfolding unlink_all
  unlink_all-P [] w h = h
  unlink_all-P (n ∷ ns) w h = unlink_all-P ns (unlink n w) (inv.drop n w h)

  known-P :
      (other : ℕ) (ms : Option ℕ) (w : World)
      → P w
      → P (elim ms [ none ↦ w | some n ↦ if n == 0 then w else _update other (measured n) w ])
  known-P other none w h = h
  known-P other (some n) w h =
      if_elim P (n == 0) _ _ h (inv.update other (measured n) w (measured-WorkerWrite n) h)

-- `R` holds at the end of a run that returns its result, `F` at the end of one that raises.
abbrev pub EndsIn : (World → Type 0) → (World → Type 0) → RunOutcome × World → Type 0
EndsIn R F (RunOutcome.done n, t) = R t
EndsIn R F (RunOutcome.raised, t) = F t
EndsIn R F (RunOutcome.deleted, t) = Unit
EndsIn R F (RunOutcome.canceled, t) = Unit

-- `P i` is to hold before the i-th step of the other processes, `P 6` at the end of a run that
-- returns, and `F` at the end of one that raises.
module _ {P : ℕ → World → Type 0} {F : World → Type 0} (inv : (i : ℕ) → WorkerInvariant (P i))
    (up : Bool) (env : Weather)
    (keeps : (i : ℕ) (v : World) → P i v → P (suc i) (env.meanwhile i v))
    (skip : (v : World) → P 2 v → P 3 v) (early : (v : World) → P 3 v → F v)
    (late : (v : World) → P 4 v → F v) (fails : WorkerInvariant F) where
  abbrev Ends : RunOutcome × World → Type 0
  Ends r = EndsIn (P 6) F r

  canceled_run-Ends : (other : ℕ) (w : World) → Ends (canceled_run up env other w)
  unfolding canceled_run
  canceled_run-Ends other w = tt

  failed_run-Ends : (other : ℕ) (w : World) → F w → Ends (failed_run env other w)
  unfolding failed_run
  failed_run-Ends other w h =
      fails.update other (failed_with env.message env.now) w
        (failed_with-WorkerWrite env.message env.now) h

  assemble-P : (job : Job) (w : World) → P 2 w → P 3 (assemble env job w).1
  unfolding assemble
  assemble-P job w h =
      if_pair (P 3) job.is_session _ _
        (if_pair (P 3) (is_empty (clip_paths job.id joining)) _ _ joined
          (if_pair (P 3) env.concatenated _ _ ((inv 3).make job.stored_name joining joined) joined))
        (skip w h)
    where
      joining : World
      joining = _update job.id (staged Stage.assembling) (env.meanwhile 2 w)

      joined : P 3 joining
      joined =
          (inv 3).update job.id (staged Stage.assembling) _ assembling-WorkerWrite (keeps 2 w h)

  finish-Ends :
      (job : Job) (paths : List StoredName) (segments : List Segment) (w : World)
      → P 5 w
      → Ends (finish up env job paths segments w)
  unfolding finish
  finish-Ends job paths segments w h = (inv 6).clear up job.id _ (
      (inv 6).update job.id _ _ (finishing-WorkerWrite env all)
        (keeps 5 _ (if_elim (P 5) env.delete_audio _ _ (unlink_all-P (inv 5) _ _ saved) saved)))
    where
      all : List Segment
      all = segments ++ (if job.is_session then mic_segments env job.id w else [])

      saved : P 5 (save_result job.id all w)
      saved = (inv 5).save job.id all w h

  after_decoding-Ends :
      (job : Job) (paths : List StoredName) (segments : List Segment) (w : World)
      → P 4 w
      → Ends (after_decoding up env job paths segments w)
  unfolding after_decoding
  after_decoding-Ends job paths segments w h =
      if_holds Ends (should_cancel up env job.id w) _ _ (λ _. canceled_run-Ends job.id w)
        (λ _.
          if_holds Ends (should_cancel up env job.id seen) _ _ (λ _. canceled_run-Ends job.id seen)
            (λ _. finish-Ends job paths segments seen seen_h))
    where
      told : World
      told = if env.diarization then _update job.id (progressed 9950 Stage.diarizing) w else w

      seen : World
      seen = env.meanwhile 4 told

      seen_h : P 5 seen
      seen_h = keeps 4 told (
          if_elim (P 4) env.diarization _ _
            ((inv 4).update job.id (progressed 9950 Stage.diarizing) w (diarizing-WorkerWrite 9950)
              h)
            h)

  decode-Ends :
      (job : Job) (paths : List StoredName) (w : World) → P 3 w → Ends (decode up env job paths w)
  unfolding decode
  decode-Ends job paths w h = go env.transcribed
    where
      known : World
      known = elim env.duration_ms [
        | none ↦ w
        | some ms ↦ if ms == 0 then w else _update job.id (measured ms) w
      ]

      told : World
      told = env.meanwhile 3 (report_progress job.id env.progress known)

      told_h : P 4 told
      told_h = keeps 3 _ (
          report_progress-P (inv 3) job.id env.progress known
            (known-P (inv 3) job.id env.duration_ms w h))

      go :
          (d : Decoded)
          → Ends (elim d [
            | decoded segments ↦ after_decoding up env job paths segments told
            | Decoded.canceled ↦ canceled_run up env job.id told
            | Decoded.failed ↦ failed_run env job.id told
          ])
      go (decoded segments) = after_decoding-Ends job paths segments told told_h
      go Decoded.canceled = canceled_run-Ends job.id told
      go Decoded.failed = failed_run-Ends job.id told (late told told_h)

  execute-Ends : (job : Job) (w : World) → P 2 w → Ends (execute up env job w)
  unfolding execute
  execute-Ends job w h =
      if_holds Ends ((assemble env job w).0 && on_disk (assemble env job w).1 job.stored_name) _ _
        (λ _. decode-Ends job _ _ (assemble-P job w h))
        (λ _. failed_run-Ends job.id _ (early _ (assemble-P job w h)))

  pub run_transcription-Ends :
      (other : ℕ) (w : World) → P 0 w → EndsIn (P 6) F (run_transcription up env other w)
  unfolding run_transcription
  run_transcription-Ends other before h = go (find_first (by_id other) w.jobs)
    where
      w : World
      w = env.meanwhile 0 before

      go :
          (o : Option Job)
          → Ends (elim o [
            | none ↦ (RunOutcome.deleted, clear_cancel up other (_purge_audio other w).1)
            | some job ↦
                if is_canceled job.status || is_cancel_requested up other w
                then (RunOutcome.canceled, clear_cancel up other w)
                else execute up env job (_update other (starting env.now) (env.meanwhile 1 w))
          ])
      go none = tt
      go (some job) =
          if_holds Ends (is_canceled job.status || is_cancel_requested up other w) _ _ (λ _. tt)
            (λ _. execute-Ends job _ (
              (inv 2).update other (starting env.now) _ (starting-WorkerWrite env.now)
                (keeps 1 w (keeps 0 before h))))
