-- ===== src/Tests/Tasks.antt =====
-- The theorems on app/tasks.py, at one job.
use voice_2_text.Prelude
use voice_2_text.Prelude.{
  ℕ, ◌+◌, ◌==◌, ◌≡◌, ◌≢◌, refl, Bool, true, false, Option, none, some, List, [], ◌∷◌, ◌++◌, All,
  exists, find_first, arith, if◌then◌else◌, All-of_each, All-written, update_where, if_elim, subst,
  sym,
}
use voice_2_text.Database.{JobStatus, Job, Stage, World}
use voice_2_text.Queue
use voice_2_text.Storage
use voice_2_text.Tasks
use voice_2_text.Tasks.Transcription
use voice_2_text.Queue.{is_cancel_requested, request_cancel}
use voice_2_text.Tasks.{by_id, claim, named_after, _cleanup_canceled, gone}
use voice_2_text.Tasks.Supervisor.{
  Poll, skipped, polling, ended, failed_with, report_failure, supervise, run_isolated,
}
use voice_2_text.Tasks.Transcription.{Weather, RunOutcome, decoded, run_transcription}
use voice_2_text.Tasks.Canceled.{IsCanceled, Passes, run_transcription-IsCanceled}
use voice_2_text.Tasks.Claims.{run_isolated_twice}
use voice_2_text.Tasks.Outcomes.{
  report_failure-overwrites, run_isolated_ends, supervise_stops, _cleanup_canceled-clean,
}
use voice_2_text.Tests.{with_job, job_at, quiet}

abbrev canceled : World
canceled = with_job JobStatus.canceled Stage.canceled

abbrev queued : World
queued = with_job JobStatus.queued Stage.queued

-- the process goes on, then it ends with the code 0
abbrev polls : List Poll
polls =
    record { meanwhile = quiet; returncode = none; clock = 106; now = 6 }
    ∷ record { meanwhile = quiet; returncode = some 0; clock = 108; now = 8 }
    ∷ []

abbrev weather : Weather
weather = record {
  meanwhile = λ k. quiet;
  concatenated = true;
  duration_ms = some 3000;
  transcribed = decoded [];
  progress = 500 ∷ [];
  language = [];
  result_ms = 3000;
  db_check = true;
  diarization = false;
  num_speakers = 0;
  delete_audio = false;
  supervised = true;
  message = [];
  now = 7;
}

abbrev pressed_stop : Job → Job
pressed_stop j = record j { status = JobStatus.canceled }

-- The user cancels while the model decodes; the result of the decoding is reported after that.
abbrev stopped_late : Weather
stopped_late = record weather {
  meanwhile =
      λ k w. if k == 5 then record w { jobs = update_where (by_id 1) pressed_stop w.jobs } else w;
}

abbrev waiting : World
waiting = record queued { audio = record { stem = 1; ext = "mp3" } ∷ [] }

cancels : (v : World) → IsCanceled 1 (stopped_late.meanwhile 5 v)
cancels v =
    All-written (λ j. j.id ≡ 1 → j.status ≡ JobStatus.canceled) (by_id 1) pressed_stop v.jobs
      (All-of_each _ v.jobs (λ j t. ground arith))

late_result : (run_transcription true stopped_late 1 waiting).0 ≡ RunOutcome.done 0
unfolding run_transcription Prelude.find_first is_cancel_requested Tasks.Transcription.execute
    Tasks.Transcription.assemble Tasks.Transcription.decode Tasks.Transcription.after_decoding
    Tasks.Transcription.should_cancel Tasks.Transcription.report_progress
    Tasks.Transcription.starting Tasks.Transcription.measured Tasks.Transcription.progressed
    Tasks.Transcription.canceled_run Tasks.Transcription.clip_paths Tasks.Transcription.failed_run
    Tasks.Transcription.finish Tasks.Transcription.finishing Tasks.Transcription.mic_segments
    Tasks.Transcription.staged Tasks.Transcription.unlink_all Storage.on_disk Prelude.exists
    Tasks._update Storage.same_name gone Prelude.update_where Queue.flagged Queue.clear_cancel
    Storage.unlink Tasks.save_result
late_result = refl

run_transcription-IsCanceled_example :
    IsCanceled 1 (run_transcription true stopped_late 1 waiting).1
run_transcription-IsCanceled_example =
    run_transcription-IsCanceled 1 5 true stopped_late 1 waiting (λ e. absurd (ground (arith, e)))
      (ground arith) cancels (λ i after v h. if_elim (IsCanceled 1) (i == 5) _ _ (cancels v) h)
      (subst (Passes 5) (sym late_result) tt)

run_isolated_twice_example :
    run_isolated true true 1 [] 300 200 9 polls
      (run_isolated true true 1 [] 300 100 5 polls queued).1
    ≡ (skipped, (run_isolated true true 1 [] 300 100 5 polls queued).1)
run_isolated_twice_example =
    run_isolated_twice true true 1 [] 300 100 5 200 9 polls polls queued (λ v h. h, (λ v h. h, tt))

abbrev failure : World
failure = (report_failure 1 [] 6 queued).1

report_failure-overwrites_example :
    (find_first (by_id 1) failure.jobs
      ≡ some (failed_with [] 6 (job_at JobStatus.queued Stage.queued false)))
    × ((claim 1 9 failure).0 ≡ false)
report_failure-overwrites_example =
    report_failure-overwrites 1 [] 6 9 queued (job_at JobStatus.queued Stage.queued false) (tt, tt)
      (unfold Prelude.find_first in refl) (ground arith)

-- the process is still running at every poll
abbrev running_on : List Poll
running_on =
    record { meanwhile = quiet; returncode = none; clock = 106; now = 6 }
    ∷ record { meanwhile = quiet; returncode = none; clock = 250; now = 8 }
    ∷ []

abbrev late : Poll
late = record { meanwhile = quiet; returncode = none; clock = 401; now = 9 }

run_isolated_ends_example :
    (run_isolated true true 1 [] 300 100 5 (running_on ++ late ∷ []) queued).0 ≢ polling
run_isolated_ends_example =
    run_isolated_ends true true 1 [] 300 100 5 running_on late queued (ground arith)

-- the user sets the flag while the process is running
abbrev pressed : Poll
pressed = record late { meanwhile = λ w. (request_cancel true 1 w).1 }

abbrev busy : World
busy = with_job JobStatus.running Stage.transcribing

supervise_stops_example :
    let r = supervise true 1 [] 300 100 (running_on ++ pressed ∷ []) busy in
    (r.0 ≡ ended JobStatus.canceled)
    × (is_cancel_requested true 1 r.1 ≡ false)
    × (exists (λ k. k.0 == 1) r.1.results ≡ false)
    × All (λ j. j.id ≡ 1 → (j.status ≡ JobStatus.canceled) × (j.stage ≡ Stage.canceled)) r.1.jobs
supervise_stops_example =
    supervise_stops 1 [] 300 100 running_on [] pressed busy busy
      (unfold supervise is_cancel_requested Queue.flagged gone Prelude.find_first in refl)
      (unfold is_cancel_requested request_cancel Queue.flagged gone Prelude.exists
          Prelude.find_first in
        refl)

_cleanup_canceled-clean_example :
    let t = _cleanup_canceled true 1 true 9 queued in
    (is_cancel_requested true 1 t ≡ false)
    × (exists (λ r. r.0 == 1) t.results ≡ false)
    × All (λ j. j.id ≡ 1 → (j.status ≡ JobStatus.canceled) × (j.stage ≡ Stage.canceled)) t.jobs
    × (find_first (by_id 1) queued.jobs ≡ none → exists (named_after 1) t.audio ≡ false)
_cleanup_canceled-clean_example = _cleanup_canceled-clean 1 9 queued
