-- ===== src/Tasks/Transcription.antt =====
-- app/tasks.py: `run_transcription`, and `transcribe_clip`.
use voice_2_text.Prelude.{
  ℕ, ◌==◌, ltb, Bool, true, false, not, ◌&&◌, ◌||◌, Option, none, some, List, [], ◌∷◌, ◌++◌, map,
  Text, length, sum, find_first, select, sort_by, is_empty, if◌then◌else◌,
}
use voice_2_text.Database.{
  JobStatus, Job, LiveBlock, Stage, StoredName, Segment, World, is_canceled, is_file, is_block_done,
  clip_of_job,
}
use voice_2_text.Queue.{clear_cancel, is_cancel_requested}
use voice_2_text.Storage.{create, on_disk, unlink}
use voice_2_text.Tasks.{by_id, _update, _purge_audio, _cleanup_canceled, save_result, gone}
use voice_2_text.Tasks.Supervisor.{failed_with}

-- What `asr.transcribe` does: it returns, it sees the cancellation, or it fails.
pub data Decoded : Type 0 where
  decoded : List Segment → Decoded
  canceled failed : Decoded

-- What the run meets: the writes of other processes before its k-th step, the results of the
-- decoder libraries, and whether a cancel check is due to read the database.
pub record Weather : Type 0 where
  pub meanwhile : ℕ → World → World
  pub concatenated : Bool
  pub duration_ms : Option ℕ
  pub transcribed : Decoded
  pub progress : List ℕ
  pub language : Text
  pub result_ms : ℕ
  pub db_check : Bool
  pub diarization : Bool
  pub num_speakers : ℕ
  pub delete_audio : Bool
  pub supervised : Bool
  pub message : Text
  pub now : ℕ

pub data RunOutcome : Type 0 where
  deleted canceled raised : RunOutcome
  done : ℕ → RunOutcome

-- the writes of the run
unfoldable pub starting : ℕ → Job → Job
starting now j = record j {
  status = JobStatus.running;
  started_at = some now;
  progress = 0;
  stage = Stage.probing;
  error = none;
}

unfoldable pub staged : Stage → Job → Job
staged stage j = record j { stage = stage }

unfoldable pub measured : ℕ → Job → Job
measured ms j = record j { duration_ms = some ms }

unfoldable pub progressed : ℕ → Stage → Job → Job
progressed fraction stage j = record j { progress = fraction; stage = stage }

abbrev pub or_some : Option ℕ → ℕ → ℕ
or_some none b = b
or_some (some a) b = if a == 0 then b else a

abbrev pub nonzero : ℕ → Option ℕ
nonzero n = if n == 0 then none else some n

abbrev pub speakers : Weather → ℕ
speakers env = if env.diarization then env.num_speakers else 0

unfoldable pub finishing : Weather → List Segment → Job → Job
finishing env segments j = record j {
  status = JobStatus.done;
  progress = 10000;
  stage = Stage.done;
  finished_at = some env.now;
  duration_ms = some (or_some env.duration_ms env.result_ms);
  detected_language = some env.language;
  num_segments = length segments;
  text_chars = sum (map (λ s. length s.text) segments);
  diarized = ltb 0 (speakers env);
  num_speakers = nonzero (speakers env);
  audio_deleted = env.delete_audio;
}

-- `on_progress`, at the fractions that pass its throttle
unfoldable pub report_progress : ℕ → List ℕ → World → World
report_progress job_id [] w = w
report_progress job_id (f ∷ fs) w =
    report_progress job_id fs (_update job_id (progressed f Stage.transcribing) w)

unfoldable pub should_cancel : Bool → Weather → ℕ → World → Bool
should_cancel up env job_id w = is_cancel_requested up job_id w || (env.db_check && gone job_id w)

-- the two `except` branches
unfoldable pub canceled_run : Bool → Weather → ℕ → World → RunOutcome × World
canceled_run up env job_id w =
    (RunOutcome.canceled, _cleanup_canceled up job_id (not env.supervised) env.now w)

unfoldable pub failed_run : Weather → ℕ → World → RunOutcome × World
failed_run env job_id w = (raised, _update job_id (failed_with env.message env.now) w)

unfoldable pub clip_paths : ℕ → World → List StoredName
clip_paths job_id w =
    map (λ c. c.stored_name) (sort_by (λ c. c.position) (select (clip_of_job job_id) w.clips))

-- The source is ready, or the run fails: the clips of a session are joined first.
unfoldable pub assemble : Weather → Job → World → Bool × World
assemble env job w =
    let joining = _update job.id (staged Stage.assembling) (env.meanwhile 2 w) in
    if job.is_session
    then (if is_empty (clip_paths job.id joining)
        then (false, joining)
        else if env.concatenated
        then (true, create job.stored_name joining)
        else (false, joining))
    else (true, w)

abbrev pub is_mic_text : ℕ → LiveBlock → Bool
is_mic_text job_id b = b.job_id == job_id && (not (is_file b.source) && is_block_done b.state)

-- Microphone text is kept behind the decoded segments.
unfoldable pub mic_segments : Weather → ℕ → World → List Segment
mic_segments env job_id w =
    map (λ b. record { start = env.result_ms; end = env.result_ms; text = b.text })
      (sort_by (λ b. b.seq) (select (is_mic_text job_id) w.blocks))

unfoldable pub unlink_all : List StoredName → World → World
unlink_all [] w = w
unlink_all (n ∷ ns) w = unlink_all ns (unlink n w)

unfoldable pub finish :
    Bool → Weather → Job → List StoredName → List Segment → World → RunOutcome × World
finish up env job paths segments w =
    let all = segments ++ (if job.is_session then mic_segments env job.id w else []) in
    let saved = save_result job.id all w in
    let sources = job.stored_name ∷ (if job.is_session then paths else []) in
    let kept = if env.delete_audio then unlink_all sources saved else saved in
    let finished = _update job.id (finishing env all) (env.meanwhile 5 kept) in
    (RunOutcome.done (length all), clear_cancel up job.id finished)

unfoldable pub after_decoding :
    Bool → Weather → Job → List StoredName → List Segment → World → RunOutcome × World
after_decoding up env job paths segments w =
    let told = if env.diarization then _update job.id (progressed 9950 Stage.diarizing) w else w in
    let seen = env.meanwhile 4 told in
    if should_cancel up env job.id w
    then canceled_run up env job.id w
    else if should_cancel up env job.id seen
    then canceled_run up env job.id seen
    else finish up env job paths segments seen

unfoldable pub decode : Bool → Weather → Job → List StoredName → World → RunOutcome × World
decode up env job paths w =
    let known : World = elim env.duration_ms [
      | none ↦ w
      | some ms ↦ if ms == 0 then w else _update job.id (measured ms) w
    ] in
    let told = env.meanwhile 3 (report_progress job.id env.progress known) in
    elim env.transcribed [
      | decoded segments ↦ after_decoding up env job paths segments told
      | Decoded.canceled ↦ canceled_run up env job.id told
      | Decoded.failed ↦ failed_run env job.id told
    ]

-- the `try` block
unfoldable pub execute : Bool → Weather → Job → World → RunOutcome × World
execute up env job w =
    let (ready, source) = assemble env job w in
    if ready && on_disk source job.stored_name
    then decode up env job (clip_paths job.id source) source
    else failed_run env job.id source

unfoldable pub run_transcription : Bool → Weather → ℕ → World → RunOutcome × World
run_transcription up env job_id before =
    let w = env.meanwhile 0 before in
    elim (find_first (by_id job_id) w.jobs) [
      | none ↦ (deleted, clear_cancel up job_id (_purge_audio job_id w).1)
      | some job ↦
          if is_canceled job.status || is_cancel_requested up job_id w
          then (RunOutcome.canceled, clear_cancel up job_id w)
          else execute up env job (_update job_id (starting env.now) (env.meanwhile 1 w))
    ]
