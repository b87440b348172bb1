-- ===== src/Tasks/Maintenance.antt =====
-- app/tasks.py: `transcribe_clip` and `sweep_retention`.
use voice_2_text.Prelude.{
  ℕ, ◌+◌, ◌*◌, ◌==◌, ltb, Bool, true, false, ◌&&◌, Option, none, some, List, [], ◌∷◌, map, Text,
  strip, join, length, find_first, select, delete_where, if◌then◌else◌,
}
use voice_2_text.Config.{Config}
use voice_2_text.Database.{Job, AudioClip, StoredName, World, of_job, clip_of_job}
use voice_2_text.Storage.{on_disk, unlink}
use voice_2_text.Tasks.{by_id, delete_result}
use voice_2_text.Tasks.Transcription.{unlink_all}
use voice_2_text.Live.{resolve_file_block}

pub data ClipOutcome : Type 0 where
  missing failed : ClipOutcome
  done : ℕ → ClipOutcome

abbrev pub clip_of : ℕ → ℕ → AudioClip → Bool
clip_of job_id clip_id c = c.id == clip_id && c.job_id == job_id

abbrev pub clip_ms : AudioClip → ℕ
clip_ms c = elim c.duration_ms [ none ↦ 0 | some ms ↦ ms ]

-- `decoded` is what `asr.transcribe` returns, the texts of the segments, or an exception; `meanwhile`
-- is what other processes commit during the decoding, `message` the text of a failure.
unfoldable pub transcribe_clip :
    ℕ → ℕ → Option (List Text) → (World → World) → Text → World → ClipOutcome × World
transcribe_clip job_id clip_id decoded meanwhile message w =
    elim (find_first (clip_of job_id clip_id) w.clips) [
      | none ↦ (missing, w)
      | some clip ↦
          let seen = if on_disk w clip.stored_name then meanwhile w else w in
          elim (if on_disk w clip.stored_name then decoded else none) [
            | none ↦ (failed, resolve_file_block seen job_id clip_id message (clip_ms clip) true)
            | some texts ↦
                let text = strip (join (32 ∷ []) texts) in
                (
                  done (length text),
                  resolve_file_block seen job_id clip_id text (clip_ms clip) false,
                )
          ]
    ]

-- `Job.created_at < utcnow() - timedelta(days=...)`
abbrev pub is_expired : ℕ → ℕ → Job → Bool
is_expired now days j = ltb (j.created_at + days * 86400) now

abbrev pub clip_names : List AudioClip → List StoredName
clip_names cs = map (λ c. c.stored_name) cs

-- the body of the loop
unfoldable pub sweep_job : Job → World → World
sweep_job job w =
    let bare = unlink_all (clip_names (select (clip_of_job job.id) w.clips)) w in
    let swept = delete_result job.id (unlink job.stored_name bare) in
    record swept {
      blocks = delete_where (of_job job.id) swept.blocks;
      clips = delete_where (clip_of_job job.id) swept.clips;
      jobs = delete_where (by_id job.id) swept.jobs;
    }

unfoldable pub sweep_jobs : List Job → World → World
sweep_jobs [] w = w
sweep_jobs (j ∷ js) w = sweep_jobs js (sweep_job j w)

unfoldable pub sweep_retention : Config → ℕ → World → ℕ × World
sweep_retention config now w =
    let stale = select (is_expired now config.retention_days) w.jobs in
    if config.retention_days == 0 then (0, w) else (length stale, sweep_jobs stale w)
