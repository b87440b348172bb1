-- ===== src/Tests/Settings.antt =====
-- The theorems on the settings and on the maintenance of app/tasks.py.
use voice_2_text.Prelude
use voice_2_text.Prelude.{
  ℕ, ◌+◌, ◌*◌, ◌≡◌, ◌≤◌, refl, Bool, true, false, Option, some, List, [], ◌∷◌, String, All,
  find_first, arith, strip, join, length,
}
use voice_2_text.Config.{contains}
use voice_2_text.Config.Validate
use voice_2_text.Config.Validate.{
  Deployment, Warning, idle, warnings, is_tier, validate, validate-fits, validate-models,
  resolve_model_path,
}
use voice_2_text.Database.{JobStatus, Stage, BlockState}
use voice_2_text.Storage
use voice_2_text.Live.{clip_block_of}
use voice_2_text.Tasks.Maintenance.{
  transcribe_clip, ClipOutcome, clip_ms, is_expired, sweep_retention,
}
use voice_2_text.Tasks.Sweep.{transcribe_clip-done, sweep_retention-clean}
use voice_2_text.Tests.{settings, with_job, open_session, clip_at, block_at, quiet}

abbrev machine : Deployment
machine = record {
  worker_count = 2;
  worker_cpu_threads = 2;
  reserved_cores = 1;
  cores = 8;
  live_enabled = false;
  live_tier = "fast";
  live_cpu_threads = 1;
  default_tier = "accurate";
  enabled_tiers = "fast" ∷ "accurate" ∷ [];
  asr_backend = "faster_whisper";
  model_fast = "/models/fast";
  model_accurate = "/models/accurate";
  diarization_enabled = false;
  diarization_models = [];
}

abbrev anywhere : String → Bool
anywhere path = true

starting : validate machine true anywhere anywhere ≡ warnings (idle 3 ∷ [])
unfolding validate Validate.cpu_budget Validate.check_models Validate.weights Validate.late_warnings
    Validate.all_tiers contains
starting = refl

validate-fits_example :
    (1 ≤ 2)
    × (1 ≤ 2)
    × (2 * 2 + 1 ≤ 8)
    × (contains "accurate" ("fast" ∷ "accurate" ∷ []) ≡ true)
    × All (λ t. is_tier t ≡ true) ("fast" ∷ "accurate" ∷ [])
validate-fits_example = validate-fits machine true anywhere anywhere (idle 3 ∷ []) starting

transcribe_clip-done_example :
    let text = strip (join (32 ∷ []) ((98 ∷ []) ∷ (99 ∷ []) ∷ [])) in
    let t = transcribe_clip 1 11 (some ((98 ∷ []) ∷ (99 ∷ []) ∷ [])) quiet [] open_session in
    (t.0 ≡ ClipOutcome.done (length text))
    × (find_first (clip_block_of 1 11) t.1.blocks
        ≡ some (record (block_at 2 11 BlockState.pending) {
          text = text;
          duration_ms = clip_ms (clip_at 11 2 20);
          state = BlockState.done;
        }))
transcribe_clip-done_example =
    transcribe_clip-done 1 11 ((98 ∷ []) ∷ (99 ∷ []) ∷ []) quiet [] open_session (clip_at 11 2 20)
      (block_at 2 11 BlockState.pending) (unfold Prelude.find_first in refl)
      (unfold Storage.on_disk Storage.same_name Prelude.exists in refl)
      (unfold Prelude.find_first in refl)

sweep_retention-clean_example :
    All
      (λ j. is_expired 9000000 30 j ≡ false)
      (sweep_retention settings 9000000 (with_job JobStatus.done Stage.done)).1.jobs
sweep_retention-clean_example =
    sweep_retention-clean settings 9000000 (with_job JobStatus.done Stage.done) (ground arith)
