-- ===== src/Tests.antt =====
-- Runs of the model on small tables: a job, and a session of two clips, of the account `sina`.
mod Auth
mod Accounts
mod Settings
mod Speakers
mod Tasks
mod Jobs
mod Live
mod Sessions
use voice_2_text.Prelude.{ℕ, Bool, true, false, Option, none, some, List, [], ◌∷◌, Text, String}
use voice_2_text.Config.{Config}
use voice_2_text.Database.{
  JobStatus, Stage, StoredName, QueueItem, transcribe, RedisCall, Job, Source, BlockState,
  LiveBlock, AudioClip, World,
}
use voice_2_text.Auth.{Account, UserStatus}
use voice_2_text.Jobs.{Upload}

abbrev pub settings : Config
settings = record {
  default_tier = "large";
  enabled_tiers = "large" ∷ [];
  language = "fa";
  max_upload_mb = 1;
  allowed_extensions = "mp3" ∷ [];
  max_session_files = 3;
  max_session_mb = 1;
  retention_days = 30;
  otp_ttl_seconds = 300;
  auth_session_days = 30;
}

abbrev pub sina : Account
sina = record { id = 7; phone = []; full_name = []; status = UserStatus.approved; is_admin = false }

abbrev pub mp3 : ℕ → StoredName
mp3 id = record { stem = id; ext = "mp3" }

abbrev pub job_at : JobStatus → Stage → Bool → Job
job_at status stage is_session = record {
  id = 1;
  owner_id = some 7;
  is_session = is_session;
  title = none;
  original_name = [];
  stored_name = mp3 1;
  size_bytes = 30;
  duration_ms = some 3000;
  status = status;
  progress = 0;
  stage = stage;
  error = none;
  tier = "large";
  language = "fa";
  detected_language = none;
  diarized = false;
  num_speakers = none;
  num_segments = 0;
  text_chars = 0;
  audio_deleted = false;
  rq_job_id = some (transcribe 1);
  created_at = 1;
  started_at = none;
  finished_at = none;
}

-- one job, whose audio is on the disk
abbrev pub with_job : JobStatus → Stage → World
with_job status stage = record {
  jobs = job_at status stage false ∷ [];
  clips = [];
  blocks = [];
  redis = [];
  audio = mp3 1 ∷ [];
  results = [];
}

abbrev pub clip_at : ℕ → ℕ → ℕ → AudioClip
clip_at id position size = record {
  id = id;
  job_id = 1;
  original_name = [];
  stored_name = mp3 id;
  position = position;
  size_bytes = size;
  duration_ms = some 1000;
}

abbrev pub block_at : ℕ → ℕ → BlockState → LiveBlock
block_at id clip state = record {
  id = id;
  job_id = 1;
  seq = id;
  source = Source.file;
  state = state;
  text = 97 ∷ [];
  label = none;
  clip_id = some clip;
  duration_ms = 0;
  edited = false;
}

-- an open session of two clips, the first one transcribed
abbrev pub open_session : World
open_session = record {
  jobs = job_at JobStatus.opened Stage.opened true ∷ [];
  clips = clip_at 10 1 10 ∷ clip_at 11 2 20 ∷ [];
  blocks = block_at 1 10 BlockState.done ∷ block_at 2 11 BlockState.pending ∷ [];
  redis = [];
  audio = mp3 10 ∷ mp3 11 ∷ [];
  results = [];
}

abbrev pub upload : Upload
upload = record { filename = 98 ∷ []; ext = "mp3"; chunks = 5 ∷ 6 ∷ [] }

-- nothing happens meanwhile
abbrev pub quiet : World → World
quiet w = w
