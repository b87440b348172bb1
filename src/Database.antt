-- ===== src/Database.antt =====
-- app/db.py: the rows of the tables, and the state that the handlers share: the tables, the calls
-- of Redis, the files. A UUID is a number, since the code only compares it; a time is in whole
-- seconds, a duration in milliseconds, a progress in ten-thousandths.
use voice_2_text.Prelude.{
  ℕ, ◌+◌, ◌==◌, Bool, false, Option, none, some, String, List, map, maximum, select, true, Text,
}

pub data JobStatus : Type 0 where
  opened queued running done failed canceled : JobStatus

pub JobStatus-discrete : Discrete JobStatus
JobStatus-discrete = hlevel

-- The values that the code writes to `Job.stage`.
pub data Stage : Type 0 where
  opened queued probing assembling transcribing diarizing done failed canceling canceled : Stage

-- `{job_id}.{ext}`
pub record StoredName : Type 0 where
  pub stem : ℕ
  pub ext : String

-- The entries of the RQ queue, which are their `job_id`s too: `transcribe-{job_id}`, `clip-{clip_id}`.
pub data QueueItem : Type 0 where
  transcribe : ℕ → QueueItem
  clip : ℕ → ℕ → QueueItem

-- The calls that reached Redis.
pub data RedisCall : Type 0 where
  enqueued canceled_item : QueueItem → RedisCall
  set_cancel delete_cancel : ℕ → RedisCall

pub record Job : Type 0 where
  pub id : ℕ
  pub owner_id : Option ℕ
  pub is_session : Bool
  pub title : Option Text
  pub original_name : Text
  pub stored_name : StoredName
  pub size_bytes : ℕ
  pub duration_ms : Option ℕ
  pub status : JobStatus
  pub progress : ℕ
  pub stage : Stage
  pub error : Option Text
  pub tier : String
  pub language : String
  pub detected_language : Option Text
  pub diarized : Bool
  pub num_speakers : Option ℕ
  pub num_segments : ℕ
  pub text_chars : ℕ
  pub audio_deleted : Bool
  pub rq_job_id : Option QueueItem
  pub created_at : ℕ
  pub started_at : Option ℕ
  pub finished_at : Option ℕ

pub data Source : Type 0 where
  mic file : Source

pub data BlockState : Type 0 where
  pending done failed : BlockState

pub record LiveBlock : Type 0 where
  pub id : ℕ
  pub job_id : ℕ
  pub seq : ℕ
  pub source : Source
  pub state : BlockState
  pub text : Text
  pub label : Option Text
  pub clip_id : Option ℕ
  pub duration_ms : ℕ
  pub edited : Bool

pub record AudioClip : Type 0 where
  pub id : ℕ
  pub job_id : ℕ
  pub original_name : Text
  pub stored_name : StoredName
  pub position : ℕ
  pub size_bytes : ℕ
  pub duration_ms : Option ℕ

pub record Segment : Type 0 where
  pub start : ℕ
  pub end : ℕ
  pub text : Text

pub record World : Type 0 where
  pub jobs : List Job
  pub clips : List AudioClip
  pub blocks : List LiveBlock
  pub redis : List RedisCall  -- newest first
  pub audio : List StoredName
  pub results : List (ℕ × List Segment)

abbrev pub is_opened : JobStatus → Bool
is_opened opened = true
is_opened _ = false

abbrev pub is_canceled : JobStatus → Bool
is_canceled canceled = true
is_canceled _ = false

abbrev pub is_running : JobStatus → Bool
is_running running = true
is_running _ = false

abbrev pub is_queued : JobStatus → Bool
is_queued queued = true
is_queued _ = false

abbrev pub is_canceling : Stage → Bool
is_canceling canceling = true
is_canceling _ = false

abbrev pub is_block_done : BlockState → Bool
is_block_done done = true
is_block_done _ = false

abbrev pub is_block_failed : BlockState → Bool
is_block_failed failed = true
is_block_failed _ = false

abbrev pub is_file : Source → Bool
is_file file = true
is_file mic = false

-- a nullable key column compared with a key
abbrev pub is_key : Option ℕ → ℕ → Bool
is_key none k = false
is_key (some j) k = j == k

unfoldable pub of_job : ℕ → LiveBlock → Bool
of_job job_id b = b.job_id == job_id

unfoldable pub clip_of_job : ℕ → AudioClip → Bool
clip_of_job job_id c = c.job_id == job_id

-- next_block_seq: `(max or 0) + 1`
unfoldable pub next_block_seq : List LiveBlock → ℕ → ℕ
next_block_seq blocks job_id = maximum (map (λ b. b.seq) (select (of_job job_id) blocks)) + 1

-- The statuses and the stages that a worker reports by `_update`.
abbrev pub is_reported : JobStatus → Bool
is_reported running = true
is_reported done = true
is_reported failed = true
is_reported _ = false

abbrev pub is_working : Stage → Bool
is_working probing = true
is_working assembling = true
is_working transcribing = true
is_working diarizing = true
is_working done = true
is_working failed = true
is_working _ = false
