-- ===== src/Sessions/Clips.antt =====
-- app/sessions.py: `append_clip` and `remove_clip`.
use voice_2_text.Prelude.{
  ℕ, ◌+◌, ◌-◌, ◌*◌, ◌==◌, ltb, Bool, true, false, not, ◌&&◌, Option, none, some, List, [], ◌∷◌,
  ◌++◌, map, Text, is_some, length, take, sum, maximum, find_first, select, delete_where,
  update_where, if◌then◌else◌,
}
use voice_2_text.Http.{Result, ok, raise, HttpError, require, found, ◌>>=◌, ◌>>◌}
use voice_2_text.Config.{Config}
use voice_2_text.Database.{
  Job, AudioClip, LiveBlock, BlockState, Source, StoredName, World, clip_of_job, next_block_seq,
}
use voice_2_text.Auth.{Account, owned_job}
use voice_2_text.Live.{resolve_file_block, clip_block_of}
use voice_2_text.Queue
use voice_2_text.Storage.{on_disk, save_upload, unlink}
use voice_2_text.Tasks.{by_id}
use voice_2_text.Jobs.{Upload}
use voice_2_text.Sessions.{editable}

abbrev pub or_zero : Option ℕ → ℕ
or_zero none = 0
or_zero (some n) = n

unfoldable pub grown : ℕ → ℕ → Job → Job
grown size ms j = record j {
  size_bytes = j.size_bytes + size;
  duration_ms = some (or_zero j.duration_ms + ms);
}

unfoldable pub new_clip : World → ℕ → ℕ → Upload → StoredName → ℕ → ℕ → AudioClip
new_clip w job_id cid upload name size ms = record {
  id = cid;
  job_id = job_id;
  original_name = upload.filename;
  stored_name = name;
  position = maximum (map (λ c. c.position) (select (clip_of_job job_id) w.clips)) + 1;
  size_bytes = size;
  duration_ms = some ms;
}

unfoldable pub pending_block : World → ℕ → ℕ → ℕ → Upload → LiveBlock
pending_block w job_id cid block_id upload = record {
  id = block_id;
  job_id = job_id;
  seq = next_block_seq w.blocks job_id;
  source = Source.file;
  state = BlockState.pending;
  text = [];
  label = some (take 200 upload.filename);
  clip_id = some cid;
  duration_ms = 0;
  edited = false;
}

abbrev pub total_size : List AudioClip → ℕ
total_size clips = sum (map (λ c. c.size_bytes) clips)

-- the second session of `append_clip`, under the write lock
unfoldable pub append_clip_body :
    Config
    → Option Account
    → ℕ
    → ℕ
    → ℕ
    → Upload
    → StoredName
    → ℕ
    → ℕ
    → World
    → Result (AudioClip × World)
append_clip_body config user job_id cid block_id upload name size ms w = do
  job ← editable w.jobs user job_id
  let clips = select (clip_of_job job_id) w.clips
  require (ltb (length clips) config.max_session_files) HttpError.bad_request
  require (not (ltb (config.max_session_mb * 1024 * 1024) (total_size clips + size)))
      HttpError.bad_request
  let clip = new_clip w job_id cid upload name size ms
  let block = pending_block w job_id cid block_id upload
  ok (
    clip,
    record w {
      clips = w.clips ++ clip ∷ [];
      blocks = w.blocks ++ block ∷ [];
      jobs = update_where (by_id job_id) (grown size ms) w.jobs;
    },
  )

-- after the commit: the reply says whether the transcription is queued
unfoldable pub queue_clip :
    Bool → ℕ → ℕ → Text → AudioClip → World → Result (AudioClip × Bool) × World
queue_clip up job_id cid message clip w =
    let (queued, told) = Queue.enqueue_clip up job_id cid w in
    if is_some queued
    then (ok (clip, true), told)
    else (ok (clip, false), resolve_file_block told job_id cid message 0 true)

-- a duration that can be read and is not 0
abbrev pub readable : Option ℕ → Option ℕ
readable none = none
readable (some ms) = if ms == 0 then none else some ms

-- `cid` and `block_id` are the fresh UUIDs, `probed` is what `media.probe_duration` returns, and
-- `meanwhile` what other processes commit during the upload.
unfoldable pub append_clip :
    Config
    → Bool
    → (World → World)
    → Option Account
    → ℕ
    → ℕ
    → ℕ
    → Upload
    → Option ℕ
    → Text
    → World
    → Result (AudioClip × Bool) × World
append_clip config up meanwhile user job_id cid block_id upload probed message w =
    let stored = save_upload config w cid upload.ext upload.chunks in
    elim (editable w.jobs user job_id) [
      | raise e ↦ (raise e, w)
      | ok _ ↦ elim stored.0 [
        | none ↦ (raise HttpError.bad_request, stored.1)
        | some (name, size) ↦ elim (readable probed) [
          | none ↦ (raise HttpError.bad_request, unlink name stored.1)
          | some ms ↦
              let later = meanwhile stored.1 in
              elim (append_clip_body config user job_id cid block_id upload name size ms later) [
                | raise e ↦ (raise e, unlink name later)
                | ok (clip, added) ↦ queue_clip up job_id cid message clip added
              ]
        ]
      ]
    ]

abbrev pub clip_in : ℕ → ℕ → AudioClip → Bool
clip_in job_id clip_id c = c.id == clip_id && c.job_id == job_id

-- `GET .../audio`: the file that is sent
unfoldable pub clip_audio : Option Account → ℕ → ℕ → World → Result StoredName
clip_audio user job_id clip_id w = do
  job ← owned_job w.jobs user job_id
  clip ← found (find_first (clip_in job_id clip_id) w.clips) HttpError.not_found
  require (on_disk w clip.stored_name) HttpError.not_found
  ok clip.stored_name

-- a truncated `-` is `max(0, a - b)`
unfoldable pub shrunk : AudioClip → Job → Job
shrunk clip j = record j {
  size_bytes = j.size_bytes - clip.size_bytes;
  duration_ms = some (or_zero j.duration_ms - or_zero clip.duration_ms);
}

unfoldable pub remove_clip_body : Option Account → ℕ → ℕ → World → Result (AudioClip × World)
remove_clip_body user job_id clip_id w = do
  job ← editable w.jobs user job_id
  clip ← found (find_first (clip_in job_id clip_id) w.clips) HttpError.not_found
  ok (
    clip,
    record w {
      jobs = update_where (by_id job_id) (shrunk clip) w.jobs;
      blocks = delete_where (clip_block_of job_id clip_id) w.blocks;
      clips = delete_where (λ c. c.id == clip.id) w.clips;
    },
  )

unfoldable pub remove_clip : Option Account → ℕ → ℕ → World → Result ℕ × World
remove_clip user job_id clip_id w = elim (remove_clip_body user job_id clip_id w) [
  | raise e ↦ (raise e, w)
  | ok (clip, removed) ↦ (ok clip_id, unlink clip.stored_name removed)
]
