-- ===== src/Live.antt =====
-- app/live.py: the transcript of a session, one block at a time, and its REST handlers.
pub mod Order
pub mod History
pub mod Words
pub mod Edits
pub mod Socket
use voice_2_text.Prelude.{
  ℕ, ◌==◌, Bool, true, false, ◌&&◌, Option, none, some, List, [], ◌∷◌, ◌++◌, map, Text, find_first,
  select, delete_where, update_where, sort_by, strip, join, is_empty, sum, length, if◌then◌else◌,
}
use voice_2_text.Http.{Result, ok, HttpError, require, found, commit, ◌>>=◌, ◌>>◌}
use voice_2_text.Database.{
  JobStatus, Job, Source, BlockState, LiveBlock, World, is_opened, is_block_done, is_key, of_job,
  next_block_seq,
}
use voice_2_text.Auth.{Account, owned_job}

-- s.get(Job, job_id)
abbrev pub by_id : ℕ → Job → Bool
by_id job_id j = j.id == job_id

abbrev pub same_block : LiveBlock → LiveBlock → Bool
same_block a b = b.id == a.id

abbrev pub block_of : ℕ → ℕ → LiveBlock → Bool
block_of job_id block_id b = b.id == block_id && b.job_id == job_id

abbrev pub clip_block_of : ℕ → ℕ → LiveBlock → Bool
clip_block_of job_id clip_id b = b.job_id == job_id && is_key b.clip_id clip_id

-- The row that `_append_block` adds; `id` is its fresh UUID.
unfoldable pub new_block :
    World → ℕ → ℕ → Text → Source → ℕ → BlockState → Option Text → Option ℕ → LiveBlock
new_block w id job_id text source duration_ms state label clip_id = record {
  id = id;
  job_id = job_id;
  seq = next_block_seq w.blocks job_id;
  source = source;
  state = state;
  text = text;
  label = label;
  clip_id = clip_id;
  duration_ms = duration_ms;
  edited = false;
}

unfoldable pub _append_block :
    World
    → ℕ
    → ℕ
    → Text
    → Source
    → ℕ
    → BlockState
    → Option Text
    → Option ℕ
    → Option LiveBlock × World
_append_block w id job_id text source duration_ms state label clip_id =
    elim (find_first (by_id job_id) w.jobs) [
      | none ↦ (none, w)
      | some job ↦
          let block = new_block w id job_id text source duration_ms state label clip_id in
          if is_opened job.status
          then (some block, record w { blocks = w.blocks ++ block ∷ [] })
          else (none, w)
    ]

unfoldable pub append_pending_file_block : World → ℕ → ℕ → ℕ → Text → Option LiveBlock × World
append_pending_file_block w id job_id clip_id label =
    _append_block w id job_id [] Source.file 0 BlockState.pending (some label) (some clip_id)

unfoldable pub resolved : Text → ℕ → Bool → LiveBlock → LiveBlock
resolved text duration_ms failed b = record b {
  text = text;
  state = if failed then BlockState.failed else BlockState.done;
  duration_ms = duration_ms;
}

unfoldable pub resolve_file_block : World → ℕ → ℕ → Text → ℕ → Bool → World
unfolding resolved
resolve_file_block w job_id clip_id text duration_ms failed =
    elim (find_first (clip_block_of job_id clip_id) w.blocks) [
      | none ↦ w
      | some block ↦ if block.edited then w else record w {
        blocks = update_where (same_block block) (resolved text duration_ms failed) w.blocks;
      }
    ]

abbrev pub done_of_job : ℕ → LiveBlock → Bool
done_of_job job_id b = b.job_id == job_id && is_block_done b.state

-- `[b.text.strip() for b in blocks if (b.text or "").strip()]`
unfoldable pub words_of : List LiveBlock → List Text
words_of [] = []
words_of (b ∷ bs) =
    let rest = words_of bs in if is_empty (strip b.text) then rest else strip b.text ∷ rest

unfoldable pub session_text : World → ℕ → Text
session_text w job_id =
    join (10 ∷ 10 ∷ []) (words_of (sort_by (λ b. b.seq) (select (done_of_job job_id) w.blocks)))

unfoldable pub has_blocks : World → ℕ → Bool
has_blocks w job_id = elim (find_first (of_job job_id) w.blocks) [ none ↦ false | some _ ↦ true ]

pub record Transcript : Type 0 where
  pub items : List LiveBlock
  pub live_enabled : Bool
  pub editable : Bool
  pub chars : ℕ

unfoldable pub get_transcript : Bool → World → Option Account → ℕ → Result Transcript
get_transcript live_enabled w user job_id = do
  job ← owned_job w.jobs user job_id
  let blocks = sort_by (λ b. b.seq) (select (of_job job.id) w.blocks)
  ok (record {
    items = blocks;
    live_enabled = live_enabled;
    editable = is_opened job.status;
    chars = sum (map (λ b. length b.text) blocks);
  })

unfoldable pub rewritten : Text → LiveBlock → LiveBlock
rewritten text b = record b { text = strip text; edited = true }

-- The body of the `with SessionLocal()` block; so named for the other handlers too.
unfoldable pub edit_block_body : World → Option Account → ℕ → ℕ → Text → Result (LiveBlock × World)
unfolding rewritten
edit_block_body w user job_id block_id text = do
  job ← owned_job w.jobs user job_id
  require (is_opened job.status) HttpError.conflict
  block ← found (find_first (block_of job_id block_id) w.blocks) HttpError.not_found
  require (is_block_done block.state) HttpError.conflict
  ok (
    rewritten text block,
    record w { blocks = update_where (same_block block) (rewritten text) w.blocks },
  )

unfoldable pub edit_block : World → Option Account → ℕ → ℕ → Text → Result LiveBlock × World
unfolding edit_block_body
edit_block w user job_id block_id text = commit w (edit_block_body w user job_id block_id text)

unfoldable pub delete_block_body : World → Option Account → ℕ → ℕ → Result (ℕ × World)
delete_block_body w user job_id block_id = do
  job ← owned_job w.jobs user job_id
  require (is_opened job.status) HttpError.conflict
  block ← found (find_first (block_of job_id block_id) w.blocks) HttpError.not_found
  ok (block_id, record w { blocks = delete_where (same_block block) w.blocks })

unfoldable pub delete_block : World → Option Account → ℕ → ℕ → Result ℕ × World
unfolding delete_block_body
delete_block w user job_id block_id = commit w (delete_block_body w user job_id block_id)
