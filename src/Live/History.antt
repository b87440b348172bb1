-- ===== src/Live/History.antt =====
-- app/live.py: the operations on a transcript, in any order.
use voice_2_text.Prelude.{ℕ, ◌≡◌, Bool, Option, [], Text}
use voice_2_text.Database.{Source, BlockState, World}
use voice_2_text.Auth.{Account}
use voice_2_text.Live.{_append_block, resolve_file_block, edit_block, delete_block}
use voice_2_text.Live.Order.{
  DistinctSeqs, _append_block-DistinctSeqs, resolve_file_block-DistinctSeqs,
  edit_block-DistinctSeqs, delete_block-DistinctSeqs,
}

-- What the microphone, the workers and the editor have done to the blocks, one after the other.
pub data History (w : World) : World → Type 0 where
  start : History w w
  append :
      {v : World} (id job_id : ℕ) (text : Text) (source : Source) (ms : ℕ) (state : BlockState)
      (label : Option Text) (clip_id : Option ℕ)
      → History w v
      → History w (_append_block v id job_id text source ms state label clip_id).1
  resolve :
      {v : World} (job_id clip_id : ℕ) (text : Text) (ms : ℕ) (failed : Bool)
      → History w v
      → History w (resolve_file_block v job_id clip_id text ms failed)
  edit :
      {v : World} (user : Option Account) (job_id block_id : ℕ) (text : Text)
      → History w v
      → History w (edit_block v user job_id block_id text).1
  delete :
      {v : World} (user : Option Account) (job_id block_id : ℕ)
      → History w v
      → History w (delete_block v user job_id block_id).1

-- Starting without blocks, any sequence of the block operations of app/live.py keeps the places of
-- the blocks of each session in its transcript different: appending a block, resolving the block of a
-- file, editing and deleting, accepted or refused and in any order. The handlers of app/sessions.py,
-- which reorder, remove or retry clips, are not among these operations.
pub History-DistinctSeqs : (w v : World) → w.blocks ≡ [] → History w v → DistinctSeqs v.blocks
History-DistinctSeqs w v empty start = rw empty tt
History-DistinctSeqs w v empty (append {v = u} id job_id text source ms state label clip_id h) =
    _append_block-DistinctSeqs u id job_id text source ms state label clip_id
      (History-DistinctSeqs w u empty h)
History-DistinctSeqs w v empty (resolve {v = u} job_id clip_id text ms failed h) =
    resolve_file_block-DistinctSeqs u job_id clip_id text ms failed
      (History-DistinctSeqs w u empty h)
History-DistinctSeqs w v empty (edit {v = u} user job_id block_id text h) =
    edit_block-DistinctSeqs u user job_id block_id text (History-DistinctSeqs w u empty h)
History-DistinctSeqs w v empty (delete {v = u} user job_id block_id h) =
    delete_block-DistinctSeqs u user job_id block_id (History-DistinctSeqs w u empty h)
