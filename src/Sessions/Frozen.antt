-- ===== src/Sessions/Frozen.antt =====
-- app/sessions.py: the content of a session once `close_session` has succeeded, and `reopen`.
use voice_2_text.Prelude.{
  ℕ, ◌≡◌, ◌≢◌, refl, Bool, true, Option, List, Text, update_where, arith, select, sort_by,
}
use voice_2_text.Http.{Result, ok, raise, HttpError}
use voice_2_text.Config.{Config}
use voice_2_text.Database.{JobStatus, Job, LiveBlock, World, transcribe}
use voice_2_text.Auth.{Account, owned_job, owned_job-update}
use voice_2_text.Jobs.{Upload, delivered}
use voice_2_text.Jobs.Retry.{deliver-eq-ok}
use voice_2_text.Tasks.{by_id, delete_result, save_result}
use voice_2_text.Live.{edit_block, edit_block_body, done_of_job, delete_block, delete_block_body}
use voice_2_text.Sessions.{editable}
use voice_2_text.Sessions.Clips.{append_clip, remove_clip, remove_clip_body}
use voice_2_text.Sessions.Reorder.{reorder, reorder_body}
use voice_2_text.Sessions.Closing.{
  close_session, close_body, close_live, close_clips, Closed, finished, enqueue, submitted,
  live_done,
}

pub editable-eq-ok :
    (jobs : List Job) (user : Option Account) (job_id : ℕ) (job : Job)
    → editable jobs user job_id ≡ ok job
    → (owned_job jobs user job_id ≡ ok job)
      × (job.is_session ≡ true)
      × (job.status ≡ JobStatus.opened)
unfolding editable
editable-eq-ok jobs user job_id job h = ground arith

pub close_body-finished :
    (now : ℕ) (user : Option Account) (job_id : ℕ) (w : World) (r : Job) (t : World)
    → close_body now user job_id w ≡ ok (finished r t)
    → (job : Job) × (blocks : List LiveBlock) × (editable w.jobs user job_id ≡ ok job)
      × (t.jobs ≡ update_where (by_id job_id) (live_done now blocks) w.jobs)
      × (r ≡ live_done now blocks job)
      × (t.redis ≡ w.redis)
unfolding close_body close_live close_clips save_result delete_result
close_body-finished now user job_id w r t h = go (editable w.jobs user job_id) refl
  where
    go :
        (o : Result Job)
        → editable w.jobs user job_id ≡ o
        → (job : Job) × (blocks : List LiveBlock) × (editable w.jobs user job_id ≡ ok job)
          × (t.jobs ≡ update_where (by_id job_id) (live_done now blocks) w.jobs)
          × (r ≡ live_done now blocks job)
          × (t.redis ≡ w.redis)
    go (raise e) eq = absurd (ground arith)
    go (ok job) eq = (
      job,
      sort_by (λ b. b.seq) (select (done_of_job job_id) w.blocks),
      eq,
      ground arith,
      ground arith,
      ground arith,
    )

pub close_body-enqueue :
    (now : ℕ) (user : Option Account) (job_id : ℕ) (w : World) (r : Job) (t : World)
    → close_body now user job_id w ≡ ok (enqueue r t)
    → (job : Job) × (editable w.jobs user job_id ≡ ok job)
      × (t ≡ record w { jobs = update_where (by_id job_id) submitted w.jobs })
unfolding close_body close_live close_clips
close_body-enqueue now user job_id w r t h = ground arith

editable-closed :
    (jobs : List Job) (user : Option Account) (job_id : ℕ) (job : Job)
    → owned_job jobs user job_id ≡ ok job
    → job.status ≢ JobStatus.opened
    → editable jobs user job_id ≡ raise HttpError.conflict
unfolding editable
editable-closed jobs user job_id job h n = ground arith

module _ (user : Option Account) (job_id : ℕ) (t : World)
    (shut : editable t.jobs user job_id ≡ raise HttpError.conflict) where
  append_clip-shut :
      (config : Config) (up : Bool) (meanwhile : World → World) (cid block_id : ℕ) (upload : Upload)
      (probed : Option ℕ) (message : Text)
      → append_clip config up meanwhile user job_id cid block_id upload probed message t
        ≡ (raise HttpError.conflict, t)
  unfolding append_clip
  append_clip-shut config up meanwhile cid block_id upload probed message = ground arith

  remove_clip-shut : (cid : ℕ) → remove_clip user job_id cid t ≡ (raise HttpError.conflict, t)
  unfolding remove_clip remove_clip_body
  remove_clip-shut cid = ground arith

  reorder-shut : (ids : List ℕ) → reorder user job_id ids t ≡ (raise HttpError.conflict, t)
  unfolding reorder reorder_body
  reorder-shut ids = ground arith

  close_session-shut :
      (up : Bool) (now : ℕ) (message : Text)
      → close_session up now message user job_id t ≡ (raise HttpError.conflict, t)
  unfolding close_session close_body
  close_session-shut up now message = ground arith

module _ (user : Option Account) (job_id : ℕ) (t : World) (job : Job)
    (here : owned_job t.jobs user job_id ≡ ok job) (closed : job.status ≢ JobStatus.opened) where
  edit_block-closed :
      (block_id : ℕ) (text : Text)
      → edit_block t user job_id block_id text ≡ (raise HttpError.conflict, t)
  unfolding edit_block edit_block_body
  edit_block-closed block_id text = ground arith

  delete_block-closed :
      (block_id : ℕ) → delete_block t user job_id block_id ≡ (raise HttpError.conflict, t)
  unfolding delete_block delete_block_body
  delete_block-closed block_id = ground arith

-- The owner reads back the row of the reply, and it is not open any more.
close_session-read :
    (up : Bool) (now : ℕ) (message : Text) (user : Option Account) (job_id : ℕ) (w : World)
    (r : Job)
    → (close_session up now message user job_id w).0 ≡ ok r
    → let t = (close_session up now message user job_id w).1 in
      (owned_job t.jobs user job_id ≡ ok r) × (r.status ≢ JobStatus.opened)
unfolding close_session
close_session-read up now message user job_id w r h = go (close_body now user job_id w) refl
  where
    Goal : Type 0
    Goal =
        let t = (close_session up now message user job_id w).1 in
        (owned_job t.jobs user job_id ≡ ok r) × (r.status ≢ JobStatus.opened)

    go : (o : Result Closed) → close_body now user job_id w ≡ o → Goal
    go (raise e) eq = absurd (ground arith)
    go (ok (finished j t)) eq =
        let x = close_body-finished now user job_id w j t eq in
        let read = editable-eq-ok w.jobs user job_id x.0 x.2 in
        let again =
          owned_job-update w.jobs user job_id x.0 (live_done now x.1)
            (λ k. unfold live_done in (refl, refl)) read.0 in
        unfold live_done in (ground arith, ground arith)
    go (ok (enqueue j t)) eq =
        let x = close_body-enqueue now user job_id w j t eq in
        let read = editable-eq-ok w.jobs user job_id x.0 x.1 in
        let first =
          owned_job-update w.jobs user job_id x.0 submitted (λ k. unfold submitted in (refl, refl))
            read.0 in
        let y = deliver-eq-ok up user job_id message t r (ground arith) in
        let again =
          owned_job-update t.jobs user job_id (submitted x.0) (delivered (transcribe job_id))
            (λ k. unfold delivered in (refl, refl)) (ground arith) in
        unfold submitted delivered in (ground arith, ground arith)

-- Once a session is closed, its user's requests to add, remove or reorder clips, to edit or delete
-- a block and to close it again are refused with a conflict and change nothing.
pub close_session-frozen :
    (up : Bool) (now : ℕ) (message : Text) (user : Option Account) (job_id : ℕ) (w : World)
    (r : Job) (config : Config) (meanwhile : World → World) (cid block_id : ℕ) (upload : Upload)
    (probed : Option ℕ) (ids : List ℕ) (text : Text)
    → (close_session up now message user job_id w).0 ≡ ok r
    → let t = (close_session up now message user job_id w).1 in
      (append_clip config up meanwhile user job_id cid block_id upload probed message t
        ≡ (raise HttpError.conflict, t))
      × (remove_clip user job_id cid t ≡ (raise HttpError.conflict, t))
      × (reorder user job_id ids t ≡ (raise HttpError.conflict, t))
      × (edit_block t user job_id block_id text ≡ (raise HttpError.conflict, t))
      × (delete_block t user job_id block_id ≡ (raise HttpError.conflict, t))
      × (close_session up now message user job_id t ≡ (raise HttpError.conflict, t))
close_session-frozen up now message user job_id w r config meanwhile cid block_id upload probed ids
      text h =
    let x = close_session-read up now message user job_id w r h in
    let t = (close_session up now message user job_id w).1 in
    let shut = editable-closed t.jobs user job_id r x.0 x.1 in
    (
      append_clip-shut user job_id t shut config up meanwhile cid block_id upload probed message,
      remove_clip-shut user job_id t shut cid,
      reorder-shut user job_id t shut ids,
      edit_block-closed user job_id t r x.0 x.1 block_id text,
      delete_block-closed user job_id t r x.0 x.1 block_id,
      close_session-shut user job_id t shut up now message,
    )
