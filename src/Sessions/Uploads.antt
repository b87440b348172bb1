-- ===== src/Sessions/Uploads.antt =====
-- app/sessions.py: `append_clip` as a whole.
use voice_2_text.Prelude.{
  ℕ, ◌*◌, ◌≡◌, ◌≤◌, refl, Bool, true, false, Option, none, some, [], ◌∷◌, ◌++◌, Text, length,
  select, sort_by, arith,
}
use voice_2_text.Http.{Result, ok, raise}
use voice_2_text.Config.{Config}
use voice_2_text.Database.{Job, AudioClip, StoredName, World, clip_of_job}
use voice_2_text.Auth.{Account}
use voice_2_text.Queue
use voice_2_text.Storage.{save_upload}
use voice_2_text.Jobs.{Upload}
use voice_2_text.Live.{resolve_file_block}
use voice_2_text.Sessions.{editable}
use voice_2_text.Sessions.Clips.{append_clip, append_clip_body, queue_clip, readable, total_size}
use voice_2_text.Sessions.Quota.{append_clip_body-quota}

resolve_file_block-clips :
    (w : World) (job_id clip_id : ℕ) (text : Text) (ms : ℕ) (failed : Bool)
    → (resolve_file_block w job_id clip_id text ms failed).clips ≡ w.clips
unfolding resolve_file_block
resolve_file_block-clips w job_id clip_id text ms failed = ground arith

queue_clip-clips :
    (up : Bool) (job_id cid : ℕ) (message : Text) (clip : AudioClip) (w : World)
    → (queue_clip up job_id cid message clip w).1.clips ≡ w.clips
unfolding queue_clip Queue.enqueue_clip
queue_clip-clips true job_id cid message clip w = refl
queue_clip-clips false job_id cid message clip w =
    resolve_file_block-clips w job_id cid message 0 true

queue_clip-reply :
    (up : Bool) (job_id cid : ℕ) (message : Text) (clip : AudioClip) (w : World)
    → (queue_clip up job_id cid message clip w).0 ≡ ok (clip, up)
unfolding queue_clip Queue.enqueue_clip
queue_clip-reply true job_id cid message clip w = refl
queue_clip-reply false job_id cid message clip w = refl

module _ (config : Config) (up : Bool) (meanwhile : World → World) (user : Option Account)
    (job_id cid block_id : ℕ) (upload : Upload) (probed : Option ℕ) (message : Text)
    (w : World) where
  abbrev stored : Option (StoredName × ℕ) × World
  stored = save_upload config w cid upload.ext upload.chunks

  abbrev body : StoredName → ℕ → ℕ → Result (AudioClip × World)
  body name size ms =
      append_clip_body config user job_id cid block_id upload name size ms (meanwhile stored.1)

  abbrev result : Result (AudioClip × Bool) × World
  result = append_clip config up meanwhile user job_id cid block_id upload probed message w

  append_clip-body :
      (job : Job) (name : StoredName) (size ms : ℕ) (clip : AudioClip) (t : World)
      → editable w.jobs user job_id ≡ ok job
      → stored.0 ≡ some (name, size)
      → readable probed ≡ some ms
      → body name size ms ≡ ok (clip, t)
      → result ≡ queue_clip up job_id cid message clip t
  unfolding append_clip
  append_clip-body job name size ms clip t e s p b = ground arith

  append_clip-eq-ok :
      (r : AudioClip × Bool)
      → result.0 ≡ ok r
      → (name : StoredName) × (size : ℕ) × (ms : ℕ) × (clip : AudioClip) × (t : World) × (body name
            size ms
          ≡ ok (clip, t))
        × (result ≡ queue_clip up job_id cid message clip t)
  unfolding append_clip
  append_clip-eq-ok r h = go_guard (editable w.jobs user job_id) refl
    where
      Goal : Type 0
      Goal =
          (name : StoredName) × (size : ℕ) × (ms : ℕ) × (clip : AudioClip) × (t : World) × (body
              name size ms
            ≡ ok (clip, t))
          × (result ≡ queue_clip up job_id cid message clip t)

      go_body :
          (job : Job) (name : StoredName) (size ms : ℕ) (o : Result (AudioClip × World))
          → editable w.jobs user job_id ≡ ok job
          → stored.0 ≡ some (name, size)
          → readable probed ≡ some ms
          → body name size ms ≡ o
          → Goal
      go_body job name size ms (raise e) g s p b = absurd (ground arith)
      go_body job name size ms (ok (clip, t)) g s p b =
          (name, size, ms, clip, t, b, append_clip-body job name size ms clip t g s p b)

      go_probe :
          (job : Job) (name : StoredName) (size : ℕ) (o : Option ℕ)
          → editable w.jobs user job_id ≡ ok job
          → stored.0 ≡ some (name, size)
          → readable probed ≡ o
          → Goal
      go_probe job name size none g s p = absurd (ground arith)
      go_probe job name size (some ms) g s p =
          go_body job name size ms (body name size ms) g s p refl

      go_stored :
          (job : Job) (o : Option (StoredName × ℕ))
          → editable w.jobs user job_id ≡ ok job
          → stored.0 ≡ o
          → Goal
      go_stored job none g s = absurd (ground arith)
      go_stored job (some (name, size)) g s = go_probe job name size (readable probed) g s refl

      go_guard : (g : Result Job) → editable w.jobs user job_id ≡ g → Goal
      go_guard (raise e) g = absurd (ground arith)
      go_guard (ok job) g = go_stored job stored.0 g refl

-- An upload that is answered with success leaves the session, after the whole handler, within its
-- limits: at most `max_session_files` clips, of at most `max_session_mb` megabytes together; the
-- new clip is the last one the user sees, and the reply says it is queued exactly if Redis answers.
pub append_clip-quota :
    (config : Config) (up : Bool) (meanwhile : World → World) (user : Option Account)
    (job_id cid block_id : ℕ) (upload : Upload) (probed : Option ℕ) (message : Text) (w : World)
    (clip : AudioClip) (queued : Bool)
    → (append_clip config up meanwhile user job_id cid block_id upload probed message w).0
      ≡ ok (clip, queued)
    → let stored = save_upload config w cid upload.ext upload.chunks in
      let t =
        (append_clip config up meanwhile user job_id cid block_id upload probed message w).1 in
      let old = select (clip_of_job job_id) (meanwhile stored.1).clips in
      let all = select (clip_of_job job_id) t.clips in
      (length all ≤ config.max_session_files)
      × (total_size all ≤ config.max_session_mb * 1024 * 1024)
      × (sort_by (λ c. c.position) all ≡ sort_by (λ c. c.position) old ++ clip ∷ [])
      × (queued ≡ up)
append_clip-quota config up meanwhile user job_id cid block_id upload probed message w clip queued
      h =
    let x =
      append_clip-eq-ok config up meanwhile user job_id cid block_id upload probed message w
        (clip, queued) h in
    let later = meanwhile (save_upload config w cid upload.ext upload.chunks).1 in
    let y =
      append_clip_body-quota config user job_id cid block_id upload x.0 x.1 x.2 later x.3 x.4 x.5 in
    let reply = queue_clip-reply up job_id cid message x.3 x.4 in
    let same : x.3 ≡ clip = ground arith in
    rw (x.6, queue_clip-clips up job_id cid message x.3 x.4, ← same) (y.0, y.1, y.2, ground arith)
