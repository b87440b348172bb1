-- ===== src/Tests/Sessions.antt =====
-- The theorems on app/sessions.py, at an open session.
use voice_2_text.Prelude.{
  ℕ, ◌+◌, ◌*◌, ◌≡◌, ◌≢◌, ◌≤◌, refl, Bool, true, false, Option, none, some, List, [], ◌∷◌, ◌++◌, map,
  select, sort_by, length, All₂, arith,
}
use voice_2_text.Http.{raise, HttpError, ok}
use voice_2_text.Config.{Config}
use voice_2_text.Database.{JobStatus, Stage, AudioClip, World, clip_of_job}
use voice_2_text.Live.{edit_block, delete_block}
use voice_2_text.Queue.{is_cancel_requested}
use voice_2_text.Queue
use voice_2_text.Storage
use voice_2_text.Storage.{save_upload}
use voice_2_text.Sessions
use voice_2_text.Sessions.Clips
use voice_2_text.Config
use voice_2_text.Prelude
use voice_2_text.Auth
use voice_2_text.Jobs
use voice_2_text.Jobs.{cancel_job}
use voice_2_text.Sessions.Clips.{
  append_clip, append_clip_body, remove_clip, remove_clip_body, total_size,
}
use voice_2_text.Sessions.Reorder
use voice_2_text.Sessions.Reorder.{reorder, all_different, subset}
use voice_2_text.Sessions.Closing
use voice_2_text.Sessions.Closing.{close_session}
use voice_2_text.Auth.{Account, UserStatus}
use voice_2_text.Storage.{on_disk}
use voice_2_text.Sessions.Clips.{clip_audio}
use voice_2_text.Sessions.Uploads.{append_clip-quota}
use voice_2_text.Sessions.Frozen.{close_session-frozen}
use voice_2_text.Sessions.Positions.{IsListed, reorder-IsListed}
use voice_2_text.Sessions.Booking.{Booked}
use voice_2_text.Sessions.Ledger.{start, append, Ledger-Booked}
use voice_2_text.Sessions.StaleFlag.{close_session-flag}
use voice_2_text.Tests.{settings, sina, clip_at, job_at, mp3, open_session, upload, quiet}

abbrev closed : World
closed = (close_session true 9 [] (some sina) 1 open_session).1

closing :
    (close_session true 9 [] (some sina) 1 open_session).0
    ≡ ok (job_at JobStatus.queued Stage.queued true)
unfolding close_session Closing.close_body Closing.close_clips Closing.submitted Sessions.editable
    Auth.owned_job Auth.owns Auth.require_user Prelude.find_first Prelude.select
    Prelude.update_where Prelude.exists clip_of_job Jobs.all_on_disk Storage.on_disk
    Storage.same_name Jobs.deliver Jobs.delivered Queue.enqueue Jobs.remember_item
closing = refl

close_session-frozen_example :
    (append_clip settings true quiet (some sina) 1 12 3 upload (some 2000) [] closed
      ≡ (raise HttpError.conflict, closed))
    × (remove_clip (some sina) 1 12 closed ≡ (raise HttpError.conflict, closed))
    × (reorder (some sina) 1 (11 ∷ 10 ∷ []) closed ≡ (raise HttpError.conflict, closed))
    × (edit_block closed (some sina) 1 3 (98 ∷ []) ≡ (raise HttpError.conflict, closed))
    × (delete_block closed (some sina) 1 3 ≡ (raise HttpError.conflict, closed))
    × (close_session true 9 [] (some sina) 1 closed ≡ (raise HttpError.conflict, closed))
close_session-frozen_example =
    close_session-frozen true 9 [] (some sina) 1 open_session
      (job_at JobStatus.queued Stage.queued true) settings quiet 12 3 upload (some 2000)
      (11 ∷ 10 ∷ []) (98 ∷ []) closing

abbrev third : AudioClip
third = record (clip_at 12 3 11) { original_name = 98 ∷ []; duration_ms = some 2000 }

abbrev longer : World
longer = (append_clip settings true quiet (some sina) 1 12 3 upload (some 2000) [] open_session).1

adding :
    (append_clip settings true quiet (some sina) 1 12 3 upload (some 2000) [] open_session).0
    ≡ ok (third, true)
unfolding append_clip append_clip_body Clips.new_clip Clips.queue_clip Clips.pending_block
    Clips.grown save_upload Storage.stream Storage.create Storage.unlink Config.contains
    Sessions.editable Auth.owned_job Auth.owns Auth.require_user Prelude.find_first Prelude.select
    clip_of_job Storage.same_name Queue.enqueue_clip
adding = refl

append_clip-quota_example :
    let stored = save_upload settings open_session 12 "mp3" (5 ∷ 6 ∷ []) in
    let old = select (clip_of_job 1) stored.1.clips in
    let all = select (clip_of_job 1) longer.clips in
    (length all ≤ 3)
    × (total_size all ≤ 1 * 1024 * 1024)
    × (sort_by (λ c. c.position) all ≡ sort_by (λ c. c.position) old ++ third ∷ [])
    × (true ≡ true)
append_clip-quota_example =
    append_clip-quota settings true quiet (some sina) 1 12 3 upload (some 2000) [] open_session
      third true adding

reordered : (reorder (some sina) 1 (11 ∷ 10 ∷ []) open_session).0 ≡ ok tt
unfolding reorder Reorder.reorder_body Reorder.all_different Reorder.subset Reorder.member
    Sessions.editable Auth.owned_job Auth.owns Auth.require_user Prelude.find_first Prelude.select
    clip_of_job
reordered = refl

reorder-IsListed_example :
    (all_different (11 ∷ 10 ∷ []) ≡ true)
    × (subset (11 ∷ 10 ∷ []) (map (λ c. c.id) (select (clip_of_job 1) open_session.clips)) ≡ true)
    × All₂
        (λ c d.
          (c.job_id ≡ 1 → IsListed (11 ∷ 10 ∷ []) d)
          × (c.job_id ≢ 1 → d ≡ c)
          × (d.id ≡ c.id)
          × (d.stored_name ≡ c.stored_name))
        open_session.clips
        (reorder (some sina) 1 (11 ∷ 10 ∷ []) open_session).1.clips
reorder-IsListed_example = reorder-IsListed (some sina) 1 (11 ∷ 10 ∷ []) open_session tt reordered

booked : Booked 1 open_session
unfolding Booked Prelude.select Prelude.find_first clip_of_job
booked = λ job e. ground arith

abbrev added : World
added = record open_session {
  jobs =
      record (job_at JobStatus.opened Stage.opened true) {
        size_bytes = 41;
        duration_ms = some 5000;
      }
      ∷ [];
  clips = open_session.clips ++ third ∷ [];
  blocks = open_session.blocks ++ Clips.pending_block open_session 1 12 3 upload ∷ [];
}

adding_row :
    append_clip_body settings (some sina) 1 12 3 upload (mp3 12) 11 2000 open_session
    ≡ ok (third, added)
unfolding append_clip_body Clips.new_clip Clips.grown Sessions.editable Prelude.update_where
    Auth.owned_job Auth.owns Auth.require_user Prelude.find_first Prelude.select clip_of_job
adding_row = refl

Ledger-Booked_example : Booked 1 added
Ledger-Booked_example =
    Ledger-Booked settings 1 open_session added ((ground arith, tt), (tt, tt)) booked
      (append (some sina) 12 3 upload (mp3 12) 11 2000 third (ground arith, (ground arith, tt))
        adding_row start)

abbrev marked : World
marked = (cancel_job true quiet 8 (some sina) 1 open_session).1

editing :
    Sessions.editable open_session.jobs (some sina) 1
    ≡ ok (job_at JobStatus.opened Stage.opened true)
unfolding Sessions.editable Auth.owned_job Auth.owns Auth.require_user Prelude.find_first
editing = refl

closing_marked :
    (close_session true 9 [] (some sina) 1 marked).0
    ≡ ok (job_at JobStatus.queued Stage.queued true)
unfolding cancel_job Queue.request_cancel Prelude.count_where close_session Closing.close_body
    Closing.close_clips Closing.submitted Sessions.editable Auth.owned_job Auth.owns
    Auth.require_user Prelude.find_first Prelude.select Prelude.update_where Prelude.exists
    clip_of_job Jobs.all_on_disk Storage.on_disk Storage.same_name Jobs.deliver Jobs.delivered
    Queue.enqueue Jobs.remember_item
closing_marked = refl

close_session-flag_example :
    ((cancel_job true quiet 8 (some sina) 1 open_session).0 ≡ raise HttpError.conflict)
    × (is_cancel_requested true 1 (close_session true 9 [] (some sina) 1 marked).1 ≡ true)
close_session-flag_example =
    close_session-flag 8 9 [] (some sina) 1 open_session (job_at JobStatus.opened Stage.opened true)
      (job_at JobStatus.queued Stage.queued true) (tt, tt) editing closing_marked
