-- ===== src/Sessions/Access.antt =====
-- app/sessions.py: who may hear a clip.
use voice_2_text.Prelude.{ℕ, ◌≡◌, true, Option, some, find_first, find_first_holds, arith}
use voice_2_text.Http.{ok}
use voice_2_text.Database.{Job, AudioClip, StoredName, World}
use voice_2_text.Storage.{on_disk}
use voice_2_text.Auth.{Account, UserStatus, owned_job, owned_job_access}
use voice_2_text.Sessions.Clips.{clip_audio, clip_in}

clip_audio-eq-ok :
    (user : Option Account) (job_id clip_id : ℕ) (w : World) (name : StoredName)
    → clip_audio user job_id clip_id w ≡ ok name
    → (job : Job) × (clip : AudioClip) × (owned_job w.jobs user job_id ≡ ok job)
      × (find_first (clip_in job_id clip_id) w.clips ≡ some clip)
      × (on_disk w clip.stored_name ≡ true)
      × (name ≡ clip.stored_name)
unfolding clip_audio
clip_audio-eq-ok user job_id clip_id w name h = ground arith

-- The audio of a clip is sent only to the approved owner of the session that the clip belongs to, and
-- only while its file is on the disk.
pub clip_audio_access :
    (user : Option Account) (job_id clip_id : ℕ) (w : World) (name : StoredName)
    → clip_audio user job_id clip_id w ≡ ok name
    → (a : Account) × (job : Job) × (clip : AudioClip) × (user ≡ some a)
      × (a.status ≡ UserStatus.approved)
      × (job.owner_id ≡ some a.id)
      × (clip.id ≡ clip_id)
      × (clip.job_id ≡ job.id)
      × (name ≡ clip.stored_name)
      × (on_disk w name ≡ true)
clip_audio_access user job_id clip_id w name h =
    let x = clip_audio-eq-ok user job_id clip_id w name h in
    let owner = owned_job_access w.jobs user job_id x.0 x.2 in
    let here = find_first_holds (clip_in job_id clip_id) w.clips x.1 x.3 in
    (
      owner.0,
      x.0,
      x.1,
      owner.1,
      owner.2,
      owner.4,
      ground arith,
      ground (arith, owner.3),
      x.5,
      ground (arith, x.4, x.5),
    )
