-- ===== src/Sessions/Quota.antt =====
-- app/sessions.py: the limits of a session, and the place of a new clip.
use voice_2_text.Prelude.{
  ℕ, ◌+◌, ◌*◌, ◌≡◌, ◌≤◌, ◌<◌, Option, List, [], ◌∷◌, ◌++◌, map, All, All-map, length, length-append,
  maximum, select, select-append, sort_by, sort_by-append, update_where, arith, ==_refl, ap,
}
use voice_2_text.Http.{ok}
use voice_2_text.Config.{Config}
use voice_2_text.Database.{Job, AudioClip, StoredName, World, clip_of_job}
use voice_2_text.Auth.{Account}
use voice_2_text.Jobs.{Upload}
use voice_2_text.Tasks.{by_id}
use voice_2_text.Sessions.{editable}
use voice_2_text.Sessions.Clips.{append_clip_body, new_clip, pending_block, grown, total_size}

pub append_clip_body-eq-ok :
    (config : Config) (user : Option Account) (job_id cid block_id : ℕ) (upload : Upload)
    (name : StoredName) (size ms : ℕ) (w : World) (clip : AudioClip) (t : World)
    → append_clip_body config user job_id cid block_id upload name size ms w ≡ ok (clip, t)
    → let clips = select (clip_of_job job_id) w.clips in
      (job : Job) × (editable w.jobs user job_id ≡ ok job)
      × (length clips < config.max_session_files)
      × (total_size clips + size ≤ config.max_session_mb * 1024 * 1024)
      × (clip ≡ new_clip w job_id cid upload name size ms)
      × (t ≡ record w {
        clips = w.clips ++ clip ∷ [];
        blocks = w.blocks ++ pending_block w job_id cid block_id upload ∷ [];
        jobs = update_where (by_id job_id) (grown size ms) w.jobs;
      })
unfolding append_clip_body
append_clip_body-eq-ok config user job_id cid block_id upload name size ms w clip t h = ground arith

le-maximum : (cs : List AudioClip) → All (λ c. c.position ≤ maximum (map (λ d. d.position) cs)) cs
le-maximum [] = tt
le-maximum (c ∷ cs) = (
  omega arith,
  All-map cs (λ d (h : d.position ≤ maximum (map (λ e. e.position) cs)). omega arith)
      (le-maximum cs),
)

pub total_size-append :
    (cs : List AudioClip) (c : AudioClip) → total_size (cs ++ c ∷ []) ≡ total_size cs + c.size_bytes
total_size-append [] c = omega arith
total_size-append (d ∷ cs) c = omega (arith, total_size-append cs c)

module _ (w : World) (job_id cid : ℕ) (upload : Upload) (name : StoredName) (size ms : ℕ) where
  abbrev before : List AudioClip
  before = select (clip_of_job job_id) w.clips

  abbrev added : AudioClip
  added = new_clip w job_id cid upload name size ms

  pub select-added : select (clip_of_job job_id) (w.clips ++ added ∷ []) ≡ before ++ added ∷ []
  select-added = rw (select-append (clip_of_job job_id) w.clips (added ∷ [])) (ap (◌++◌ before) one)
    where
      one : select (clip_of_job job_id) (added ∷ []) ≡ added ∷ []
      one = unfold select clip_of_job new_clip in ground (arith, ==_refl job_id)

  below : All (λ c. c.position < added.position) before
  below =
      unfold new_clip in
      All-map before (λ c (h : c.position ≤ maximum (map (λ d. d.position) before)). omega arith)
        (le-maximum before)

-- A clip is added within the limits of the session only: with it the session has at most
-- `max_session_files` clips, of at most `max_session_mb` megabytes together; and it is the last one
-- of the list that the user sees.
pub append_clip_body-quota :
    (config : Config) (user : Option Account) (job_id cid block_id : ℕ) (upload : Upload)
    (name : StoredName) (size ms : ℕ) (w : World) (clip : AudioClip) (t : World)
    → append_clip_body config user job_id cid block_id upload name size ms w ≡ ok (clip, t)
    → let old = select (clip_of_job job_id) w.clips in
      let all = select (clip_of_job job_id) t.clips in
      (length all ≤ config.max_session_files)
      × (total_size all ≤ config.max_session_mb * 1024 * 1024)
      × (sort_by (λ c. c.position) all ≡ sort_by (λ c. c.position) old ++ clip ∷ [])
append_clip_body-quota config user job_id cid block_id upload name size ms w clip t h =
    let x = append_clip_body-eq-ok config user job_id cid block_id upload name size ms w clip t h in
    let old = select (clip_of_job job_id) w.clips in
    let c = new_clip w job_id cid upload name size ms in
    rw (x.5, x.4, select-added w job_id cid upload name size ms)
      (
        omega (arith, x.2, length-append old (c ∷ [])),
        unfold new_clip in omega (arith, x.3, total_size-append old c),
        sort_by-append (λ d. d.position) old c (below w job_id cid upload name size ms),
      )
