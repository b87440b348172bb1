-- ===== src/Sessions/Booking.antt =====
-- app/sessions.py: `Job.size_bytes` of a session.
use voice_2_text.Prelude.{
  ℕ, ◌+◌, ◌==◌, ◌≡◌, ◌≢◌, refl, Bool, true, false, Option, none, some, List, [], ◌∷◌, All, Distinct,
  find_first, find_first_holds, find_first-update, find_first-update_none, select, delete_where,
  update_where, arith, ==_refl, subst,
}
use voice_2_text.Http.{Result, ok, raise}
use voice_2_text.Config.{Config}
use voice_2_text.Database.{Job, AudioClip, StoredName, World, clip_of_job}
use voice_2_text.Auth.{Account}
use voice_2_text.Jobs.{Upload}
use voice_2_text.Tasks.{by_id}
use voice_2_text.Live.{clip_block_of}
use voice_2_text.Sessions.{editable}
use voice_2_text.Sessions.Clips.{
  append_clip_body, remove_clip_body, new_clip, grown, shrunk, clip_in, total_size,
}
use voice_2_text.Sessions.Quota.{append_clip_body-eq-ok, select-added, total_size-append}

-- The size of the job is the sum of the sizes of its clips.
unfoldable pub Booked : ℕ → World → Type 0
Booked job_id w =
    (job : Job)
    → find_first (by_id job_id) w.jobs ≡ some job
    → job.size_bytes ≡ total_size (select (clip_of_job job_id) w.clips)

-- The row after a write is the row before, written.
written_row :
    (job_id : ℕ) (f : Job → Job) (jobs : List Job) (r : Job)
    → ((j : Job) → (f j).id ≡ j.id)
    → find_first (by_id job_id) (update_where (by_id job_id) f jobs) ≡ some r
    → (j : Job) × (find_first (by_id job_id) jobs ≡ some j) × (r ≡ f j)
written_row job_id f jobs r same h = go (find_first (by_id job_id) jobs) refl
  where
    go :
        (o : Option Job)
        → find_first (by_id job_id) jobs ≡ o
        → (j : Job) × (find_first (by_id job_id) jobs ≡ some j) × (r ≡ f j)
    go none e = absurd (
        ground (
          arith,
          find_first-update_none (by_id job_id) (by_id job_id) f jobs (λ j. ground (arith, same j))
              e,
        ))
    go (some j) e = (
      j,
      e,
      ground (
        arith,
        find_first_holds (by_id job_id) jobs j e,
        find_first-update (by_id job_id) (by_id job_id) f jobs j (λ k. ground (arith, same k)) e,
      ),
    )

delete_absent :
    (id : ℕ) (cs : List AudioClip)
    → All (λ c. c.id ≢ id) cs
    → delete_where (λ c. c.id == id) cs ≡ cs
unfolding delete_where
delete_absent id [] h = refl
delete_absent id (c ∷ cs) h = ground (arith, delete_absent id cs h.1, h.0)

later_differs :
    (p : AudioClip → Bool) (id : ℕ) (cs : List AudioClip) (r : AudioClip)
    → All (λ c. c.id ≢ id) cs
    → find_first p cs ≡ some r
    → r.id ≢ id
unfolding find_first
later_differs p id [] r h e = absurd (ground arith)
later_differs p id (c ∷ cs) r h e = ground (arith, later_differs p id cs r h.1, h.0)

total_size-delete :
    (job_id clip_id : ℕ) (cs : List AudioClip) (clip : AudioClip)
    → Distinct (λ c. c.id) cs
    → find_first (clip_in job_id clip_id) cs ≡ some clip
    → total_size (select (clip_of_job job_id) (delete_where (λ c. c.id == clip.id) cs))
        + clip.size_bytes
      ≡ total_size (select (clip_of_job job_id) cs)
unfolding find_first select delete_where clip_of_job
total_size-delete job_id clip_id [] clip d e = absurd (ground arith)
total_size-delete job_id clip_id (c ∷ cs) clip d e =
    go (clip_in job_id clip_id c) refl (total_size-delete job_id clip_id cs clip d.1)
  where
    Goal : Type 0
    Goal =
        total_size (select (clip_of_job job_id) (delete_where (λ x. x.id == clip.id) (c ∷ cs)))
          + clip.size_bytes
        ≡ total_size (select (clip_of_job job_id) (c ∷ cs))

    Rest : Type 0
    Rest =
        find_first (clip_in job_id clip_id) cs ≡ some clip
        → total_size (select (clip_of_job job_id) (delete_where (λ x. x.id == clip.id) cs))
            + clip.size_bytes
          ≡ total_size (select (clip_of_job job_id) cs)

    go : (b : Bool) → clip_in job_id clip_id c ≡ b → Rest → Goal
    go true t later =
        let same : c ≡ clip = ground arith in
        let rest = delete_absent c.id cs d.0 in rw (← same) (ground (arith, rest, ==_refl c.id))
    go false t later =
        let found : find_first (clip_in job_id clip_id) cs ≡ some clip = ground arith in
        ground (arith, later found, later_differs (clip_in job_id clip_id) c.id cs clip d.0 found)

pub remove_clip_body-eq-ok :
    (user : Option Account) (job_id clip_id : ℕ) (w : World) (clip : AudioClip) (t : World)
    → remove_clip_body user job_id clip_id w ≡ ok (clip, t)
    → (job : Job) × (find_first (clip_in job_id clip_id) w.clips ≡ some clip)
      × (t ≡ record w {
        jobs = update_where (by_id job_id) (shrunk clip) w.jobs;
        blocks = delete_where (clip_block_of job_id clip_id) w.blocks;
        clips = delete_where (λ c. c.id == clip.id) w.clips;
      })
unfolding remove_clip_body
remove_clip_body-eq-ok user job_id clip_id w clip t h = go (editable w.jobs user job_id) refl
  where
    go :
        (o : Result Job)
        → editable w.jobs user job_id ≡ o
        → (job : Job) × (find_first (clip_in job_id clip_id) w.clips ≡ some clip)
          × (t ≡ record w {
            jobs = update_where (by_id job_id) (shrunk clip) w.jobs;
            blocks = delete_where (clip_block_of job_id clip_id) w.blocks;
            clips = delete_where (λ c. c.id == clip.id) w.clips;
          })
    go (raise x) eq = absurd (ground arith)
    go (ok job) eq = (job, ground arith, ground arith)

-- Adding a clip to a session keeps the size of the job the sum of the sizes of its clips.
pub append_clip_body-Booked :
    (config : Config) (user : Option Account) (job_id cid block_id : ℕ) (upload : Upload)
    (name : StoredName) (size ms : ℕ) (w : World) (clip : AudioClip) (t : World)
    → append_clip_body config user job_id cid block_id upload name size ms w ≡ ok (clip, t)
    → Booked job_id w
    → Booked job_id t
unfolding Booked
append_clip_body-Booked config user job_id cid block_id upload name size ms w clip t h booked r e =
    let x = append_clip_body-eq-ok config user job_id cid block_id upload name size ms w clip t h in
    let c = new_clip w job_id cid upload name size ms in
    let row =
      written_row job_id (grown size ms) w.jobs r (λ j. unfold grown in refl)
        (subst (λ u. find_first (by_id job_id) u.jobs ≡ some r) x.5 e) in
    let all = select-added w job_id cid upload name size ms in
    let sum = total_size-append (select (clip_of_job job_id) w.clips) c in
    let was = booked row.0 row.1 in
    rw (x.5) (unfold grown new_clip in ground (arith, row.2, all, sum, was))

-- Removing a clip keeps the size of the job the sum of the sizes of its clips, where no two clips
-- have the same id.
pub remove_clip_body-Booked :
    (user : Option Account) (job_id clip_id : ℕ) (w : World) (clip : AudioClip) (t : World)
    → Distinct (λ c. c.id) w.clips
    → remove_clip_body user job_id clip_id w ≡ ok (clip, t)
    → Booked job_id w
    → Booked job_id t
unfolding Booked
remove_clip_body-Booked user job_id clip_id w clip t d h booked r e =
    let x = remove_clip_body-eq-ok user job_id clip_id w clip t h in
    let row =
      written_row job_id (shrunk clip) w.jobs r (λ j. unfold shrunk in refl)
        (subst (λ u. find_first (by_id job_id) u.jobs ≡ some r) x.2 e) in
    let sum = total_size-delete job_id clip_id w.clips clip d x.1 in
    let was = booked row.0 row.1 in rw (x.2) (unfold shrunk in ground (arith, row.2, sum, was))
