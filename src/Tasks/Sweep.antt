-- ===== src/Tasks/Sweep.antt =====
-- app/tasks.py: what `transcribe_clip` and `sweep_retention` achieve.
use voice_2_text.Prelude.{
  ℕ, ◌==◌, ◌≡◌, ◌≢◌, refl, Bool, true, false, some, List, [], ◌∷◌, Text, strip, join, length, All,
  All-map, All-of_each, All-delete, find_first, find_first-update, select, delete_where, exists,
  arith, if◌then◌else◌, ==_refl,
}
use voice_2_text.Config.{Config}
use voice_2_text.Database.{Job, LiveBlock, AudioClip, BlockState, StoredName, World, clip_of_job}
use voice_2_text.Storage.{on_disk, unlink}
use voice_2_text.Tasks.{by_id, delete_result}
use voice_2_text.Tasks.Transcription.{unlink_all}
use voice_2_text.Tasks.Maintenance.{
  transcribe_clip, ClipOutcome, clip_of, clip_ms, is_expired, sweep_job, sweep_jobs,
  sweep_retention, clip_names,
}
use voice_2_text.Live.{resolve_file_block, resolved, clip_block_of, same_block}

-- Once the clip of a session is decoded, its block is done, with the text of the segments, joined and
-- stripped, and the length of the clip, unless the user has edited the block meanwhile: then it stays
-- as it is.
pub transcribe_clip-done :
    (job_id clip_id : ℕ) (texts : List Text) (meanwhile : World → World) (message : Text)
    (w : World) (clip : AudioClip) (b : LiveBlock)
    → find_first (clip_of job_id clip_id) w.clips ≡ some clip
    → on_disk w clip.stored_name ≡ true
    → find_first (clip_block_of job_id clip_id) (meanwhile w).blocks ≡ some b
    → let text = strip (join (32 ∷ []) texts) in
      let t = transcribe_clip job_id clip_id (some texts) meanwhile message w in
      (t.0 ≡ ClipOutcome.done (length text))
      × (find_first (clip_block_of job_id clip_id) t.1.blocks
          ≡ some (
              if b.edited
              then b
              else record b { text = text; duration_ms = clip_ms clip; state = BlockState.done }))
unfolding transcribe_clip resolve_file_block resolved
transcribe_clip-done job_id clip_id texts meanwhile message w clip b here there block =
    let text = strip (join (32 ∷ []) texts) in
    let row =
      find_first-update (clip_block_of job_id clip_id) (same_block b)
        (resolved text (clip_ms clip) false) (meanwhile w).blocks b (λ c. refl) block in
    (ground arith, ground (arith, row, ==_refl b.id))

-- the rows that are left
unfoldable delete_ids : List Job → List Job → List Job
delete_ids [] js = js
delete_ids (s ∷ ss) js = delete_ids ss (delete_where (by_id s.id) js)

unlink_all-jobs : (ns : List StoredName) (w : World) → (unlink_all ns w).jobs ≡ w.jobs
unfolding unlink_all unlink
unlink_all-jobs [] w = refl
unlink_all-jobs (n ∷ ns) w = unlink_all-jobs ns (unlink n w)

sweep_jobs-jobs : (ss : List Job) (w : World) → (sweep_jobs ss w).jobs ≡ delete_ids ss w.jobs
unfolding sweep_jobs delete_ids
sweep_jobs-jobs [] w = refl
sweep_jobs-jobs (s ∷ ss) w = rw (sweep_jobs-jobs ss (sweep_job s w), row) refl
  where
    row : (sweep_job s w).jobs ≡ delete_where (by_id s.id) w.jobs
    row =
        unfold sweep_job delete_result unlink in
        ground (arith, unlink_all-jobs (clip_names (select (clip_of_job s.id) w.clips)) w)

All-delete_ids : (P : Job → Type 0) (ss js : List Job) → All P js → All P (delete_ids ss js)
unfolding delete_ids
All-delete_ids P [] js h = h
All-delete_ids P (s ∷ ss) js h =
    All-delete_ids P ss (delete_where (by_id s.id) js) (All-delete P (by_id s.id) js h)

absent : (id : ℕ) (js : List Job) → All (λ j. j.id ≢ id) (delete_where (by_id id) js)
unfolding delete_where
absent id [] = tt
absent id (j ∷ js) = go (by_id id j) refl (absent id js)
  where
    go :
        (b : Bool)
        → by_id id j ≡ b
        → All (λ k. k.id ≢ id) (delete_where (by_id id) js)
        → All
            (λ k. k.id ≢ id)
            (if b then delete_where (by_id id) js else j ∷ delete_where (by_id id) js)
    go true e rest = rest
    go false e rest = (ground arith, rest)

-- every row left differs from every row swept
left_over : (ss js : List Job) → All (λ s. All (λ j. j.id ≢ s.id) (delete_ids ss js)) ss
unfolding delete_ids
left_over [] js = tt
left_over (s ∷ ss) js = (
  All-delete_ids (λ j. j.id ≢ s.id) ss (delete_where (by_id s.id) js) (absent s.id js),
  left_over ss (delete_where (by_id s.id) js),
)

abbrev same_id : Job → Job → Bool
same_id j s = s.id == j.id

unlisted :
    (s : Job) (ss js : List Job)
    → All (λ j. j.id ≢ s.id) js
    → All (λ j. exists (same_id j) ss ≡ false) js
    → All (λ j. exists (same_id j) (s ∷ ss) ≡ false) js
unfolding exists
unlisted s ss [] h k = tt
unlisted s ss (j ∷ js) h k = (ground (arith, h.0, k.0), unlisted s ss js h.1 k.1)

left-unlisted :
    (ss js : List Job)
    → All (λ s. All (λ j. j.id ≢ s.id) js) ss
    → All (λ j. exists (same_id j) ss ≡ false) js
left-unlisted [] js h = All-of_each _ js (λ j. unfold exists in refl)
left-unlisted (s ∷ ss) js h = unlisted s ss js h.0 (left-unlisted ss js h.1)

select-listed :
    (p : Job → Bool) (js : List Job)
    → All (λ j. p j ≡ true → exists (same_id j) (select p js) ≡ true) js
unfolding select exists
select-listed p [] = tt
select-listed p (j ∷ js) = (
  λ e. ground (arith, ==_refl j.id),
  All-map js (λ k (h : p k ≡ true → exists (same_id k) (select p js) ≡ true) e. ground (arith, h e))
      (select-listed p js),
)

both :
    (p : Job → Bool) (ss js : List Job)
    → All (λ j. exists (same_id j) ss ≡ false) js
    → All (λ j. p j ≡ true → exists (same_id j) ss ≡ true) js
    → All (λ j. p j ≡ false) js
both p ss [] h k = tt
both p ss (j ∷ js) h k = (ground (arith, h.0, k.0), both p ss js h.1 k.1)

-- With a retention of at least one day, a sweep leaves no job that was created before the cutoff.
pub sweep_retention-clean :
    (config : Config) (now : ℕ) (w : World)
    → config.retention_days ≢ 0
    → All
        (λ j. is_expired now config.retention_days j ≡ false)
        (sweep_retention config now w).1.jobs
sweep_retention-clean config now w on = rw result (
    both p ss (delete_ids ss w.jobs) (left-unlisted ss (delete_ids ss w.jobs) (left_over ss w.jobs))
      (All-delete_ids _ ss w.jobs (select-listed p w.jobs)))
  where
    p : Job → Bool
    p = is_expired now config.retention_days

    ss : List Job
    ss = select p w.jobs

    result : (sweep_retention config now w).1.jobs ≡ delete_ids ss w.jobs
    result = unfold sweep_retention in ground (arith, sweep_jobs-jobs ss w)
