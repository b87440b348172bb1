-- ===== src/Tasks/Claims.antt =====
-- app/tasks.py: a delivery of the queue launches a decoder only if it claims the job.
use voice_2_text.Prelude.{
  ℕ, ◌≡◌, refl, Bool, false, List, [], ◌∷◌, Text, All, arith, count-zero, update_where,
}
use voice_2_text.Database.{Job, World}
use voice_2_text.Tasks.{claimable, claimed, claim, stopped}
use voice_2_text.Tasks.Invariant.{RowInvariant, rows_invariant}
use voice_2_text.Tasks.Supervisor.{Poll, skipped, run_isolated}
use voice_2_text.Tasks.Supervised
use voice_2_text.Tasks.Supervised.{Keeps, if_pair}

-- The job is not waiting for a worker.
abbrev pub IsClaimed : ℕ → World → Type 0
IsClaimed job_id w = All (λ j. claimable job_id j ≡ false) w.jobs

pub claimed_row : (job_id : ℕ) → RowInvariant (λ j. claimable job_id j ≡ false)
unfolding claimed stopped
claimed_row job_id = record {
  written = λ other f j ok t q. ground (arith, ok j);
  taken = λ other now j t q. ground arith;
  ended = λ fully now j q. ground arith;
}

update-All :
    (p : Job → Bool) (f : Job → Job) (js : List Job)
    → ((j : Job) → p (f j) ≡ false)
    → All (λ j. p j ≡ false) (update_where p f js)
unfolding update_where
update-All p f [] h = tt
update-All p f (j ∷ js) h = (ground (arith, h j), update-All p f js h)

update-none :
    (p : Job → Bool) (f : Job → Job) (js : List Job)
    → All (λ j. p j ≡ false) js
    → update_where p f js ≡ js
unfolding update_where
update-none p f [] h = refl
update-none p f (j ∷ js) h = ground (arith, update-none p f js h.1)

claim-IsClaimed : (job_id now : ℕ) (w : World) → IsClaimed job_id (claim job_id now w).1
unfolding claim claimed
claim-IsClaimed job_id now w =
    update-All (claimable job_id) (claimed now) w.jobs (λ j. ground arith)

-- A claim of a job that is not queued fails and writes nothing.
claim_of_IsClaimed :
    (job_id now : ℕ) (w : World) → IsClaimed job_id w → claim job_id now w ≡ (false, w)
unfolding claim
claim_of_IsClaimed job_id now w h = ground (
  arith,
  count-zero (claimable job_id) w.jobs h,
  update-none (claimable job_id) (claimed now) w.jobs h,
)

-- However a delivery of a job ends, a second delivery of it is skipped and changes nothing, unless
-- another process has put the job into the queue again meanwhile: no job is decoded twice.
pub run_isolated_twice :
    (up launched : Bool) (job_id : ℕ) (message : Text) (timeout begun now again later : ℕ)
    (polls more : List Poll) (w : World)
    → All (λ p. Keeps (IsClaimed job_id) p.meanwhile) polls
    → let t = (run_isolated up launched job_id message timeout begun now polls w).1 in
      run_isolated up launched job_id message timeout again later more t ≡ (skipped, t)
run_isolated_twice up launched job_id message timeout begun now again later polls more w keeps =
    second _ ended
  where
    second :
        (t : World)
        → IsClaimed job_id t
        → run_isolated up launched job_id message timeout again later more t ≡ (skipped, t)
    second t h = unfold run_isolated in ground (arith, claim_of_IsClaimed job_id later t h)

    start : IsClaimed job_id (claim job_id now w).1
    start = claim-IsClaimed job_id now w

    ended : IsClaimed job_id (run_isolated up launched job_id message timeout begun now polls w).1
    ended =
        let inv = rows_invariant (claimed_row job_id) in
        unfold run_isolated in
        if_pair (IsClaimed job_id) (claim job_id now w).0 _ _
          (if_pair (IsClaimed job_id) launched _ _
            (Supervised.supervise-keeps inv up job_id message timeout begun polls _ keeps start)
            (Supervised.report_failure-keeps inv job_id message now _ start))
          start
