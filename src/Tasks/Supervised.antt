-- ===== src/Tasks/Supervised.antt =====
-- app/tasks.py: what a supervised run keeps.
use voice_2_text.Prelude.{
  ℕ, ◌+◌, ltb, ◌==◌, Bool, true, ◌||◌, Option, none, some, List, [], ◌∷◌, Text, All, find_first,
  if_elim, if◌then◌else◌,
}
use voice_2_text.Database.{Job, StoredName, Segment, World, is_canceled}
use voice_2_text.Queue.{is_cancel_requested}
use voice_2_text.Tasks.{by_id, _cleanup_canceled, claim, gone}
use voice_2_text.Tasks.Invariant.{WorkerInvariant}
use voice_2_text.Tasks.Writes.{failed_with-WorkerWrite}
use voice_2_text.Tasks.Supervisor.{
  Poll, Outcome, failed_with, report_failure, conclude, supervise, run_isolated,
}

-- a write to the state, beside a result
pub if_pair {ℓ} :
    {A : Type ℓ} (P : World → Type 0) (b : Bool) (x y : A × World)
    → P x.1
    → P y.1
    → P (if b then x else y).1
if_pair P b x y = if_elim (λ z. P z.1) b x y

-- What the other processes do keeps `P`.
abbrev pub Keeps : (World → Type 0) → (World → World) → Type 0
Keeps P f = (v : World) → P v → P (f v)

module _ {P : World → Type 0} (inv : WorkerInvariant P) where
  pub report_failure-keeps :
      (other : ℕ) (message : Text) (now : ℕ) (w : World)
      → P w
      → P (report_failure other message now w).1
  unfolding report_failure
  report_failure-keeps other message now w h =
      inv.update other (failed_with message now) w (failed_with-WorkerWrite message now) h

  conclude-keeps :
      (up : Bool) (other : ℕ) (message : Text) (now code : ℕ) (w : World)
      → P w
      → P (conclude up other message now code w).1
  unfolding conclude
  conclude-keeps up other message now code w h =
      if_pair P (code == 0) _ _ (go (find_first (by_id other) w.jobs))
        (report_failure-keeps other message now w h)
    where
      clean : P (_cleanup_canceled up other true now w)
      clean = inv.cleanup up other true now w h

      go :
          (o : Option Job)
          → P (
              let r : Outcome × World = elim o [
                | none ↦ (
                  Outcome.ended voice_2_text.Database.JobStatus.canceled,
                  _cleanup_canceled up other true now w,
                )
                | some j ↦ (
                  Outcome.ended j.status,
                  if gone other w then _cleanup_canceled up other true now w else w,
                )
              ] in
              r.1)
      go none = clean
      go (some j) = if_elim P (gone other w) _ _ clean h

  pub supervise-keeps :
      (up : Bool) (other : ℕ) (message : Text) (timeout begun : ℕ) (polls : List Poll) (w : World)
      → All (λ p. Keeps P p.meanwhile) polls
      → P w
      → P (supervise up other message timeout begun polls w).1
  unfolding supervise
  supervise-keeps up other message timeout begun [] w k h = h
  supervise-keeps up other message timeout begun (p ∷ ps) w k h =
      if_pair P (gone other (p.meanwhile w) || is_cancel_requested up other (p.meanwhile w)) _ _
        (inv.cleanup up other true p.now (p.meanwhile w) seen)
        (go p.returncode
          (supervise-keeps up other message timeout begun ps (p.meanwhile w) k.1 seen))
    where
      seen : P (p.meanwhile w)
      seen = k.0 w h

      go :
          (o : Option ℕ)
          → P (supervise up other message timeout begun ps (p.meanwhile w)).1
          → P (
              let r : Outcome × World = elim o [
                | some code ↦ conclude up other message p.now code (p.meanwhile w)
                | none ↦
                    if ltb (begun + timeout) p.clock
                    then report_failure other message p.now (p.meanwhile w)
                    else supervise up other message timeout begun ps (p.meanwhile w)
              ] in
              r.1)
      go (some code) r = conclude-keeps up other message p.now code (p.meanwhile w) seen
      go none r =
          if_pair P (ltb (begun + timeout) p.clock) _ _
            (report_failure-keeps other message p.now (p.meanwhile w) seen) r

  pub run_isolated-keeps :
      (up launched : Bool) (other : ℕ) (message : Text) (timeout begun now : ℕ) (polls : List Poll)
      (w : World)
      → All (λ p. Keeps P p.meanwhile) polls
      → P w
      → P (run_isolated up launched other message timeout begun now polls w).1
  unfolding run_isolated
  run_isolated-keeps up launched other message timeout begun now polls w k h =
      if_pair P (claim other now w).0 _ _
        (if_pair P launched _ _ (supervise-keeps up other message timeout begun polls _ k started)
          (report_failure-keeps other message now _ started))
        started
    where
      started : P (claim other now w).1
      started = inv.claims other now w h
