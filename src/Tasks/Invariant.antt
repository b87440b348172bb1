-- ===== src/Tasks/Invariant.antt =====
-- app/tasks.py: what the writes of a worker keep. An invariant of the single job rows is one of
-- all that a worker does.
use voice_2_text.Prelude.{
  ◌⊎◌, ℕ, ◌≡◌, refl, Bool, true, false, Option, none, some, List, All, All-update, find_first,
  if_elim,
}
use voice_2_text.Database.{Job, StoredName, Segment, World, is_reported, is_working}
use voice_2_text.Queue.{clear_cancel}
use voice_2_text.Storage.{create, unlink}
use voice_2_text.Tasks.{
  _update, claim, claimable, claimed, _cleanup_canceled, _purge_audio, mark_canceled, delete_result,
  save_result, live_job, by_id, stopped,
}

-- The fields that a worker hands to `_update`: they name a status that it may report.
abbrev pub WorkerWrite : (Job → Job) → Type 0
WorkerWrite f =
    (j : Job)
    → ((f j).id ≡ j.id)
      × ((f j).is_session ≡ j.is_session)
      × (((f j).status ≡ j.status) ⊎ (is_reported (f j).status ≡ true))
      × (((f j).stage ≡ j.stage) ⊎ (is_working (f j).stage ≡ true))

-- What holds of the state before any write of a worker, holds after it.
pub record WorkerInvariant (P : World → Type 0) : Type 0 where
  pub update :
      (other : ℕ) (fields : Job → Job) (w : World)
      → WorkerWrite fields
      → P w
      → P (_update other fields w)
  pub claims : (other now : ℕ) (w : World) → P w → P (claim other now w).1
  pub cleanup :
      (up : Bool) (other : ℕ) (fully : Bool) (now : ℕ) (w : World)
      → P w
      → P (_cleanup_canceled up other fully now w)
  pub clear : (up : Bool) (other : ℕ) (w : World) → P w → P (clear_cancel up other w)
  pub save :
      (other : ℕ) (segments : List Segment) (w : World) → P w → P (save_result other segments w)
  pub drop : (name : StoredName) (w : World) → P w → P (unlink name w)
  pub make : (name : StoredName) (w : World) → P w → P (create name w)
  pub purge : (other : ℕ) (w : World) → P w → P (_purge_audio other w).1

-- Invariants of a job row under the three writes of a worker.
pub record RowInvariant (Q : Job → Type 0) : Type 0 where
  pub written :
      (other : ℕ) (f : Job → Job) (j : Job)
      → WorkerWrite f
      → live_job other j ≡ true
      → Q j
      → Q (f j)
  pub taken : (other now : ℕ) (j : Job) → claimable other j ≡ true → Q j → Q (claimed now j)
  pub ended : (fully : Bool) (now : ℕ) (j : Job) → Q j → Q (stopped fully now j)

module _ {Q : Job → Type 0} (row : RowInvariant Q) where
  abbrev Rows : World → Type 0
  Rows w = All Q w.jobs

  Rows-_update :
      (other : ℕ) (fields : Job → Job) (w : World)
      → WorkerWrite fields
      → Rows w
      → Rows (_update other fields w)
  unfolding _update
  Rows-_update other fields w ok h =
      All-update Q (live_job other) fields w.jobs (λ j t q. row.written other fields j ok t q) h

  Rows-claim : (other now : ℕ) (w : World) → Rows w → Rows (claim other now w).1
  unfolding claim
  Rows-claim other now w h =
      All-update Q (claimable other) (claimed now) w.jobs (λ j t q. row.taken other now j t q) h

  Rows-clear_cancel : (up : Bool) (other : ℕ) (w : World) → Rows w → Rows (clear_cancel up other w)
  unfolding clear_cancel
  Rows-clear_cancel true other w h = h
  Rows-clear_cancel false other w h = h

  Rows-save_result :
      (other : ℕ) (segments : List Segment) (w : World)
      → Rows w
      → Rows (save_result other segments w)
  unfolding save_result delete_result
  Rows-save_result other segments w h = h

  Rows-unlink : (name : StoredName) (w : World) → Rows w → Rows (unlink name w)
  unfolding unlink
  Rows-unlink name w h = h

  Rows-create : (name : StoredName) (w : World) → Rows w → Rows (create name w)
  unfolding create unlink
  Rows-create name w h = h

  Rows-_purge_audio : (other : ℕ) (w : World) → Rows w → Rows (_purge_audio other w).1
  unfolding _purge_audio
  Rows-_purge_audio other w h = h

  Rows-mark_canceled :
      (other : ℕ) (fully : Bool) (now : ℕ) (w : World)
      → Rows w
      → Rows (mark_canceled other fully now w)
  unfolding mark_canceled
  Rows-mark_canceled other fully now w h = go (find_first (by_id other) w.jobs) refl
    where
      go :
          (o : Option Job)
          → find_first (by_id other) w.jobs ≡ o
          → Rows (mark_canceled other fully now w)
      go none e = rw (e, mark_canceled) (Rows-_purge_audio other w h)
      go (some j) e =
          rw (e, mark_canceled)
            (All-update Q (by_id other) (stopped fully now) w.jobs
              (λ k t q. row.ended fully now k q) h)

  Rows-_cleanup_canceled :
      (up : Bool) (other : ℕ) (fully : Bool) (now : ℕ) (w : World)
      → Rows w
      → Rows (_cleanup_canceled up other fully now w)
  unfolding _cleanup_canceled
  Rows-_cleanup_canceled up other fully now w h =
      Rows-mark_canceled other fully now _
        (if_elim Rows fully _ _ (Rows-clear_cancel up other bare bare_h) bare_h)
    where
      bare : World
      bare = unlink (record { stem = other; ext = "assembling.mp3" }) (delete_result other w)

      bare_h : Rows bare
      bare_h = unfold unlink delete_result in h

  pub rows_invariant : WorkerInvariant (λ w. All Q w.jobs)
  rows_invariant = record {
    update = Rows-_update;
    claims = Rows-claim;
    cleanup = Rows-_cleanup_canceled;
    clear = Rows-clear_cancel;
    save = Rows-save_result;
    drop = Rows-unlink;
    make = Rows-create;
    purge = Rows-_purge_audio;
  }
