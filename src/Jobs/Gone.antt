-- ===== src/Jobs/Gone.antt =====
-- app/main.py: the handlers of a job after its deletion.
use voice_2_text.Prelude.{
  ℕ, ◌≡◌, refl, Bool, false, Option, none, some, List, [], ◌∷◌, Text, exists, find_first, arith,
}
use voice_2_text.Http.{ok, raise, HttpError}
use voice_2_text.Database.{Job, World}
use voice_2_text.Auth.{Account, owned_job, owns}
use voice_2_text.Tasks.{by_id}
use voice_2_text.Jobs.{delete_job, cancel_job, retry, retry_body, get_audio}
use voice_2_text.Jobs.Delete.{delete_job-ok}

find_first-owns :
    (user_id job_id : ℕ) (js : List Job)
    → exists (by_id job_id) js ≡ false
    → find_first (owns user_id job_id) js ≡ none
unfolding exists find_first owns
find_first-owns user_id job_id [] h = refl
find_first-owns user_id job_id (j ∷ js) h = ground (arith, find_first-owns user_id job_id js)

-- who could reach the job sees that it is gone
owned_job-gone :
    (user : Option Account) (job_id : ℕ) (before after : List Job) (job : Job)
    → owned_job before user job_id ≡ ok job
    → exists (by_id job_id) after ≡ false
    → owned_job after user job_id ≡ raise HttpError.not_found
unfolding owned_job
owned_job-gone none job_id before after job h gone = absurd (ground arith)
owned_job-gone (some a) job_id before after job h gone =
    ground (arith, find_first-owns a.id job_id after gone)

module _ (user : Option Account) (job_id : ℕ) (t : World)
    (gone : owned_job t.jobs user job_id ≡ raise HttpError.not_found) where
  get_audio-gone : get_audio user job_id t ≡ raise HttpError.not_found
  unfolding get_audio
  get_audio-gone = ground arith

  cancel_job-gone :
      (up : Bool) (meanwhile : World → World) (now : ℕ)
      → cancel_job up meanwhile now user job_id t ≡ (raise HttpError.not_found, t)
  unfolding cancel_job
  cancel_job-gone up meanwhile now = ground arith

  retry-gone :
      (up : Bool) (message : Text) → retry up message user job_id t ≡ (raise HttpError.not_found, t)
  unfolding retry retry_body
  retry-gone up message = ground arith

  delete_job-gone : (up : Bool) → delete_job up user job_id t ≡ (raise HttpError.not_found, t)
  unfolding delete_job
  delete_job-gone up = ground arith

-- After its deletion a job is gone for its owner: no audio is sent, and to cancel, retry or delete it
-- is refused as not found and changes nothing.
pub delete_job-unreachable :
    (up : Bool) (user : Option Account) (job_id : ℕ) (w : World) (was_running : Bool)
    (meanwhile : World → World) (now : ℕ) (message : Text)
    → (delete_job up user job_id w).0 ≡ ok was_running
    → let t = (delete_job up user job_id w).1 in
      (get_audio user job_id t ≡ raise HttpError.not_found)
      × (cancel_job up meanwhile now user job_id t ≡ (raise HttpError.not_found, t))
      × (retry up message user job_id t ≡ (raise HttpError.not_found, t))
      × (delete_job up user job_id t ≡ (raise HttpError.not_found, t))
delete_job-unreachable up user job_id w was_running meanwhile now message h =
    let x = delete_job-ok up user job_id w was_running h in
    let t = (delete_job up user job_id w).1 in
    let gone = owned_job-gone user job_id w.jobs t.jobs x.0 x.1 x.2.0 in
    (
      get_audio-gone user job_id t gone,
      cancel_job-gone user job_id t gone up meanwhile now,
      retry-gone user job_id t gone up message,
      delete_job-gone user job_id t gone up,
    )
