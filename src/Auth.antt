-- ===== src/Auth.antt =====
-- app/auth.py: who may act, and on which job.
pub mod Limits
pub mod Challenges
pub mod Guesses
pub mod Logins
pub mod Phones
use voice_2_text.Prelude.{
  ℕ, ◌==◌, ◌≡◌, refl, Bool, true, false, not, ◌&&◌, ◌||◌, Option, none, some, List, Text,
  find_first, find_first_holds, find_first-update, update_where, arith,
}
use voice_2_text.Http.{Result, raise, ok, HttpError, require, found, ◌>>=◌, ◌>>◌}
use voice_2_text.Database.{Job, is_key}

pub data UserStatus : Type 0 where
  pending approved suspended : UserStatus

abbrev pub is_approved : UserStatus → Bool
is_approved approved = true
is_approved _ = false

-- `User.to_dict`, what `request.state.user` holds
pub record Account : Type 0 where
  pub id : ℕ
  pub phone : Text
  pub full_name : Text
  pub status : UserStatus
  pub is_admin : Bool

-- the two flags are the keyword arguments `approved` and `admin`
unfoldable pub require_user : Option Account → Bool → Bool → Result Account
require_user none want_approved want_admin = raise HttpError.unauthorized
require_user (some user) want_approved want_admin = do
  require (not want_approved || is_approved user.status) HttpError.forbidden
  require (not want_admin || user.is_admin) HttpError.forbidden
  ok user

unfoldable pub owns : ℕ → ℕ → Job → Bool
owns user_id job_id j = j.id == job_id && is_key j.owner_id user_id

unfoldable pub owned_job : List Job → Option Account → ℕ → Result Job
unfolding require_user owns
owned_job jobs user job_id = do
  account ← require_user user true false
  found (find_first (owns account.id job_id) jobs) HttpError.not_found

-- The job that a handler works on is the one asked for, and its owner is the approved user who
-- makes the request.
pub owned_job_access :
    (jobs : List Job) (user : Option Account) (job_id : ℕ) (job : Job)
    → owned_job jobs user job_id ≡ ok job
    → (a : Account) × (user ≡ some a)
      × (a.status ≡ UserStatus.approved)
      × (job.id ≡ job_id)
      × (job.owner_id ≡ some a.id)
unfolding owned_job
owned_job_access jobs none job_id job h = absurd (ground arith)
owned_job_access jobs (some a) job_id job h = (
  a,
  refl,
  ground arith,
  ground (arith, find_first_holds (owns a.id job_id) jobs job),
  ground (arith, find_first_holds (owns a.id job_id) jobs job),
)

-- The owner still reaches the job after a write to its row.
pub owned_job-update :
    (jobs : List Job) (user : Option Account) (job_id : ℕ) (job : Job) (f : Job → Job)
    → ((j : Job) → ((f j).id ≡ j.id) × ((f j).owner_id ≡ j.owner_id))
    → owned_job jobs user job_id ≡ ok job
    → owned_job (update_where (λ j. j.id == job_id) f jobs) user job_id ≡ ok (f job)
unfolding owned_job
owned_job-update jobs none job_id job f same h = absurd (ground arith)
owned_job-update jobs (some a) job_id job f same h = ground (
  arith,
  find_first_holds (owns a.id job_id) jobs job,
  find_first-update (owns a.id job_id) (λ j. j.id == job_id) f jobs job
      (λ j. ground (arith, same j)),
)
