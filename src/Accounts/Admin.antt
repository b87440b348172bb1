-- ===== src/Accounts/Admin.antt =====
-- app/accounts.py: `list_users` and `set_status`.
pub mod Suspension
use mathlib.Core.List.{reverse}
use voice_2_text.Prelude.{
  ℕ, ◌==◌, Bool, true, false, not, ◌&&◌, ◌||◌, Option, none, some, List, [], ◌∷◌, ◌++◌, length,
  take, drop, find_first, select, update_where, delete_where, if◌then◌else◌,
}
use voice_2_text.Http.{Result, ok, raise, HttpError, require, found, ◌>>=◌, ◌>>◌, commit}
use voice_2_text.Database.{JobStatus, Job, Stage, World, is_key, is_running}
use voice_2_text.Auth.{Account, UserStatus, is_approved, require_user}
use voice_2_text.Queue
use voice_2_text.Tasks.{by_id}
use voice_2_text.Jobs.{is_active, drop_item}
use voice_2_text.Accounts.{User, Site, Caller, user_of, has_account, Audit}
use voice_2_text.Accounts.Passwords.{login_of}

abbrev pub same_status : UserStatus → UserStatus → Bool
same_status UserStatus.pending UserStatus.pending = true
same_status UserStatus.approved UserStatus.approved = true
same_status UserStatus.suspended UserStatus.suspended = true
same_status _ _ = false

abbrev pub active_of : ℕ → Job → Bool
active_of user_id j = is_key j.owner_id user_id && is_active j.status

unfoldable pub withdrawn : Job → Job
withdrawn j = record j {
  stage = if is_running j.status then Stage.canceling else Stage.canceled;
  status = JobStatus.canceled;
}

-- the body of the loop over the jobs
unfoldable pub withdraw : Bool → Job → World → World
withdraw up j w =
    let quiet = drop_item up j.rq_job_id (Queue.request_cancel up j.id w).1 in
    record quiet { jobs = update_where (by_id j.id) withdrawn quiet.jobs }

unfoldable pub withdraw_all : Bool → List Job → World → World
withdraw_all up [] w = w
withdraw_all up (j ∷ js) w = withdraw_all up js (withdraw up j w)

abbrev pub with_status : UserStatus → User → User
with_status status u = record u { account = record u.account { status = status } }

-- what a status other than `approved` brings with it
unfoldable pub shut_out : Bool → ℕ → Site → Site
shut_out up user_id s = record s {
  logins = delete_where (login_of user_id) s.logins;
  work = withdraw_all up (select (active_of user_id) s.work.jobs) s.work;
}

unfoldable pub set_status_body : Bool → Account → ℕ → UserStatus → Site → Result (Account × Site)
set_status_body up actor user_id status s = do
  user ← found (find_first (has_account user_id) s.users) HttpError.not_found
  require (not (user.account.is_admin || user.account.id == actor.id)) HttpError.conflict
  let written = record s {
    users = update_where (has_account user_id) (with_status status) s.users;
    audits = s.audits ++ record { actor_id = actor.id; user_id = user_id; action = status } ∷ [];
  }
  ok (
    (with_status status user).account,
    if is_approved status then written else shut_out up user_id written,
  )

-- Redis is told within the transaction; the transaction does not fail after that.
unfoldable pub set_status : Bool → Caller → ℕ → UserStatus → Site → Result Account × Site
set_status up caller user_id status s =
    commit s (do
      actor ← require_user (user_of caller) true true
      set_status_body up actor user_id status s)

-- `matches` is what the search finds, or all; the rows come newest first.
unfoldable pub list_users :
    Caller → (User → Bool) → Option UserStatus → ℕ → Site → Result (ℕ × List User)
list_users caller matches status offset s = do
  actor ← require_user (user_of caller) true true
  let hits = reverse (select matches s.users)
  let rows : List User = elim status [
    | none ↦ hits
    | some st ↦ select (λ u. same_status u.account.status st) hits
  ]
  ok (length rows, take 100 (drop offset rows))
