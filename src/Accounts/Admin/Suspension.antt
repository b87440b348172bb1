-- ===== src/Accounts/Admin/Suspension.antt =====
-- app/accounts.py: what `set_status` does to an account that loses its approval.
use voice_2_text.Prelude.{
  ℕ, ◌==◌, ◌≡◌, ◌≢◌, refl, Bool, true, false, Option, none, some, List, [], ◌∷◌, All, All-map,
  find_first, find_first_holds, select, update_where, delete_where, exists, if◌then◌else◌, arith,
  ==_refl,
}
use voice_2_text.Http.{Result, ok, raise, commit-ok}
use voice_2_text.Database.{Job, QueueItem, World}
use voice_2_text.Auth.{Account, UserStatus, is_approved, require_user}
use voice_2_text.Auth.Logins.{LoginSession}
use voice_2_text.Queue
use voice_2_text.Tasks.{by_id}
use voice_2_text.Jobs.{drop_item}
use voice_2_text.Accounts.{User, Site, Caller, user_of, has_account}
use voice_2_text.Accounts.Passwords.{login_of}
use voice_2_text.Accounts.Admin.{
  active_of, withdrawn, withdraw, withdraw_all, with_status, shut_out, set_status_body, set_status,
}

unfoldable withdrawn_rows : List Job → List Job → List Job
withdrawn_rows [] rows = rows
withdrawn_rows (j ∷ js) rows = withdrawn_rows js (update_where (by_id j.id) withdrawn rows)

quiet-jobs :
    (up : Bool) (o : Option QueueItem) (id : ℕ) (w : World)
    → (drop_item up o (Queue.request_cancel up id w).1).jobs ≡ w.jobs
unfolding Queue.cancel Queue.request_cancel
quiet-jobs up none id w = ground arith
quiet-jobs up (some item) id w = ground arith

withdraw_all-jobs :
    (up : Bool) (js : List Job) (w : World) → (withdraw_all up js w).jobs ≡ withdrawn_rows js w.jobs
unfolding withdraw_all withdrawn_rows
withdraw_all-jobs up [] w = refl
withdraw_all-jobs up (j ∷ js) w = rw (withdraw_all-jobs up js (withdraw up j w), row) refl
  where
    row : (withdraw up j w).jobs ≡ update_where (by_id j.id) withdrawn w.jobs
    row = unfold withdraw in ground (arith, quiet-jobs up j.rq_job_id j.id w)

abbrev same_id : Job → Job → Bool
same_id j s = s.id == j.id

-- each row that is to be withdrawn is listed
abbrev Listed : ℕ → List Job → List Job → Type 0
Listed user_id js rows = All (λ r. active_of user_id r ≡ true → exists (same_id r) js ≡ true) rows

written-Listed :
    (user_id : ℕ) (j : Job) (js rows : List Job)
    → Listed user_id (j ∷ js) rows
    → Listed user_id js (update_where (by_id j.id) withdrawn rows)
unfolding update_where exists withdrawn
written-Listed user_id j js [] h = tt
written-Listed user_id j js (r ∷ rows) h =
    (λ e. ground (arith, h.0), written-Listed user_id j js rows h.1)

rows-idle :
    (user_id : ℕ) (js rows : List Job)
    → Listed user_id js rows
    → All (λ r. active_of user_id r ≡ false) (withdrawn_rows js rows)
unfolding withdrawn_rows
rows-idle user_id [] rows h =
    All-map rows
      (λ r (n : active_of user_id r ≡ true → exists (same_id r) [] ≡ true).
        unfold exists in ground (arith, n))
      h
rows-idle user_id (j ∷ js) rows h =
    rows-idle user_id js (update_where (by_id j.id) withdrawn rows)
      (written-Listed user_id j js rows h)

select-Listed :
    (user_id : ℕ) (rows : List Job) → Listed user_id (select (active_of user_id) rows) rows
unfolding select exists
select-Listed user_id [] = tt
select-Listed user_id (r ∷ rows) = (
  λ e. ground (arith, ==_refl r.id),
  All-map rows
      (λ k
          (h : active_of user_id k ≡ true
            → exists (same_id k) (select (active_of user_id) rows) ≡ true)
          e.
        ground (arith, h e))
      (select-Listed user_id rows),
)

pub deleted-All :
    (user_id : ℕ) (ls : List LoginSession)
    → All (λ l. l.user_id ≢ user_id) (delete_where (login_of user_id) ls)
unfolding delete_where
deleted-All user_id [] = tt
deleted-All user_id (l ∷ ls) = go (login_of user_id l) refl (deleted-All user_id ls)
  where
    go :
        (b : Bool)
        → login_of user_id l ≡ b
        → All (λ k. k.user_id ≢ user_id) (delete_where (login_of user_id) ls)
        → All
            (λ k. k.user_id ≢ user_id)
            (if b
              then delete_where (login_of user_id) ls
              else l ∷ delete_where (login_of user_id) ls)
    go true e rest = rest
    go false e rest = (ground arith, rest)

require_user-admin :
    (user : Option Account) (actor : Account)
    → require_user user true true ≡ ok actor
    → (user ≡ some actor) × (actor.status ≡ UserStatus.approved) × (actor.is_admin ≡ true)
unfolding require_user
require_user-admin none actor h = absurd (ground arith)
require_user-admin (some a) actor h = (ground arith, ground arith, ground arith)

set_status_body-eq-ok :
    (up : Bool) (actor : Account) (user_id : ℕ) (status : UserStatus) (s : Site) (r : Account)
    (t : Site)
    → set_status_body up actor user_id status s ≡ ok (r, t)
    → is_approved status ≡ false
    → (user : User) × (find_first (has_account user_id) s.users ≡ some user)
      × (user.account.is_admin ≡ false)
      × (user.account.id ≢ actor.id)
      × (r ≡ record user.account { status = status })
      × (t.users ≡ update_where (has_account user_id) (with_status status) s.users)
      × (t.logins ≡ delete_where (login_of user_id) s.logins)
      × (t.work ≡ withdraw_all up (select (active_of user_id) s.work.jobs) s.work)
unfolding set_status_body shut_out
set_status_body-eq-ok up actor user_id status s r t h out = ground arith

set_status-eq-ok :
    (up : Bool) (caller : Caller) (user_id : ℕ) (status : UserStatus) (s : Site) (r : Account)
    → (set_status up caller user_id status s).0 ≡ ok r
    → (actor : Account) × (require_user (user_of caller) true true ≡ ok actor)
      × (set_status_body up actor user_id status s
          ≡ ok (r, (set_status up caller user_id status s).1))
unfolding set_status
set_status-eq-ok up caller user_id status s r h = go (require_user (user_of caller) true true) refl
  where
    go :
        (o : Result Account)
        → require_user (user_of caller) true true ≡ o
        → (actor : Account) × (require_user (user_of caller) true true ≡ ok actor)
          × (set_status_body up actor user_id status s
              ≡ ok (r, (set_status up caller user_id status s).1))
    go (raise e) eq = absurd (ground arith)
    go (ok actor) eq = (
      actor,
      eq,
      rw (eq, set_status)
          (commit-ok s (set_status_body up actor user_id status s) r (ground arith)),
    )

-- Only an approved administrator withdraws an account's approval, never their own or another
-- administrator's. After it the account has no login, and none of its jobs is queued or running.
pub set_status-shut_out :
    (up : Bool) (caller : Caller) (user_id : ℕ) (status : UserStatus) (s : Site) (r : Account)
    → (set_status up caller user_id status s).0 ≡ ok r
    → is_approved status ≡ false
    → let t = (set_status up caller user_id status s).1 in
      (actor : Account) × (user : User) × (user_of caller ≡ some actor)
      × (actor.status ≡ UserStatus.approved)
      × (actor.is_admin ≡ true)
      × (find_first (has_account user_id) s.users ≡ some user)
      × (user.account.is_admin ≡ false)
      × (actor.id ≢ user_id)
      × (r ≡ record user.account { status = status })
      × All (λ l. l.user_id ≢ user_id) t.logins
      × All (λ j. active_of user_id j ≡ false) t.work.jobs
set_status-shut_out up caller user_id status s r h out =
    let x = set_status-eq-ok up caller user_id status s r h in
    let t = (set_status up caller user_id status s).1 in
    let y = set_status_body-eq-ok up x.0 user_id status s r t x.2 out in
    let actor = require_user-admin (user_of caller) x.0 x.1 in
    let same = find_first_holds (has_account user_id) s.users y.0 y.1 in
    let js = select (active_of user_id) s.work.jobs in
    (
      x.0,
      y.0,
      actor.0,
      actor.1,
      actor.2,
      y.1,
      y.2,
      ground (arith, y.3, same),
      y.4,
      rw y.6 (deleted-All user_id s.logins),
      rw (y.7, withdraw_all-jobs up js s.work)
          (rows-idle user_id js s.work.jobs (select-Listed user_id s.work.jobs)),
    )
