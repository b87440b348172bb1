-- ===== src/Reach/Roles.antt =====
-- app/accounts.py: the accounts under each transaction, and in any order of them.
use voice_2_text.Prelude.{
  ℕ, ◌≡◌, refl, not, Option, none, some, List, [], Text, find_first, arith, exists,
}
use voice_2_text.Http.{Result, ok, raise, require, commit, Yields, >>=-Yields, commit-Yields}
use voice_2_text.Config.{Config}
use voice_2_text.Auth.Challenges.{Challenge, Purpose, consume_challenge}
use voice_2_text.Accounts.{Site, Secrets, User, and_then, consume, spend, limited, has_account}
use voice_2_text.Bale.{start_flow, claim_phone, confirm_code}
use voice_2_text.Bale.Requests.{request_body, is_recent}
use voice_2_text.Bale.Delivered.{prepare_code-eq-some}
use voice_2_text.Reach.{
  Step, Steps, Steps-keep, limits, requests, prepares, sends, confirms, starts, claims, logs_in,
  signs_up, resets, enters, changes, logs_out, decides, boots, works,
}
use voice_2_text.Reach.Accounts.{
  Keeps, Has, DistinctUsers, DistinctUsers-Keeps, Has-Keeps, bale_login_body-users,
  signup_body-users, reset_password_body-users, password_login_body-users,
  change_password_body-users, logout-users, set_status-users, bootstrap_admin-users,
}

module _ {ℓ} (P : List User → Type ℓ) where
  spend-users :
      {A : Type 0} (sec : Secrets) (now id : ℕ) (phone : Text) (purpose : Purpose) (code : Text)
      (body : Site → Result (A × Site)) (s : Site)
      → ((t : Site) → t.users ≡ s.users → Yields (λ u. P u.users) (body t))
      → P s.users
      → P (spend sec now id phone purpose code body s).1.users
  unfolding and_then consume
  spend-users {A = A} sec now id phone purpose code body s keep p =
      go (consume_challenge sec.code_digest now id phone purpose code s.challenges)
    where
      go :
          (r : Result Challenge × List Challenge)
          → P
              (and_then
                (r.0, record s { challenges = r.1 })
                (λ _ pending. commit s (body pending))).1.users
      go (raise e, cs) = p
      go (ok c, cs) =
          commit-Yields (λ t. P t.users) s _ (keep (record s { challenges = cs }) refl) p

start_flow-users :
    (now chat : ℕ) (id : Option ℕ) (s : Site) → (start_flow now chat id s).users ≡ s.users
unfolding start_flow
start_flow-users now chat none s = refl
start_flow-users now chat (some id) s = ground arith

claim_phone-users :
    (now chat sender : ℕ) (phone : Text) (s : Site)
    → (claim_phone now chat sender phone s).1.users ≡ s.users
unfolding claim_phone
claim_phone-users now chat sender phone s = ground arith

request_body-users :
    (config : Config) (now id : ℕ) (phone : Text) (purpose : Purpose) (s : Site)
    → Yields (λ t. t.users ≡ s.users) (request_body config now id phone purpose s)
unfolding request_body Yields
request_body-users config now id phone purpose s =
    >>=-Yields _ (require (not (exists (is_recent now phone) s.challenges)) _) _ (λ _ _. refl)

Step-users {ℓ} :
    (P : List User → Type ℓ) (k : Keeps P) (config : Config) (sec : Secrets) (now : ℕ) (s t : Site)
    → Step config sec now s t
    → P s.users
    → P t.users
unfolding limited confirm_code
Step-users P k config sec now s t (limits kind value limit seconds) p = p
Step-users P k config sec now s t (requests id phone purpose new) p =
    rw
      (commit-Yields (λ u. u.users ≡ s.users) s _ (request_body-users config now id phone purpose s)
        refl)
      p
Step-users P k config sec now s t (prepares id chat code {c} e) p =
    rw (prepare_code-eq-some sec now id chat code s c t e).4 p
Step-users P k config sec now s t (sends id chat code {c} {t = prepared} e) p =
    rw (prepare_code-eq-some sec now id chat code s c prepared e).4 p
Step-users P k config sec now s t (confirms m here) p = p
Step-users P k config sec now s t (starts m id begun) p = rw (start_flow-users now m.chat_id id s) p
Step-users P k config sec now s t (claims m sender phone own) p =
    rw (claim_phone-users now m.chat_id sender phone s) p
Step-users P k config sec now s t (logs_in id phone code token csrf) p =
    spend-users P sec now id phone Purpose.login code _ s
      (λ u e. bale_login_body-users P k config sec now phone token csrf u (rw e p)) p
Step-users P k config sec now s t (signs_up id phone code user_id name hash token csrf new) p =
    spend-users P sec now id phone Purpose.signup code _ s
      (λ u e.
        signup_body-users P k config sec now user_id phone name hash token csrf u (rw e new)
          (rw e p))
      p
Step-users P k config sec now s t (resets id phone code hash) p =
    spend-users P sec now id phone Purpose.reset code _ s
      (λ u e. reset_password_body-users P k phone hash u (rw e p)) p
Step-users P k config sec now s t (enters phone password token csrf) p =
    commit-Yields (λ u. P u.users) s _
      (password_login_body-users P k config sec now phone password token csrf s p) p
Step-users P k config sec now s t (changes current old password salt token csrf) p =
    commit-Yields (λ u. P u.users) s _
      (change_password_body-users P k config sec now current old password salt token csrf s p) p
Step-users P k config sec now s t (logs_out caller) p = logout-users P k caller s p
Step-users P k config sec now s t (decides up caller user_id status) p =
    set_status-users P k up caller user_id status s p
Step-users P k config sec now s t (boots id salt typed password new) p =
    bootstrap_admin-users P k sec now id salt typed password s new p
Step-users P k config sec now s t (works w) p = p

-- Since there were no accounts, no two have a phone or an id in common, whatever the processes have
-- done; and an account that was made once stays, with its phone and its role, whatever they do then.
pub reached-DistinctUsers :
    (config : Config) (sec : Secrets) (start s later : Site) (user : User)
    → start.users ≡ []
    → Steps config sec start s
    → Steps config sec s later
    → find_first (has_account user.account.id) s.users ≡ some user
    → DistinctUsers s.users
      × Has user.account.id user.account.phone user.account.is_admin later.users
reached-DistinctUsers config sec start s later user none_yet before after here = (
  Steps-keep (λ t. DistinctUsers t.users)
      (λ t u now step. Step-users DistinctUsers DistinctUsers-Keeps config sec now t u step) before
      (rw none_yet tt),
  Steps-keep (λ t. Has user.account.id user.account.phone user.account.is_admin t.users)
      (λ t u now step.
        Step-users _ (Has-Keeps user.account.id user.account.phone user.account.is_admin) config sec
          now t u step)
      after (user, here, refl, refl),
)
