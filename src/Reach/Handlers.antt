-- ===== src/Reach/Handlers.antt =====
-- app/accounts.py and app/bale.py: the handlers as sequences of transactions.
use voice_2_text.Prelude.{
  ℕ, ◌≡◌, refl, subst, Bool, true, false, Option, none, some, Text, Memᴰ, strip, leb, length, not,
  find_first_holds, exists, arith,
}
use mathlib.Core.List.Memᴰ.{head, tail}
use voice_2_text.Http.{Result, ok, raise, require, HttpError, Yields, >>=-Yields, commit-Yields}
use voice_2_text.Config.{Config}
use voice_2_text.Auth.{require_user}
use voice_2_text.Auth.Challenges.{Challenge, has_id, Purpose}
use voice_2_text.Auth.Phones.{normalize_phone}
use voice_2_text.Accounts.{
  Site, Secrets, Message, Caller, user_of, and_then, limited, code_limits, hash_password,
  bale_login, signup,
}
use voice_2_text.Accounts.Passwords.{password_login, reset_password, change_password}
use voice_2_text.Bale.{Update, deliver_claimed, prepare_code, confirm_code, deliver_code, post}
use voice_2_text.Bale.Requests.{is_recent, request_body}
use voice_2_text.Bale.Delivered.{prepare_code-eq-some}
use voice_2_text.Reach.Frames.{
  spend-Tried, bale_login_body-Quiet, signup_body-Quiet, reset_password_body-Quiet,
  password_login_body-Quiet, change_password_body-Quiet, logout-Quiet, commit-Quiet,
  start_flow-Quiet, claim_phone-eq, set_status-Quiet, limited-Quiet, bootstrap_admin-outbox,
}
use voice_2_text.Reach.{
  Steps-keep, boots, works, Step, Steps, stay, one, ◌⨟◌, limits, requests, prepares, sends,
  confirms, starts, claims, logs_in, signs_up, resets, enters, changes, logs_out, decides,
  IsNewUser,
}

request_body-outbox :
    (config : Config) (now : ℕ) (m : Message) (id : ℕ) (phone : Text) (purpose : Purpose) (s : Site)
    → Memᴰ m s.outbox
    → Yields (λ u. Memᴰ m u.outbox) (request_body config now id phone purpose s)
unfolding request_body Yields
request_body-outbox config now m id phone purpose s h =
    >>=-Yields _ (require (not (exists (is_recent now phone) s.challenges)) _) _ (λ _ _. h)

module _ {config : Config} {sec : Secrets} where
  and_then-Steps {ℓ κ} :
      {A : Type ℓ} {B : Type κ} {s : Site} (r : Result A × Site) (k : A → Site → Result B × Site)
      → Steps config sec s r.1
      → ((a : A) → Steps config sec r.1 (k a r.1).1)
      → Steps config sec s (and_then r k).1
  unfolding and_then
  and_then-Steps (ok a, t) k first next = first ⨟ next a
  and_then-Steps (raise e, t) k first next = first

  module _ (now : ℕ) where
    pub bale_login-Steps :
        (client : Text) (id : ℕ) (typed code token : Text) (csrf : ℕ) (s : Site)
        → Steps config sec s (bale_login config sec now client id typed code token csrf s).1
    unfolding bale_login code_limits
    bale_login-Steps client id typed code token csrf s =
        and_then-Steps _ _ (one now (limits _ _ _ _)) (λ _.
          and_then-Steps (normalize_phone false typed, _) _ stay
            (λ phone. one now (logs_in id phone code token csrf)))

    pub signup-Steps :
        (client : Text) (id : ℕ) (typed name password code : Text) (user_id salt : ℕ) (token : Text)
        (csrf : ℕ) (s : Site)
        → IsNewUser user_id s
        → Steps config sec s
            (signup config sec now client id typed name password code user_id salt token csrf s).1
    unfolding signup code_limits limited
    signup-Steps client id typed name password code user_id salt token csrf s new =
        and_then-Steps _ _ (one now (limits _ _ _ _)) (λ _.
          and_then-Steps (normalize_phone false typed, _) _ stay
            (λ phone.
              and_then-Steps (require (leb 2 (length (strip name))) HttpError.bad_request, _) _ stay
                (λ _.
                  and_then-Steps (hash_password sec salt password, _) _ stay
                    (λ hash.
                      one now (signs_up id phone code user_id (strip name) hash token csrf new)))))

    pub password_login-Steps :
        (client typed password token : Text) (csrf : ℕ) (s : Site)
        → Steps config sec s (password_login config sec now client typed password token csrf s).1
    unfolding password_login
    password_login-Steps client typed password token csrf s =
        and_then-Steps (normalize_phone false typed, s) _ stay
          (λ phone. and_then-Steps _ _ (one now (limits _ _ _ _)) (λ _.
            and_then-Steps _ _ (one now (limits _ _ _ _))
              (λ _. one now (enters phone password token csrf))))

    pub reset_password-Steps :
        (client : Text) (id : ℕ) (typed password code : Text) (salt : ℕ) (s : Site)
        → Steps config sec s (reset_password sec now client id typed password code salt s).1
    unfolding reset_password code_limits
    reset_password-Steps client id typed password code salt s =
        and_then-Steps _ _ (one now (limits _ _ _ _)) (λ _.
          and_then-Steps (normalize_phone false typed, _) _ stay
            (λ phone.
              and_then-Steps (hash_password sec salt password, _) _ stay
                (λ hash. one now (resets id phone code hash))))

    pub change_password-Steps :
        (caller : Caller) (old password : Text) (salt : ℕ) (token : Text) (csrf : ℕ) (s : Site)
        → Steps config sec s
            (change_password config sec now caller old password salt token csrf s).1
    unfolding change_password
    change_password-Steps caller old password salt token csrf s =
        and_then-Steps (require_user (user_of caller) false false, s) _ stay
          (λ current.
            and_then-Steps _ _ (one now (limits _ _ _ _))
              (λ _. one now (changes current old password salt token csrf)))

  -- what has left stays in the outbox
  Step-outbox :
      (now : ℕ) (m : Message) (s t : Site)
      → Step config sec now s t
      → Memᴰ m s.outbox
      → Memᴰ m t.outbox
  unfolding confirm_code
  Step-outbox now m s t (limits kind value limit seconds) h =
      rw (limited-Quiet sec now kind value limit seconds s).outbox h
  Step-outbox now m s t (requests id phone purpose new) h =
      commit-Yields (λ u. Memᴰ m u.outbox) s _
        (request_body-outbox config now m id phone purpose s h) h
  Step-outbox now m s t (prepares id chat code {c} e) h =
      rw (prepare_code-eq-some sec now id chat code s c t e).4 h
  Step-outbox now m s t (sends id chat code {c} {t = prepared} e) h =
      tail (rw (prepare_code-eq-some sec now id chat code s c prepared e).4 h)
  Step-outbox now m s t (confirms n here) h = h
  Step-outbox now m s t (starts n id begun) h = rw (start_flow-Quiet now n.chat_id id s).outbox h
  Step-outbox now m s t (claims n sender phone own) h =
      rw (claim_phone-eq now n.chat_id sender phone s).1 h
  Step-outbox now m s t (logs_in id phone code token csrf) h =
      rw
        (spend-Tried sec now id phone Purpose.login code _ s
          (bale_login_body-Quiet config sec now phone token csrf)).1
        h
  Step-outbox now m s t (signs_up id phone code user_id name hash token csrf new) h =
      rw
        (spend-Tried sec now id phone Purpose.signup code _ s
          (signup_body-Quiet config sec now user_id phone name hash token csrf)).1
        h
  Step-outbox now m s t (resets id phone code hash) h =
      rw
        (spend-Tried sec now id phone Purpose.reset code _ s
          (reset_password_body-Quiet phone hash)).1
        h
  Step-outbox now m s t (enters phone password token csrf) h =
      rw
        (commit-Quiet s _
          (password_login_body-Quiet config sec now phone password token csrf s)).outbox
        h
  Step-outbox now m s t (changes current old password salt token csrf) h =
      rw
        (commit-Quiet s _
          (change_password_body-Quiet config sec now current old password salt token csrf s)).outbox
        h
  Step-outbox now m s t (logs_out caller) h = rw (logout-Quiet caller s).outbox h
  Step-outbox now m s t (decides up caller user_id status) h =
      rw (set_status-Quiet up caller user_id status s).outbox h
  Step-outbox now m s t (boots id salt typed password new) h =
      rw (bootstrap_admin-outbox sec now id salt typed password s) h
  Step-outbox now m s t (works w) h = h

  deliver_code-Steps :
      (now : ℕ) (code : Text) (sent : Bool) (meanwhile : Site → Site) (id chat : ℕ) (s : Site)
      → ((v : Site) → Steps config sec v (meanwhile v))
      → Steps config sec s (deliver_code sec now code sent meanwhile id chat s).1
  unfolding deliver_code
  deliver_code-Steps now code sent meanwhile id chat s others =
      go (prepare_code sec now id chat code s) refl sent
    where
      go :
          (o : Option (Challenge × Site))
          → prepare_code sec now id chat code s ≡ o
          → (sent : Bool)
          → Steps config sec s (deliver_code sec now code sent meanwhile id chat s).1
      go none e sent = rw (e, deliver_code) stay
      go (some (c, t)) e false = rw (e, deliver_code) (one now (prepares id chat code e))
      go (some (c, t)) e true =
          let x = prepare_code-eq-some sec now id chat code s c t e in
          let here : c.id ≡ id = ground (arith, find_first_holds (has_id id) s.challenges c x.0) in
          let m : Message = record { chat_id = chat; challenge_id = c.id; code = code } in
          let sending : Steps config sec s (post chat c code t) = one now (sends id chat code e) in
          let kept =
            Steps-keep (λ v. Memᴰ m v.outbox) (λ u v later step. Step-outbox later m u v step)
              (others (post chat c code t)) (head refl) in
          rw (e, deliver_code)
            (subst
              (λ k. Steps config sec s (confirm_code sec k code (meanwhile (post chat c code t))))
              here (sending ⨟ (others (post chat c code t) ⨟ one now (confirms m kept))))

  module _ (now : ℕ) (code : Text) (sent : Bool) (meanwhile : Site → Site) (u : Update) (s : Site)
      (others : (v : Site) → Steps config sec v (meanwhile v)) where
    deliver :
        (chat : ℕ) (o : Option Challenge) (t : Site)
        → Steps config sec s t
        → Steps config sec s (deliver_claimed sec now code sent meanwhile chat o t)
    unfolding deliver_claimed
    deliver chat none t steps = steps
    deliver chat (some c) t steps =
        steps ⨟ deliver_code-Steps now code sent meanwhile c.id chat t others
