-- ===== src/Accounts/Passwords/Reset.antt =====
-- app/accounts.py: what `reset_password` leaves, and the login after it.
use voice_2_text.Prelude.{
  String, ℕ, ◌≡◌, ◌≢◌, refl, sym, ap, subst, ◌∙◌, true, false, Option, none, some, Text, All,
  find_first, find_first-update, if◌then◌else◌, arith, ==_refl,
}
use voice_2_text.Http.{Result, ok, raise, commit, commit-ok}
use voice_2_text.Config.{Config}
use voice_2_text.Auth.Challenges.{Challenge, Purpose}
use voice_2_text.Auth.Phones.{normalize_phone}
use voice_2_text.Accounts.{
  User, Site, Secrets, and_then, and_then-eq-ok, has_phone, has_account, limited, code_limits,
  consume, logged_in, hash_password, check_password,
}
use voice_2_text.Accounts.Passwords.{
  password_login, password_login_body, reset_password, reset_password_body, replaced, with_password,
}
use voice_2_text.Accounts.Admin.Suspension.{deleted-All}

hash_password-ok :
    (sec : Secrets) (salt : ℕ) (password : Text) (hash : ℕ)
    → hash_password sec salt password ≡ ok hash
    → hash ≡ sec.hash salt password
unfolding hash_password
hash_password-ok sec salt password hash h = ground arith

reset_body :
    (phone : Text) (hash : ℕ) (s t : Site)
    → reset_password_body phone hash s ≡ ok (tt, t)
    → (user : User) × (find_first (has_phone phone) s.users ≡ some user)
      × (t ≡ replaced hash user s)
unfolding reset_password_body
reset_body phone hash s t h = go (find_first (has_phone phone) s.users) refl
  where
    go :
        (o : Option User)
        → find_first (has_phone phone) s.users ≡ o
        → (user : User) × (find_first (has_phone phone) s.users ≡ some user)
          × (t ≡ replaced hash user s)
    go none e = absurd (ground arith)
    go (some user) e = (user, e, ground arith)

ok_injective : {a b : Text} → ◌≡◌ {A = Result Text} (ok a) (ok b) → a ≡ b
ok_injective e = ground (arith, e)

limited-users :
    (sec : Secrets) (now : ℕ) (kind : String) (value : Text) (limit seconds : ℕ) (s : Site)
    → (limited sec now kind value limit seconds s).1.users ≡ s.users
unfolding limited
limited-users sec now kind value limit seconds s = refl

passes {ℓ} :
    {A : Type ℓ} (r : Result (Unit {0}) × Site) (k : Unit {0} → Site → Result A × Site)
    → r.0 ≡ ok tt
    → and_then r k ≡ k tt r.1
unfolding and_then
passes (ok a, s) k h = refl
passes (raise e, s) k h = absurd (cc)

-- what a login with a password answers, once the limits and the password let it through
password_login-ok :
    (config : Config) (sec : Secrets) (now : ℕ) (from typed phone password token : Text) (csrf : ℕ)
    (s : Site) (user : User)
    → normalize_phone false typed ≡ ok phone
    → (limited sec now "password-ip" from 30 600 s).0 ≡ ok tt
    → (limited sec now "password-phone" phone 10 600
        (limited sec now "password-ip" from 30 600 s).1).0
      ≡ ok tt
    → find_first (has_phone phone) s.users ≡ some user
    → sec.verify user.password_hash password ≡ true
    → (password_login config sec now from typed password token csrf s).0
      ≡ ok (record { user = user.account; token = token; csrf = csrf })
unfolding password_login
password_login-ok config sec now from typed phone password token csrf s user normal by_ip by_phone
      here accepts =
    let s1 = (limited sec now "password-ip" from 30 600 s).1 in
    let s2 = (limited sec now "password-phone" phone 10 600 s1).1 in
    let same : s2.users ≡ s.users =
      limited-users sec now "password-phone" phone 10 600 s1
      ∙ limited-users sec now "password-ip" from 30 600 s in
    let body : (commit s2 (password_login_body config sec now phone password token csrf s2)).0
        ≡ ok (record { user = user.account; token = token; csrf = csrf }) =
      unfold password_login_body check_password logged_in in rw (same, here, accepts) refl in
    rw normal (
      unfold and_then in
      (ap (λ z. z.0)
          (passes (limited sec now "password-ip" from 30 600 s)
            (λ _ s.
              and_then (limited sec now "password-phone" phone 10 600 s)
                (λ _ s. commit s (password_login_body config sec now phone password token csrf s)))
            by_ip)
        ∙ (ap (λ z. z.0)
              (passes (limited sec now "password-phone" phone 10 600 s1)
                (λ _ s. commit s (password_login_body config sec now phone password token csrf s))
                by_phone)
            ∙ body)))

module _ (sec : Secrets) (now : ℕ) (client : Text) (id : ℕ) (typed password code : Text) (salt : ℕ)
    (before : Site) where
  reset_password-eq-ok :
      (reset_password sec now client id typed password code salt before).0 ≡ ok tt
      → let t = (reset_password sec now client id typed password code salt before).1 in
        (phone : Text) × (user : User) × (s : Site) × (normalize_phone false typed ≡ ok phone)
        × (find_first (has_phone phone) before.users ≡ some user)
        × (s.users ≡ before.users)
        × (t ≡ replaced (sec.hash salt password) user s)
  unfolding reset_password code_limits limited consume
  reset_password-eq-ok h =
      let a = and_then-eq-ok (code_limits sec now client before) normalized tt h in
      let s1 = (code_limits sec now client before).1 in
      let b =
        and_then-eq-ok (normalize_phone false typed, s1) hashed tt
          (subst (λ z. z.0 ≡ ok tt) a.2 h) in
      let c =
        and_then-eq-ok (hash_password sec salt password, s1) (spent b.0) tt
          (subst (λ z. z.0 ≡ ok tt) (a.2 ∙ b.2) h) in
      let start = a.2 ∙ (b.2 ∙ c.2) in
      let d =
        and_then-eq-ok (consume sec now id b.0 Purpose.reset code s1) (finished b.0 c.0 s1) tt
          (subst (λ z. z.0 ≡ ok tt) start h) in
      let pending = (consume sec now id b.0 Purpose.reset code s1).1 in
      let body = reset_password_body b.0 c.0 pending in
      let whole : reset_password sec now client id typed password code salt before
          ≡ commit s1 body =
        start ∙ d.2 in
      let made = commit-ok s1 body tt (subst (λ z. z.0 ≡ ok tt) whole h) in
      let x = reset_body b.0 c.0 pending (commit s1 body).1 made in
      (
        b.0,
        x.0,
        pending,
        b.1,
        x.1,
        refl,
        ap (λ z. z.1) whole
            ∙ (x.2 ∙ ap (λ k. replaced k x.0 pending) (hash_password-ok sec salt password c.0 c.1)),
      )
    where
      finished : Text → ℕ → Site → Challenge → Site → Result (Unit {0}) × Site
      finished phone hash s c pending = commit s (reset_password_body phone hash pending)

      spent : Text → ℕ → Site → Result (Unit {0}) × Site
      spent phone hash s =
          and_then (consume sec now id phone Purpose.reset code s) (finished phone hash s)

      hashed : Text → Site → Result (Unit {0}) × Site
      hashed phone s = and_then (hash_password sec salt password, s) (spent phone)

      normalized : Unit {0} → Site → Result (Unit {0}) × Site
      normalized _ s = and_then (normalize_phone false typed, s) hashed

  -- After a reset the account has no login left, and a request to log in with the same phone and the
  -- new password, which the two rate limits let through, is answered with that account and its fresh
  -- tokens, where the hash of a password is accepted for that password.
  pub reset_password-login :
      (config : Config) (later : ℕ) (from : Text) (phone : Text) (token : Text) (csrf : ℕ)
      → (reset_password sec now client id typed password code salt before).0 ≡ ok tt
      → sec.verify (sec.hash salt password) password ≡ true
      → normalize_phone false typed ≡ ok phone
      → (limited sec later "password-ip" from 30 600
          (reset_password sec now client id typed password code salt before).1).0
        ≡ ok tt
      → (limited sec later "password-phone" phone 10 600
          (limited sec later "password-ip" from 30 600
            (reset_password sec now client id typed password code salt before).1).1).0
        ≡ ok tt
      → let t = (reset_password sec now client id typed password code salt before).1 in
        (user : User) × (find_first (has_phone phone) before.users ≡ some user)
        × All (λ l. l.user_id ≢ user.account.id) t.logins
        × ((password_login config sec later from typed password token csrf t).0
            ≡ ok (record { user = user.account; token = token; csrf = csrf }))
  reset_password-login config later from phone token csrf h accepts normal by_ip by_phone =
      let x = reset_password-eq-ok h in
      let user = x.1 in
      let s = x.2 in
      let hash = sec.hash salt password in
      let here : find_first (has_phone phone) before.users ≡ some user =
        rw (ok_injective (sym normal ∙ x.3)) x.4 in
      let row : find_first (has_phone phone) (replaced hash user s).users
          ≡ some (with_password hash user) =
        unfold replaced in
        (find_first-update (has_phone phone) (has_account user.account.id) (with_password hash)
            s.users user (λ v. refl)
            (subst (λ us. find_first (has_phone phone) us ≡ some user) (sym x.5) here)
          ∙ ap (λ b. some (if b then with_password hash user else user))
              (==_refl user.account.id)) in
      (
        user,
        here,
        rw x.6 (unfold replaced in deleted-All user.account.id s.logins),
        password_login-ok config sec later from typed phone password token csrf
            (reset_password sec now client id typed password code salt before).1
            (with_password hash user) normal by_ip by_phone (rw x.6 row) accepts,
      )
