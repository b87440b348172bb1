-- ===== src/Reach/Accounts.antt =====
-- app/accounts.py: the accounts in any order of the transactions.
use voice_2_text.Prelude.{
  Pairwise, Pairwise-update, Pairwise-append, ℕ, ◌==◌, ◌≡◌, ◌≢◌, refl, ◌∙◌, ap, Bool, true, false,
  not, ◌||◌, Option, none, some, List, [], ◌∷◌, ◌++◌, Text, All, All-both, same_text,
  same_text_refl, is_empty, if◌then◌else◌, find_first, find_first-update, find_first-append_some,
  find_first-exists, exists-none, update_where, arith, exists,
}
use voice_2_text.Http.{
  Result, ok, require, found, commit, Yields, >>=-Yields, commit-Yields, Yields-ok, ◌>>=◌,
}
use voice_2_text.Config.{Config}
use voice_2_text.Auth.{Account, UserStatus, require_user, is_approved}
use voice_2_text.Auth.Phones.{normalize_phone}
use voice_2_text.Accounts.{
  Site, Secrets, User, Caller, user_of, has_phone, has_account, logged_in, new_user,
  bale_login_body, signup_body, hash_password, check_password,
}
use voice_2_text.Accounts.Passwords.{
  with_password, replaced, password_login_body, reset_password_body, change_password_body, logout,
}
use voice_2_text.Accounts.Admin.{set_status, set_status_body, shut_out, with_status}
use voice_2_text.Accounts.Startup.{admin_user, new_admin, bootstrap_body, bootstrap_admin}
use voice_2_text.Reach.{IsNewUser}

abbrev pub OtherUser : User → User → Type 0
OtherUser u v = (u.account.phone ≢ v.account.phone) × (u.account.id ≢ v.account.id)

-- No two accounts have a phone or an id in common.
abbrev pub DistinctUsers : List User → Type 0
DistinctUsers us = Pairwise OtherUser us

-- the account of the id has this phone and this role
abbrev pub Has : ℕ → Text → Bool → List User → Type 0
Has id phone admin us =
    (u : User) × (find_first (has_account id) us ≡ some u)
    × (u.account.phone ≡ phone)
    × (u.account.is_admin ≡ admin)

-- A write of accounts: a new one, or of columns that are neither the phone nor the role.
pub record Keeps {ℓ} (P : List User → Type ℓ) : Type ℓ where
  pub created :
      (u : User) (us : List User)
      → exists (has_phone u.account.phone) us ≡ false
      → All (λ v. v.account.id ≢ u.account.id) us
      → P us
      → P (us ++ u ∷ [])
  pub written :
      (id : ℕ) (f : User → User) (us : List User)
      → ((u : User)
          → ((f u).account.id ≡ u.account.id)
            × ((f u).account.phone ≡ u.account.phone)
            × ((f u).account.is_admin ≡ u.account.is_admin))
      → P us
      → P (update_where (has_account id) f us)

pub DistinctUsers-Keeps : Keeps DistinctUsers
DistinctUsers-Keeps = record {
  created = λ u us n new d. Pairwise-append OtherUser us u d (
      All-both us
        (λ v (p : has_phone u.account.phone v ≡ false) (k : v.account.id ≢ u.account.id). (
          (λ e. absurd (
              ground
                (arith, same_text_refl u.account.phone, ap (λ z. same_text z u.account.phone) e))),
          k,
        ))
        (exists-none (has_phone u.account.phone) us n) new);
  written = λ id f us same d.
      Pairwise-update OtherUser (has_account id) f us
        (λ u v n. apart f (has_account id u) (has_account id v) u v (same u) (same v) n) d;
}
  where
    apart :
        (f : User → User) (b c : Bool) (u v : User)
        → ((f u).account.id ≡ u.account.id)
          × ((f u).account.phone ≡ u.account.phone)
          × ((f u).account.is_admin ≡ u.account.is_admin)
        → ((f v).account.id ≡ v.account.id)
          × ((f v).account.phone ≡ v.account.phone)
          × ((f v).account.is_admin ≡ v.account.is_admin)
        → OtherUser u v
        → OtherUser (if b then f u else u) (if c then f v else v)
    apart f true true u v x y n = rw (x.0, x.1, y.0, y.1) n
    apart f true false u v x y n = rw (x.0, x.1) n
    apart f false true u v x y n = rw (y.0, y.1) n
    apart f false false u v x y n = n

pub Has-Keeps : (id : ℕ) (phone : Text) (admin : Bool) → Keeps (Has id phone admin)
Has-Keeps id phone admin = record {
  created =
      λ u us n new h. (h.0, find_first-append_some (has_account id) us (u ∷ []) h.0 h.1, h.2, h.3);
  written = λ k f us same h.
      let x = here f (has_account k h.0) h.0 (same h.0) h.2 h.3 in
      (
        if has_account k h.0 then f h.0 else h.0,
        find_first-update (has_account id) (has_account k) f us h.0
            (λ v. ap (λ z. z == id) (same v).0) h.1,
        x.0,
        x.1,
      );
}
  where
    here :
        (f : User → User) (b : Bool) (u : User)
        → ((f u).account.id ≡ u.account.id)
          × ((f u).account.phone ≡ u.account.phone)
          × ((f u).account.is_admin ≡ u.account.is_admin)
        → u.account.phone ≡ phone
        → u.account.is_admin ≡ admin
        → let v = if b then f u else u in (v.account.phone ≡ phone) × (v.account.is_admin ≡ admin)
    here f true u x p a = (x.1 ∙ p, x.2 ∙ a)
    here f false u x p a = (p, a)

module _ {ℓ} (P : List User → Type ℓ) (k : Keeps P) where
  pub bale_login_body-users :
      (config : Config) (sec : Secrets) (now : ℕ) (phone token : Text) (csrf : ℕ) (s : Site)
      → P s.users
      → Yields (λ t. P t.users) (bale_login_body config sec now phone token csrf s)
  unfolding bale_login_body logged_in Yields
  bale_login_body-users config sec now phone token csrf s p =
      >>=-Yields _ (found (find_first (has_phone phone) s.users) _) _ (λ _ _. p)

  pub signup_body-users :
      (config : Config) (sec : Secrets) (now user_id : ℕ) (phone name : Text) (hash : ℕ)
      (token : Text) (csrf : ℕ) (s : Site)
      → IsNewUser user_id s
      → P s.users
      → Yields (λ t. P t.users) (signup_body config sec now user_id phone name hash token csrf s)
  unfolding signup_body logged_in new_user Yields
  signup_body-users config sec now user_id phone name hash token csrf s new p =
      >>=-Yields _ (require (not (exists (has_phone phone) s.users)) _) _
        (λ _ e. k.created (new_user user_id phone name hash) s.users (ground arith) new p)

  pub reset_password_body-users :
      (phone : Text) (hash : ℕ) (s : Site)
      → P s.users
      → Yields (λ t. P t.users) (reset_password_body phone hash s)
  unfolding reset_password_body replaced Yields
  reset_password_body-users phone hash s p =
      >>=-Yields _ (found (find_first (has_phone phone) s.users) _) _
        (λ u _. k.written u.account.id (with_password hash) s.users (λ v. (refl, refl, refl)) p)

  pub password_login_body-users :
      (config : Config) (sec : Secrets) (now : ℕ) (phone password token : Text) (csrf : ℕ)
      (s : Site)
      → P s.users
      → Yields (λ t. P t.users) (password_login_body config sec now phone password token csrf s)
  unfolding password_login_body logged_in Yields
  password_login_body-users config sec now phone password token csrf s p =
      >>=-Yields _ (found (find_first (has_phone phone) s.users) _) _ (λ u _.
        >>=-Yields _ (require (check_password sec (some u.password_hash) password) _) _ (λ _ _. p))

  pub change_password_body-users :
      (config : Config) (sec : Secrets) (now : ℕ) (current : Account) (old password : Text)
      (salt : ℕ) (token : Text) (csrf : ℕ) (s : Site)
      → P s.users
      → Yields
          (λ t. P t.users)
          (change_password_body config sec now current old password salt token csrf s)
  unfolding change_password_body logged_in replaced Yields
  change_password_body-users config sec now current old password salt token csrf s p =
      >>=-Yields _ (found (find_first (has_account current.id) s.users) _) _ (λ u _.
        >>=-Yields _ (require (check_password sec (some u.password_hash) old) _) _ (λ _ _.
          >>=-Yields _ (hash_password sec salt password) _ (λ hash _.
            k.written u.account.id (with_password hash) s.users (λ v. (refl, refl, refl)) p)))

  pub logout-users : (caller : Caller) (s : Site) → P s.users → P (logout caller s).1.users
  unfolding logout
  logout-users none s p = p
  logout-users (some (user, (hash, csrf))) s p = p

  pub set_status-users :
      (up : Bool) (caller : Caller) (user_id : ℕ) (status : UserStatus) (s : Site)
      → P s.users
      → P (set_status up caller user_id status s).1.users
  unfolding set_status set_status_body Yields
  set_status-users up caller user_id status s p =
      commit-Yields (λ t. P t.users) s _
        (>>=-Yields _ (require_user (user_of caller) true true) _ (λ actor _.
          >>=-Yields _ (found (find_first (has_account user_id) s.users) _) _ (λ user _.
            >>=-Yields _ (require (not (user.account.is_admin || user.account.id == actor.id)) _) _
              (λ _ _.
                decided (is_approved status)
                  (record s {
                    users = update_where (has_account user_id) (with_status status) s.users;
                    audits =
                        s.audits
                        ++ record { actor_id = actor.id; user_id = user_id; action = status } ∷ [];
                  })
                  (k.written user_id (with_status status) s.users (λ v. (refl, refl, refl)) p)))))
        p
    where
      decided : (b : Bool) (t : Site) → P t.users → P (if b then t else shut_out up user_id t).users
      decided true t q = q
      decided false t q = unfold shut_out in q

  admin_user-users :
      (sec : Secrets) (id salt : ℕ) (phone password : Text) (s : Site)
      → IsNewUser id s
      → P s.users
      → Yields (λ t. P t.users) (admin_user sec id salt phone password s)
  unfolding admin_user Yields new_admin
  admin_user-users sec id salt phone password s new p =
      go (find_first (has_phone phone) s.users) refl
    where
      go :
          (o : Option User)
          → find_first (has_phone phone) s.users ≡ o
          → Yields (λ t. P t.users) (admin_user sec id salt phone password s)
      go (some u) e = rw (e, admin_user) p
      go none e =
          rw (e, admin_user)
            (>>=-Yields _ (require (not (is_empty password)) _) _ (λ _ _.
              >>=-Yields _ (hash_password sec salt password) _ (λ hash _.
                k.created (new_admin id phone hash) s.users
                  (find_first-exists (has_phone phone) s.users e) new p)))

  pub bootstrap_admin-users :
      (sec : Secrets) (now id salt : ℕ) (typed password : Text) (s : Site)
      → IsNewUser id s
      → P s.users
      → P (bootstrap_admin sec now id salt typed password s).1.users
  unfolding bootstrap_admin bootstrap_body Yields
  bootstrap_admin-users sec now id salt typed password s new p = go (is_empty typed)
    where
      body : Text → Result (Unit {0} × Site)
      body phone = bootstrap_body sec now id salt phone password s

      go :
          (e : Bool)
          → P (if e then (ok tt, s) else commit s (normalize_phone false typed >>= body)).1.users
      go true = p
      go false =
          commit-Yields (λ t. P t.users) s _
            (>>=-Yields _ (normalize_phone false typed) body (λ phone _.
              >>=-Yields _ (admin_user sec id salt phone password s) _ (λ r e.
                >>=-Yields _ (require r.0.account.is_admin _) _ (λ _ _.
                  Yields-ok (λ t. P t.users) (admin_user sec id salt phone password s) r.0 r.1
                    (admin_user-users sec id salt phone password s new p) e))))
            p
