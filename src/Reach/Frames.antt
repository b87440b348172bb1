-- ===== src/Reach/Frames.antt =====
-- app/accounts.py: the transactions that touch neither challenges, nor messages, nor the phones of
-- chats.
use voice_2_text.Prelude.{
  ℕ, ◌≡◌, refl, sym, ◌∙◌, subst, ap, Bool, true, false, inl, inr, Option, none, some, String, List,
  [], ◌∷◌, ◌++◌, Text, is_empty, ◌||◌, ◌==◌, not, if◌then◌else◌, find_first, update_where,
  delete_where, arith, exists,
}
use voice_2_text.Http.{
  Result, ok, raise, require, found, commit, Yields, >>=-Yields, commit-Yields, Yields-ok,
  Yields-map, ◌>>=◌,
}
use voice_2_text.Config.{Config}
use voice_2_text.Auth.{Account, UserStatus, require_user, is_approved}
use voice_2_text.Auth.Challenges.{
  Challenge, Purpose, has_id, tried, spent, consume_challenge, consume_challenge_cases,
}
use voice_2_text.Accounts.{
  User, Site, Secrets, Caller, user_of, and_then, consume, limited, spend, hash_password,
  bale_login_body, signup_body, has_phone, has_account, logged_in, check_password,
}
use voice_2_text.Accounts.Startup.{admin_user, bootstrap_body, bootstrap_admin, challenge_expired}
use voice_2_text.Auth.Phones.{normalize_phone}
use voice_2_text.Bale.{start_flow, claim_phone}
use voice_2_text.Accounts.Passwords.{
  password_login_body, reset_password_body, change_password_body, logout, replaced,
}
use voice_2_text.Accounts.Admin.{set_status, set_status_body, shut_out, with_status}

pub record Quiet (s t : Site) : Type 0 where
  pub challenges : t.challenges ≡ s.challenges
  pub outbox : t.outbox ≡ s.outbox
  pub identities : t.identities ≡ s.identities

abbrev same : {s : Site} → Quiet s s
same = record { challenges = refl; outbox = refl; identities = refl }

pub commit-Quiet {ℓ} :
    {A : Type ℓ} (s : Site) (r : Result (A × Site)) → Yields (Quiet s) r → Quiet s (commit s r).1
commit-Quiet s r y = commit-Yields (Quiet s) s r y same

pub bale_login_body-Quiet :
    (config : Config) (sec : Secrets) (now : ℕ) (phone token : Text) (csrf : ℕ) (s : Site)
    → Yields (Quiet s) (bale_login_body config sec now phone token csrf s)
unfolding bale_login_body logged_in Yields
bale_login_body-Quiet config sec now phone token csrf s =
    >>=-Yields (Quiet s) (found (find_first (has_phone phone) s.users) _) _
      (λ u e. record { challenges = refl; outbox = refl; identities = refl })

pub signup_body-Quiet :
    (config : Config) (sec : Secrets) (now user_id : ℕ) (phone name : Text) (hash : ℕ)
    (token : Text) (csrf : ℕ) (s : Site)
    → Yields (Quiet s) (signup_body config sec now user_id phone name hash token csrf s)
unfolding signup_body logged_in Yields
signup_body-Quiet config sec now user_id phone name hash token csrf s =
    >>=-Yields (Quiet s) (require (not (exists (has_phone phone) s.users)) _) _
      (λ u e. record { challenges = refl; outbox = refl; identities = refl })

pub reset_password_body-Quiet :
    (phone : Text) (hash : ℕ) (s : Site) → Yields (Quiet s) (reset_password_body phone hash s)
unfolding reset_password_body replaced Yields
reset_password_body-Quiet phone hash s =
    >>=-Yields (Quiet s) (found (find_first (has_phone phone) s.users) _) _
      (λ u e. record { challenges = refl; outbox = refl; identities = refl })

pub password_login_body-Quiet :
    (config : Config) (sec : Secrets) (now : ℕ) (phone password token : Text) (csrf : ℕ) (s : Site)
    → Yields (Quiet s) (password_login_body config sec now phone password token csrf s)
unfolding password_login_body logged_in Yields
password_login_body-Quiet config sec now phone password token csrf s =
    >>=-Yields (Quiet s) (found (find_first (has_phone phone) s.users) _) _ (λ u e.
      >>=-Yields (Quiet s) (require (check_password sec (some u.password_hash) password) _) _
        (λ _ _. record { challenges = refl; outbox = refl; identities = refl }))

pub change_password_body-Quiet :
    (config : Config) (sec : Secrets) (now : ℕ) (current : Account) (old password : Text) (salt : ℕ)
    (token : Text) (csrf : ℕ) (s : Site)
    → Yields (Quiet s) (change_password_body config sec now current old password salt token csrf s)
unfolding change_password_body logged_in replaced Yields
change_password_body-Quiet config sec now current old password salt token csrf s =
    >>=-Yields (Quiet s) (found (find_first (has_account current.id) s.users) _) _ (λ u e.
      >>=-Yields (Quiet s) (require (check_password sec (some u.password_hash) old) _) _ (λ _ _.
        >>=-Yields (Quiet s) (hash_password sec salt password) _
          (λ _ _. record { challenges = refl; outbox = refl; identities = refl })))

pub logout-Quiet : (caller : Caller) (s : Site) → Quiet s (logout caller s).1
unfolding logout
logout-Quiet none s = same
logout-Quiet (some (user, (hash, csrf))) s = record {
  challenges = refl;
  outbox = refl;
  identities = refl;
}

pub set_status-Quiet :
    (up : Bool) (caller : Caller) (user_id : ℕ) (status : UserStatus) (s : Site)
    → Quiet s (set_status up caller user_id status s).1
unfolding set_status set_status_body Yields
set_status-Quiet up caller user_id status s =
    commit-Yields (Quiet s) s _
      (>>=-Yields (Quiet s) (require_user (user_of caller) true true) _ (λ actor _.
        >>=-Yields (Quiet s) (found (find_first (has_account user_id) s.users) _) _ (λ user _.
          >>=-Yields (Quiet s)
            (require (not (user.account.is_admin || user.account.id == actor.id)) _) _
            (λ _ _.
              decided (is_approved status)
                (record s {
                  users = update_where (has_account user_id) (with_status status) s.users;
                  audits =
                      s.audits
                      ++ record { actor_id = actor.id; user_id = user_id; action = status } ∷ [];
                })
                (record { challenges = refl; outbox = refl; identities = refl })))))
      same
  where
    decided : (b : Bool) (t : Site) → Quiet s t → Quiet s (if b then t else shut_out up user_id t)
    decided true t q = q
    decided false t q =
        unfold shut_out in
        record { challenges = q.challenges; outbox = q.outbox; identities = q.identities }

pub limited-Quiet :
    (sec : Secrets) (now : ℕ) (kind : String) (value : Text) (limit seconds : ℕ) (s : Site)
    → Quiet s (limited sec now kind value limit seconds s).1
unfolding limited
limited-Quiet sec now kind value limit seconds s = record {
  challenges = refl;
  outbox = refl;
  identities = refl;
}

-- The challenges before, or with an attempt at one of them.
pub data Tried (id : ℕ) (cs : List Challenge) : List Challenge → Type 0 where
  kept : Tried id cs cs
  used : Tried id cs (update_where (has_id id) spent cs)
  wrong : Tried id cs (update_where (has_id id) tried cs)

consume_challenge-Tried :
    (digest : ℕ → Text → ℕ) (now id : ℕ) (phone : Text) (purpose : Purpose) (code : Text)
    (cs : List Challenge)
    → Tried id cs (consume_challenge digest now id phone purpose code cs).1
consume_challenge-Tried digest now id phone purpose code cs =
    elim (consume_challenge_cases digest now id phone purpose code cs) [
      | inl e ↦ rw e kept
      | inr (c, hash, f, e, inl (same, t)) ↦ rw t used
      | inr (c, hash, f, e, inr t) ↦ rw t wrong
    ]

-- A session with a code, whose rest touches none of the three tables.
pub spend-Tried {ℓ} :
    {A : Type ℓ} (sec : Secrets) (now id : ℕ) (phone : Text) (purpose : Purpose) (code : Text)
    (body : Site → Result (A × Site)) (s : Site)
    → ((t : Site) → Yields (Quiet t) (body t))
    → let t = (spend sec now id phone purpose code body s).1 in
      Tried id s.challenges t.challenges × (t.outbox ≡ s.outbox) × (t.identities ≡ s.identities)
unfolding and_then consume Yields
spend-Tried {A = A} sec now id phone purpose code body s quiet =
    go (consume_challenge sec.code_digest now id phone purpose code s.challenges)
      (consume_challenge-Tried sec.code_digest now id phone purpose code s.challenges)
  where
    finished :
        (pending : Site) (r : Result (A × Site))
        → Yields (Quiet pending) r
        → Tried id s.challenges pending.challenges
        → pending.outbox ≡ s.outbox
        → pending.identities ≡ s.identities
        → Tried id s.challenges (commit s r).1.challenges
          × ((commit s r).1.outbox ≡ s.outbox)
          × ((commit s r).1.identities ≡ s.identities)
    finished pending (ok (a, t)) q k o i =
        (subst (Tried id s.challenges) (sym q.challenges) k, q.outbox ∙ o, q.identities ∙ i)
    finished pending (raise e) q k o i = (kept, refl, refl)

    go :
        (r : Result Challenge × List Challenge)
        → Tried id s.challenges r.1
        → let t =
            (and_then
              (r.0, record s { challenges = r.1 })
              (λ _ pending. commit s (body pending))).1 in
          Tried id s.challenges t.challenges × (t.outbox ≡ s.outbox) × (t.identities ≡ s.identities)
    go (raise e, cs) k = (k, refl, refl)
    go (ok c, cs) k =
        finished (record s { challenges = cs }) (body (record s { challenges = cs })) (quiet _) k
          refl refl

pub start_flow-Quiet :
    (now chat : ℕ) (id : Option ℕ) (s : Site) → Quiet s (start_flow now chat id s)
unfolding start_flow
start_flow-Quiet now chat none s = same
start_flow-Quiet now chat (some id) s = record {
  challenges = ground arith;
  outbox = ground arith;
  identities = ground arith;
}

pub claim_phone-eq :
    (now chat sender : ℕ) (phone : Text) (s : Site)
    → let t = (claim_phone now chat sender phone s).1 in
      (t.challenges ≡ s.challenges) × (t.outbox ≡ s.outbox)
unfolding claim_phone
claim_phone-eq now chat sender phone s = (ground arith, ground arith)

admin_user-Quiet :
    (sec : Secrets) (id salt : ℕ) (phone password : Text) (s : Site)
    → Yields (Quiet s) (admin_user sec id salt phone password s)
unfolding admin_user Yields
admin_user-Quiet sec id salt phone password s = go (find_first (has_phone phone) s.users) refl
  where
    go :
        (o : Option User)
        → find_first (has_phone phone) s.users ≡ o
        → Yields (Quiet s) (admin_user sec id salt phone password s)
    go (some u) e = rw (e, admin_user) same
    go none e =
        rw (e, admin_user)
          (>>=-Yields (Quiet s) (require (not (is_empty password)) _) _ (λ _ _.
            >>=-Yields (Quiet s) (hash_password sec salt password) _
              (λ _ _. record { challenges = refl; outbox = refl; identities = refl })))

-- The start of the server deletes the challenges that expired a day ago.
pub bootstrap_body-Yields :
    (sec : Secrets) (now id salt : ℕ) (phone password : Text) (s : Site)
    → Yields
        (λ t.
          (t.challenges ≡ delete_where (challenge_expired now) s.challenges)
          × (t.outbox ≡ s.outbox)
          × (t.identities ≡ s.identities))
        (bootstrap_body sec now id salt phone password s)
unfolding bootstrap_body Yields
bootstrap_body-Yields sec now id salt phone password s =
    >>=-Yields _ (admin_user sec id salt phone password s) _ (λ r e.
      let q =
        Yields-ok (Quiet s) (admin_user sec id salt phone password s) r.0 r.1
          (admin_user-Quiet sec id salt phone password s) e in
      >>=-Yields _ (require r.0.account.is_admin _) _
        (λ _ _. (ap (delete_where (challenge_expired now)) q.challenges, q.outbox, q.identities)))

bootstrap_admin-eq :
    (sec : Secrets) (now id salt : ℕ) (typed password : Text) (s : Site)
    → let t = (bootstrap_admin sec now id salt typed password s).1 in
      (t.outbox ≡ s.outbox) × (t.identities ≡ s.identities)
unfolding bootstrap_admin
bootstrap_admin-eq sec now id salt typed password s = go (is_empty typed)
  where
    body : Text → Result (Unit {0} × Site)
    body phone = bootstrap_body sec now id salt phone password s

    go :
        (e : Bool)
        → let t = (if e then (ok tt, s) else commit s (normalize_phone false typed >>= body)).1 in
          (t.outbox ≡ s.outbox) × (t.identities ≡ s.identities)
    go true = (refl, refl)
    go false =
        commit-Yields (λ t. (t.outbox ≡ s.outbox) × (t.identities ≡ s.identities)) s _
          (>>=-Yields _ (normalize_phone false typed) body (λ phone _.
            Yields-map (body phone) (λ t x. (x.1, x.2))
              (bootstrap_body-Yields sec now id salt phone password s)))
          (refl, refl)

pub bootstrap_admin-outbox :
    (sec : Secrets) (now id salt : ℕ) (typed password : Text) (s : Site)
    → (bootstrap_admin sec now id salt typed password s).1.outbox ≡ s.outbox
bootstrap_admin-outbox sec now id salt typed password s =
    (bootstrap_admin-eq sec now id salt typed password s).0

pub bootstrap_admin-identities :
    (sec : Secrets) (now id salt : ℕ) (typed password : Text) (s : Site)
    → (bootstrap_admin sec now id salt typed password s).1.identities ≡ s.identities
bootstrap_admin-identities sec now id salt typed password s =
    (bootstrap_admin-eq sec now id salt typed password s).1
