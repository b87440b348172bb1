-- ===== src/Accounts/Startup.antt =====
-- app/auth.py: `bootstrap_admin`, with its deletion of what has expired.
use voice_2_text.Prelude.{
  ℕ, ◌+◌, ltb, Bool, true, false, not, none, some, [], ◌∷◌, ◌++◌, Text, is_empty, find_first,
  update_where, delete_where, if◌then◌else◌,
}
use voice_2_text.Http.{Result, ok, HttpError, require, commit, ◌>>=◌, ◌>>◌}
use voice_2_text.Database.{Job}
use voice_2_text.Auth.{UserStatus}
use voice_2_text.Auth.Challenges.{Challenge}
use voice_2_text.Auth.Logins.{LoginSession}
use voice_2_text.Auth.Phones.{normalize_phone}
use voice_2_text.Accounts.{User, Site, Secrets, has_phone, hash_password}

-- the name of the first administrator
abbrev pub admin_name : Text
admin_name = 1605 ∷ 1583 ∷ 1740 ∷ 1585 ∷ 32 ∷ 1587 ∷ 1575 ∷ 1605 ∷ 1575 ∷ 1606 ∷ 1607 ∷ []

abbrev pub has_no_owner : Job → Bool
has_no_owner j = elim j.owner_id [ none ↦ true | some _ ↦ false ]

abbrev pub owned_by : ℕ → Job → Job
owned_by id j = record j { owner_id = some id }

abbrev pub login_expired : ℕ → LoginSession → Bool
login_expired now l = ltb l.expires_at now

-- `expires_at < now - 86400`
abbrev pub challenge_expired : ℕ → Challenge → Bool
challenge_expired now c = ltb (c.expires_at + 86400) now

unfoldable pub new_admin : ℕ → Text → ℕ → User
new_admin id phone hash = record {
  account = record {
    id = id;
    phone = phone;
    full_name = admin_name;
    status = UserStatus.approved;
    is_admin = true;
  };
  password_hash = hash;
}

-- the account of the phone, made now if there is none
unfoldable pub admin_user : Secrets → ℕ → ℕ → Text → Text → Site → Result (User × Site)
admin_user sec id salt phone password s = elim (find_first (has_phone phone) s.users) [
  | some user ↦ ok (user, s)
  | none ↦ do
    require (not (is_empty password)) HttpError.server_error
    hash ← hash_password sec salt password
    let user = new_admin id phone hash
    ok (user, record s { users = s.users ++ user ∷ [] })
]

unfoldable pub bootstrap_body : Secrets → ℕ → ℕ → ℕ → Text → Text → Site → Result (Unit {0} × Site)
bootstrap_body sec now id salt phone password s = do
  r ← admin_user sec id salt phone password s
  require r.0.account.is_admin HttpError.server_error
  ok (
    tt,
    record r.1 {
      work = record r.1.work {
        jobs = update_where has_no_owner (owned_by r.0.account.id) r.1.work.jobs;
      };
      logins = delete_where (login_expired now) r.1.logins;
      challenges = delete_where (challenge_expired now) r.1.challenges;
    },
  )

-- The settings `BOOTSTRAP_ADMIN_PHONE` and `BOOTSTRAP_ADMIN_PASSWORD`; an error ends the process.
unfoldable pub bootstrap_admin : Secrets → ℕ → ℕ → ℕ → Text → Text → Site → Result (Unit {0}) × Site
bootstrap_admin sec now id salt typed password s =
    if is_empty typed
    then (ok tt, s)
    else commit s
        (do phone ← normalize_phone false typed; bootstrap_body sec now id salt phone password s)
