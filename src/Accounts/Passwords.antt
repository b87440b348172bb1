-- ===== src/Accounts/Passwords.antt =====
-- app/accounts.py: the handlers about passwords, and `logout`.
pub mod Reset
use voice_2_text.Prelude.{
  ℕ, ◌==◌, Bool, false, none, some, [], ◌∷◌, Text, find_first, update_where, delete_where,
}
use voice_2_text.Http.{Result, ok, raise, HttpError, require, found, commit, ◌>>=◌, ◌>>◌}
use voice_2_text.Config.{Config}
use voice_2_text.Auth.{Account, require_user}
use voice_2_text.Auth.Challenges.{Purpose}
use voice_2_text.Auth.Logins.{LoginSession, has_hash}
use voice_2_text.Auth.Phones.{normalize_phone}
use voice_2_text.Accounts.{
  User, Site, Secrets, Login, Caller, user_of, and_then, has_phone, has_account, limited,
  code_limits, spend, logged_in, hash_password, check_password,
}

unfoldable pub password_login_body :
    Config → Secrets → ℕ → Text → Text → Text → ℕ → Site → Result (Login × Site)
password_login_body config sec now phone password token csrf s = do
  user ← found (find_first (has_phone phone) s.users) HttpError.unauthorized
  require (check_password sec (some user.password_hash) password) HttpError.unauthorized
  ok (logged_in config sec now token csrf user.account s)

unfoldable pub password_login :
    Config → Secrets → ℕ → Text → Text → Text → Text → ℕ → Site → Result Login × Site
password_login config sec now client typed password token csrf before =
    and_then (normalize_phone false typed, before)
      (λ phone s. and_then (limited sec now "password-ip" client 30 600 s) (λ _ s.
        and_then (limited sec now "password-phone" phone 10 600 s)
          (λ _ s. commit s (password_login_body config sec now phone password token csrf s))))

abbrev pub login_of : ℕ → LoginSession → Bool
login_of user_id l = l.user_id == user_id

abbrev pub with_password : ℕ → User → User
with_password hash u = record u { password_hash = hash }

-- a new password, after which all logins of the account are gone
unfoldable pub replaced : ℕ → User → Site → Site
replaced hash user s = record s {
  users = update_where (has_account user.account.id) (with_password hash) s.users;
  logins = delete_where (login_of user.account.id) s.logins;
}

unfoldable pub reset_password_body : Text → ℕ → Site → Result (Unit {0} × Site)
reset_password_body phone hash s = do
  user ← found (find_first (has_phone phone) s.users) HttpError.bad_request
  ok (tt, replaced hash user s)

unfoldable pub reset_password :
    Secrets → ℕ → Text → ℕ → Text → Text → Text → ℕ → Site → Result (Unit {0}) × Site
reset_password sec now client id typed password code salt before =
    and_then (code_limits sec now client before) (λ _ s.
      and_then (normalize_phone false typed, s)
        (λ phone s.
          and_then (hash_password sec salt password, s)
            (λ hash s.
              spend sec now id phone Purpose.reset code (reset_password_body phone hash) s)))

unfoldable pub change_password_body :
    Config → Secrets → ℕ → Account → Text → Text → ℕ → Text → ℕ → Site → Result (Login × Site)
change_password_body config sec now current old password salt token csrf s = do
  user ← found (find_first (has_account current.id) s.users) HttpError.server_error
  require (check_password sec (some user.password_hash) old) HttpError.bad_request
  hash ← hash_password sec salt password
  ok (logged_in config sec now token csrf user.account (replaced hash user s))

unfoldable pub change_password :
    Config → Secrets → ℕ → Caller → Text → Text → ℕ → Text → ℕ → Site → Result Login × Site
change_password config sec now caller old password salt token csrf before =
    and_then (require_user (user_of caller) false false, before)
      (λ current s. and_then (limited sec now "change-password" (current.id ∷ []) 10 600 s) (λ _ s.
        commit s (change_password_body config sec now current old password salt token csrf s)))

unfoldable pub logout : Caller → Site → Result (Unit {0}) × Site
logout none s = (raise HttpError.unauthorized, s)
logout (some (user, (hash, csrf))) s =
    (ok tt, record s { logins = delete_where (has_hash hash) s.logins })

-- the account and the CSRF token of the caller
unfoldable pub me : Caller → Result (Account × ℕ)
me none = raise HttpError.unauthorized
me (some (user, (hash, csrf))) = ok (user, csrf)
