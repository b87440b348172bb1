-- ===== src/Accounts.antt =====
-- app/accounts.py: the state that its handlers share, and the requests for codes and logins. The
-- other handlers are in the modules below.
pub mod Passwords
pub mod Admin
pub mod Startup
use voice_2_text.Prelude.{
  ℕ, ◌+◌, ◌==◌, ◌≡◌, refl, ltb, leb, Bool, true, false, not, ◌&&◌, ◌||◌, Option, none, some, String,
  List, [], ◌∷◌, ◌++◌, Text, length, strip, same_text, map, find_first, update_where, delete_where,
  exists, if◌then◌else◌,
}
use voice_2_text.Http.{Result, ok, raise, HttpError, require, found, commit, ◌>>=◌, ◌>>◌}
use voice_2_text.Config.{Config}
use voice_2_text.Database.{World}
use voice_2_text.Auth.{Account, UserStatus, require_user}
use voice_2_text.Auth.Limits.{RateBucket, rate_limit}
use voice_2_text.Auth.Challenges.{Challenge, Purpose, consume_challenge, has_id}
use voice_2_text.Auth.Logins.{LoginSession, issue_session, lookup_session}
use voice_2_text.Auth.Phones.{normalize_phone}

-- A row of `users`; `account` is its `to_dict`.
pub record User : Type 0 where
  pub account : Account
  pub password_hash : ℕ

pub record BaleIdentity : Type 0 where
  pub phone : Text
  pub user_id : ℕ
  pub chat_id : ℕ

pub record BaleFlow : Type 0 where
  pub chat_id : ℕ
  pub challenge_id : ℕ
  pub expires_at : ℕ

pub record Audit : Type 0 where
  pub actor_id : ℕ
  pub user_id : ℕ
  pub action : UserStatus

-- A message with a code that has left for a chat.
pub record Message : Type 0 where
  pub chat_id : ℕ
  pub challenge_id : ℕ
  pub code : Text

-- The tables of the accounts, beside those of the jobs; `outbox` is newest first.
pub record Site : Type 0 where
  pub work : World
  pub users : List User
  pub logins : List LoginSession
  pub challenges : List Challenge
  pub buckets : List RateBucket
  pub identities : List BaleIdentity
  pub flows : List BaleFlow
  pub audits : List Audit
  pub outbox : List Message

-- The libraries for hashes: the SHA-256 of a token, the HMAC of a code, Argon2 with its salt, and the
-- key of a rate bucket. Their values are compared only.
pub record Secrets : Type 0 where
  pub digest : Text → ℕ
  pub code_digest : ℕ → Text → ℕ
  pub hash : ℕ → Text → ℕ
  pub verify : ℕ → Text → Bool
  pub bucket_key : String → Text → ℕ

-- What `login_response` sends.
pub record Login : Type 0 where
  pub user : Account
  pub token : Text
  pub csrf : ℕ

-- `request.state`: what `lookup_session` has found
abbrev pub Caller : Type 0
Caller = Option (Account × (ℕ × ℕ))

abbrev pub user_of : Caller → Option Account
user_of none = none
user_of (some (a, _)) = some a

-- The next part of a handler, in the state that the part before has left, its error too.
unfoldable pub and_then {ℓ κ} :
    {A : Type ℓ} {B : Type κ} → Result A × Site → (A → Site → Result B × Site) → Result B × Site
and_then (ok a, s) k = k a s
and_then (raise e, s) k = (raise e, s)

pub and_then-eq-ok {ℓ κ} :
    {A : Type ℓ} {B : Type κ} (r : Result A × Site) (k : A → Site → Result B × Site) (b : B)
    → (and_then r k).0 ≡ ok b
    → (a : A) × (r.0 ≡ ok a) × (and_then r k ≡ k a r.1)
unfolding and_then
and_then-eq-ok (ok a, s) k b h = (a, refl, refl)
and_then-eq-ok (raise e, s) k b h = absurd (cc)

abbrev pub has_phone : Text → User → Bool
has_phone phone u = same_text u.account.phone phone

abbrev pub has_account : ℕ → User → Bool
has_account id u = u.account.id == id

unfoldable pub accounts_of : List User → List Account
accounts_of us = map (λ u. u.account) us

-- the session of a token, of the whole site
unfoldable pub session_of : Secrets → ℕ → Option Text → Site → Caller
session_of sec now token s = lookup_session sec.digest now token (accounts_of s.users) s.logins

unfoldable pub limited : Secrets → ℕ → String → Text → ℕ → ℕ → Site → Result (Unit {0}) × Site
limited sec now kind value limit seconds s =
    let r = rate_limit now (sec.bucket_key kind value) limit seconds s.buckets in
    (r.0, record s { buckets = r.1 })

unfoldable pub code_limits : Secrets → ℕ → Text → Site → Result (Unit {0}) × Site
code_limits sec now client s = limited sec now "code-ip" client 40 600 s

-- `consume_challenge` in a session of the caller: a wrong code is committed, the right one pending.
unfoldable pub consume : Secrets → ℕ → ℕ → Text → Purpose → Text → Site → Result Challenge × Site
consume sec now id phone purpose code s =
    let r = consume_challenge sec.code_digest now id phone purpose code s.challenges in
    (r.0, record s { challenges = r.1 })

-- the session of a handler that takes a code: an error after the right code rolls its use back
abbrev pub spend {ℓ} :
    {A : Type ℓ}
    → Secrets
    → ℕ
    → ℕ
    → Text
    → Purpose
    → Text
    → (Site → Result (A × Site))
    → Site
    → Result A × Site
spend sec now id phone purpose code body s =
    and_then (consume sec now id phone purpose code s) (λ _ pending. commit s (body pending))

-- `issue_session`, with the fresh token and CSRF token
unfoldable pub logged_in : Config → Secrets → ℕ → Text → ℕ → Account → Site → Login × Site
logged_in config sec now token csrf user s = (
  record { user = user; token = token; csrf = csrf },
  record s { logins = issue_session config sec.digest now token csrf user s.logins },
)

unfoldable pub bale_login_body :
    Config → Secrets → ℕ → Text → Text → ℕ → Site → Result (Login × Site)
bale_login_body config sec now phone token csrf s = do
  user ← found (find_first (has_phone phone) s.users) HttpError.bad_request
  ok (logged_in config sec now token csrf user.account s)

unfoldable pub bale_login :
    Config → Secrets → ℕ → Text → ℕ → Text → Text → Text → ℕ → Site → Result Login × Site
bale_login config sec now client id typed code token csrf before =
    and_then (code_limits sec now client before) (λ _ s.
      and_then (normalize_phone false typed, s)
        (λ phone s.
          spend sec now id phone Purpose.login code
            (bale_login_body config sec now phone token csrf) s))

unfoldable pub new_user : ℕ → Text → Text → ℕ → User
new_user id phone name hash = record {
  account = record {
    id = id;
    phone = phone;
    full_name = name;
    status = UserStatus.pending;
    is_admin = false;
  };
  password_hash = hash;
}

unfoldable pub signup_body :
    Config → Secrets → ℕ → ℕ → Text → Text → ℕ → Text → ℕ → Site → Result (Login × Site)
signup_body config sec now user_id phone name hash token csrf s = do
  require (not (exists (has_phone phone) s.users)) HttpError.conflict
  let user = new_user user_id phone name hash
  ok (logged_in config sec now token csrf user.account (record s { users = s.users ++ user ∷ [] }))

-- hash_password, with its check of the length
unfoldable pub hash_password : Secrets → ℕ → Text → Result ℕ
hash_password sec salt password = do
  require (leb 8 (length password) && leb (length password) 128) HttpError.bad_request
  ok (sec.hash salt password)

unfoldable pub check_password : Secrets → Option ℕ → Text → Bool
check_password sec none password = false
check_password sec (some hash) password = sec.verify hash password

-- The account id, the salt, the token and the CSRF token are the fresh ones.
unfoldable pub signup :
    Config
    → Secrets
    → ℕ
    → Text
    → ℕ
    → Text
    → Text
    → Text
    → Text
    → ℕ
    → ℕ
    → Text
    → ℕ
    → Site
    → Result Login × Site
signup config sec now client id typed name password code user_id salt token csrf before =
    and_then (code_limits sec now client before) (λ _ s.
      and_then (normalize_phone false typed, s)
        (λ phone s.
          and_then (require (leb 2 (length (strip name))) HttpError.bad_request, s)
            (λ _ s.
              and_then (hash_password sec salt password, s)
                (λ hash s.
                  spend sec now id phone Purpose.signup code
                    (signup_body config sec now user_id phone (strip name) hash token csrf) s))))
