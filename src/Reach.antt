-- ===== src/Reach.antt =====
-- The transactions of the account API and of the Bale bot (app/accounts.py, app/bale.py) as steps of
-- the site, which the processes take in any order.
pub mod Contacts
pub mod Handlers
pub mod Frames
pub mod Codes
pub mod Phones
pub mod Accounts
pub mod Roles
use voice_2_text.Prelude.{
  ℕ, ◌+◌, ◌≡◌, ◌≢◌, refl, Bool, true, false, Option, none, some, String, List, [], ◌∷◌, ◌++◌, Text,
  All, Memᴰ, is_empty,
}
use voice_2_text.Http.{Result, ok, raise, commit}
use voice_2_text.Config.{Config}
use voice_2_text.Database.{World}
use voice_2_text.Auth.{Account, UserStatus}
use voice_2_text.Auth.Challenges.{Challenge, Purpose}
use voice_2_text.Accounts.{
  User, Site, Secrets, Message, Caller, limited, spend, bale_login_body, signup_body,
}
use voice_2_text.Accounts.Passwords.{
  password_login_body, reset_password_body, change_password_body, logout,
}
use voice_2_text.Accounts.Admin.{set_status}
use voice_2_text.Accounts.Startup.{bootstrap_admin}
use voice_2_text.Bale.{
  Update, start, contact, prepare_code, confirm_code, post, start_flow, claim_phone,
}
use voice_2_text.Auth.Phones.{normalize_phone}
use voice_2_text.Bale.Requests.{request_body}

-- a random id of a challenge, which none has had before
abbrev pub IsNewChallenge : ℕ → Site → Type 0
IsNewChallenge id s = All (λ c. c.id ≢ id) s.challenges × All (λ m. m.challenge_id ≢ id) s.outbox

-- a random id of an account
abbrev pub IsNewUser : ℕ → Site → Type 0
IsNewUser id s = All (λ u. u.account.id ≢ id) s.users

-- A private message with which a person shares a contact of its own, not forwarded, with this number.
pub record IsOwnContact (u : Update) (sender : ℕ) (phone : Text) : Type 0 where
  pub number : Text
  pub content : u.content ≡ contact (some sender) false number
  pub normal : normalize_phone true number ≡ ok phone
  pub private : u.is_private ≡ true
  pub person : u.is_bot ≡ false
  pub from : u.sender_id ≡ some sender
  pub chat : u.chat_id ≡ sender

-- the start of the bot in a private chat with a person
pub record IsStart (u : Update) (id : Option ℕ) : Type 0 where
  pub content : u.content ≡ start id
  pub private : u.is_private ≡ true
  pub person : u.is_bot ≡ false
  pub chat : u.sender_id ≡ some u.chat_id

pub data Step (config : Config) (sec : Secrets) (now : ℕ) (s : Site) : Site → Type 0 where
  limits :
      (kind : String) (value : Text) (limit seconds : ℕ)
      → Step config sec now s (limited sec now kind value limit seconds s).1
  requests :
      (id : ℕ) (phone : Text) (purpose : Purpose)
      → IsNewChallenge id s
      → Step config sec now s (commit s (request_body config now id phone purpose s)).1
  prepares :
      (id chat : ℕ) (code : Text) {c : Challenge} {t : Site}
      → prepare_code sec now id chat code s ≡ some (c, t)
      → Step config sec now s t
  -- the first session of a delivery, and the message that Bale has taken
  sends :
      (id chat : ℕ) (code : Text) {c : Challenge} {t : Site}
      → prepare_code sec now id chat code s ≡ some (c, t)
      → Step config sec now s (post chat c code t)
  confirms :
      (m : Message)
      → Memᴰ m s.outbox
      → Step config sec now s (confirm_code sec m.challenge_id m.code s)
  starts :
      (u : Update) (id : Option ℕ)
      → IsStart u id
      → Step config sec now s (start_flow now u.chat_id id s)
  claims :
      (u : Update) (sender : ℕ) (phone : Text)
      → IsOwnContact u sender phone
      → Step config sec now s (claim_phone now u.chat_id sender phone s).1
  logs_in :
      (id : ℕ) (phone code token : Text) (csrf : ℕ)
      → Step config sec now s
          (spend sec now id phone Purpose.login code
            (bale_login_body config sec now phone token csrf)
            s).1
  signs_up :
      (id : ℕ) (phone code : Text) (user_id : ℕ) (name : Text) (hash : ℕ) (token : Text) (csrf : ℕ)
      → IsNewUser user_id s
      → Step config sec now s
          (spend sec now id phone Purpose.signup code
            (signup_body config sec now user_id phone name hash token csrf)
            s).1
  resets :
      (id : ℕ) (phone code : Text) (hash : ℕ)
      → Step config sec now s
          (spend sec now id phone Purpose.reset code (reset_password_body phone hash) s).1
  enters :
      (phone password token : Text) (csrf : ℕ)
      → Step config sec now s
          (commit s (password_login_body config sec now phone password token csrf s)).1
  changes :
      (current : Account) (old password : Text) (salt : ℕ) (token : Text) (csrf : ℕ)
      → Step config sec now s
          (commit s (change_password_body config sec now current old password salt token csrf s)).1
  logs_out : (caller : Caller) → Step config sec now s (logout caller s).1
  decides :
      (up : Bool) (caller : Caller) (user_id : ℕ) (status : UserStatus)
      → Step config sec now s (set_status up caller user_id status s).1
  boots :
      (id salt : ℕ) (typed password : Text)
      → IsNewUser id s
      → Step config sec now s (bootstrap_admin sec now id salt typed password s).1
  -- the handlers of jobs and the workers
  works : (w : World) → Step config sec now s (record s { work = w })

-- The steps of all processes, each at its own time.
pub data Steps (config : Config) (sec : Secrets) (s : Site) : Site → Type 0 where
  stay : Steps config sec s s
  later :
      {t u : Site} (now : ℕ) → Steps config sec s t → Step config sec now t u → Steps config sec s u

module _ {config : Config} {sec : Secrets} where
  pub one : {s t : Site} (now : ℕ) → Step config sec now s t → Steps config sec s t
  one now step = later now stay step

  infixr 5 ◌⨟◌
  pub ◌⨟◌ : {s t u : Site} → Steps config sec s t → Steps config sec t u → Steps config sec s u
  a ⨟ stay = a
  a ⨟ later now b step = later now (a ⨟ b) step

  -- What every step keeps, every sequence of steps keeps.
  pub Steps-keep {ℓ} :
      (P : Site → Type ℓ)
      → ((s t : Site) (now : ℕ) → Step config sec now s t → P s → P t)
      → {s t : Site} → Steps config sec s t
      → P s
      → P t
  Steps-keep P keep stay p = p
  Steps-keep P keep (later now a step) p = keep _ _ now step (Steps-keep P keep a p)
