-- ===== src/Tests/Accounts.antt =====
-- The theorems on accounts, the bot and the boundary, at a site with one account.
use mathlib.Core.List.Memᴰ.{head}
use voice_2_text.Prelude
use voice_2_text.Auth
use voice_2_text.Accounts
use voice_2_text.Bale
use voice_2_text.Prelude.{
  ℕ, ◌+◌, ◌≡◌, ◌≢◌, ◌<◌, refl, Bool, true, false, Option, none, some, List, [], ◌∷◌, Text, All,
  exists, find_first, arith, codes, length, strip,
}
use voice_2_text.Http.{ok}
use voice_2_text.Database.{JobStatus, Stage, World}
use voice_2_text.Auth.{Account, UserStatus}
use voice_2_text.Auth.Challenges.{Challenge, Purpose, latin_digits}
use voice_2_text.Auth.Logins.{LoginSession, has_hash, is_account}
use voice_2_text.Auth.Phones.{normalize_phone, normalize_phone-normal, is_digit}
use voice_2_text.Accounts.{
  User, Site, Secrets, Login, Caller, Message, BaleIdentity, bale_login, user_of, has_account,
  accounts_of,
}
use voice_2_text.Accounts.{has_phone, logged_in}
use voice_2_text.Accounts.Passwords.{reset_password, password_login}
use voice_2_text.Accounts.Passwords.Reset.{reset_password-login}
use voice_2_text.Accounts.Admin.{set_status, active_of}
use voice_2_text.Accounts.Admin.Suspension.{set_status-shut_out}
use voice_2_text.Bale
use voice_2_text.Bale.{is_tied, Update, Content, process_update}
use voice_2_text.Bale.Requests
use voice_2_text.Bale.Ties.{Claimed, process_update-identities}
use voice_2_text.Bale.Accepted.{brought}
use voice_2_text.Reach.{
  Step, Steps, stay, later, one, IsOwnContact, requests, starts, sends, confirms, claims, boots,
}
use voice_2_text.Reach.Codes.{bale_login-reached}
use voice_2_text.Reach.Phones.{OneToOne, reached-OneToOne}
use voice_2_text.Reach.Roles.{reached-DistinctUsers}
use voice_2_text.Reach.Accounts.{DistinctUsers, Has}
use voice_2_text.Boundary
use voice_2_text.Boundary.{
  Request, Method, account_boundary, account_boundary-passed, is_administrator, is_unsafe,
  is_own_origin, expected_origin,
}
use voice_2_text.Accounts.Startup.{admin_name}
use voice_2_text.Tests.{settings, sina, job_at}

abbrev phone : Text
phone = codes "09120000000"

-- digits that are typed in Persian
normalize_phone-normal_example :
    (rest : Text) × (phone ≡ 48 ∷ 57 ∷ rest)
    × (length phone ≡ 11)
    × All (λ c. is_digit c ≡ true) phone
    × (normalize_phone true phone ≡ ok phone)
unfolding Auth.Phones.normalize_phone Auth.Phones.is_phone Auth.Phones.drop_prefix
    Auth.Phones.all_digits latin_digits Auth.Challenges.latin_digit Prelude.strip Prelude.lstrip
    Prelude.is_space Prelude.delete_where
normalize_phone-normal_example =
    normalize_phone-normal false true (1776 ∷ 1785 ∷ codes "120000000") phone refl

abbrev secrets : Secrets
secrets = record {
  digest = length;
  code_digest = λ id code. id + length code;
  hash = λ salt password. salt + length password;
  verify = λ hash password. true;
  bucket_key = λ kind value. length value;
}

abbrev owner : Account
owner = record sina { phone = phone }

abbrev admin : Account
admin = record {
  id = 1;
  phone = codes "09130000000";
  full_name = [];
  status = UserStatus.approved;
  is_admin = true;
}

abbrev work : World
work = record {
  jobs = job_at JobStatus.running Stage.transcribing false ∷ [];
  clips = [];
  blocks = [];
  redis = [];
  audio = [];
  results = [];
}

abbrev site : Site
site = record {
  work = work;
  users =
      record { account = owner; password_hash = 3 }
      ∷ record { account = admin; password_hash = 4 }
      ∷ [];
  logins = record { token_hash = 2; user_id = 7; csrf_token = 8; expires_at = 900 } ∷ [];
  challenges = [];
  buckets = [];
  identities = record { phone = phone; user_id = 9; chat_id = 9 } ∷ [];
  flows = [];
  audits = [];
  outbox = [];
}

abbrev suspended : Account
suspended = record owner { status = UserStatus.suspended }

set_status-shut_out_example :
    let t = (set_status true (some (admin, (1, 1))) 7 UserStatus.suspended site).1 in
    (actor : Account) × (user : User) × (user_of (some (admin, (1, 1))) ≡ some actor)
    × (actor.status ≡ UserStatus.approved)
    × (actor.is_admin ≡ true)
    × (find_first (has_account 7) site.users ≡ some user)
    × (user.account.is_admin ≡ false)
    × (actor.id ≢ 7)
    × (suspended ≡ record user.account { status = UserStatus.suspended })
    × All (λ l. l.user_id ≢ 7) t.logins
    × All (λ j. active_of 7 j ≡ false) t.work.jobs
unfolding set_status Accounts.Admin.set_status_body Auth.require_user Prelude.find_first
    Prelude.same_text
set_status-shut_out_example =
    set_status-shut_out true (some (admin, (1, 1))) 7 UserStatus.suspended site suspended refl refl

-- A code is asked for, the link is opened, the phone is shared, the code is sent and confirmed.
abbrev stranger : Site
stranger = record site { identities = []; flows = [] }

abbrev asked : Site
asked = record stranger {
  challenges =
      record {
        id = 5;
        phone = phone;
        purpose = Purpose.login;
        code_hash = none;
        expires_at = 400;
        attempts = 0;
        delivered = false;
        used = false;
        created_at = 100;
      }
      ∷ [];
}

abbrev hello : Update
hello = record {
  is_private = true;
  is_bot = false;
  chat_id = 9;
  sender_id = some 9;
  content = Content.start (some 5);
}

abbrev sharing : Update
sharing = record hello { content = Content.contact (some 9) false (codes "+989120000000") }

abbrev opened : Site
opened = record asked { flows = record { chat_id = 9; challenge_id = 5; expires_at = 400 } ∷ [] }

abbrev tied : Site
tied = record opened { identities = record { phone = phone; user_id = 9; chat_id = 9 } ∷ [] }

abbrev message : Message
message = record { chat_id = 9; challenge_id = 5; code = codes "123456" }

abbrev sent : Site
sent = record tied {
  challenges =
      record {
        id = 5;
        phone = phone;
        purpose = Purpose.login;
        code_hash = some 11;
        expires_at = 400;
        attempts = 0;
        delivered = false;
        used = false;
        created_at = 100;
      }
      ∷ [];
  outbox = message ∷ [];
}

abbrev confirmed : Site
confirmed = record sent {
  challenges =
      record {
        id = 5;
        phone = phone;
        purpose = Purpose.login;
        code_hash = some 11;
        expires_at = 400;
        attempts = 0;
        delivered = true;
        used = false;
        created_at = 100;
      }
      ∷ [];
}

asking : Step settings secrets 100 stranger asked
unfolding Bale.Requests.request_body Bale.Requests.new_challenge Prelude.exists Prelude.update_where
    Prelude.find_first Prelude.same_text
asking = requests 5 phone Purpose.login (tt, tt)

opening : Step settings secrets 102 asked opened
unfolding Bale.start_flow Bale.merge_flow Prelude.find_first Prelude.exists
opening =
    starts hello (some 5) (record { content = refl; private = refl; person = refl; chat = refl })

own_contact : IsOwnContact sharing 9 phone
unfolding Auth.Phones.normalize_phone Auth.Phones.is_phone Auth.Phones.drop_prefix
    Auth.Phones.all_digits Auth.Phones.local_form latin_digits Auth.Challenges.latin_digit
    Prelude.strip Prelude.lstrip Prelude.is_space Prelude.delete_where
own_contact = record {
  number = codes "+989120000000";
  content = refl;
  normal = refl;
  private = refl;
  person = refl;
  from = refl;
  chat = refl;
}

claiming : Step settings secrets 104 opened tied
unfolding Bale.claim_phone Bale.flow_challenge Bale.may_claim Bale.merge_identity Prelude.find_first
    Prelude.exists Prelude.same_text
claiming = claims sharing 9 phone own_contact

sending : Step settings secrets 110 tied sent
unfolding Bale.prepare_code Prelude.update_where Prelude.find_first Prelude.same_text
sending = sends 5 9 (codes "123456") refl

confirming : Step settings secrets 120 sent confirmed
unfolding Bale.confirm_code Prelude.update_where
confirming = confirms message (head refl)

arrival : Steps settings secrets stranger confirmed
arrival =
    later 120 (later 110 (later 104 (later 102 (one 100 asking) opening) claiming) sending)
      confirming

abbrev reply : Login
reply = record { user = owner; token = 65 ∷ []; csrf = 6 }

bale_login-reached_example :
    OneToOne confirmed.identities
    × (exists
          (brought secrets confirmed.identities 5 phone (latin_digits (strip (codes "123456"))))
          confirmed.outbox
        ≡ true)
unfolding bale_login Accounts.code_limits Accounts.limited Accounts.and_then Accounts.consume
    Auth.Challenges.consume_challenge Auth.Challenges.open_hash Auth.Challenges.spent
    Accounts.bale_login_body Accounts.logged_in Auth.Limits.rate_limit Auth.Limits.rate_limit_body
    Auth.Limits.current Auth.Phones.normalize_phone Auth.Phones.is_phone Auth.Phones.drop_prefix
    Auth.Phones.all_digits latin_digits Auth.Challenges.latin_digit Prelude.strip Prelude.lstrip
    Prelude.is_space Prelude.delete_where Prelude.find_first Prelude.same_text Prelude.update_where
bale_login-reached_example =
    bale_login-reached settings secrets stranger confirmed 130 [] 5 phone (codes "123456") (65 ∷ [])
      6 reply refl refl refl arrival refl

process_update-identities_example :
    Claimed 104 sharing opened
      (process_update secrets 104 (codes "123456") true (λ s. s) sharing opened)
process_update-identities_example =
    process_update-identities secrets 104 (codes "123456") true (λ s. s) (λ v. refl) sharing opened

reached-OneToOne_example :
    OneToOne tied.identities
    × (exists (is_tied phone 9) tied.identities ≡ true
        → exists (is_tied phone 9) tied.identities ≡ true)
reached-OneToOne_example =
    reached-OneToOne settings secrets opened tied tied phone 9 refl (one 104 claiming) stay

-- A site without accounts, whose first start makes the administrator.
abbrev bare : Site
bare = record site { work = record work { jobs = [] }; users = []; logins = [] }

abbrev first_admin : User
first_admin = record {
  account = record {
    id = 1;
    phone = phone;
    full_name = admin_name;
    status = UserStatus.approved;
    is_admin = true;
  };
  password_hash = 10;
}

abbrev booted : Site
booted = record bare { users = first_admin ∷ [] }

booting : Step settings secrets 50 bare booted
unfolding Accounts.Startup.bootstrap_admin Accounts.Startup.bootstrap_body
    Accounts.Startup.admin_user Accounts.Startup.new_admin Accounts.hash_password
    Auth.Phones.normalize_phone Auth.Phones.is_phone Auth.Phones.drop_prefix Auth.Phones.all_digits
    latin_digits Auth.Challenges.latin_digit Prelude.strip Prelude.lstrip Prelude.is_space
    Prelude.delete_where Prelude.find_first Prelude.same_text Prelude.update_where
booting = boots 1 2 phone (codes "password") tt

reached-DistinctUsers_example : DistinctUsers booted.users × Has 1 phone true booted.users
reached-DistinctUsers_example =
    reached-DistinctUsers settings secrets bare booted booted first_admin refl (one 50 booting) stay
      (unfold Prelude.find_first in refl)

abbrev request : Request
request = record {
  path = codes "/api/jobs";
  method = Method.post;
  origin = none;
  csrf = some 8;
  token = some (65 ∷ 66 ∷ []);
}

account_boundary-passed_example :
    (token : Text) × (login : LoginSession) × (user : Account) × (request.token ≡ some token)
    × (find_first (has_hash (length token)) site.logins ≡ some login)
    × (100 < login.expires_at)
    × (find_first (is_account login.user_id) (accounts_of site.users) ≡ some user)
    × (some owner ≡ some user)
    × (user.status ≡ UserStatus.approved)
    × (is_administrator request.path ≡ true → user.is_admin ≡ true)
    × (is_unsafe request.method ≡ true
        → (is_own_origin (expected_origin [] (codes "https://voice.ir/")) request.origin ≡ true)
          × (request.csrf ≡ some login.csrf_token))
unfolding account_boundary Boundary.admit Boundary.is_workspace Boundary.is_administrator
    Boundary.is_account_page Boundary.expected_origin Accounts.session_of Auth.Logins.lookup_session
    accounts_of Auth.Phones.drop_prefix Prelude.find_first Prelude.same_text
account_boundary-passed_example =
    account_boundary-passed secrets 100 [] (codes "https://voice.ir/") request site
      (some (owner, (2, 8))) refl refl

abbrev resetting : Site
resetting = record confirmed {
  challenges =
      record {
        id = 5;
        phone = phone;
        purpose = Purpose.reset;
        code_hash = some 11;
        expires_at = 400;
        attempts = 0;
        delivered = true;
        used = false;
        created_at = 100;
      }
      ∷ [];
}

reset_done :
    (reset_password secrets 130 [] 5 phone (codes "password") (codes "123456") 2 resetting).0
    ≡ ok tt
unfolding reset_password Accounts.Passwords.reset_password_body Accounts.Passwords.replaced
    Accounts.hash_password Accounts.code_limits Accounts.limited Accounts.and_then Accounts.consume
    Auth.Challenges.consume_challenge Auth.Challenges.open_hash Auth.Challenges.spent
    Auth.Limits.rate_limit Auth.Limits.rate_limit_body Auth.Limits.current
    Auth.Phones.normalize_phone Auth.Phones.is_phone Auth.Phones.drop_prefix Auth.Phones.all_digits
    latin_digits Auth.Challenges.latin_digit Prelude.strip Prelude.lstrip Prelude.is_space
    Prelude.delete_where Prelude.find_first Prelude.same_text Prelude.update_where
reset_done = refl

abbrev renewed : Site
renewed = (reset_password secrets 130 [] 5 phone (codes "password") (codes "123456") 2 resetting).1

reset_password-login_example :
    (user : User) × (find_first (has_phone phone) resetting.users ≡ some user)
    × All (λ l. l.user_id ≢ user.account.id) renewed.logins
    × ((password_login settings secrets 140 [] phone (codes "password") (65 ∷ []) 6 renewed).0
        ≡ ok (record { user = user.account; token = 65 ∷ []; csrf = 6 }))
unfolding Auth.Phones.normalize_phone Auth.Phones.is_phone Auth.Phones.drop_prefix
    Auth.Phones.all_digits latin_digits Auth.Challenges.latin_digit Prelude.strip Prelude.lstrip
    Prelude.is_space Prelude.delete_where Accounts.limited Auth.Limits.rate_limit
    Auth.Limits.rate_limit_body Auth.Limits.current Prelude.find_first Prelude.update_where
    reset_password Accounts.code_limits Accounts.and_then Accounts.consume Accounts.hash_password
    Auth.Challenges.consume_challenge Auth.Challenges.open_hash Auth.Challenges.spent
    Accounts.Passwords.reset_password_body Accounts.Passwords.replaced Prelude.same_text
reset_password-login_example =
    reset_password-login secrets 130 [] 5 phone (codes "password") (codes "123456") 2 resetting
      settings 140 [] phone (65 ∷ []) 6 reset_done refl refl refl refl
