-- ===== src/Boundary.antt =====
-- app/main.py: `account_boundary`, which every request passes before its handler.
use mathlib.Core.List.{reverse}
use voice_2_text.Prelude.{
  ℕ, ◌==◌, ◌≡◌, refl, ap, ◌∙◌, Bool, true, false, not, ◌&&◌, ◌||◌, Option, none, some, [], ◌∷◌,
  Text, String, codes, same_text, is_empty, find_first, if◌then◌else◌, arith, ◌<◌,
}
use voice_2_text.Auth.{Account, UserStatus, is_approved}
use voice_2_text.Auth.Logins.{LoginSession, lookup_session-eq-some, has_hash, is_account}
use voice_2_text.Auth.Phones.{drop_prefix}
use voice_2_text.Accounts.{Site, Secrets, Caller, user_of, session_of, accounts_of}

pub data Method : Type 0 where
  get head options post put patch delete : Method

-- A request, as far as it is read here; the CSRF token is the header's, none when it is missing.
pub record Request : Type 0 where
  pub path : Text
  pub method : Method
  pub origin : Option Text
  pub csrf : Option ℕ
  pub token : Option Text

-- `method not in ("GET", "HEAD", "OPTIONS")`
abbrev pub is_unsafe : Method → Bool
is_unsafe get = false
is_unsafe head = false
is_unsafe options = false
is_unsafe _ = true

-- str.lstrip("/")
unfoldable pub drop_slashes : Text → Text
drop_slashes [] = []
drop_slashes (c ∷ cs) = let rest = drop_slashes cs in if c == 47 then rest else c ∷ cs

-- str.rstrip("/")
unfoldable pub strip_slashes : Text → Text
strip_slashes s = reverse (drop_slashes (reverse s))

-- The setting PUBLIC_BASE_URL, or the address that the request came to.
unfoldable pub expected_origin : Text → Text → Text
expected_origin public_base base = if is_empty public_base then strip_slashes base else public_base

abbrev pub is_own_origin : Text → Option Text → Bool
is_own_origin expected none = true
is_own_origin expected (some o) = is_empty o || same_text (strip_slashes o) expected

abbrev pub has_token : Caller → Option ℕ → Bool
has_token none header = true
has_token (some (user, (hash, csrf))) none = false
has_token (some (user, (hash, csrf))) (some h) = h == csrf

abbrev pub starts_with : Text → String → Bool
starts_with path prefix = elim (drop_prefix (codes prefix) path) [ none ↦ false | some _ ↦ true ]

abbrev pub is_path : Text → String → Bool
is_path path p = same_text path (codes p)

unfoldable pub is_workspace : Text → Bool
is_workspace path =
    is_path path "/"
    || (starts_with path "/api/jobs"
        || (starts_with path "/api/sessions"
            || (starts_with path "/jobs/" || starts_with path "/sessions/")))

unfoldable pub is_administrator : Text → Bool
is_administrator path =
    is_path path "/admin" || (starts_with path "/api/admin" || is_path path "/api/health")

unfoldable pub is_account_page : Text → Bool
is_account_page path = is_path path "/account" || is_path path "/pending"

-- An answer with a status code, a redirection, or the handler with `request.state`.
pub data Passage : Type 0 where
  refused : ℕ → Passage
  to_login to_pending : Passage
  passed : Caller → Passage

abbrev pub refuse : Text → ℕ → Passage → Passage
refuse path status page = if starts_with path "/api/" then refused status else page

-- the part behind the tests of the origin and the token
unfoldable pub admit : Text → Caller → Passage
admit path caller =
    if is_workspace path || (is_administrator path || is_account_page path)
    then (elim (user_of caller) [
      | none ↦ refuse path 401 to_login
      | some user ↦
          if (is_workspace path || is_administrator path) && not (is_approved user.status)
          then refuse path 403 to_pending
          else if is_administrator path && not user.is_admin
          then refused 403
          else passed caller
    ])
    else passed caller

unfoldable pub account_boundary : Secrets → ℕ → Text → Text → Request → Site → Passage
account_boundary sec now public_base base r s =
    let caller = session_of sec now r.token s in
    if is_unsafe r.method && not (is_own_origin (expected_origin public_base base) r.origin)
    then refused 403
    else if is_unsafe r.method && not (has_token caller r.csrf)
    then refused 403
    else admit r.path caller

admit-passed :
    (path : Text) (caller c : Caller)
    → admit path caller ≡ passed c
    → (c ≡ caller)
      × ((is_workspace path || (is_administrator path || is_account_page path)) ≡ true
          → (user : Account) × (user_of caller ≡ some user))
      × ((user : Account)
          → user_of caller ≡ some user
          → ((is_workspace path || is_administrator path) ≡ true
              → user.status ≡ UserStatus.approved)
            × (is_administrator path ≡ true → user.is_admin ≡ true))
unfolding admit
admit-passed path none c h =
    (ground arith, (λ t. absurd (ground arith)), λ user e. absurd (ground arith))
admit-passed path (some (user, rest)) c h =
    (ground arith, (λ t. (user, refl)), λ other e. ((λ t. ground arith), (λ t. ground arith)))

has_token-eq :
    (user : Account) (hash csrf : ℕ) (header : Option ℕ)
    → has_token (some (user, (hash, csrf))) header ≡ true
    → header ≡ some csrf
has_token-eq user hash csrf none h = absurd (ground arith)
has_token-eq user hash csrf (some k) h = ground arith

-- A request to the workspace or the administration reaches its handler only with a token of a login
-- that has not expired, of an approved account, for the administration an administrator's; a request
-- that may change something, moreover, comes from the site's own pages, or names no origin, and
-- carries the CSRF token of that login. The handler sees that account.
pub account_boundary-passed :
    (sec : Secrets) (now : ℕ) (public_base base : Text) (r : Request) (s : Site) (caller : Caller)
    → account_boundary sec now public_base base r s ≡ passed caller
    → (is_workspace r.path || is_administrator r.path) ≡ true
    → (token : Text) × (login : LoginSession) × (user : Account) × (r.token ≡ some token)
      × (find_first (has_hash (sec.digest token)) s.logins ≡ some login)
      × (now < login.expires_at)
      × (find_first (is_account login.user_id) (accounts_of s.users) ≡ some user)
      × (user_of caller ≡ some user)
      × (user.status ≡ UserStatus.approved)
      × (is_administrator r.path ≡ true → user.is_admin ≡ true)
      × (is_unsafe r.method ≡ true
          → (is_own_origin (expected_origin public_base base) r.origin ≡ true)
            × (r.csrf ≡ some login.csrf_token))
unfolding account_boundary
account_boundary-passed sec now public_base base r s caller h guarded =
    go (session_of sec now r.token s) refl
  where
    go :
        (c : Caller)
        → session_of sec now r.token s ≡ c
        → (token : Text) × (login : LoginSession) × (user : Account) × (r.token ≡ some token)
          × (find_first (has_hash (sec.digest token)) s.logins ≡ some login)
          × (now < login.expires_at)
          × (find_first (is_account login.user_id) (accounts_of s.users) ≡ some user)
          × (user_of caller ≡ some user)
          × (user.status ≡ UserStatus.approved)
          × (is_administrator r.path ≡ true → user.is_admin ≡ true)
          × (is_unsafe r.method ≡ true
              → (is_own_origin (expected_origin public_base base) r.origin ≡ true)
                × (r.csrf ≡ some login.csrf_token))
    go none e =
        let x = admit-passed r.path none caller (ground arith) in
        absurd (ground (arith, x.1 (ground arith)))
    go (some (user, (hash, csrf))) e =
        let admitted : admit r.path (some (user, (hash, csrf))) ≡ passed caller = ground arith in
        let x = admit-passed r.path (some (user, (hash, csrf))) caller admitted in
        let y = x.2 user refl in
        let z =
          lookup_session-eq-some sec.digest now r.token (accounts_of s.users) s.logins user hash
            csrf (unfold session_of in e) in
        (
          z.0,
          z.1,
          user,
          z.2,
          z.3,
          z.4,
          z.5,
          ground (arith, x.0),
          y.0 guarded,
          y.1,
          λ u. (
            ground arith,
            has_token-eq user hash csrf r.csrf (ground arith) ∙ ap (λ k. some k) z.6,
          ),
        )
