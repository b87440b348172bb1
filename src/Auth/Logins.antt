-- ===== src/Auth/Logins.antt =====
-- app/auth.py: `issue_session` and `lookup_session`. `digest` is the SHA-256 of a token; a digest and
-- a CSRF token are compared only, so they are numbers.
use voice_2_text.Prelude.{
  ℕ, ◌+◌, ◌*◌, ◌==◌, ltb, leb, ◌≡◌, ◌≤◌, ◌<◌, refl, Bool, true, false, ◌||◌, Option, none, some,
  List, [], ◌∷◌, ◌++◌, Text, length, is_empty, find_first, arith, if◌then◌else◌, ==_refl,
}
use voice_2_text.Config.{Config}
use voice_2_text.Auth.{Account}

pub record LoginSession : Type 0 where
  pub token_hash : ℕ
  pub user_id : ℕ
  pub csrf_token : ℕ
  pub expires_at : ℕ

abbrev pub has_hash : ℕ → LoginSession → Bool
has_hash hash s = s.token_hash == hash

abbrev pub is_account : ℕ → Account → Bool
is_account id a = a.id == id

-- `token` and `csrf` are the fresh secrets
unfoldable pub issue_session :
    Config → (Text → ℕ) → ℕ → Text → ℕ → Account → List LoginSession → List LoginSession
issue_session config digest now token csrf user logins =
    logins
    ++ record {
      token_hash = digest token;
      user_id = user.id;
      csrf_token = csrf;
      expires_at = now + config.auth_session_days * 86400;
    }
      ∷ []

-- The account, and the token hash with the CSRF token.
unfoldable pub lookup_session :
    (Text → ℕ) → ℕ → Option Text → List Account → List LoginSession → Option (Account × (ℕ × ℕ))
lookup_session digest now none accounts logins = none
lookup_session digest now (some token) accounts logins =
    if is_empty token || ltb 200 (length token)
    then none
    else elim (find_first (has_hash (digest token)) logins) [
      | none ↦ none
      | some login ↦
          if leb login.expires_at now
          then none
          else elim (find_first (is_account login.user_id) accounts) [
            | none ↦ none
            | some user ↦ some (user, (login.token_hash, login.csrf_token))
          ]
    ]

find_first-append :
    (p : LoginSession → Bool) (ls : List LoginSession) (l : LoginSession)
    → find_first p ls ≡ none
    → p l ≡ true
    → find_first p (ls ++ l ∷ []) ≡ some l
unfolding find_first
find_first-append p [] l h t = ground arith
find_first-append p (x ∷ xs) l h t = ground (arith, find_first-append p xs l)

-- The token of a login, not empty and of at most 200 characters, gives back the account and the
-- CSRF token of that login until it expires, and nothing from then on, where no earlier login has
-- the same digest and the account exists.
pub lookup_session-issue_session :
    (config : Config) (digest : Text → ℕ) (now later : ℕ) (token : Text) (csrf : ℕ) (user : Account)
    (accounts : List Account) (logins : List LoginSession)
    → is_empty token ≡ false
    → length token ≤ 200
    → find_first (has_hash (digest token)) logins ≡ none
    → find_first (is_account user.id) accounts ≡ some user
    → lookup_session digest later
        (some token)
        accounts
        (issue_session config digest now token csrf user logins)
      ≡ (if ltb later (now + config.auth_session_days * 86400)
          then some (user, (digest token, csrf))
          else none)
unfolding lookup_session issue_session
lookup_session-issue_session config digest now later token csrf user accounts logins full short
      fresh known =
    let login : LoginSession = record {
      token_hash = digest token;
      user_id = user.id;
      csrf_token = csrf;
      expires_at = now + config.auth_session_days * 86400;
    } in
    let row =
      find_first-append (has_hash (digest token)) logins login fresh (==_refl (digest token)) in
    ground (arith, row)

-- what a session that was found comes from
pub lookup_session-eq-some :
    (digest : Text → ℕ) (now : ℕ) (token : Option Text) (accounts : List Account)
    (logins : List LoginSession) (user : Account) (hash csrf : ℕ)
    → lookup_session digest now token accounts logins ≡ some (user, (hash, csrf))
    → (t : Text) × (login : LoginSession) × (token ≡ some t)
      × (find_first (has_hash (digest t)) logins ≡ some login)
      × (now < login.expires_at)
      × (find_first (is_account login.user_id) accounts ≡ some user)
      × (csrf ≡ login.csrf_token)
unfolding lookup_session
lookup_session-eq-some digest now none accounts logins user hash csrf h = absurd (ground arith)
lookup_session-eq-some digest now (some t) accounts logins user hash csrf h =
    go (find_first (has_hash (digest t)) logins) refl
  where
    go :
        (o : Option LoginSession)
        → find_first (has_hash (digest t)) logins ≡ o
        → (u : Text) × (login : LoginSession) × (some t ≡ some u)
          × (find_first (has_hash (digest u)) logins ≡ some login)
          × (now < login.expires_at)
          × (find_first (is_account login.user_id) accounts ≡ some user)
          × (csrf ≡ login.csrf_token)
    go none e = absurd (ground arith)
    go (some login) e = (t, login, refl, e, ground arith, ground arith, ground arith)
