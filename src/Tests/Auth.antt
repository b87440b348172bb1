-- ===== src/Tests/Auth.antt =====
-- The theorems on app/auth.py, at one bucket and one challenge.
use voice_2_text.Prelude
use voice_2_text.Prelude.{
  ℕ, ◌+◌, max, ◌≡◌, ◌≤◌, ◌<◌, refl, Bool, true, false, Option, some, List, [], ◌∷◌, Text, strip,
  find_first, arith,
}
use voice_2_text.Http.{ok, raise, HttpError}
use voice_2_text.Auth.Limits.{RateBucket, passed, passed-limit}
use voice_2_text.Auth.Logins.{lookup_session, issue_session, lookup_session-issue_session}
use voice_2_text.Tests.{settings, sina}
use voice_2_text.Auth.Challenges
use voice_2_text.Auth.Guesses.{Attempt, guesses, guesses-limit}
use voice_2_text.Auth.Challenges.{
  Purpose, same_purpose, Challenge, has_id, latin_digits, consume_challenge, consume_challenge-ok,
  consume_challenge_twice,
}

abbrev buckets : List RateBucket
buckets = record { key = 4; count = 1; expires_at = 100 } ∷ []

passed-limit_example : passed 4 2 60 (90 ∷ 91 ∷ 92 ∷ []) buckets + 1 ≤ max 2 1
passed-limit_example =
    passed-limit 4 2 60 (90 ∷ 91 ∷ 92 ∷ []) buckets
      (record { key = 4; count = 1; expires_at = 100 }) (unfold Prelude.find_first in refl)
      (ground arith, (ground arith, (ground arith, tt)))

-- a digest of the first digit
abbrev digest : ℕ → Text → ℕ
digest id [] = 0
digest id (c ∷ cs) = c + id

abbrev sent : Challenge
sent = record {
  id = 3;
  phone = 57 ∷ [];
  purpose = Purpose.login;
  code_hash = some 52;
  expires_at = 300;
  attempts = 0;
  delivered = true;
  used = false;
  created_at = 100;
}

-- the code is entered with a Persian digit
consuming :
    (consume_challenge digest 200 3 (57 ∷ []) Purpose.login (1777 ∷ []) (sent ∷ [])).0
    ≡ ok (record sent { attempts = 1; used = true })
unfolding consume_challenge Challenges.open_hash Challenges.spent latin_digits
    Challenges.latin_digit Prelude.same_text find_first strip
consuming = refl

consume_challenge_twice_example :
    let t = (consume_challenge digest 200 3 (57 ∷ []) Purpose.login (1777 ∷ []) (sent ∷ [])).1 in
    consume_challenge digest 201 3 (57 ∷ []) Purpose.login (1777 ∷ []) t
    ≡ (raise HttpError.bad_request, t)
consume_challenge_twice_example =
    consume_challenge_twice digest 200 3 (57 ∷ []) Purpose.login (1777 ∷ []) (sent ∷ [])
      (record sent { attempts = 1; used = true }) 201 (57 ∷ []) Purpose.login (1777 ∷ []) consuming

-- a wrong code, and one whose use is rolled back if it is the right one
abbrev tries : List Attempt
tries =
    record { now = 200; code = 48 ∷ []; kept = true }
    ∷ record { now = 201; code = 50 ∷ []; kept = false }
    ∷ []

guesses-limit_example : guesses digest 3 (57 ∷ []) Purpose.login tries (sent ∷ []) + 0 ≤ max 5 0
guesses-limit_example =
    guesses-limit digest 3 (57 ∷ []) Purpose.login tries (sent ∷ []) sent
      (unfold Prelude.find_first in refl)

lookup_session-issue_session_example :
    lookup_session
      (digest 3)
      90
      (some (55 ∷ []))
      (sina ∷ [])
      (issue_session settings (digest 3) 50 (55 ∷ []) 8 sina [])
    ≡ some (sina, (58, 8))
lookup_session-issue_session_example =
    lookup_session-issue_session settings (digest 3) 50 90 (55 ∷ []) 8 sina (sina ∷ []) [] refl
      (ground arith) (unfold Prelude.find_first in refl) (unfold Prelude.find_first in refl)
