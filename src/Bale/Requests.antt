-- ===== src/Bale/Requests.antt =====
-- app/accounts.py: `create_challenge`.
use voice_2_text.Prelude.{
  ℕ, ◌+◌, ltb, Bool, true, false, not, ◌&&◌, Option, none, some, [], ◌∷◌, ◌++◌, Text, same_text,
  find_first, update_where, exists,
}
use voice_2_text.Http.{Result, ok, HttpError, require, commit, ◌>>◌}
use voice_2_text.Config.{Config}
use voice_2_text.Auth.Challenges.{Challenge, Purpose}
use voice_2_text.Auth.Phones.{normalize_phone}
use voice_2_text.Accounts.{Site, Secrets, and_then, limited}
use voice_2_text.Bale.{unavailable, refused, delivered, phone_identity, deliver_code}

-- `created_at > now - 60`
abbrev pub is_recent : ℕ → Text → Challenge → Bool
is_recent now phone c = same_text c.phone phone && ltb now (c.created_at + 60)

abbrev pub unused_of : Text → Challenge → Bool
unused_of phone c = same_text c.phone phone && not c.used

abbrev pub retired : Challenge → Challenge
retired c = record c { used = true }

unfoldable pub new_challenge : Config → ℕ → ℕ → Text → Purpose → Challenge
new_challenge config now id phone purpose = record {
  id = id;
  phone = phone;
  purpose = purpose;
  code_hash = none;
  expires_at = now + config.otp_ttl_seconds;
  attempts = 0;
  delivered = false;
  used = false;
  created_at = now;
}

-- The session: the chat of the phone, if there is one.
unfoldable pub request_body : Config → ℕ → ℕ → Text → Purpose → Site → Result (Option ℕ × Site)
request_body config now id phone purpose s = do
  require (not (exists (is_recent now phone) s.challenges)) (HttpError.too_many 60)
  let chat : Option ℕ = elim (find_first (phone_identity phone) s.identities) [
    | none ↦ none
    | some i ↦ some i.chat_id
  ]
  ok (
    chat,
    record s {
      challenges =
          update_where (unused_of phone) retired s.challenges
          ++ new_challenge config now id phone purpose ∷ [];
    },
  )

-- The first delivery, to the chat that is known; that Bale does not answer is no error here.
unfoldable pub first_delivery :
    Secrets → ℕ → Text → Bool → (Site → Site) → ℕ → Option ℕ → Site → Result Bool × Site
first_delivery sec now code sent meanwhile id none s = (ok false, s)
first_delivery sec now code sent meanwhile id (some chat) s =
    let r = deliver_code sec now code sent meanwhile id chat s in
    (ok (elim r.0 [ delivered ↦ true | refused ↦ false | unavailable ↦ false ]), r.1)

-- `configured` says whether the bot is set up; the reply says whether the code was sent.
unfoldable pub create_challenge :
    Config
    → Secrets
    → Bool
    → ℕ
    → Text
    → ℕ
    → Text
    → Purpose
    → Text
    → Bool
    → (Site → Site)
    → Site
    → Result Bool × Site
create_challenge config sec configured now client id typed purpose code sent meanwhile before =
    and_then (normalize_phone false typed, before)
      (λ phone s. and_then (limited sec now "otp-ip" client 30 600 s) (λ _ s.
        and_then (limited sec now "otp-phone" phone 5 600 s) (λ _ s.
          and_then (require configured HttpError.unavailable, s)
            (λ _ s.
              and_then (commit s (request_body config now id phone purpose s))
                (λ chat s. first_delivery sec now code sent meanwhile id chat s)))))
