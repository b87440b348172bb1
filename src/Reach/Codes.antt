-- ===== src/Reach/Codes.antt =====
-- app/accounts.py and app/bale.py: the challenges and the messages with codes, in any order of the
-- transactions.
use voice_2_text.Prelude.{
  ◌∷◌, arith, All, All-append, none, find_first, if_elim, Bool-cases, inl, inr, ◌==◌, ℕ, ◌≡◌, ◌≢◌,
  refl, Bool, true, false, not, some, is_empty, List, [], Text, All-update, strip, if◌then◌else◌,
  update_where, exists,
}
use voice_2_text.Http.{
  Result, ok, require, commit, Yields, >>=-Yields, commit-Yields, Yields-map, ◌>>=◌,
}
use voice_2_text.Config.{Config}
use voice_2_text.Auth.Challenges.{Challenge, Purpose, has_id, tried, spent, latin_digits}
use voice_2_text.Auth.Phones.{normalize_phone}
use voice_2_text.Accounts.{BaleIdentity, Site, Secrets, Message, Login, bale_login}
use voice_2_text.Accounts.Startup.{bootstrap_admin, bootstrap_body, challenge_expired}
use voice_2_text.Bale.{is_chat_of, phone_identity, merge_identity, confirm_code}
use voice_2_text.Bale.Requests.{request_body, is_recent, retired, unused_of, new_challenge}
use voice_2_text.Bale.Delivered.{
  IsBacked, update-IsBacked, append-IsBacked, confirm-IsBacked, delete-IsBacked, prepared-IsBacked,
  retied-IsBacked,
}
use voice_2_text.Bale.Accepted.{Tied, brought, bale_login-brought}
use voice_2_text.Reach.{
  Step, Steps, Steps-keep, IsNewChallenge, limits, requests, prepares, sends, confirms, starts,
  claims, logs_in, signs_up, resets, enters, changes, logs_out, decides, boots, works,
}
use voice_2_text.Reach.Phones.{
  OneToOne, Ties, Step-identities, merge_identity-OneToOne, merge_identity-is_tied,
}
use voice_2_text.Reach.Frames.{
  Quiet, Tried, kept, used, wrong, spend-Tried, bale_login_body-Quiet, signup_body-Quiet,
  reset_password_body-Quiet, password_login_body-Quiet, change_password_body-Quiet, logout-Quiet,
  commit-Quiet, start_flow-Quiet, claim_phone-eq, bootstrap_body-Yields, set_status-Quiet,
  limited-Quiet,
}

module _ (sec : Secrets) (To : Text → ℕ → Type 0) where
  -- the state of the codes is in order
  abbrev CodesInOrder : Site → Type 0
  CodesInOrder s = IsBacked sec To s.challenges s.outbox

  moved :
      (s t : Site)
      → t.challenges ≡ s.challenges
      → t.outbox ≡ s.outbox
      → CodesInOrder s
      → CodesInOrder t
  moved s t c o b = rw (c, o) b

  quiet-CodesInOrder : (s t : Site) → Quiet s t → CodesInOrder s → CodesInOrder t
  quiet-CodesInOrder s t q b = moved s t q.challenges q.outbox b

  Tried-IsBacked :
      (id : ℕ) (cs ds : List Challenge) (outbox : List Message)
      → IsBacked sec To cs outbox
      → Tried id cs ds
      → IsBacked sec To ds outbox
  unfolding tried spent
  Tried-IsBacked id cs ds outbox b kept = b
  Tried-IsBacked id cs ds outbox b used =
      update-IsBacked sec To cs outbox b (has_id id) spent (λ c. (refl, refl, refl, refl))
  Tried-IsBacked id cs ds outbox b wrong =
      update-IsBacked sec To cs outbox b (has_id id) tried (λ c. (refl, refl, refl, refl))

  spend-CodesInOrder :
      (id : ℕ) (s t : Site)
      → Tried id s.challenges t.challenges × (t.outbox ≡ s.outbox) × (t.identities ≡ s.identities)
      → CodesInOrder s
      → CodesInOrder t
  spend-CodesInOrder id s t x b =
      rw x.1 (Tried-IsBacked id s.challenges t.challenges s.outbox b x.0)

  request_body-CodesInOrder :
      (config : Config) (now id : ℕ) (phone : Text) (purpose : Purpose) (s : Site)
      → IsNewChallenge id s
      → CodesInOrder s
      → Yields CodesInOrder (request_body config now id phone purpose s)
  unfolding request_body new_challenge Yields
  request_body-CodesInOrder config now id phone purpose s new b =
      >>=-Yields CodesInOrder (require (not (exists (is_recent now phone) s.challenges)) _) _
        (λ _ _.
          append-IsBacked sec To (update_where (unused_of phone) retired s.challenges) s.outbox
            (update-IsBacked sec To s.challenges s.outbox b (unused_of phone) retired
              (λ c. (refl, refl, refl, refl)))
            (new_challenge config now id phone purpose) refl
            (All-update (λ c. c.id ≢ id) (unused_of phone) retired s.challenges (λ c t n. n) new.0)
            new.1)

  bootstrap_admin-CodesInOrder :
      (now id salt : ℕ) (typed password : Text) (s : Site)
      → CodesInOrder s
      → CodesInOrder (bootstrap_admin sec now id salt typed password s).1
  unfolding bootstrap_admin
  bootstrap_admin-CodesInOrder now id salt typed password s b = go (is_empty typed)
    where
      body : Text → Result (Unit {0} × Site)
      body phone = bootstrap_body sec now id salt phone password s

      go :
          (e : Bool)
          → CodesInOrder
              (if e then (ok tt, s) else commit s (normalize_phone false typed >>= body)).1
      go true = b
      go false =
          commit-Yields CodesInOrder s _
            (>>=-Yields CodesInOrder (normalize_phone false typed) body (λ phone _.
              Yields-map (body phone)
                (λ t x.
                  rw (x.0, x.1)
                    (delete-IsBacked sec To s.challenges s.outbox b (challenge_expired now)))
                (bootstrap_body-Yields sec now id salt phone password s)))
            b

  Step-CodesInOrder :
      (config : Config) (now : ℕ) (s t : Site)
      → ((phone : Text) (chat : ℕ) → is_chat_of s phone chat ≡ true → To phone chat)
      → Step config sec now s t
      → CodesInOrder s
      → CodesInOrder t
  unfolding confirm_code
  Step-CodesInOrder config now s t known (limits kind value limit seconds) b =
      quiet-CodesInOrder s t (limited-Quiet sec now kind value limit seconds s) b
  Step-CodesInOrder config now s t known (requests id phone purpose new) b =
      commit-Yields CodesInOrder s _ (request_body-CodesInOrder config now id phone purpose s new b)
        b
  Step-CodesInOrder config now s t known (prepares id chat code {c} h) b =
      (prepared-IsBacked sec To now id chat code s c t (λ p. known p chat) b h).0
  Step-CodesInOrder config now s t known (sends id chat code {c} {t = prepared} h) b =
      (prepared-IsBacked sec To now id chat code s c prepared (λ p. known p chat) b h).1
  Step-CodesInOrder config now s t known (confirms m here) b =
      confirm-IsBacked sec To s.challenges s.outbox b m here
  Step-CodesInOrder config now s t known (starts m id begun) b =
      quiet-CodesInOrder s t (start_flow-Quiet now m.chat_id id s) b
  Step-CodesInOrder config now s t known (claims m sender phone own) b =
      let x = claim_phone-eq now m.chat_id sender phone s in moved s t x.0 x.1 b
  Step-CodesInOrder config now s t known (logs_in id phone code token csrf) b =
      spend-CodesInOrder id s t
        (spend-Tried sec now id phone Purpose.login code _ s
          (bale_login_body-Quiet config sec now phone token csrf))
        b
  Step-CodesInOrder config now s t known (signs_up id phone code user_id name hash token csrf new)
        b =
      spend-CodesInOrder id s t
        (spend-Tried sec now id phone Purpose.signup code _ s
          (signup_body-Quiet config sec now user_id phone name hash token csrf))
        b
  Step-CodesInOrder config now s t known (resets id phone code hash) b =
      spend-CodesInOrder id s t
        (spend-Tried sec now id phone Purpose.reset code _ s (reset_password_body-Quiet phone hash))
        b
  Step-CodesInOrder config now s t known (enters phone password token csrf) b =
      quiet-CodesInOrder s t
        (commit-Quiet s _ (password_login_body-Quiet config sec now phone password token csrf s)) b
  Step-CodesInOrder config now s t known (changes current old password salt token csrf) b =
      quiet-CodesInOrder s t
        (commit-Quiet s _
          (change_password_body-Quiet config sec now current old password salt token csrf s))
        b
  Step-CodesInOrder config now s t known (logs_out caller) b =
      quiet-CodesInOrder s t (logout-Quiet caller s) b
  Step-CodesInOrder config now s t known (decides up caller user_id status) b =
      quiet-CodesInOrder s t (set_status-Quiet up caller user_id status s) b
  Step-CodesInOrder config now s t known (boots id salt typed password new) b =
      bootstrap_admin-CodesInOrder now id salt typed password s b
  Step-CodesInOrder config now s t known (works w) b = b

-- each tie is that of the private chat of the person
abbrev Private : List BaleIdentity → Type 0
Private is = All (λ i. i.chat_id ≡ i.user_id) is

merge_identity-Private :
    (sender chat : ℕ) (phone : Text) (is : List BaleIdentity)
    → chat ≡ sender
    → Private is
    → Private (merge_identity (record { phone = phone; user_id = sender; chat_id = chat }) is)
unfolding merge_identity
merge_identity-Private sender chat phone is own h =
    if_elim Private (exists (phone_identity phone) is) _ _
      (All-update _ (phone_identity phone) _ is (λ i t k. own) h) (All-append _ is _ h (own, tt))

-- the chat that a phone is known by is the person that it is tied to
known_chat :
    (phone : Text) (chat : ℕ) (is : List BaleIdentity)
    → Private is
    → (elim (find_first (phone_identity phone) is) [ none ↦ false | some i ↦ i.chat_id == chat ])
      ≡ true
    → Tied is phone chat
unfolding find_first exists
known_chat phone chat [] k h = absurd (ground (arith, h))
known_chat phone chat (i ∷ is) k h = elim (Bool-cases (phone_identity phone i)) [
  | inl here ↦ ground (arith, k.0)
  | inr there ↦ ground (arith, known_chat phone chat is k.1 (ground arith))
]

-- what holds of the codes and the ties together
record InOrder (sec : Secrets) (s : Site) : Type 0 where
  one : OneToOne s.identities
  private : Private s.identities
  codes : IsBacked sec (Tied s.identities) s.challenges s.outbox

Step-InOrder :
    (config : Config) (sec : Secrets) (now : ℕ) (s t : Site)
    → Step config sec now s t
    → InOrder sec s
    → InOrder sec t
Step-InOrder config sec now s t step h = record {
  one =
      Step-identities OneToOne
        (λ sender chat phone is _. merge_identity-OneToOne sender chat phone is) config sec now s t
        step h.one;
  private =
      Step-identities Private
        (λ sender chat phone is own _. merge_identity-Private sender chat phone is own) config sec
        now s t step h.private;
  codes =
      retied-IsBacked sec (Tied s.identities) (Tied t.identities) t.challenges t.outbox tie_stays (
        Step-CodesInOrder sec (Tied s.identities) config now s t
          (λ phone chat. known_chat phone chat s.identities h.private) step h.codes);
}
  where
    tie_stays :
        (phone : Text) (chat : ℕ) → Tied s.identities phone chat → Tied t.identities phone chat
    tie_stays phone chat k =
        (Step-identities (Ties phone chat)
          (λ sender chat_id number is _ may x. (
            merge_identity-OneToOne sender chat_id number is may x.0,
            merge_identity-is_tied sender chat_id number is phone chat may x.0 x.1,
          ))
          config sec now s t step (h.one, k)).1

-- Whatever the processes have done, in any order, since there were no challenges, messages or ties: a
-- login with a code is only for the account of a phone whose owner the code was sent to. Before an
-- accepted login the bot has sent a message of that challenge, with a code of the digest of the typed
-- one, to the private chat of the one person of Bale that the phone of the account is tied to.
pub bale_login-reached :
    (config : Config) (sec : Secrets) (start s : Site) (now : ℕ) (client : Text) (id : ℕ)
    (typed code token : Text) (csrf : ℕ) (reply : Login)
    → start.challenges ≡ []
    → start.outbox ≡ []
    → start.identities ≡ []
    → Steps config sec start s
    → (bale_login config sec now client id typed code token csrf s).0 ≡ ok reply
    → OneToOne s.identities
      × (exists (brought sec s.identities id reply.user.phone (latin_digits (strip code))) s.outbox
          ≡ true)
bale_login-reached config sec start s now client id typed code token csrf reply none_yet unsent
      untied steps h =
    let x =
      Steps-keep (InOrder sec) (λ t u later step. Step-InOrder config sec later t u step) steps
        (record {
          one = rw untied tt;
          private = rw untied tt;
          codes = rw (none_yet, unsent) (record { ids = tt; sent = tt; chats = tt });
        }) in
    (x.one, bale_login-brought config sec now client id typed code token csrf s reply x.codes h)
