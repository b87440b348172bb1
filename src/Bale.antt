-- ===== src/Bale.antt =====
-- app/bale.py: `deliver_code` and `process_update`; and `create_challenge` of app/accounts.py, which
-- asks for the first delivery.
pub mod Requests
pub mod Delivered
pub mod Accepted
pub mod Ties
use voice_2_text.Prelude.{
  ℕ, ◌+◌, ◌==◌, ltb, leb, Bool, true, false, not, ◌&&◌, ◌||◌, Option, none, some, String, List, [],
  ◌∷◌, ◌++◌, Text, same_text, find_first, update_where, exists, if◌then◌else◌,
}
use voice_2_text.Http.{Result, ok, raise}
use voice_2_text.Auth.Challenges.{Challenge, has_id}
use voice_2_text.Auth.Phones.{normalize_phone}
use voice_2_text.Accounts.{Site, Secrets, BaleIdentity, BaleFlow, Message}

-- `None`, an exception `BaleUnavailable`, or the Boolean that is returned.
pub data Delivery : Type 0 where
  unavailable refused delivered : Delivery

abbrev pub phone_identity : Text → BaleIdentity → Bool
phone_identity phone i = same_text i.phone phone

-- the phone is tied to the person
abbrev pub is_tied : Text → ℕ → BaleIdentity → Bool
is_tied phone user i = same_text i.phone phone && i.user_id == user

abbrev pub has_chat : ℕ → BaleFlow → Bool
has_chat chat f = f.chat_id == chat

-- neither used, nor expired
abbrev pub is_current : ℕ → Challenge → Bool
is_current now c = not c.used && ltb now c.expires_at

abbrev pub is_chat_of : Site → Text → ℕ → Bool
is_chat_of s phone chat = elim (find_first (phone_identity phone) s.identities) [
  | none ↦ false
  | some i ↦ i.chat_id == chat
]

abbrev pub with_hash : ℕ → Challenge → Challenge
with_hash hash c = record c { code_hash = some hash }

-- the first session: the challenge whose code is to be sent, with its hash written
unfoldable pub prepare_code : Secrets → ℕ → ℕ → ℕ → Text → Site → Option (Challenge × Site)
prepare_code sec now id chat code s = elim (find_first (has_id id) s.challenges) [
  | none ↦ none
  | some c ↦
      if is_current now c && (not c.delivered && is_chat_of s c.phone chat)
      then some (
        c,
        record s {
          challenges = update_where (has_id id) (with_hash (sec.code_digest id code)) s.challenges;
        },
      )
      else none
]

abbrev pub has_code : ℕ → ℕ → Challenge → Bool
has_code id hash c = c.id == id && (elim c.code_hash [ none ↦ false | some h ↦ h == hash ])

abbrev pub mark_delivered : Challenge → Challenge
mark_delivered c = record c { delivered = true }

-- the second session
unfoldable pub confirm_code : Secrets → ℕ → Text → Site → Site
confirm_code sec id code s = record s {
  challenges = update_where (has_code id (sec.code_digest id code)) mark_delivered s.challenges;
}

abbrev pub post : ℕ → Challenge → Text → Site → Site
post chat c code s = record s {
  outbox = record { chat_id = chat; challenge_id = c.id; code = code } ∷ s.outbox;
}

-- `code` is the random one, `sent` says whether Bale takes the message, `meanwhile` is what other
-- processes commit while it is on its way.
unfoldable pub deliver_code :
    Secrets → ℕ → Text → Bool → (Site → Site) → ℕ → ℕ → Site → Delivery × Site
deliver_code sec now code sent meanwhile id chat s = elim (prepare_code sec now id chat code s) [
  | none ↦ (refused, s)
  | some (c, prepared) ↦
      if sent
      then (delivered, confirm_code sec id code (meanwhile (post chat c code prepared)))
      else (unavailable, prepared)
]

-- A message to the bot, as far as `process_update` reads it: `/start` with its argument, a contact
-- with the id that it belongs to, or something else.
pub data Content : Type 0 where
  start : Option ℕ → Content
  contact : Option ℕ → Bool → Text → Content
  other : Content

pub record Update : Type 0 where
  pub is_private : Bool
  pub is_bot : Bool
  pub chat_id : ℕ
  pub sender_id : Option ℕ
  pub content : Content

-- s.merge(BaleFlow(...))
unfoldable pub merge_flow : BaleFlow → List BaleFlow → List BaleFlow
merge_flow f fs =
    if exists (has_chat f.chat_id) fs
    then update_where (has_chat f.chat_id) (λ _. f) fs
    else fs ++ f ∷ []

unfoldable pub merge_identity : BaleIdentity → List BaleIdentity → List BaleIdentity
merge_identity i is =
    if exists (phone_identity i.phone) is
    then update_where (phone_identity i.phone) (λ _. i) is
    else is ++ i ∷ []

unfoldable pub start_flow : ℕ → ℕ → Option ℕ → Site → Site
start_flow now chat none s = s
start_flow now chat (some id) s = elim (find_first (has_id id) s.challenges) [
  | none ↦ s
  | some c ↦
      if is_current now c
      then record s {
        flows =
            merge_flow (record { chat_id = chat; challenge_id = id; expires_at = c.expires_at })
              s.flows;
      }
      else s
]

abbrev pub user_identity : ℕ → BaleIdentity → Bool
user_identity id i = i.user_id == id

-- `not ((identity and identity.user_id != sender_id) or (other and other.phone != phone))`
unfoldable pub may_claim : ℕ → Text → List BaleIdentity → Bool
may_claim sender phone is =
    (elim (find_first (phone_identity phone) is) [ none ↦ true | some i ↦ i.user_id == sender ])
    && (elim (find_first (user_identity sender) is) [
      | none ↦ true
      | some i ↦ same_text i.phone phone
    ])

-- the challenge of the chat's flow, if it is for this phone
unfoldable pub flow_challenge : ℕ → ℕ → Text → Site → Option Challenge
flow_challenge now chat phone s = elim (find_first (has_chat chat) s.flows) [
  | none ↦ none
  | some f ↦
      if leb f.expires_at now
      then none
      else elim (find_first (has_id f.challenge_id) s.challenges) [
        | none ↦ none
        | some c ↦ if is_current now c && same_text c.phone phone then some c else none
      ]
]

-- The session that ties the phone to the sender; the challenge whose code is sent then.
unfoldable pub claim_phone : ℕ → ℕ → ℕ → Text → Site → Option Challenge × Site
claim_phone now chat sender phone s = elim (flow_challenge now chat phone s) [
  | none ↦ (none, s)
  | some c ↦
      if may_claim sender phone s.identities
      then (
        some c,
        record s {
          identities =
              merge_identity (record { phone = phone; user_id = sender; chat_id = chat })
                s.identities;
        },
      )
      else (none, s)
]

abbrev pub is_own : Option ℕ → ℕ → Bool
is_own none sender = false
is_own (some u) sender = u == sender

-- the code for the challenge that was claimed
unfoldable pub deliver_claimed :
    Secrets → ℕ → Text → Bool → (Site → Site) → ℕ → Option Challenge → Site → Site
deliver_claimed sec now code sent meanwhile chat none s = s
deliver_claimed sec now code sent meanwhile chat (some c) s =
    (deliver_code sec now code sent meanwhile c.id chat s).1

-- a contact with a number, or with none that is valid
unfoldable pub take_phone :
    Secrets → ℕ → Text → Bool → (Site → Site) → ℕ → ℕ → Result Text → Site → Site
take_phone sec now code sent meanwhile chat sender (raise e) s = s
take_phone sec now code sent meanwhile chat sender (ok phone) s =
    let claimed = claim_phone now chat sender phone s in
    deliver_claimed sec now code sent meanwhile chat claimed.0 claimed.1

-- a shared contact: only the sender's own, not a forwarded one
unfoldable pub take_contact :
    Secrets → ℕ → Text → Bool → (Site → Site) → ℕ → ℕ → Option ℕ → Bool → Text → Site → Site
take_contact sec now code sent meanwhile chat sender owner forwarded number s =
    if is_own owner sender && not forwarded
    then take_phone sec now code sent meanwhile chat sender (normalize_phone true number) s
    else s

-- what a private message of a person does
unfoldable pub receive : Secrets → ℕ → Text → Bool → (Site → Site) → ℕ → ℕ → Content → Site → Site
receive sec now code sent meanwhile chat sender (start id) s = start_flow now chat id s
receive sec now code sent meanwhile chat sender (contact owner forwarded number) s =
    take_contact sec now code sent meanwhile chat sender owner forwarded number s
receive sec now code sent meanwhile chat sender other s = s

-- The messages without a code that the bot answers with change nothing here.
unfoldable pub process_update : Secrets → ℕ → Text → Bool → (Site → Site) → Update → Site → Site
process_update sec now code sent meanwhile u s = elim u.sender_id [
  | none ↦ s
  | some sender ↦
      if u.is_private && (not u.is_bot && u.chat_id == sender)
      then receive sec now code sent meanwhile u.chat_id sender u.content s
      else s
]
