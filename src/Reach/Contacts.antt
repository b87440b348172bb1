-- ===== src/Reach/Contacts.antt =====
-- app/bale.py: the guards of `process_update` before a contact is taken.
use voice_2_text.Prelude.{
  ℕ, ◌==◌, ◌≡◌, ap, ◌∙◌, Bool, true, false, not, ◌&&◌, Option, none, some, Text, arith,
}
use voice_2_text.Http.{ok}
use voice_2_text.Auth.Phones.{normalize_phone}
use voice_2_text.Bale.{Update, contact, is_own}
use voice_2_text.Reach.{IsOwnContact}

module _ (u : Update) (sender : ℕ) (phone : Text) (is_from : u.sender_id ≡ some sender)
    (in_person : (u.is_private && (not u.is_bot && u.chat_id == sender)) ≡ true) where
  -- What passes the guards is a contact of the sender's own.
  pub own_contact :
      (owner : Option ℕ) (forwarded : Bool) (typed : Text)
      → u.content ≡ contact owner forwarded typed
      → (is_own owner sender && not forwarded) ≡ true
      → normalize_phone true typed ≡ ok phone
      → IsOwnContact u sender phone
  own_contact none forwarded typed shared h normal = absurd (ground arith)
  own_contact (some owner) true typed shared h normal = absurd (ground arith)
  own_contact (some owner) false typed shared h normal =
      let same : owner ≡ sender = ground arith in
      record {
        number = typed;
        content = shared ∙ ap (λ k. contact (some k) false typed) same;
        normal = normal;
        private = ground arith;
        person = ground arith;
        from = is_from;
        chat = ground arith;
      }
