-- ===== src/Bale/Ties.antt =====
-- app/bale.py: which updates of the bot write the ties of phones and people.
use voice_2_text.Prelude.{
  ◌<◌, find_first, same_text-eq, ℕ, ◌==◌, ◌≡◌, ◌⊎◌, inl, inr, refl, ap, ◌∙◌, Bool, true, false, not,
  ◌&&◌, Option, none, some, Text, if_holds, if◌then◌else◌, arith,
}
use voice_2_text.Http.{Result, ok, raise}
use voice_2_text.Auth.Challenges.{Challenge, has_id}
use voice_2_text.Auth.Phones.{normalize_phone}
use voice_2_text.Accounts.{Site, Secrets, BaleFlow}
use voice_2_text.Bale.{
  Update, Content, start, contact, other, prepare_code, confirm_code, deliver_code, deliver_claimed,
  has_chat, claim_phone, flow_challenge, may_claim, merge_identity, take_phone, take_contact,
  receive, process_update, is_own, post,
}
use voice_2_text.Bale.Delivered.{prepare_code-eq-some}
use voice_2_text.Reach.{IsOwnContact}
use voice_2_text.Reach.Contacts.{own_contact}
use voice_2_text.Reach.Frames.{start_flow-Quiet}

-- The chat has opened the link of a challenge for this phone, and neither the link has expired nor the
-- challenge been used or expired.
abbrev pub IsAwaited : ℕ → ℕ → Text → Site → Type 0
IsAwaited now chat phone s =
    (f : BaleFlow) × (c : Challenge) × (find_first (has_chat chat) s.flows ≡ some f)
    × (now < f.expires_at)
    × (find_first (has_id f.challenge_id) s.challenges ≡ some c)
    × (c.phone ≡ phone)
    × (c.used ≡ false)
    × (now < c.expires_at)

-- The ties stay, or the update is a contact of the sender itself, with a number that is awaited and
-- that the sender may claim, and the ties hold this number for the sender and the chat.
abbrev pub Claimed : ℕ → Update → Site → Site → Type 0
Claimed now u s t =
    (t.identities ≡ s.identities)
    ⊎ ((sender : ℕ) × (phone : Text) × IsOwnContact u sender phone
        × IsAwaited now u.chat_id phone s
        × (may_claim sender phone s.identities ≡ true)
        × (t.identities
            ≡ merge_identity (record { phone = phone; user_id = sender; chat_id = u.chat_id })
                s.identities))

flow_challenge-IsAwaited :
    (now chat : ℕ) (phone : Text) (s : Site) (c : Challenge)
    → flow_challenge now chat phone s ≡ some c
    → IsAwaited now chat phone s
unfolding flow_challenge
flow_challenge-IsAwaited now chat phone s c h = go (find_first (has_chat chat) s.flows) refl
  where
    go : (o : Option BaleFlow) → find_first (has_chat chat) s.flows ≡ o → IsAwaited now chat phone s
    go none e = absurd (ground arith)
    go (some f) e = found f e (find_first (has_id f.challenge_id) s.challenges) refl
      where
        found :
            (f : BaleFlow)
            → find_first (has_chat chat) s.flows ≡ some f
            → (o : Option Challenge) → find_first (has_id f.challenge_id) s.challenges ≡ o
            → IsAwaited now chat phone s
        found f e none k = absurd (ground arith)
        found f e (some d) k = (
          f,
          d,
          e,
          ground arith,
          k,
          same_text-eq d.phone phone (ground arith),
          ground arith,
          ground arith,
        )

module _ (sec : Secrets) (now : ℕ) (code : Text) (sent : Bool) (meanwhile : Site → Site)
    (others : (v : Site) → (meanwhile v).identities ≡ v.identities) where
  deliver_code-identities :
      (id chat : ℕ) (s : Site)
      → (deliver_code sec now code sent meanwhile id chat s).1.identities ≡ s.identities
  unfolding deliver_code
  deliver_code-identities id chat s = go (prepare_code sec now id chat code s) refl sent
    where
      go :
          (o : Option (Challenge × Site))
          → prepare_code sec now id chat code s ≡ o
          → (b : Bool)
          → (deliver_code sec now code b meanwhile id chat s).1.identities ≡ s.identities
      go none e b = rw (e, deliver_code) refl
      go (some (c, t)) e false =
          rw (e, deliver_code)
            (ap (λ v. v.identities) (prepare_code-eq-some sec now id chat code s c t e).4)
      go (some (c, t)) e true =
          rw (e, deliver_code)
            (unfold confirm_code in
              (others (post chat c code t)
                ∙ ap (λ v. v.identities) (prepare_code-eq-some sec now id chat code s c t e).4))

  deliver_claimed-identities :
      (chat : ℕ) (o : Option Challenge) (s : Site)
      → (deliver_claimed sec now code sent meanwhile chat o s).identities ≡ s.identities
  unfolding deliver_claimed
  deliver_claimed-identities chat none s = refl
  deliver_claimed-identities chat (some c) s = deliver_code-identities c.id chat s

  module _ (u : Update) (s : Site) where
    numbered :
        (sender : ℕ) (phone : Text)
        → IsOwnContact u sender phone
        → Claimed now u s (take_phone sec now code sent meanwhile u.chat_id sender (ok phone) s)
    unfolding take_phone claim_phone
    numbered sender phone own =
        let claimed = claim_phone now u.chat_id sender phone s in
        let kept = deliver_claimed-identities u.chat_id claimed.0 claimed.1 in
        go kept (flow_challenge now u.chat_id phone s) refl (may_claim sender phone s.identities)
          refl
      where
        t : Site
        t = take_phone sec now code sent meanwhile u.chat_id sender (ok phone) s

        go :
            t.identities ≡ (claim_phone now u.chat_id sender phone s).1.identities
            → (o : Option Challenge) → flow_challenge now u.chat_id phone s ≡ o
            → (b : Bool) → may_claim sender phone s.identities ≡ b
            → Claimed now u s t
        go kept none e b m = inl (kept ∙ rw (e, claim_phone) refl)
        go kept (some c) e false m = inl (kept ∙ rw (e, m, claim_phone) refl)
        go kept (some c) e true m = inr (
          sender,
          phone,
          own,
          flow_challenge-IsAwaited now u.chat_id phone s c e,
          m,
          kept ∙ rw (e, m, claim_phone) refl,
        )

    module _ (sender : ℕ) (is_from : u.sender_id ≡ some sender)
        (in_person : (u.is_private && (not u.is_bot && u.chat_id == sender)) ≡ true) where
      with_number :
          (owner : Option ℕ) (forwarded : Bool) (typed : Text) (r : Result Text)
          → u.content ≡ contact owner forwarded typed
          → (is_own owner sender && not forwarded) ≡ true
          → normalize_phone true typed ≡ r
          → Claimed now u s (take_phone sec now code sent meanwhile u.chat_id sender r s)
      with_number owner forwarded typed (raise e) shared h normal = unfold take_phone in inl refl
      with_number owner forwarded typed (ok phone) shared h normal =
          numbered sender phone
            (own_contact u sender phone is_from in_person owner forwarded typed shared h normal)

      received :
          (c : Content)
          → u.content ≡ c
          → Claimed now u s (receive sec now code sent meanwhile u.chat_id sender c s)
      unfolding receive take_contact
      received (start id) shared = inl (start_flow-Quiet now u.chat_id id s).identities
      received (contact owner forwarded typed) shared =
          if_holds (Claimed now u s) (is_own owner sender && not forwarded) _ _
            (λ h. with_number owner forwarded typed (normalize_phone true typed) shared h refl)
            (λ _. inl refl)
      received other shared = inl refl

    -- A phone is tied to a person of Bale only by a private message of that person, no bot, with its
    -- own contact, not forwarded, while the chat has opened the link, not expired, of a challenge for
    -- this phone that is neither used nor expired, and where it may claim the phone. On every other
    -- update the ties stay as they are, where what others commit while a code is on its way leaves them.
    pub process_update-identities : Claimed now u s (process_update sec now code sent meanwhile u s)
    unfolding process_update
    process_update-identities = go u.sender_id refl
      where
        go :
            (o : Option ℕ)
            → u.sender_id ≡ o
            → Claimed now u s (elim o [
              | none ↦ s
              | some sender ↦
                  if u.is_private && (not u.is_bot && u.chat_id == sender)
                  then receive sec now code sent meanwhile u.chat_id sender u.content s
                  else s
            ])
        go none is_from = inl refl
        go (some sender) is_from =
            if_holds (Claimed now u s) (u.is_private && (not u.is_bot && u.chat_id == sender)) _ _
              (λ h. received sender is_from h u.content refl) (λ _. inl refl)
