-- ===== src/Reach/Phones.antt =====
-- app/bale.py: the phones and the people of Bale that they are tied to.
use voice_2_text.Prelude.{
  Pairwise, Pairwise-update_all, Pairwise-append, ℕ, ◌==◌, ◌≡◌, ◌≢◌, refl, sym, ◌∙◌, ap, Bool, true,
  false, not, Option, none, some, List, [], ◌∷◌, ◌++◌, Text, All, All-map, All-both, All-find,
  same_text, same_text-eq, same_text_refl, ==_refl, if◌then◌else◌, find_first, find_first-none,
  exists-none, exists-append, exists-update_where, update_where, arith, exists,
}
use voice_2_text.Http.{require, Yields, >>=-Yields, commit-Yields}
use voice_2_text.Config.{Config}
use voice_2_text.Auth.Challenges.{Challenge, Purpose}
use voice_2_text.Accounts.{Site, Secrets, BaleIdentity}
use voice_2_text.Bale.{
  is_tied, merge_identity, may_claim, claim_phone, flow_challenge, phone_identity, user_identity,
  confirm_code,
}
use voice_2_text.Bale.Requests.{request_body, is_recent}
use voice_2_text.Bale.Delivered.{prepare_code-eq-some}
use voice_2_text.Reach.Frames.{
  spend-Tried, bale_login_body-Quiet, signup_body-Quiet, reset_password_body-Quiet,
  password_login_body-Quiet, change_password_body-Quiet, logout-Quiet, commit-Quiet,
  start_flow-Quiet, set_status-Quiet, limited-Quiet, bootstrap_admin-identities,
}
use voice_2_text.Reach.{
  Step, Steps, Steps-keep, limits, requests, prepares, sends, confirms, starts, claims, logs_in,
  signs_up, resets, enters, changes, logs_out, decides, boots, works,
}

abbrev pub Differs : BaleIdentity → BaleIdentity → Type 0
Differs i j = (i.phone ≢ j.phone) × (i.user_id ≢ j.user_id)

-- No phone and no person is in two of the ties.
abbrev pub OneToOne : List BaleIdentity → Type 0
OneToOne is = Pairwise Differs is

only_holder :
    (phone : Text) (is : List BaleIdentity) (user : ℕ)
    → OneToOne is
    → (elim (find_first (phone_identity phone) is) [ none ↦ true | some i ↦ i.user_id == user ])
      ≡ true
    → All (λ i. i.phone ≡ phone → i.user_id ≡ user) is
unfolding find_first
only_holder phone [] user d h = tt
only_holder phone (i ∷ is) user d h =
    go (phone_identity phone i) refl (only_holder phone is user d.1)
  where
    go :
        (b : Bool)
        → phone_identity phone i ≡ b
        → ((elim (find_first (phone_identity phone) is) [
          | none ↦ true
          | some i ↦ i.user_id == user
        ])
              ≡ true
            → All (λ i. i.phone ≡ phone → i.user_id ≡ user) is)
        → All (λ i. i.phone ≡ phone → i.user_id ≡ user) (i ∷ is)
    go true e rest =
        let here = same_text-eq i.phone phone e in
        ((λ _. ground arith), All-map is (λ j (n : Differs i j) k. absurd (n.0 (here ∙ sym k))) d.0)
    go false e rest = (
      (λ k. absurd (ground (arith, same_text_refl phone, ap (λ z. same_text z phone) k))),
      rest (ground arith),
    )

absent_both :
    (sender : ℕ) (phone : Text) (chat : ℕ) (is : List BaleIdentity)
    → exists (phone_identity phone) is ≡ false
    → (elim (find_first (user_identity sender) is) [
      | none ↦ true
      | some i ↦ same_text i.phone phone
    ])
      ≡ true
    → All (λ i. Differs i (record { phone = phone; user_id = sender; chat_id = chat })) is
absent_both sender phone chat is n h = go (find_first (user_identity sender) is) refl h
  where
    others : All (λ i. phone_identity phone i ≡ false) is
    others = exists-none (phone_identity phone) is n

    go :
        (o : Option BaleIdentity)
        → find_first (user_identity sender) is ≡ o
        → (elim o [ none ↦ true | some i ↦ same_text i.phone phone ]) ≡ true
        → All (λ i. Differs i (record { phone = phone; user_id = sender; chat_id = chat })) is
    go (some i) e t = absurd (
        ground (
          arith,
          All-find (λ j. phone_identity phone j ≡ false) (user_identity sender) is i others e,
        ))
    go none e t =
        All-both is
          (λ i (p : phone_identity phone i ≡ false) (u : user_identity sender i ≡ false). (
            (λ k. absurd (ground (arith, same_text_refl phone, ap (λ z. same_text z phone) k))),
            (λ k. absurd (ground (arith, ==_refl sender, ap (λ z. z == sender) k))),
          ))
          others (find_first-none (user_identity sender) is e)

pub merge_identity-OneToOne :
    (sender chat : ℕ) (phone : Text) (is : List BaleIdentity)
    → may_claim sender phone is ≡ true
    → OneToOne is
    → OneToOne (merge_identity (record { phone = phone; user_id = sender; chat_id = chat }) is)
unfolding may_claim merge_identity
merge_identity-OneToOne sender chat phone is may d = go (exists (phone_identity phone) is) refl
  where
    new : BaleIdentity
    new = record { phone = phone; user_id = sender; chat_id = chat }

    written :
        (i : BaleIdentity)
        → (i.phone ≡ phone → i.user_id ≡ sender)
        → (b : Bool) → phone_identity phone i ≡ b
        → let w = if b then new else i in (w.phone ≡ i.phone) × (w.user_id ≡ i.user_id)
    written i p true e = let here = same_text-eq i.phone phone e in (sym here, sym (p here))
    written i p false e = (refl, refl)

    kept :
        (i : BaleIdentity)
        → (i.phone ≡ phone → i.user_id ≡ sender)
        → let w = if phone_identity phone i then new else i in
          (w.phone ≡ i.phone) × (w.user_id ≡ i.user_id)
    kept i p = written i p (phone_identity phone i) refl

    go :
        (b : Bool)
        → exists (phone_identity phone) is ≡ b
        → OneToOne (if b then update_where (phone_identity phone) (λ _. new) is else is ++ new ∷ [])
    go true e =
        Pairwise-update_all Differs (λ i. i.phone ≡ phone → i.user_id ≡ sender)
          (phone_identity phone) (λ _. new) is
          (λ i j p q n. rw ((kept i p).0, (kept i p).1, (kept j q).0, (kept j q).1) n)
          (only_holder phone is sender d (ground arith)) d
    go false e =
        Pairwise-append Differs is new d (absent_both sender phone chat is e (ground arith))

-- a tie stays
pub merge_identity-is_tied :
    (sender chat : ℕ) (phone : Text) (is : List BaleIdentity) (number : Text) (user : ℕ)
    → may_claim sender phone is ≡ true
    → OneToOne is
    → exists (is_tied number user) is ≡ true
    → exists
        (is_tied number user)
        (merge_identity (record { phone = phone; user_id = sender; chat_id = chat }) is)
      ≡ true
unfolding may_claim merge_identity
merge_identity-is_tied sender chat phone is number user may d h =
    go (exists (phone_identity phone) is) refl
  where
    new : BaleIdentity
    new = record { phone = phone; user_id = sender; chat_id = chat }

    go :
        (b : Bool)
        → exists (phone_identity phone) is ≡ b
        → exists
            (is_tied number user)
            (if b then update_where (phone_identity phone) (λ _. new) is else is ++ new ∷ [])
          ≡ true
    go true e =
        exists-update_where (is_tied number user) (phone_identity phone) (λ _. new) is
          (All-map is
            (λ i (p : i.phone ≡ phone → i.user_id ≡ sender) t k.
              let here = same_text-eq i.phone phone t in
              ground (arith, p here, ap (λ z. same_text z number) here))
            (only_holder phone is sender d (ground arith)))
          h
    go false e = exists-append (is_tied number user) is (new ∷ []) h

-- What a claim may rely on and leaves.
abbrev pub Ties : Text → ℕ → List BaleIdentity → Type 0
Ties number user is = OneToOne is × (exists (is_tied number user) is ≡ true)

claim_phone-Keeps {ℓ} :
    (P : List BaleIdentity → Type ℓ)
    → ((sender chat : ℕ) (phone : Text) (is : List BaleIdentity)
        → chat ≡ sender
        → may_claim sender phone is ≡ true
        → P is
        → P (merge_identity (record { phone = phone; user_id = sender; chat_id = chat }) is))
    → (now chat sender : ℕ) (phone : Text) (s : Site) → chat ≡ sender
    → P s.identities
    → P (claim_phone now chat sender phone s).1.identities
unfolding claim_phone
claim_phone-Keeps P keep now chat sender phone s own p =
    go (flow_challenge now chat phone s) refl (may_claim sender phone s.identities) refl
  where
    go :
        (o : Option Challenge)
        → flow_challenge now chat phone s ≡ o
        → (b : Bool) → may_claim sender phone s.identities ≡ b
        → P (claim_phone now chat sender phone s).1.identities
    go none e b m = rw (e, claim_phone) p
    go (some c) e false m = rw (e, m, claim_phone) p
    go (some c) e true m = rw (e, m, claim_phone) (keep sender chat phone s.identities own m p)

request_body-identities :
    (config : Config) (now id : ℕ) (phone : Text) (purpose : Purpose) (s : Site)
    → Yields (λ t. t.identities ≡ s.identities) (request_body config now id phone purpose s)
unfolding request_body Yields
request_body-identities config now id phone purpose s =
    >>=-Yields _ (require (not (exists (is_recent now phone) s.challenges)) _) _ (λ _ _. refl)

-- Only a claim writes the ties.
pub Step-identities {ℓ} :
    (P : List BaleIdentity → Type ℓ)
    → ((sender chat : ℕ) (phone : Text) (is : List BaleIdentity)
        → chat ≡ sender
        → may_claim sender phone is ≡ true
        → P is
        → P (merge_identity (record { phone = phone; user_id = sender; chat_id = chat }) is))
    → (config : Config) (sec : Secrets) (now : ℕ) (s t : Site) → Step config sec now s t
    → P s.identities
    → P t.identities
unfolding confirm_code
Step-identities P keep config sec now s t (limits kind value limit seconds) h =
    rw (limited-Quiet sec now kind value limit seconds s).identities h
Step-identities P keep config sec now s t (requests id phone purpose new) h =
    rw
      (commit-Yields (λ u. u.identities ≡ s.identities) s _
        (request_body-identities config now id phone purpose s) refl)
      h
Step-identities P keep config sec now s t (prepares id chat code {c} e) h =
    rw (prepare_code-eq-some sec now id chat code s c t e).4 h
Step-identities P keep config sec now s t (sends id chat code {c} {t = prepared} e) h =
    rw (prepare_code-eq-some sec now id chat code s c prepared e).4 h
Step-identities P keep config sec now s t (confirms n here) h = h
Step-identities P keep config sec now s t (starts m id begun) h =
    rw (start_flow-Quiet now m.chat_id id s).identities h
Step-identities P keep config sec now s t (claims m sender phone own) h =
    claim_phone-Keeps P keep now m.chat_id sender phone s own.chat h
Step-identities P keep config sec now s t (logs_in id phone code token csrf) h =
    rw
      (spend-Tried sec now id phone Purpose.login code _ s
        (bale_login_body-Quiet config sec now phone token csrf)).2
      h
Step-identities P keep config sec now s t (signs_up id phone code user_id name hash token csrf new)
      h =
    rw
      (spend-Tried sec now id phone Purpose.signup code _ s
        (signup_body-Quiet config sec now user_id phone name hash token csrf)).2
      h
Step-identities P keep config sec now s t (resets id phone code hash) h =
    rw
      (spend-Tried sec now id phone Purpose.reset code _ s (reset_password_body-Quiet phone hash)).2
      h
Step-identities P keep config sec now s t (enters phone password token csrf) h =
    rw
      (commit-Quiet s _
        (password_login_body-Quiet config sec now phone password token csrf s)).identities
      h
Step-identities P keep config sec now s t (changes current old password salt token csrf) h =
    rw
      (commit-Quiet s _ (
        change_password_body-Quiet config sec now current old password salt token csrf
          s)).identities
      h
Step-identities P keep config sec now s t (logs_out caller) h =
    rw (logout-Quiet caller s).identities h
Step-identities P keep config sec now s t (decides up caller user_id status) h =
    rw (set_status-Quiet up caller user_id status s).identities h
Step-identities P keep config sec now s t (boots id salt typed password new) h =
    rw (bootstrap_admin-identities sec now id salt typed password s) h
Step-identities P keep config sec now s t (works w) h = h

-- Since there were no ties, no phone is tied to two people of Bale and no person to two phones,
-- whatever the processes have done; and a tie that was made once stays, whatever they do then.
pub reached-OneToOne :
    (config : Config) (sec : Secrets) (start s later : Site) (phone : Text) (user : ℕ)
    → start.identities ≡ []
    → Steps config sec start s
    → Steps config sec s later
    → OneToOne s.identities
      × (exists (is_tied phone user) s.identities ≡ true
          → exists (is_tied phone user) later.identities ≡ true)
reached-OneToOne config sec start s later phone user none_yet before after =
    let one =
      Steps-keep (λ t. OneToOne t.identities)
        (λ t u now step.
          Step-identities OneToOne
            (λ sender chat number is _. merge_identity-OneToOne sender chat number is) config sec
            now t u step)
        before (rw none_yet tt) in
    (
      one,
      λ tied.
          (Steps-keep (λ t. Ties phone user t.identities)
            (λ t u now step.
              Step-identities (Ties phone user)
                (λ sender chat number is _ may h. (
                  merge_identity-OneToOne sender chat number is may h.0,
                  merge_identity-is_tied sender chat number is phone user may h.0 h.1,
                ))
                config sec now t u step)
            after (one, tied)).1,
    )
