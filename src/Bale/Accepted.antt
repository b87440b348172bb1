-- ===== src/Bale/Accepted.antt =====
-- app/accounts.py and app/bale.py: the login with a code, and the message that brought the code.
use voice_2_text.Prelude.{
  All, All-map, Bool-cases, inl, inr, ℕ, ◌==◌, ◌≡◌, refl, sym, ap, subst, Bool, true, false, ◌&&◌,
  Option, none, some, List, [], ◌∷◌, Text, All-find, same_text-eq, strip, ◌∙◌, find_first,
  find_first_holds, exists, arith,
}
use voice_2_text.Http.{Result, ok, commit, commit-ok}
use voice_2_text.Config.{Config}
use voice_2_text.Auth.Challenges.{
  Challenge, Purpose, has_id, latin_digits, consume_challenge, consume_challenge-ok,
}
use voice_2_text.Auth.Phones.{normalize_phone}
use voice_2_text.Accounts.{
  BaleIdentity, Site, Secrets, User, Message, Login, and_then, and_then-eq-ok, consume, bale_login,
  bale_login_body, code_limits, limited, logged_in, has_phone,
}
use voice_2_text.Bale.{is_tied}
use voice_2_text.Bale.Delivered.{IsBacked, backs}

-- the phone is tied to the person
abbrev pub Tied : List BaleIdentity → Text → ℕ → Type 0
Tied is phone user = exists (is_tied phone user) is ≡ true

-- a message of the challenge to the person that the phone is tied to, with a code of the same digest
abbrev pub brought : Secrets → List BaleIdentity → ℕ → Text → Text → Message → Bool
brought sec is id phone code m =
    m.challenge_id == id
    && (sec.code_digest id m.code == sec.code_digest id code && exists (is_tied phone m.chat_id) is)

exists_here {ℓ} :
    {A : Type ℓ} (p : A → Bool) (x : A) (xs : List A) → p x ≡ true → exists p (x ∷ xs) ≡ true
unfolding exists
exists_here p x xs h = ground (arith, h)

exists_later {ℓ} :
    {A : Type ℓ} (p : A → Bool) (x : A) (xs : List A)
    → exists p xs ≡ true
    → exists p (x ∷ xs) ≡ true
unfolding exists
exists_later p x xs h = ground (arith, h)

same-brought :
    (sec : Secrets) (is : List BaleIdentity) (id : ℕ) (c : Challenge) (code : Text)
    (outbox : List Message)
    → c.id ≡ id
    → c.code_hash ≡ some (sec.code_digest id code)
    → All (λ m. c.id ≡ m.challenge_id → Tied is c.phone m.chat_id) outbox
    → exists (backs sec c) outbox ≡ true
    → exists (brought sec is id c.phone code) outbox ≡ true
same-brought sec is id c code [] i k to h = absurd (unfold exists in ground (arith, h))
same-brought sec is id c code (m ∷ ms) i k to h = elim (Bool-cases (backs sec c m)) [
  | inl this ↦
      let number : m.challenge_id ≡ c.id = ground arith in
      exists_here (brought sec is id c.phone code) m ms
        (ground (arith, to.0 (sym number), ap (λ z. sec.code_digest z m.code) i))
  | inr other ↦
      exists_later (brought sec is id c.phone code) m ms
        (same-brought sec is id c code ms i k to.1 (unfold exists in ground arith))
]

logged_body :
    (config : Config) (sec : Secrets) (now : ℕ) (phone token : Text) (csrf : ℕ) (s : Site)
    (reply : Login) (t : Site)
    → bale_login_body config sec now phone token csrf s ≡ ok (reply, t)
    → (user : User) × (find_first (has_phone phone) s.users ≡ some user)
      × ((reply, t) ≡ logged_in config sec now token csrf user.account s)
unfolding bale_login_body
logged_body config sec now phone token csrf s reply t h =
    go (find_first (has_phone phone) s.users) refl
  where
    go :
        (o : Option User)
        → find_first (has_phone phone) s.users ≡ o
        → (user : User) × (find_first (has_phone phone) s.users ≡ some user)
          × ((reply, t) ≡ logged_in config sec now token csrf user.account s)
    go none e = absurd (ground arith)
    go (some user) e = (user, e, ground arith)

module _ (config : Config) (sec : Secrets) (now : ℕ) (client : Text) (id : ℕ)
    (typed code token : Text) (csrf : ℕ) (s : Site) (reply : Login) where
  -- what an accepted login has gone through
  pub bale_login-eq-ok :
      (bale_login config sec now client id typed code token csrf s).0 ≡ ok reply
      → (phone : Text) × (r : Challenge) × (user : User) × (normalize_phone false typed ≡ ok phone)
        × ((consume_challenge sec.code_digest now id phone Purpose.login code s.challenges).0
            ≡ ok r)
        × (find_first (has_phone phone) s.users ≡ some user)
        × (reply.user ≡ user.account)
        × ((bale_login config sec now client id typed code token csrf s).1.users ≡ s.users)
        × ((bale_login config sec now client id typed code token csrf s).1.outbox ≡ s.outbox)
  unfolding bale_login limited code_limits consume
  bale_login-eq-ok h =
      let a = and_then-eq-ok (code_limits sec now client s) normalized reply h in
      let s1 = (code_limits sec now client s).1 in
      let b =
        and_then-eq-ok (normalize_phone false typed, s1) checked reply
          (subst (λ z. z.0 ≡ ok reply) a.2 h) in
      let start = a.2 ∙ b.2 in
      let c =
        and_then-eq-ok (consume sec now id b.0 Purpose.login code s1) (answered b.0 s1) reply
          (subst (λ z. z.0 ≡ ok reply) start h) in
      let pending = (consume sec now id b.0 Purpose.login code s1).1 in
      let body = bale_login_body config sec now b.0 token csrf pending in
      let whole : bale_login config sec now client id typed code token csrf s ≡ commit s1 body =
        start ∙ c.2 in
      let made = commit-ok s1 body reply (subst (λ z. z.0 ≡ ok reply) whole h) in
      let x = logged_body config sec now b.0 token csrf pending reply (commit s1 body).1 made in
      let after = ap (λ z. z.1) whole ∙ ap (λ z. z.1) x.2 in
      (
        b.0,
        c.0,
        x.0,
        b.1,
        c.1,
        x.1,
        unfold logged_in in ap (λ z. z.0.user) x.2,
        unfold logged_in in ap (λ z. z.users) after,
        unfold logged_in in ap (λ z. z.outbox) after,
      )
    where
      answered : Text → Site → Challenge → Site → Result Login × Site
      answered phone s c pending =
          commit s (bale_login_body config sec now phone token csrf pending)

      checked : Text → Site → Result Login × Site
      checked phone s = and_then (consume sec now id phone Purpose.login code s) (answered phone s)

      normalized : Unit {0} → Site → Result Login × Site
      normalized _ s = and_then (normalize_phone false typed, s) checked

  -- Before an accepted login the outbox holds a message of the challenge, whose code has the same
  -- digest as the typed one, to the person of Bale that the phone of the account is tied to.
  pub bale_login-brought :
      IsBacked sec (Tied s.identities) s.challenges s.outbox
      → (bale_login config sec now client id typed code token csrf s).0 ≡ ok reply
      → exists (brought sec s.identities id reply.user.phone (latin_digits (strip code))) s.outbox
        ≡ true
  bale_login-brought b h =
      let x = bale_login-eq-ok h in
      let y =
        consume_challenge-ok sec.code_digest now id x.0 Purpose.login code s.challenges x.1 x.4 in
      let c = y.0 in
      let here : c.id ≡ id = ground (arith, find_first_holds (has_id id) s.challenges c y.1) in
      let sent = All-find _ (has_id id) s.challenges c b.sent y.1 y.7 in
      let to =
        All-map s.outbox
          (λ m
              (k : All (λ d. d.id ≡ m.challenge_id → Tied s.identities d.phone m.chat_id)
                s.challenges).
            All-find _ (has_id id) s.challenges c k y.1)
          b.chats in
      let phone =
        same_text-eq x.2.account.phone x.0 (find_first_holds (has_phone x.0) s.users x.2 x.5) in
      let same : reply.user.phone ≡ c.phone = ap (λ z. z.phone) x.6 ∙ (phone ∙ sym y.2) in
      rw same
        (same-brought sec s.identities id c (latin_digits (strip code)) s.outbox here y.8 to sent)
