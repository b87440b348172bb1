-- ===== src/Bale/Delivered.antt =====
-- app/bale.py and app/accounts.py: the challenges that count as delivered, and the messages with
-- their codes, under each write.
use voice_2_text.Prelude.{
  Distinct, Pairwise-update, Pairwise-append, Pairwise-delete, only_row, Memᴰ, exists_of_mem, ℕ,
  ◌==◌, ◌≡◌, ◌≢◌, refl, sym, subst, Bool, true, false, ◌&&◌, Option, none, some, List, [], ◌∷◌,
  ◌++◌, Text, All, All-map, All-update, All-append, All-delete, ◌∙◌, find_first, find_first_holds,
  update_where, delete_where, exists, if◌then◌else◌, arith,
}
use voice_2_text.Database.{is_key}
use voice_2_text.Auth.Challenges.{Challenge, has_id}
use voice_2_text.Accounts.{Site, Secrets, Message}
use voice_2_text.Bale.{
  prepare_code, is_current, is_chat_of, with_hash, has_code, mark_delivered, post,
}

-- the message that carries the code of a challenge
abbrev pub backs : Secrets → Challenge → Message → Bool
backs sec c m = m.challenge_id == c.id && is_key c.code_hash (sec.code_digest c.id m.code)

-- The challenges have different ids; of each that counts as delivered a code was sent; and `To` holds
-- of the phone of a challenge, if that is still there, and the chat of each message that names it.
pub record IsBacked (sec : Secrets) (To : Text → ℕ → Type 0) (cs : List Challenge)
    (outbox : List Message) : Type 0 where
  pub ids : Distinct (λ c. c.id) cs
  pub sent : All (λ c. c.delivered ≡ true → exists (backs sec c) outbox ≡ true) cs
  pub chats : All (λ m. All (λ c. c.id ≡ m.challenge_id → To c.phone m.chat_id) cs) outbox

module _ (sec : Secrets) (To : Text → ℕ → Type 0) (cs : List Challenge) (outbox : List Message)
    (h : IsBacked sec To cs outbox) where
  -- a write that leaves what the messages are compared with
  pub update-IsBacked :
      (p : Challenge → Bool) (f : Challenge → Challenge)
      → ((c : Challenge)
          → ((f c).id ≡ c.id)
            × ((f c).phone ≡ c.phone)
            × ((f c).code_hash ≡ c.code_hash)
            × ((f c).delivered ≡ c.delivered))
      → IsBacked sec To (update_where p f cs) outbox
  update-IsBacked p f same = record {
    ids = Pairwise-update _ p f cs (λ x y n. ground (arith, same x, same y)) h.ids;
    sent =
        All-update _ p f cs
          (λ c t (k : c.delivered ≡ true → exists (backs sec c) outbox ≡ true) d.
            let x = same c in rw (x.0, x.2) (k (sym x.3 ∙ d)))
          h.sent;
    chats =
        All-map outbox
          (λ m (k : All (λ c. c.id ≡ m.challenge_id → To c.phone m.chat_id) cs).
            All-update _ p f cs
              (λ c t (j : c.id ≡ m.challenge_id → To c.phone m.chat_id) e.
                let x = same c in rw x.1 (j (sym x.0 ∙ e)))
              k)
          h.chats;
  }

  pub delete-IsBacked : (p : Challenge → Bool) → IsBacked sec To (delete_where p cs) outbox
  delete-IsBacked p = record {
    ids = Pairwise-delete _ p cs h.ids;
    sent = All-delete _ p cs h.sent;
    chats =
        All-map outbox
          (λ m (k : All (λ c. c.id ≡ m.challenge_id → To c.phone m.chat_id) cs).
            All-delete _ p cs k)
          h.chats;
  }

  -- a challenge whose id is not taken, not even by one that is gone
  pub append-IsBacked :
      (c : Challenge)
      → c.delivered ≡ false
      → All (λ d. d.id ≢ c.id) cs
      → All (λ m. m.challenge_id ≢ c.id) outbox
      → IsBacked sec To (cs ++ c ∷ []) outbox
  append-IsBacked c new free unsent = record {
    ids = Pairwise-append _ cs c h.ids (All-map cs (λ d (n : d.id ≢ c.id) e. n (sym e)) free);
    sent = All-append _ cs (c ∷ []) h.sent ((λ d. absurd (ground arith)), tt);
    chats = go outbox unsent h.chats;
  }
    where
      go :
          (ms : List Message)
          → All (λ m. m.challenge_id ≢ c.id) ms
          → All (λ m. All (λ d. d.id ≡ m.challenge_id → To d.phone m.chat_id) cs) ms
          → All (λ m. All (λ d. d.id ≡ m.challenge_id → To d.phone m.chat_id) (cs ++ c ∷ [])) ms
      go [] n k = tt
      go (m ∷ ms) n k =
          (All-append _ cs (c ∷ []) k.0 ((λ e. absurd (n.0 (sym e))), tt), go ms n.1 k.1)

  -- The second session of a delivery: it marks the challenge whose code the message carries.
  pub confirm-IsBacked :
      (m : Message)
      → Memᴰ m outbox
      → IsBacked sec To
          (update_where
            (has_code m.challenge_id (sec.code_digest m.challenge_id m.code))
            mark_delivered
            cs)
          outbox
  unfolding update_where
  confirm-IsBacked m here = record {
    ids = Pairwise-update _ mark mark_delivered cs (λ x y n. ground arith) h.ids;
    sent = go cs h.sent;
    chats =
        All-map outbox
          (λ m (k : All (λ c. c.id ≡ m.challenge_id → To c.phone m.chat_id) cs).
            All-update _ mark mark_delivered cs
              (λ c t (j : c.id ≡ m.challenge_id → To c.phone m.chat_id). j) k)
          h.chats;
  }
    where
      mark : Challenge → Bool
      mark = has_code m.challenge_id (sec.code_digest m.challenge_id m.code)

      row :
          (c : Challenge)
          → (c.delivered ≡ true → exists (backs sec c) outbox ≡ true)
          → (t : Bool) → mark c ≡ t
          → (if t then mark_delivered c else c).delivered ≡ true
          → exists (backs sec (if t then mark_delivered c else c)) outbox ≡ true
      row c b false e d = b d
      row c b true e d = exists_of_mem _ m outbox here (ground arith)

      go :
          (cs : List Challenge)
          → All (λ c. c.delivered ≡ true → exists (backs sec c) outbox ≡ true) cs
          → All
              (λ c. c.delivered ≡ true → exists (backs sec c) outbox ≡ true)
              (update_where mark mark_delivered cs)
      go [] h = tt
      go (c ∷ cs) h = (row c h.0 (mark c) refl, go cs h.1)

  -- a new code for a challenge that is not delivered
  pub rehashed-IsBacked :
      (id hash : ℕ)
      → All (λ c. c.id ≡ id → c.delivered ≡ false) cs
      → IsBacked sec To (update_where (has_id id) (with_hash hash) cs) outbox
  unfolding update_where
  rehashed-IsBacked id hash fresh = record {
    ids = Pairwise-update _ (has_id id) (with_hash hash) cs (λ x y n. ground arith) h.ids;
    sent = go cs fresh h.sent;
    chats =
        All-map outbox
          (λ m (k : All (λ c. c.id ≡ m.challenge_id → To c.phone m.chat_id) cs).
            All-update _ (has_id id) (with_hash hash) cs
              (λ c t (j : c.id ≡ m.challenge_id → To c.phone m.chat_id). j) k)
          h.chats;
  }
    where
      row :
          (c : Challenge)
          → (c.id ≡ id → c.delivered ≡ false)
          → (c.delivered ≡ true → exists (backs sec c) outbox ≡ true)
          → (b : Bool) → has_id id c ≡ b
          → (if b then with_hash hash c else c).delivered ≡ true
          → exists (backs sec (if b then with_hash hash c else c)) outbox ≡ true
      row c n k true e d = absurd (ground (arith, n (ground arith)))
      row c n k false e d = k d

      go :
          (cs : List Challenge)
          → All (λ c. c.id ≡ id → c.delivered ≡ false) cs
          → All (λ c. c.delivered ≡ true → exists (backs sec c) outbox ≡ true) cs
          → All
              (λ c. c.delivered ≡ true → exists (backs sec c) outbox ≡ true)
              (update_where (has_id id) (with_hash hash) cs)
      go [] n k = tt
      go (c ∷ cs) n k = (row c n.0 k.0 (has_id id c) refl, go cs n.1 k.1)

  -- one more message, to a chat for its challenge
  pub post-IsBacked :
      (m : Message)
      → All (λ c. c.id ≡ m.challenge_id → To c.phone m.chat_id) cs
      → IsBacked sec To cs (m ∷ outbox)
  unfolding exists
  post-IsBacked m to = record {
    ids = h.ids;
    sent =
        All-map cs
          (λ c (b : c.delivered ≡ true → exists (backs sec c) outbox ≡ true) d. ground (arith, b d))
          h.sent;
    chats = (to, h.chats);
  }

pub prepare_code-eq-some :
    (sec : Secrets) (now id chat : ℕ) (code : Text) (s : Site) (c : Challenge) (t : Site)
    → prepare_code sec now id chat code s ≡ some (c, t)
    → (find_first (has_id id) s.challenges ≡ some c)
      × (is_current now c ≡ true)
      × (c.delivered ≡ false)
      × (is_chat_of s c.phone chat ≡ true)
      × (t ≡ record s {
        challenges = update_where (has_id id) (with_hash (sec.code_digest id code)) s.challenges;
      })
unfolding prepare_code
prepare_code-eq-some sec now id chat code s c t h = go (find_first (has_id id) s.challenges) refl
  where
    go :
        (o : Option Challenge)
        → find_first (has_id id) s.challenges ≡ o
        → (find_first (has_id id) s.challenges ≡ some c)
          × (is_current now c ≡ true)
          × (c.delivered ≡ false)
          × (is_chat_of s c.phone chat ≡ true)
          × (t ≡ record s {
            challenges =
                update_where (has_id id) (with_hash (sec.code_digest id code)) s.challenges;
          })
    go none e = absurd (ground arith)
    go (some d) e = ground arith

-- The first session of a delivery, and the message that is sent after it.
pub prepared-IsBacked :
    (sec : Secrets) (To : Text → ℕ → Type 0) (now id chat : ℕ) (code : Text) (s : Site)
    (c : Challenge) (t : Site)
    → ((phone : Text) → is_chat_of s phone chat ≡ true → To phone chat)
    → IsBacked sec To s.challenges s.outbox
    → prepare_code sec now id chat code s ≡ some (c, t)
    → IsBacked sec To t.challenges t.outbox
      × IsBacked sec To (post chat c code t).challenges (post chat c code t).outbox
prepared-IsBacked sec To now id chat code s c t known b h =
    let x = prepare_code-eq-some sec now id chat code s c t h in
    let here : c.id ≡ id = ground (arith, find_first_holds (has_id id) s.challenges c x.0) in
    let hash = sec.code_digest id code in
    let m : Message = record { chat_id = chat; challenge_id = c.id; code = code } in
    let one = only_row (λ d. d.id) (has_id id) s.challenges c b.ids x.0 in
    let fresh : All (λ e. e.id ≡ id → e.delivered ≡ false) s.challenges =
      All-map s.challenges
        (λ e (same : e.id ≡ c.id → e ≡ c) (i : e.id ≡ id). ground (arith, same, x.2, here)) one in
    let chats : All (λ e. e.id ≡ c.id → To e.phone chat) s.challenges =
      All-map s.challenges
        (λ e (same : e.id ≡ c.id → e ≡ c) (i : e.id ≡ c.id).
          subst (λ d. To d.phone chat) (sym (same i)) (known c.phone x.3))
        one in
    let again = rehashed-IsBacked sec To s.challenges s.outbox b id hash fresh in
    let to =
      All-update (λ e. e.id ≡ c.id → To e.phone chat) (has_id id) (with_hash hash) s.challenges
        (λ e t k. k) chats in
    rw x.4 (again, post-IsBacked sec To _ s.outbox again m to)

-- the same messages, under a relation that holds of more
pub retied-IsBacked :
    (sec : Secrets) (To Now : Text → ℕ → Type 0) (cs : List Challenge) (outbox : List Message)
    → ((phone : Text) (chat : ℕ) → To phone chat → Now phone chat)
    → IsBacked sec To cs outbox
    → IsBacked sec Now cs outbox
retied-IsBacked sec To Now cs outbox more b = record {
  ids = b.ids;
  sent = b.sent;
  chats =
      All-map outbox
        (λ m (k : All (λ c. c.id ≡ m.challenge_id → To c.phone m.chat_id) cs).
          All-map cs
            (λ c (j : c.id ≡ m.challenge_id → To c.phone m.chat_id) e. more c.phone m.chat_id (j e))
            k)
        b.chats;
}
