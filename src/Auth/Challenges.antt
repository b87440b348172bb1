-- ===== src/Auth/Challenges.antt =====
-- app/auth.py: `consume_challenge`. `digest` is `code_digest`, an HMAC with the key of the server; a
-- digest is compared only, so it is a number.
use voice_2_text.Prelude.{
  ℕ, ◌+◌, ◌-◌, ◌==◌, ltb, leb, ◌≡◌, ◌<◌, ◌⊎◌, inl, inr, refl, Bool, Bool-cases, ap, same_text,
  same_text-eq, true, false, not, ◌&&◌, Option, none, some, List, map, Text, strip, find_first,
  find_first_holds, find_first-update, update_where, arith, if◌then◌else◌,
}
use voice_2_text.Http.{Result, ok, raise, HttpError}

pub data Purpose : Type 0 where
  signup login reset : Purpose

abbrev pub same_purpose : Purpose → Purpose → Bool
same_purpose signup signup = true
same_purpose login login = true
same_purpose reset reset = true
same_purpose _ _ = false

pub record Challenge : Type 0 where
  pub id : ℕ
  pub phone : Text
  pub purpose : Purpose
  pub code_hash : Option ℕ
  pub expires_at : ℕ
  pub attempts : ℕ
  pub delivered : Bool
  pub used : Bool
  pub created_at : ℕ

-- `_DIGITS`: the Persian and the Arabic digits to the Latin ones
unfoldable pub latin_digit : ℕ → ℕ
latin_digit c =
    if leb 1776 c && leb c 1785 then c - 1728 else if leb 1632 c && leb c 1641 then c - 1584 else c

unfoldable pub latin_digits : Text → Text
latin_digits code = map latin_digit code

abbrev pub has_id : ℕ → Challenge → Bool
has_id id c = c.id == id

-- what the first `if` lets through: the hash that the code is compared with
unfoldable pub open_hash : ℕ → Text → Purpose → Challenge → Option ℕ
open_hash now phone purpose c =
    if same_text c.phone phone
      && (same_purpose c.purpose purpose
          && (not c.used && (ltb now c.expires_at && (ltb c.attempts 5 && c.delivered))))
    then c.code_hash
    else none

unfoldable pub tried : Challenge → Challenge
tried c = record c { attempts = c.attempts + 1 }

unfoldable pub spent : Challenge → Challenge
spent c = record c { attempts = c.attempts + 1; used = true }

-- A wrong code is committed before the error; the right one is committed by the caller.
unfoldable pub consume_challenge :
    (ℕ → Text → ℕ)
    → ℕ
    → ℕ
    → Text
    → Purpose
    → Text
    → List Challenge
    → Result Challenge × List Challenge
consume_challenge digest now id phone purpose code cs = elim (find_first (has_id id) cs) [
  | none ↦ (raise HttpError.bad_request, cs)
  | some c ↦ elim (open_hash now phone purpose c) [
    | none ↦ (raise HttpError.bad_request, cs)
    | some hash ↦
        if hash == digest id (latin_digits (strip code))
        then (ok (spent c), update_where (has_id id) spent cs)
        else (raise HttpError.bad_request, update_where (has_id id) tried cs)
  ]
]

pub open_hash-eq-some :
    (now : ℕ) (phone : Text) (purpose : Purpose) (c : Challenge) (hash : ℕ)
    → open_hash now phone purpose c ≡ some hash
    → (c.phone ≡ phone)
      × (same_purpose c.purpose purpose ≡ true)
      × (c.used ≡ false)
      × (now < c.expires_at)
      × (c.attempts < 5)
      × (c.delivered ≡ true)
      × (c.code_hash ≡ some hash)
unfolding open_hash
open_hash-eq-some now phone purpose c hash h = ground (arith, same_text-eq c.phone phone)

module _ (digest : ℕ → Text → ℕ) (now id : ℕ) (phone : Text) (purpose : Purpose) (code : Text)
    (cs : List Challenge) where
  -- what an attempt does, by the challenge that it finds
  pub consume_challenge_cases :
      let t = consume_challenge digest now id phone purpose code cs in
      (t ≡ (raise HttpError.bad_request, cs))
      ⊎ ((c : Challenge) × (hash : ℕ) × (find_first (has_id id) cs ≡ some c)
          × (open_hash now phone purpose c ≡ some hash)
          × (((hash ≡ digest id (latin_digits (strip code)))
                × (t ≡ (ok (spent c), update_where (has_id id) spent cs)))
              ⊎ (t ≡ (raise HttpError.bad_request, update_where (has_id id) tried cs))))
  unfolding consume_challenge
  consume_challenge_cases = go (find_first (has_id id) cs) refl
    where
      t : Result Challenge × List Challenge
      t = consume_challenge digest now id phone purpose code cs

      Goal : Type 0
      Goal =
          (t ≡ (raise HttpError.bad_request, cs))
          ⊎ ((c : Challenge) × (hash : ℕ) × (find_first (has_id id) cs ≡ some c)
              × (open_hash now phone purpose c ≡ some hash)
              × (((hash ≡ digest id (latin_digits (strip code)))
                    × (t ≡ (ok (spent c), update_where (has_id id) spent cs)))
                  ⊎ (t ≡ (raise HttpError.bad_request, update_where (has_id id) tried cs))))

      go_hash :
          (c : Challenge) (o : Option ℕ)
          → find_first (has_id id) cs ≡ some c
          → open_hash now phone purpose c ≡ o
          → Goal
      go_hash c none f e = inl (ground arith)
      go_hash c (some hash) f e = inr (
        c,
        hash,
        f,
        e,
        elim (Bool-cases (hash == digest id (latin_digits (strip code)))) [
          | inl same ↦ inl (ground arith, ground arith)
          | inr other ↦ inr (ground arith)
        ],
      )

      go : (o : Option Challenge) → find_first (has_id id) cs ≡ o → Goal
      go none f = inl (ground arith)
      go (some c) f = go_hash c (open_hash now phone purpose c) f refl

-- A code is accepted only for a challenge with that phone and purpose that is delivered, not used,
-- not expired and has had fewer than five tries, and only if its digest is the stored one.
pub consume_challenge-ok :
    (digest : ℕ → Text → ℕ) (now id : ℕ) (phone : Text) (purpose : Purpose) (code : Text)
    (cs : List Challenge) (r : Challenge)
    → (consume_challenge digest now id phone purpose code cs).0 ≡ ok r
    → (c : Challenge) × (find_first (has_id id) cs ≡ some c)
      × (c.phone ≡ phone)
      × (same_purpose c.purpose purpose ≡ true)
      × (c.used ≡ false)
      × (now < c.expires_at)
      × (c.attempts < 5)
      × (c.delivered ≡ true)
      × (c.code_hash ≡ some (digest id (latin_digits (strip code))))
consume_challenge-ok digest now id phone purpose code cs r h =
    elim (consume_challenge_cases digest now id phone purpose code cs) [
      | inl e ↦ absurd (ground (arith, ap (λ x. x.0) e))
      | inr (c, hash, f, e, inl (same, _)) ↦
          let x = open_hash-eq-some now phone purpose c hash e in
          (c, f, x.0, x.1, x.2, x.3, x.4, x.5, ground (arith, x.6))
      | inr (c, hash, f, e, inr t) ↦ absurd (ground (arith, ap (λ x. x.0) t))
    ]

spent_open :
    (now : ℕ) (phone : Text) (purpose : Purpose) (c : Challenge)
    → c.used ≡ true
    → open_hash now phone purpose c ≡ none
unfolding open_hash
spent_open now phone purpose c h = ground arith

-- A challenge is consumed once: after a code was accepted, every further code for it, even the same
-- one, is refused and changes nothing.
pub consume_challenge_twice :
    (digest : ℕ → Text → ℕ) (now id : ℕ) (phone : Text) (purpose : Purpose) (code : Text)
    (cs : List Challenge) (r : Challenge) (later : ℕ) (other : Text) (again : Purpose)
    (guess : Text)
    → (consume_challenge digest now id phone purpose code cs).0 ≡ ok r
    → let t = (consume_challenge digest now id phone purpose code cs).1 in
      consume_challenge digest later id other again guess t ≡ (raise HttpError.bad_request, t)
consume_challenge_twice digest now id phone purpose code cs r later other again guess h =
    elim (consume_challenge_cases digest now id phone purpose code cs) [
      | inl e ↦ absurd (ground (arith, ap (λ x. x.0) e))
      | inr (c, hash, f, e, inl (same, t)) ↦ rw t (refused c f)
      | inr (c, hash, f, e, inr t) ↦ absurd (ground (arith, ap (λ x. x.0) t))
    ]
  where
    refused :
        (c : Challenge)
        → find_first (has_id id) cs ≡ some c
        → consume_challenge digest later id other again guess (update_where (has_id id) spent cs)
          ≡ (raise HttpError.bad_request, update_where (has_id id) spent cs)
    refused c f =
        let row =
          find_first-update (has_id id) (has_id id) spent cs c (λ k. unfold spent in refl) f in
        let here = find_first_holds (has_id id) cs c f in
        unfold consume_challenge in
        ground (arith, row, here, spent_open later other again (spent c) (unfold spent in refl))
