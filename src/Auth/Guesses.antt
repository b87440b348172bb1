-- ===== src/Auth/Guesses.antt =====
-- app/auth.py: how many wrong codes `consume_challenge` compares.
use voice_2_text.Prelude.{
  ℕ, ◌+◌, ◌==◌, max, ◌≡◌, ◌≤◌, inl, inr, refl, Bool, Bool-cases, Option, none, some, List, [], ◌∷◌,
  Text, strip, find_first, find_first_holds, find_first-update, arith, if◌then◌else◌,
}
use voice_2_text.Http.{ok, raise}
use voice_2_text.Auth.Challenges.{
  Purpose, Challenge, has_id, latin_digits, open_hash, tried, spent, consume_challenge,
  open_hash-eq-some,
}

-- One request with a code, at its time: a right one is committed or rolled back by its caller.
pub record Attempt : Type 0 where
  pub now : ℕ
  pub code : Text
  pub kept : Bool

-- what the request leaves of the challenges
unfoldable pub attempt :
    (ℕ → Text → ℕ) → ℕ → Text → Purpose → Attempt → List Challenge → List Challenge
attempt digest id phone purpose a cs =
    let r = consume_challenge digest a.now id phone purpose a.code cs in
    elim r.0 [ raise e ↦ r.1 | ok c ↦ if a.kept then r.1 else cs ]

-- 1 if the code is compared with the hash and is not the right one
unfoldable pub wrong : (ℕ → Text → ℕ) → ℕ → Text → Purpose → Attempt → List Challenge → ℕ
wrong digest id phone purpose a cs = elim (find_first (has_id id) cs) [
  | none ↦ 0
  | some c ↦ elim (open_hash a.now phone purpose c) [
    | none ↦ 0
    | some hash ↦ if hash == digest id (latin_digits (strip a.code)) then 0 else 1
  ]
]

-- How many wrong codes are compared in a sequence of requests.
unfoldable pub guesses : (ℕ → Text → ℕ) → ℕ → Text → Purpose → List Attempt → List Challenge → ℕ
guesses digest id phone purpose [] cs = 0
guesses digest id phone purpose (a ∷ tries) cs =
    wrong digest id phone purpose a cs
    + guesses digest id phone purpose tries (attempt digest id phone purpose a cs)

module _ (digest : ℕ → Text → ℕ) (id : ℕ) (phone : Text) (purpose : Purpose) (a : Attempt)
    (cs : List Challenge) where
  -- A wrong code that is compared counts, and a challenge counts up to five only.
  attempt_counts :
      (c : Challenge)
      → find_first (has_id id) cs ≡ some c
      → (d : Challenge) × (find_first (has_id id) (attempt digest id phone purpose a cs) ≡ some d)
        × (wrong digest id phone purpose a cs + c.attempts ≤ d.attempts)
        × (d.attempts ≤ max 5 c.attempts)
  unfolding consume_challenge attempt wrong
  attempt_counts c f = go (open_hash a.now phone purpose c) refl
    where
      Goal : Type 0
      Goal =
          (d : Challenge) × (find_first (has_id id) (attempt digest id phone purpose a cs) ≡ some d)
          × (wrong digest id phone purpose a cs + c.attempts ≤ d.attempts)
          × (d.attempts ≤ max 5 c.attempts)

      here : c.id ≡ id
      here = let t = find_first_holds (has_id id) cs c f in ground (arith, t)

      go : (o : Option ℕ) → open_hash a.now phone purpose c ≡ o → Goal
      go none e = (c, ground arith, ground arith, ground arith)
      go (some hash) e =
          let few = (open_hash-eq-some a.now phone purpose c hash e).4 in
          elim (Bool-cases (hash == digest id (latin_digits (strip a.code)))) [
            | inl same ↦ elim (Bool-cases a.kept) [
              | inl kept ↦
                  let row =
                    find_first-update (has_id id) (has_id id) spent cs c (λ k. unfold spent in refl)
                      f in
                  (
                    spent c,
                    ground (arith, row, here),
                    unfold spent in ground arith,
                    unfold spent in ground (arith, few),
                  )
              | inr undone ↦ (c, ground arith, ground arith, ground arith)
            ]
            | inr other ↦
                let row =
                  find_first-update (has_id id) (has_id id) tried cs c (λ k. unfold tried in refl)
                    f in
                (
                  tried c,
                  ground (arith, row, here),
                  unfold tried in ground arith,
                  unfold tried in ground (arith, few),
                )
          ]

-- However many requests bring a code for a challenge, and whichever of the right ones are rolled back
-- by a later error, at most five wrong codes are compared, the attempts counted before included; none
-- is if more were counted before.
pub guesses-limit :
    (digest : ℕ → Text → ℕ) (id : ℕ) (phone : Text) (purpose : Purpose) (tries : List Attempt)
    (cs : List Challenge) (c : Challenge)
    → find_first (has_id id) cs ≡ some c
    → guesses digest id phone purpose tries cs + c.attempts ≤ max 5 c.attempts
unfolding guesses
guesses-limit digest id phone purpose [] cs c f = omega arith
guesses-limit digest id phone purpose (a ∷ tries) cs c f =
    let x = attempt_counts digest id phone purpose a cs c f in
    let rest =
      guesses-limit digest id phone purpose tries (attempt digest id phone purpose a cs) x.0 x.1 in
    ground (arith, rest, x.2, x.3)
