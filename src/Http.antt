-- ===== src/Http.antt =====
-- The outcome of a handler: a value, or the `HTTPException` that it raises, by its status code.
use voice_2_text.Prelude.{ℕ, ◌≡◌, refl, ap, subst, Bool, true, false, Option, none, some, arith}

pub data HttpError : Type 0 where
  bad_request unauthorized forbidden not_found conflict unavailable server_error : HttpError
  too_many : ℕ → HttpError  -- with the seconds of Retry-After

pub data Result {ℓ} (A : Type ℓ) : Type ℓ where
  ok : A → Result A
  raise : HttpError → Result A

infixl 5 ◌>>=◌ ◌>>◌
abbrev pub ◌>>=◌ {ℓ κ} : {A : Type ℓ} {B : Type κ} → Result A → (A → Result B) → Result B
ok a >>= f = f a
raise e >>= f = raise e

abbrev pub ◌>>◌ {ℓ κ} : {A : Type ℓ} {B : Type κ} → Result A → Result B → Result B
m >> k = m >>= λ _. k

-- `if not test: raise e`
abbrev pub require : Bool → HttpError → Result (Unit {0})
require true e = ok tt
require false e = raise e

-- `if x is None: raise e`
abbrev pub found {ℓ} : {A : Type ℓ} → Option A → HttpError → Result A
found none e = raise e
found (some a) e = ok a

-- A transaction: an error rolls the session back, so that the state is the one before.
abbrev pub commit {ℓ κ} : {S : Type ℓ} {A : Type κ} → S → Result (A × S) → Result A × S
commit s (ok (a, t)) = (ok a, t)
commit s (raise e) = (raise e, s)

-- What the state before has, and every state that the transaction may commit, the state after has.
pub commit-keeps {ℓ κ μ} :
    {S : Type ℓ} {A : Type κ} (P : S → Type μ) (s : S) (r : Result (A × S))
    → P s
    → ((a : A) (t : S) → r ≡ ok (a, t) → P t)
    → P (commit s r).1
commit-keeps P s (ok (a, t)) p h = h a t refl
commit-keeps P s (raise e) p h = p

pub commit-raise {ℓ κ} :
    {S : Type ℓ} {A : Type κ} (s : S) (r : Result (A × S)) (e : HttpError)
    → (commit s r).0 ≡ raise e
    → (commit s r).1 ≡ s
commit-raise s (ok (a, t)) e h = absurd (cc)
commit-raise s (raise x) e h = refl

pub commit-ok {ℓ κ} :
    {S : Type ℓ} {A : Type κ} (s : S) (r : Result (A × S)) (a : A)
    → (commit s r).0 ≡ ok a
    → r ≡ ok (a, (commit s r).1)
commit-ok s (ok (a, t)) b h = ground arith
commit-ok s (raise x) b h = absurd (cc)

pub >>=-eq-ok {ℓ κ} :
    {A : Type ℓ} {B : Type κ} (m : Result A) (f : A → Result B) (b : B)
    → (m >>= f) ≡ ok b
    → (a : A) × (m ≡ ok a) × (f a ≡ ok b)
>>=-eq-ok (ok a) f b h = (a, refl, h)
>>=-eq-ok (raise e) f b h = absurd (cc)

-- What holds of the state that a transaction commits, if it does not fail.
unfoldable pub Yields {ℓ κ μ} : {S : Type ℓ} {A : Type κ} → (S → Type μ) → Result (A × S) → Type μ
Yields P (ok (a, t)) = P t
Yields P (raise e) = Unit

pub >>=-Yields {ℓ κ μ ν} :
    {S : Type ℓ} {A : Type κ} {B : Type ν} (P : S → Type μ) (m : Result A) (f : A → Result (B × S))
    → ((a : A) → m ≡ ok a → Yields P (f a))
    → Yields P (m >>= f)
unfolding Yields
>>=-Yields P (ok a) f h = h a refl
>>=-Yields P (raise e) f h = tt

pub commit-Yields {ℓ κ μ} :
    {S : Type ℓ} {A : Type κ} (P : S → Type μ) (s : S) (r : Result (A × S))
    → Yields P r
    → P s
    → P (commit s r).1
unfolding Yields
commit-Yields P s (ok (a, t)) h p = h
commit-Yields P s (raise e) h p = p

pub Yields-ok {ℓ κ μ} :
    {S : Type ℓ} {A : Type κ} (P : S → Type μ) (r : Result (A × S)) (a : A) (t : S)
    → Yields P r
    → r ≡ ok (a, t)
    → P t
unfolding Yields
Yields-ok {S = S} {A = A} P (ok (b, u)) a t y h = subst P (ap (λ x. committed u x) h) y
  where
    committed : S → Result (A × S) → S
    committed u (ok (_, t)) = t
    committed u (raise _) = u
Yields-ok P (raise e) a t y h = absurd (cc)

pub Yields-map {ℓ κ μ ν} :
    {S : Type ℓ} {A : Type κ} {P : S → Type μ} {Q : S → Type ν} (r : Result (A × S))
    → ((t : S) → P t → Q t)
    → Yields P r
    → Yields Q r
unfolding Yields
Yields-map (ok (a, t)) f y = f t y
Yields-map (raise e) f y = tt
