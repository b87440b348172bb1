-- ===== src/Prelude/Rows.antt =====
-- Rows with a primary key, and writes compared with the table before them, row by row.
use Prim.Native.Nat.{ℕ}
use mathlib.Core.Path.{◌≡◌, refl}
use mathlib.Core.Logic.{◌≢◌}
use mathlib.Core.Bool.{Bool, true, false}
use mathlib.Core.Option.{some}
use mathlib.Core.List.{List, [], ◌∷◌, ◌++◌}
use native.Mathlib.Omega.{arith}
use voice_2_text.Prelude.Tests.{if◌then◌else◌}
use voice_2_text.Prelude.Lists.{All, All-both, All-map, All-append}
use voice_2_text.Prelude.Table.{
  find_first, select, update_where, delete_where, All-written, All-delete,
}

module _ {ℓ} {A : Type ℓ} where
  -- Two tables of the same size whose rows are related in turn.
  pub data All₂ {κ} (R : A → A → Type κ) : List A → List A → Type (ℓ ⊔ κ) where
    nil : All₂ R [] []
    cons : {x y : A} {xs ys : List A} → R x y → All₂ R xs ys → All₂ R (x ∷ xs) (y ∷ ys)

  pub All₂-refl {κ} : (R : A → A → Type κ) → ((x : A) → R x x) → (xs : List A) → All₂ R xs xs
  All₂-refl R r [] = nil
  All₂-refl R r (x ∷ xs) = cons (r x) (All₂-refl R r xs)

  -- A write relates the tables if it relates each row that it writes.
  pub All₂-update {κ} :
      (R : A → A → Type κ) (p : A → Bool) (f : A → A) (xs : List A)
      → ((x : A) → R x x)
      → All (λ x. p x ≡ true → R x (f x)) xs
      → All₂ R xs (update_where p f xs)
  unfolding update_where
  All₂-update R p f [] r h = nil
  All₂-update R p f (x ∷ xs) r h = cons (go (p x) refl) (All₂-update R p f xs r h.1)
    where
      go : (b : Bool) → p x ≡ b → R x (if b then f x else x)
      go true e = h.0 e
      go false e = r x

  pub select-append :
      (p : A → Bool) (xs ys : List A) → select p (xs ++ ys) ≡ select p xs ++ select p ys
  unfolding select
  select-append p [] ys = refl
  select-append p (x ∷ xs) ys = ground (arith, select-append p xs ys)

  pub All-select {κ} :
      (P : A → Type κ) (p : A → Bool) (xs : List A)
      → All (λ x. p x ≡ true → P x) xs
      → All P (select p xs)
  unfolding select
  All-select P p [] h = tt
  All-select P p (x ∷ xs) h = go (p x) refl (All-select P p xs h.1)
    where
      go :
          (b : Bool)
          → p x ≡ b
          → All P (select p xs)
          → All P (if b then x ∷ select p xs else select p xs)
      go true e r = (h.0 e, r)
      go false e r = r

  -- A query that the write of no row can change.
  pub select-update :
      (p q : A → Bool) (f : A → A) (xs : List A)
      → ((x : A) → q x ≡ true → p x ≡ false)
      → ((x : A) → q x ≡ true → p (f x) ≡ false)
      → select p (update_where q f xs) ≡ select p xs
  unfolding select update_where
  select-update p q f [] h k = refl
  select-update p q f (x ∷ xs) h k = ground (arith, select-update p q f xs h k, h x, k x)

module _ {ℓ κ} {A : Type ℓ} (R : A → A → Type κ) where
  -- Each row is related to all that come after it.
  abbrev pub Pairwise : List A → Type κ
  Pairwise [] = Unit
  Pairwise (x ∷ xs) = All (R x) xs × Pairwise xs

  -- a write that keeps the relation of rows which have a property
  pub Pairwise-update_all {μ} :
      (Q : A → Type μ) (p : A → Bool) (f : A → A) (xs : List A)
      → ((x y : A) → Q x → Q y → R x y → R (if p x then f x else x) (if p y then f y else y))
      → All Q xs
      → Pairwise xs
      → Pairwise (update_where p f xs)
  unfolding update_where
  Pairwise-update_all Q p f [] keep q d = tt
  Pairwise-update_all Q p f (x ∷ xs) keep q d = (
    All-written (R (if p x then f x else x)) p f xs
        (All-both xs (λ y (k : Q y) (r : R x y). keep x y q.0 k r) q.1 d.0),
    Pairwise-update_all Q p f xs keep q.1 d.1,
  )

  pub Pairwise-update :
      (p : A → Bool) (f : A → A) (xs : List A)
      → ((x y : A) → R x y → R (if p x then f x else x) (if p y then f y else y))
      → Pairwise xs
      → Pairwise (update_where p f xs)
  unfolding update_where
  Pairwise-update p f [] keep d = tt
  Pairwise-update p f (x ∷ xs) keep d = (
    All-written (R (if p x then f x else x)) p f xs (All-map xs (λ y (r : R x y). keep x y r) d.0),
    Pairwise-update p f xs keep d.1,
  )

  pub Pairwise-append :
      (xs : List A) (y : A) → Pairwise xs → All (λ x. R x y) xs → Pairwise (xs ++ y ∷ [])
  Pairwise-append [] y d h = (tt, tt)
  Pairwise-append (x ∷ xs) y d h =
      (All-append (R x) xs (y ∷ []) d.0 (h.0, tt), Pairwise-append xs y d.1 h.1)

  pub Pairwise-delete : (p : A → Bool) (xs : List A) → Pairwise xs → Pairwise (delete_where p xs)
  unfolding delete_where
  Pairwise-delete p [] d = tt
  Pairwise-delete p (x ∷ xs) d = go (p x) (Pairwise-delete p xs d.1)
    where
      go :
          (b : Bool)
          → Pairwise (delete_where p xs)
          → Pairwise (if b then delete_where p xs else x ∷ delete_where p xs)
      go true rest = rest
      go false rest = (All-delete (R x) p xs d.0, rest)

module _ {ℓ} {A : Type ℓ} (key : A → ℕ) where
  -- The rows have different keys.
  abbrev pub Distinct : List A → Type 0
  Distinct xs = Pairwise (λ x y. key y ≢ key x) xs

  rest_differs :
      (x : A) (xs : List A) (r : A)
      → All (λ y. key y ≢ key x) xs
      → (p : A → Bool) → find_first p xs ≡ some r
      → key x ≢ key r
  unfolding find_first
  rest_differs x [] r h p e = absurd (ground arith)
  rest_differs x (y ∷ ys) r h p e = ground (arith, rest_differs x ys r h.1 p, h.0)

  -- A row that was found is the only one with its key.
  pub only_row :
      (p : A → Bool) (xs : List A) (r : A)
      → Distinct xs
      → find_first p xs ≡ some r
      → All (λ x. key x ≡ key r → x ≡ r) xs
  unfolding find_first
  only_row p [] r d e = tt
  only_row p (x ∷ xs) r d e = go (p x) refl (only_row p xs r d.1)
    where
      go :
          (b : Bool)
          → p x ≡ b
          → (find_first p xs ≡ some r → All (λ y. key y ≡ key r → y ≡ r) xs)
          → All (λ y. key y ≡ key r → y ≡ r) (x ∷ xs)
      go true t rest = (λ _. ground arith, All-map xs (λ y (n : key y ≢ key x) k. ground arith) d.0)
      go false t rest =
          (λ k. absurd (rest_differs x xs r d.0 p (ground arith) k), rest (ground arith))
