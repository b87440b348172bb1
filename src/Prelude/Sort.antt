-- ===== src/Prelude/Sort.antt =====
-- `ORDER BY` and `sorted(..., key=...)`: a stable sort by a numeric key.
use Prim.Native.Nat.{ℕ, ◌≤◌, ◌<◌}
use mathlib.Core.Path.{◌≡◌, refl}
use mathlib.Core.Bool.{Bool, true, false}
use mathlib.Core.List.{List, [], ◌∷◌, ◌++◌, Perm}
use mathlib.Core.List.Perm
use native.Mathlib.Omega.{arith}
use voice_2_text.Prelude.Tests.{leb, leb→le, if◌then◌else◌}
use voice_2_text.Prelude.Lists.{All, All-map}

module _ {ℓ} {A : Type ℓ} (key : A → ℕ) where
  unfoldable pub insert : A → List A → List A
  insert x [] = x ∷ []
  insert x (y ∷ ys) = let rest = insert x ys in if leb (key x) (key y) then x ∷ y ∷ ys else y ∷ rest

  unfoldable pub sort_by : List A → List A
  unfolding insert
  sort_by [] = []
  sort_by (x ∷ xs) = insert x (sort_by xs)

  abbrev pub IsSorted : List A → Type 0
  IsSorted [] = Unit
  IsSorted (x ∷ xs) = All (λ y. key x ≤ key y) xs × IsSorted xs

  insert-All {κ} : (P : A → Type κ) (x : A) (ys : List A) → P x → All P ys → All P (insert x ys)
  unfolding insert
  insert-All P x [] hx h = (hx, tt)
  insert-All P x (y ∷ ys) hx h = ground (arith, insert-All P x ys hx h.1)

  insert-append :
      (x b : A) (ys : List A) → key x < key b → insert x (ys ++ b ∷ []) ≡ insert x ys ++ b ∷ []
  unfolding insert
  insert-append x b [] h = ground arith
  insert-append x b (y ∷ ys) h = ground (arith, insert-append x b ys h)

  -- A row whose key is above all others comes last.
  pub sort_by-append :
      (xs : List A) (b : A)
      → All (λ x. key x < key b) xs
      → sort_by (xs ++ b ∷ []) ≡ sort_by xs ++ b ∷ []
  unfolding sort_by
  sort_by-append [] b h = refl
  sort_by-append (x ∷ xs) b h = rw (sort_by-append xs b h.1) (insert-append x b (sort_by xs) h.0)

  insert-IsSorted : (x : A) (ys : List A) → IsSorted ys → IsSorted (insert x ys)
  unfolding insert
  insert-IsSorted x [] h = (tt, tt)
  insert-IsSorted x (y ∷ ys) h = go (leb (key x) (key y)) refl (insert-IsSorted x ys h.1)
    where
      go :
          (b : Bool)
          → leb (key x) (key y) ≡ b
          → IsSorted (insert x ys)
          → IsSorted (if b then x ∷ y ∷ ys else y ∷ insert x ys)
      go true e r = (
        (
          omega (arith, leb→le (key x) (key y)),
          All-map ys (λ z (p : key y ≤ key z). omega (arith, leb→le (key x) (key y))) h.0,
        ),
        h,
      )
      go false e r = (insert-All (λ z. key y ≤ key z) x ys (ground arith) h.0, r)

  pub sort_by-IsSorted : (xs : List A) → IsSorted (sort_by xs)
  unfolding sort_by
  sort_by-IsSorted [] = tt
  sort_by-IsSorted (x ∷ xs) = insert-IsSorted x (sort_by xs) (sort_by-IsSorted xs)

  insert-perm : (x : A) (ys : List A) → Perm (insert x ys) (x ∷ ys)
  unfolding insert
  insert-perm x [] = Perm.refl (x ∷ [])
  insert-perm x (y ∷ ys) = go (leb (key x) (key y)) (insert-perm x ys)
    where
      go :
          (b : Bool)
          → Perm (insert x ys) (x ∷ ys)
          → Perm (if b then x ∷ y ∷ ys else y ∷ insert x ys) (x ∷ y ∷ ys)
      go true r = Perm.refl (x ∷ y ∷ ys)
      go false r = Perm.trans (Perm.cons y r) (Perm.swap x y ys)

  pub sort_by-perm : (xs : List A) → Perm (sort_by xs) xs
  unfolding sort_by
  sort_by-perm [] = Perm.refl []
  sort_by-perm (x ∷ xs) = Perm.trans (insert-perm x (sort_by xs)) (Perm.cons x (sort_by-perm xs))

  pub sort_by-All {κ} : (P : A → Type κ) (xs : List A) → All P xs → All P (sort_by xs)
  unfolding sort_by
  sort_by-All P [] h = tt
  sort_by-All P (x ∷ xs) h = insert-All P x (sort_by xs) h.0 (sort_by-All P xs h.1)
