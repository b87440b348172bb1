-- ===== src/Prelude/Table.antt =====
-- Database tables as lists of rows, and the queries that the code makes of them.
use Prim.Native.Nat.{ℕ, suc, ◌+◌}
use mathlib.Core.Path.{◌≡◌, refl, sym, ap, subst}
use mathlib.Core.Bool.{Bool, true, false}
use mathlib.Core.Option.{Option, none, some}
use mathlib.Core.List.{List, [], ◌∷◌, ◌++◌, Memᴰ}
use mathlib.Core.List.Memᴰ.{head, tail}
use native.Mathlib.Omega.{arith}
use voice_2_text.Prelude.Tests.{if◌then◌else◌}
use voice_2_text.Prelude.Lists.{length, All}

module _ {ℓ} {A : Type ℓ} where
  -- query.filter(p).first()
  unfoldable pub find_first : (A → Bool) → List A → Option A
  find_first p [] = none
  find_first p (x ∷ xs) = if p x then some x else find_first p xs

  -- query.filter(p).all()
  unfoldable pub select : (A → Bool) → List A → List A
  select p [] = []
  select p (x ∷ xs) = let rest = select p xs in if p x then x ∷ rest else rest

  -- query.filter(p).delete()
  unfoldable pub delete_where : (A → Bool) → List A → List A
  delete_where p [] = []
  delete_where p (x ∷ xs) = let rest = delete_where p xs in if p x then rest else x ∷ rest

  -- query.filter(p).update(f); also the write of a row that was read by its key
  unfoldable pub update_where : (A → Bool) → (A → A) → List A → List A
  update_where p f [] = []
  update_where p f (x ∷ xs) = (if p x then f x else x) ∷ update_where p f xs

  unfoldable pub exists : (A → Bool) → List A → Bool
  exists p [] = false
  exists p (x ∷ xs) = if p x then true else exists p xs

  pub find_first_holds :
      (p : A → Bool) (xs : List A) (x : A) → find_first p xs ≡ some x → p x ≡ true
  unfolding find_first
  find_first_holds p [] x h = ground arith
  find_first_holds p (y ∷ ys) x h = ground (arith, find_first_holds p ys x)

  -- The query after a write that changes none of its answers, but for the row itself.
  pub find_first-update :
      (p q : A → Bool) (f : A → A) (xs : List A) (r : A)
      → ((x : A) → p (f x) ≡ p x)
      → find_first p xs ≡ some r
      → find_first p (update_where q f xs) ≡ some (if q r then f r else r)
  unfolding find_first update_where
  find_first-update p q f [] r same h = absurd (ground arith)
  find_first-update p q f (x ∷ xs) r same h =
      ground (arith, find_first-update p q f xs r same, same x)

  pub find_first-update_none :
      (p q : A → Bool) (f : A → A) (xs : List A)
      → ((x : A) → p (f x) ≡ p x)
      → find_first p xs ≡ none
      → find_first p (update_where q f xs) ≡ none
  unfolding find_first update_where
  find_first-update_none p q f [] same h = refl
  find_first-update_none p q f (x ∷ xs) same h =
      ground (arith, find_first-update_none p q f xs same, same x)

  pub length-update :
      (p : A → Bool) (f : A → A) (xs : List A) → length (update_where p f xs) ≡ length xs
  unfolding update_where
  length-update p f [] = refl
  length-update p f (x ∷ xs) = omega (arith, length-update p f xs)

  -- A predicate of rows that the written row keeps holds after the write.
  pub All-update {κ} :
      (P : A → Type κ) (p : A → Bool) (f : A → A) (xs : List A)
      → ((x : A) → p x ≡ true → P x → P (f x))
      → All P xs
      → All P (update_where p f xs)
  unfolding update_where
  All-update P p f [] keep h = tt
  All-update P p f (x ∷ xs) keep h = (go (p x) refl, All-update P p f xs keep h.1)
    where
      go : (b : Bool) → p x ≡ b → P (if b then f x else x)
      go true e = keep x e h.0
      go false e = h.0

  pub All-delete {κ} :
      (P : A → Type κ) (p : A → Bool) (xs : List A) → All P xs → All P (delete_where p xs)
  unfolding delete_where
  All-delete P p [] h = tt
  All-delete P p (x ∷ xs) h = go (p x) (All-delete P p xs h.1)
    where
      go :
          (b : Bool)
          → All P (delete_where p xs)
          → All P (if b then delete_where p xs else x ∷ delete_where p xs)
      go true r = r
      go false r = (h.0, r)

  pub All-find {κ} :
      (P : A → Type κ) (p : A → Bool) (xs : List A) (x : A)
      → All P xs
      → find_first p xs ≡ some x
      → P x
  unfolding find_first
  All-find P p [] x h e = absurd (ground arith)
  All-find P p (y ∷ ys) x h e = go (p y) refl (All-find P p ys x h.1)
    where
      go : (b : Bool) → p y ≡ b → (find_first p ys ≡ some x → P x) → P x
      go false t r = r (ground arith)
      go true t r = subst P (ground arith) h.0

  pub exists-delete : (p : A → Bool) (xs : List A) → exists p (delete_where p xs) ≡ false
  unfolding exists delete_where
  exists-delete p [] = refl
  exists-delete p (x ∷ xs) = ground (arith, exists-delete p xs)

  -- the number of rows that an UPDATE or a DELETE reports
  unfoldable pub count_where : (A → Bool) → List A → ℕ
  count_where p [] = 0
  count_where p (x ∷ xs) = let rest = count_where p xs in if p x then suc rest else rest

  pub count-exists : (p : A → Bool) (xs : List A) → count_where p xs ≡ 0 → exists p xs ≡ false
  unfolding exists count_where
  count-exists p [] h = refl
  count-exists p (x ∷ xs) h = ground (arith, count-exists p xs)

  pub count-zero : (p : A → Bool) (xs : List A) → All (λ x. p x ≡ false) xs → count_where p xs ≡ 0
  unfolding count_where
  count-zero p [] h = refl
  count-zero p (x ∷ xs) h = ground (arith, count-zero p xs h.1)

  -- A predicate of the rows after a write, row by row.
  pub All-written {κ} :
      (P : A → Type κ) (p : A → Bool) (f : A → A) (xs : List A)
      → All (λ x. P (if p x then f x else x)) xs
      → All P (update_where p f xs)
  unfolding update_where
  All-written P p f [] h = tt
  All-written P p f (x ∷ xs) h = (h.0, All-written P p f xs h.1)

  pub find_first-none :
      (p : A → Bool) (xs : List A) → find_first p xs ≡ none → All (λ x. p x ≡ false) xs
  unfolding find_first
  find_first-none p [] h = tt
  find_first-none p (x ∷ xs) h = ground (arith, find_first-none p xs)

  pub exists-delete_absent :
      (p q : A → Bool) (xs : List A) → exists p xs ≡ false → exists p (delete_where q xs) ≡ false
  unfolding exists delete_where
  exists-delete_absent p q [] h = refl
  exists-delete_absent p q (x ∷ xs) h = ground (arith, exists-delete_absent p q xs)

  pub exists_of_mem :
      (p : A → Bool) (x : A) (xs : List A) → Memᴰ x xs → p x ≡ true → exists p xs ≡ true
  unfolding exists
  exists_of_mem p x [] m t = elim m [ ]
  exists_of_mem p x (y ∷ ys) (head e) t = ground (arith, ap p e)
  exists_of_mem p x (y ∷ ys) (tail m) t = ground (arith, exists_of_mem p x ys m t)

  pub All-mem {κ} : (P : A → Type κ) (x : A) (xs : List A) → All P xs → Memᴰ x xs → P x
  All-mem P x [] h m = elim m [ ]
  All-mem P x (y ∷ ys) h (head e) = subst P (sym e) h.0
  All-mem P x (y ∷ ys) h (tail m) = All-mem P x ys h.1 m

  pub exists-none : (p : A → Bool) (xs : List A) → exists p xs ≡ false → All (λ x. p x ≡ false) xs
  unfolding exists
  exists-none p [] h = tt
  exists-none p (x ∷ xs) h = ground (arith, exists-none p xs)

  pub exists-append :
      (p : A → Bool) (xs ys : List A) → exists p xs ≡ true → exists p (xs ++ ys) ≡ true
  unfolding exists
  exists-append p [] ys h = absurd (ground arith)
  exists-append p (x ∷ xs) ys h = ground (arith, exists-append p xs ys)

  -- a write that keeps what was found
  pub exists-update_where :
      (p q : A → Bool) (f : A → A) (xs : List A)
      → All (λ x. q x ≡ true → p x ≡ true → p (f x) ≡ true) xs
      → exists p xs ≡ true
      → exists p (update_where q f xs) ≡ true
  unfolding exists update_where
  exists-update_where p q f [] k h = absurd (ground arith)
  exists-update_where p q f (x ∷ xs) k h = ground (arith, exists-update_where p q f xs k.1, k.0)

  pub find_first-append_some :
      (p : A → Bool) (xs ys : List A) (x : A)
      → find_first p xs ≡ some x
      → find_first p (xs ++ ys) ≡ some x
  unfolding find_first
  find_first-append_some p [] ys x h = absurd (ground arith)
  find_first-append_some p (y ∷ xs) ys x h = ground (arith, find_first-append_some p xs ys x)

  pub find_first-exists :
      (p : A → Bool) (xs : List A) → find_first p xs ≡ none → exists p xs ≡ false
  unfolding find_first exists
  find_first-exists p [] h = refl
  find_first-exists p (x ∷ xs) h = ground (arith, find_first-exists p xs)

  pub exists-append_none :
      (p : A → Bool) (xs ys : List A)
      → exists p xs ≡ false
      → exists p ys ≡ false
      → exists p (xs ++ ys) ≡ false
  unfolding exists
  exists-append_none p [] ys h k = k
  exists-append_none p (x ∷ xs) ys h k = ground (arith, exists-append_none p xs ys)

  pub count-append :
      (p : A → Bool) (xs ys : List A)
      → count_where p (xs ++ ys) ≡ count_where p xs + count_where p ys
  unfolding count_where
  count-append p [] ys = omega arith
  count-append p (x ∷ xs) ys = ground (arith, count-append p xs ys)
