-- ===== src/Auth/Limits.antt =====
-- app/auth.py: `rate_limit`. The key is the digest of the kind and the value, a number here.
use voice_2_text.Prelude.{
  ℕ, ◌+◌, ◌-◌, ◌==◌, ltb, leb, max, ◌≡◌, ◌≤◌, ◌<◌, ◌⊎◌, inl, inr, Bool-cases, ap, Bool, true, false,
  Option, none, some, List, [], ◌∷◌, ◌++◌, All, find_first, find_first_holds, delete_where,
  update_where, arith, if◌then◌else◌,
}
use voice_2_text.Http.{Result, ok, raise, HttpError, require, commit, ◌>>◌}

pub record RateBucket : Type 0 where
  pub key : ℕ
  pub count : ℕ
  pub expires_at : ℕ

abbrev pub has_key : ℕ → RateBucket → Bool
has_key key b = b.key == key

-- `expires_at < now - 3600`
abbrev pub is_stale : ℕ → RateBucket → Bool
is_stale now b = ltb (b.expires_at + 3600) now

unfoldable pub current : ℕ → ℕ → ℕ → Option RateBucket → RateBucket
current now key seconds none = record { key = key; count = 0; expires_at = now + seconds }
current now key seconds (some b) =
    if leb b.expires_at now then record b { count = 0; expires_at = now + seconds } else b

abbrev pub put : ℕ → Option RateBucket → RateBucket → List RateBucket → List RateBucket
put key none b bs = bs ++ b ∷ []
put key (some _) b bs = update_where (has_key key) (λ _. b) bs

unfoldable pub rate_limit_body :
    ℕ → ℕ → ℕ → ℕ → List RateBucket → Result (Unit {0} × List RateBucket)
rate_limit_body now key limit seconds bs = do
  let kept = delete_where (is_stale now) bs
  let bucket = current now key seconds (find_first (has_key key) kept)
  require (ltb bucket.count limit) (HttpError.too_many (max 1 (bucket.expires_at - now)))
  ok (tt, put key (find_first (has_key key) kept) (record bucket { count = bucket.count + 1 }) kept)

unfoldable pub rate_limit : ℕ → ℕ → ℕ → ℕ → List RateBucket → Result (Unit {0}) × List RateBucket
rate_limit now key limit seconds bs = commit bs (rate_limit_body now key limit seconds bs)

-- How many of the requests, made at the given times, are let through.
unfoldable pub passed : ℕ → ℕ → ℕ → List ℕ → List RateBucket → ℕ
passed key limit seconds [] bs = 0
passed key limit seconds (now ∷ times) bs =
    let rest = passed key limit seconds times (rate_limit now key limit seconds bs).1 in
    elim (rate_limit now key limit seconds bs).0 [ ok _ ↦ rest + 1 | raise _ ↦ rest ]

find_first-delete :
    (p q : RateBucket → Bool) (bs : List RateBucket) (b : RateBucket)
    → find_first p bs ≡ some b
    → q b ≡ false
    → find_first p (delete_where q bs) ≡ some b
unfolding find_first delete_where
find_first-delete p q [] b h n = absurd (ground arith)
find_first-delete p q (c ∷ cs) b h n = ground (arith, find_first-delete p q cs b)

find_first-put :
    (p : RateBucket → Bool) (c : RateBucket) (bs : List RateBucket) (b : RateBucket)
    → find_first p bs ≡ some b
    → p c ≡ true
    → find_first p (update_where p (λ _. c) bs) ≡ some c
unfolding find_first update_where
find_first-put p c [] b h t = absurd (ground arith)
find_first-put p c (x ∷ xs) b h t = ground (arith, find_first-put p c xs b)

module _ (now key limit seconds : ℕ) (bs : List RateBucket) (b : RateBucket) where
  -- A request while the window of the bucket is open.
  rate_limit-open :
      find_first (has_key key) bs ≡ some b
      → now < b.expires_at
      → let t = rate_limit now key limit seconds bs in
        ((b.count < limit)
          × (t.0 ≡ ok tt)
          × (find_first (has_key key) t.1 ≡ some (record b { count = b.count + 1 })))
        ⊎ ((limit ≤ b.count) × (t ≡ (raise (HttpError.too_many (b.expires_at - now)), bs)))
  unfolding rate_limit rate_limit_body current
  rate_limit-open h later = elim (Bool-cases (ltb b.count limit)) [
    | inl t ↦ inl (ground arith, ground (arith, kept), ground (arith, kept, written))
    | inr f ↦ inr (ground arith, ground (arith, kept))
  ]
    where
      kept : find_first (has_key key) (delete_where (is_stale now) bs) ≡ some b
      kept = find_first-delete (has_key key) (is_stale now) bs b h (ground arith)

      written :
          find_first (has_key key) (
            update_where
              (has_key key)
              (λ _. record b { count = b.count + 1 })
              (delete_where (is_stale now) bs))
          ≡ some (record b { count = b.count + 1 })
      written =
          find_first-put (has_key key) (record b { count = b.count + 1 })
            (delete_where (is_stale now) bs) b kept (find_first_holds (has_key key) bs b h)

-- However many requests come while the window of a bucket is open, no more than `limit` pass in
-- all, those counted before included; none passes if more were counted before.
pub passed-limit :
    (key limit seconds : ℕ) (times : List ℕ) (bs : List RateBucket) (b : RateBucket)
    → find_first (has_key key) bs ≡ some b
    → All (λ now. now < b.expires_at) times
    → passed key limit seconds times bs + b.count ≤ max limit b.count
unfolding passed
passed-limit key limit seconds [] bs b h w = omega arith
passed-limit key limit seconds (now ∷ times) bs b h w =
    elim (rate_limit-open now key limit seconds bs b h w.0) [
      | inl (less, good, next) ↦
          let rest =
            passed-limit key limit seconds times (rate_limit now key limit seconds bs).1
              (record b { count = b.count + 1 }) next w.1 in
          ground (arith, rest)
      | inr (most, same) ↦
          let rest = passed-limit key limit seconds times bs b h w.1 in
          ground (arith, rest, ap (λ x. x.0) same, ap (λ x. x.1) same)
    ]
