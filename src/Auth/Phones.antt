-- ===== src/Auth/Phones.antt =====
-- app/auth.py: `normalize_phone`.
use mathlib.Core.List.{reverse, reverse-append, reverse-reverse}
use voice_2_text.Prelude.{
  ℕ, ◌==◌, ◌≡◌, refl, Bool, true, false, ◌&&◌, Option, none, some, [], ◌∷◌, Text, length, All,
  All-append, strip, lstrip, is_space, delete_where, arith, if◌then◌else◌, within, ap, ◌∙◌, subst,
  sym,
}
use voice_2_text.Http.{Result, ok, raise, HttpError}
use voice_2_text.Auth.Challenges.{latin_digit, latin_digits}

-- `startswith` and the slice behind the prefix
unfoldable pub drop_prefix : Text → Text → Option Text
drop_prefix [] s = some s
drop_prefix (p ∷ ps) [] = none
drop_prefix (p ∷ ps) (c ∷ cs) = let rest = drop_prefix ps cs in if p == c then rest else none

abbrev pub is_digit : ℕ → Bool
is_digit c = within 48 57 c

unfoldable pub all_digits : Text → Bool
all_digits [] = true
all_digits (c ∷ cs) = let rest = all_digits cs in is_digit c && rest

-- the regular expression `09[0-9]{9}`
unfoldable pub is_phone : Text → Bool
is_phone s = elim (drop_prefix (48 ∷ 57 ∷ []) s) [
  | none ↦ false
  | some rest ↦ length rest == 9 && all_digits rest
]

-- the country code of a shared contact: `+98`, `0098` or `98`
unfoldable pub local_form : Text → Text
local_form s = elim (drop_prefix (43 ∷ 57 ∷ 56 ∷ []) s) [
  | some rest ↦ 48 ∷ rest
  | none ↦ elim (drop_prefix (48 ∷ 48 ∷ 57 ∷ 56 ∷ []) s) [
    | some rest ↦ 48 ∷ rest
    | none ↦ elim (drop_prefix (57 ∷ 56 ∷ []) s) [ some rest ↦ 48 ∷ rest | none ↦ s ]
  ]
]

unfoldable pub normalize_phone : Bool → Text → Result Text
normalize_phone contact value =
    let digits = latin_digits (strip value) in
    let bare = delete_where (λ c. c == 45) (delete_where (λ c. c == 32) digits) in
    let phone = if contact then local_form bare else digits in
    if is_phone phone then ok phone else raise HttpError.bad_request

-- A phone number, digit by digit.
abbrev Digits : Text → Type 0
Digits s = All (λ c. is_digit c ≡ true) s

all_digits-Digits : (s : Text) → all_digits s ≡ true → Digits s
unfolding all_digits
all_digits-Digits [] h = tt
all_digits-Digits (c ∷ cs) h = (ground arith, all_digits-Digits cs (ground arith))

is_phone_cases : (s : Text) → is_phone s ≡ true → (rest : Text) × (s ≡ 48 ∷ 57 ∷ rest) × Digits rest
unfolding is_phone drop_prefix
is_phone_cases [] h = absurd (ground arith)
is_phone_cases (a ∷ []) h = absurd (ground arith)
is_phone_cases (a ∷ b ∷ rest) h = (rest, ground arith, all_digits-Digits rest (ground arith))

latin_digits_of_Digits : (s : Text) → Digits s → latin_digits s ≡ s
unfolding latin_digits latin_digit
latin_digits_of_Digits [] h = refl
latin_digits_of_Digits (c ∷ cs) h = ground (arith, h.0, latin_digits_of_Digits cs h.1)

delete_of_Digits :
    (k : ℕ) (s : Text) → is_digit k ≡ false → Digits s → delete_where (λ c. c == k) s ≡ s
unfolding delete_where
delete_of_Digits k [] n h = refl
delete_of_Digits k (c ∷ cs) n h = ground (arith, h.0, delete_of_Digits k cs n h.1)

lstrip_of_Digits : (s : Text) → Digits s → lstrip s ≡ s
unfolding lstrip is_space
lstrip_of_Digits [] h = refl
lstrip_of_Digits (c ∷ cs) h = ground (arith, h.0)

reverse-Digits : (s : Text) → Digits s → Digits (reverse s)
reverse-Digits [] h = tt
reverse-Digits (c ∷ cs) h =
    subst Digits (sym (reverse-append (c ∷ []) cs))
      (All-append _ (reverse cs) (c ∷ []) (reverse-Digits cs h.1) (h.0, tt))

strip_of_Digits : (s : Text) → Digits s → strip s ≡ s
unfolding strip
strip_of_Digits s h =
    let once = lstrip_of_Digits s h in
    let back = lstrip_of_Digits (reverse s) (reverse-Digits s h) in
    ap (λ t. reverse (lstrip (reverse t))) once ∙ (ap reverse back ∙ reverse-reverse s)

local_form_of_phone : (rest : Text) → local_form (48 ∷ 57 ∷ rest) ≡ 48 ∷ 57 ∷ rest
unfolding local_form drop_prefix
local_form_of_phone rest = refl

is_phone-Digits : (s : Text) → is_phone s ≡ true → Digits s
is_phone-Digits s h =
    let x = is_phone_cases s h in subst Digits (sym x.1) (ground arith, (ground arith, x.2))

normalize_phone-eq-ok :
    (contact : Bool) (value p : Text) → normalize_phone contact value ≡ ok p → is_phone p ≡ true
unfolding normalize_phone
normalize_phone-eq-ok true value p h = ground arith
normalize_phone-eq-ok false value p h = ground arith

is_phone-length : (s : Text) → is_phone s ≡ true → length s ≡ 11
unfolding is_phone drop_prefix
is_phone-length [] h = absurd (ground arith)
is_phone-length (a ∷ []) h = absurd (ground arith)
is_phone-length (a ∷ b ∷ rest) h = ground arith

stable :
    (contact : Bool) (p : Text) → is_phone p ≡ true → Digits p → normalize_phone contact p ≡ ok p
unfolding normalize_phone
stable false p valid digits =
    rw (strip_of_Digits p digits, latin_digits_of_Digits p digits) (ground arith)
stable true p valid digits =
    let x = is_phone_cases p valid in
    let form : local_form p ≡ p = ap local_form x.1 ∙ (local_form_of_phone x.0 ∙ sym x.1) in
    rw
      (
        strip_of_Digits p digits,
        latin_digits_of_Digits p digits,
        delete_of_Digits 32 p refl digits,
        delete_of_Digits 45 p refl digits,
        form,
      )
      (ground arith)

-- A number that was accepted, typed on the site or shared as a contact, has the one form that both
-- ways leave as it is: eleven Latin digits, of which the first two are 0 and 9.
pub normalize_phone-normal :
    (contact again : Bool) (value p : Text)
    → normalize_phone contact value ≡ ok p
    → (rest : Text) × (p ≡ 48 ∷ 57 ∷ rest)
      × (length p ≡ 11)
      × All (λ c. is_digit c ≡ true) p
      × (normalize_phone again p ≡ ok p)
normalize_phone-normal contact again value p h =
    let valid = normalize_phone-eq-ok contact value p h in
    let digits = is_phone-Digits p valid in
    let x = is_phone_cases p valid in
    (x.0, x.1, is_phone-length p valid, digits, stable again p valid digits)
