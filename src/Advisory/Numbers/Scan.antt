-- ===== src/Advisory/Numbers/Scan.antt =====
-- What the scan for numbers finds.
use mathlib.Core.List.{append_assoc}
use audiax_backend.Common.{
  ℕ, ◌≡◌, refl, ◌≢◌, ◌⊎◌, inl, inr, true, false, List, [], ◌∷◌, ◌++◌, arith, select, All, all,
}
use audiax_backend.Common.Text.{Text}
use audiax_backend.Common.Text.Decimal.{is_digit}
use audiax_backend.Advisory.Numbers.{
  digit, separator, other, kind, Place, outside, whole, pending, fraction, find_numbers,
}

-- The digits of a text, in order.
abbrev pub digits : Text → Text
digits = select is_digit

abbrev pub digits_of_all : List Text → Text
digits_of_all [] = []
digits_of_all (m ∷ ms) = digits m ++ digits_of_all ms

-- What the scan has in hand.
abbrev held : Place → Text
held outside = []
held (whole m) = m
held (pending m sep) = m
held (fraction m) = m

digits-append : (s t : Text) → digits (s ++ t) ≡ digits s ++ digits t
digits-append [] t = refl
digits-append (c ∷ s) t = ground (arith, digits-append s t)

-- A separator is no digit.
abbrev pub Fine : Place → Type 0
Fine (pending m sep) = is_digit sep ≡ false
Fine _ = Unit

find_numbers-digits :
    (p : Place) (s : Text) → Fine p → digits_of_all (find_numbers p s) ≡ digits (held p) ++ digits s
unfolding find_numbers kind
find_numbers-digits outside [] f = refl
find_numbers-digits outside (c ∷ s) f =
    ground (arith, find_numbers-digits (whole (c ∷ [])) s, find_numbers-digits outside s)
find_numbers-digits (whole m) [] f = refl
find_numbers-digits (pending m sep) [] f = refl
find_numbers-digits (fraction m) [] f = refl
find_numbers-digits (whole m) (c ∷ s) f = ground (
  arith,
  find_numbers-digits (whole (m ++ c ∷ [])) s,
  find_numbers-digits (pending m c) s,
  find_numbers-digits outside s,
  digits-append m (c ∷ []),
  append_assoc (digits m) (c ∷ []) (digits s),
)
find_numbers-digits (pending m sep) (c ∷ s) f = ground (
  arith,
  find_numbers-digits (fraction (m ++ sep ∷ c ∷ [])) s,
  find_numbers-digits outside s,
  digits-append m (sep ∷ c ∷ []),
  append_assoc (digits m) (c ∷ []) (digits s),
)
find_numbers-digits (fraction m) (c ∷ s) f = ground (
  arith,
  find_numbers-digits (fraction (m ++ c ∷ [])) s,
  find_numbers-digits outside s,
  digits-append m (c ∷ []),
  append_assoc (digits m) (c ∷ []) (digits s),
)

-- No digit of a text escapes the scan: the digits of the numbers found, in order, are the digits of
-- the text.
pub find_numbers-digits_all : (s : Text) → digits_of_all (find_numbers outside s) ≡ digits s
find_numbers-digits_all s = find_numbers-digits outside s tt

-- `\d+`
abbrev pub IsDigits : Text → Type 0
IsDigits s = (s ≢ []) × (all is_digit s ≡ true)

-- A text that `\d+(?:[.,]\d+)?` matches as a whole.
pub data IsNumber : Text → Type 0 where
  integer : (m : Text) → IsDigits m → IsNumber m
  decimal :
      (m : Text) (sep : ℕ) (n : Text)
      → IsDigits m
      → (sep ≡ b'.') ⊎ (sep ≡ b',')
      → IsDigits n
      → IsNumber (m ++ sep ∷ n)

-- What the scan has in hand is the start of a match.
abbrev IsHeld : Place → Type 0
IsHeld outside = Unit
IsHeld (whole m) = IsDigits m
IsHeld (pending m sep) = IsDigits m × ((sep ≡ b'.') ⊎ (sep ≡ b','))
IsHeld (fraction m) =
    (w : Text) × (sep : ℕ) × (n : Text) × (m ≡ w ++ sep ∷ n)
    × IsDigits w
    × ((sep ≡ b'.') ⊎ (sep ≡ b','))
    × IsDigits n

concat-ne-nil : (m : Text) (c : ℕ) → m ++ c ∷ [] ≢ []
concat-ne-nil [] c = cc
concat-ne-nil (d ∷ m) c = cc

all-concat :
    (m : Text) (c : ℕ)
    → all is_digit m ≡ true
    → is_digit c ≡ true
    → all is_digit (m ++ c ∷ []) ≡ true
all-concat [] c h d = ground arith
all-concat (e ∷ m) c h d = ground (arith, all-concat m c)

IsDigits-concat :
    (m : Text) (c : ℕ) → all is_digit m ≡ true → is_digit c ≡ true → IsDigits (m ++ c ∷ [])
IsDigits-concat m c h d = (concat-ne-nil m c, all-concat m c h d)

-- A digit more keeps a fraction a fraction.
fraction-concat :
    (m : Text) (c : ℕ) → IsHeld (fraction m) → is_digit c ≡ true → IsHeld (fraction (m ++ c ∷ []))
fraction-concat m c (w, sep, n, e, hw, hs, hn) d = (
  w,
  sep,
  n ++ c ∷ [],
  rw e (append_assoc w (sep ∷ n) (c ∷ [])),
  hw,
  hs,
  IsDigits-concat n c hn.1 d,
)

IsNumber-of_fraction : (m : Text) → IsHeld (fraction m) → IsNumber m
IsNumber-of_fraction m (w, sep, n, e, hw, hs, hn) = rw e (decimal w sep n hw hs hn)

kind_cases :
    (c : ℕ)
    → ((kind c ≡ digit) × (is_digit c ≡ true))
      ⊎ (((kind c ≡ separator) × ((c ≡ b'.') ⊎ (c ≡ b','))) ⊎ (kind c ≡ other))
unfolding kind
kind_cases c = ground arith

find_numbers-IsNumber : (p : Place) (s : Text) → IsHeld p → All IsNumber (find_numbers p s)
unfolding find_numbers
find_numbers-IsNumber outside [] h = tt
find_numbers-IsNumber (whole m) [] h = (integer m h, tt)
find_numbers-IsNumber (pending m sep) [] h = (integer m h.0, tt)
find_numbers-IsNumber (fraction m) [] h = (IsNumber-of_fraction m h, tt)
find_numbers-IsNumber outside (c ∷ s) h = elim (kind_cases c) [
  | inl (k, d) ↦
      rw (k, find_numbers) (find_numbers-IsNumber (whole (c ∷ [])) s (IsDigits-concat [] c refl d))
  | inr (inl (k, _)) ↦ rw (k, find_numbers) (find_numbers-IsNumber outside s tt)
  | inr (inr k) ↦ rw (k, find_numbers) (find_numbers-IsNumber outside s tt)
]
find_numbers-IsNumber (whole m) (c ∷ s) h = elim (kind_cases c) [
  | inl (k, d) ↦
      rw (k, find_numbers)
        (find_numbers-IsNumber (whole (m ++ c ∷ [])) s (IsDigits-concat m c h.1 d))
  | inr (inl (k, e)) ↦ rw (k, find_numbers) (find_numbers-IsNumber (pending m c) s (h, e))
  | inr (inr k) ↦ rw (k, find_numbers) (integer m h, find_numbers-IsNumber outside s tt)
]
find_numbers-IsNumber (pending m sep) (c ∷ s) h = elim (kind_cases c) [
  | inl (k, d) ↦
      rw (k, find_numbers)
        (find_numbers-IsNumber (fraction (m ++ sep ∷ c ∷ [])) s
          (m, sep, c ∷ [], refl, h.0, h.1, IsDigits-concat [] c refl d))
  | inr (inl (k, _)) ↦ rw (k, find_numbers) (integer m h.0, find_numbers-IsNumber outside s tt)
  | inr (inr k) ↦ rw (k, find_numbers) (integer m h.0, find_numbers-IsNumber outside s tt)
]
find_numbers-IsNumber (fraction m) (c ∷ s) h = elim (kind_cases c) [
  | inl (k, d) ↦
      rw (k, find_numbers)
        (find_numbers-IsNumber (fraction (m ++ c ∷ [])) s (fraction-concat m c h d))
  | inr (inl (k, _)) ↦
      rw (k, find_numbers) (IsNumber-of_fraction m h, find_numbers-IsNumber outside s tt)
  | inr (inr k) ↦
      rw (k, find_numbers) (IsNumber-of_fraction m h, find_numbers-IsNumber outside s tt)
]

-- Each match has the form of the pattern: digits, or digits, a point or a comma, and digits.
pub find_numbers-All_IsNumber : (s : Text) → All IsNumber (find_numbers outside s)
find_numbers-All_IsNumber s = find_numbers-IsNumber outside s tt
