-- ===== src/Advisory/Numbers/Begin.antt =====
-- Where the matches of the scan for numbers begin.
use audiax_backend.Common.{
  ℕ, ◌≡◌, refl, ◌⊎◌, inl, inr, true, false, [], ◌∷◌, ◌++◌, arith, All, nat_eq,
}
use audiax_backend.Common.Text.{Text}
use audiax_backend.Common.Text.Decimal.{is_digit}
use audiax_backend.Advisory.Numbers.{
  find_numbers, Place, outside, whole, pending, fraction, Kind, digit, separator, other, kind,
}

abbrev pub BeginsWithDigit : Text → Type 0
BeginsWithDigit [] = ⊥
BeginsWithDigit (c ∷ s) = is_digit c ≡ true

-- The match that is being read begins with a digit.
abbrev InMatch : Place → Type 0
InMatch outside = Unit
InMatch (whole m) = BeginsWithDigit m
InMatch (pending m sep) = BeginsWithDigit m
InMatch (fraction m) = BeginsWithDigit m

longer-BeginsWithDigit : (m t : Text) → BeginsWithDigit m → BeginsWithDigit (m ++ t)
longer-BeginsWithDigit [] t h = absurd h
longer-BeginsWithDigit (c ∷ m) t h = h

Kind-cases : (k : Kind) → (k ≡ digit) ⊎ ((k ≡ separator) ⊎ (k ≡ other))
Kind-cases digit = inl refl
Kind-cases separator = inr (inl refl)
Kind-cases other = inr (inr refl)

digit_of_kind : (c : ℕ) → kind c ≡ digit → is_digit c ≡ true
unfolding kind
digit_of_kind c h = ground arith

pub digit-ne-comma : (c : ℕ) → is_digit c ≡ true → nat_eq c b',' ≡ false
unfolding is_digit
digit-ne-comma c h = ground arith

-- Every match of the scan begins with a digit.
pub find_numbers-begin : (p : Place) (s : Text) → InMatch p → All BeginsWithDigit (find_numbers p s)
unfolding find_numbers
find_numbers-begin outside [] h = tt
find_numbers-begin (whole m) [] h = (h, tt)
find_numbers-begin (pending m sep) [] h = (h, tt)
find_numbers-begin (fraction m) [] h = (h, tt)
find_numbers-begin outside (c ∷ s) h = elim (Kind-cases (kind c)) [
  | inl k ↦ rw (k, find_numbers) (find_numbers-begin (whole (c ∷ [])) s (digit_of_kind c k))
  | inr (inl k) ↦ rw (k, find_numbers) (find_numbers-begin outside s tt)
  | inr (inr k) ↦ rw (k, find_numbers) (find_numbers-begin outside s tt)
]
find_numbers-begin (whole m) (c ∷ s) h = elim (Kind-cases (kind c)) [
  | inl k ↦
      rw (k, find_numbers)
        (find_numbers-begin (whole (m ++ c ∷ [])) s (longer-BeginsWithDigit m _ h))
  | inr (inl k) ↦ rw (k, find_numbers) (find_numbers-begin (pending m c) s h)
  | inr (inr k) ↦ rw (k, find_numbers) (h, find_numbers-begin outside s tt)
]
find_numbers-begin (pending m sep) (c ∷ s) h = elim (Kind-cases (kind c)) [
  | inl k ↦
      rw (k, find_numbers)
        (find_numbers-begin (fraction (m ++ sep ∷ c ∷ [])) s (longer-BeginsWithDigit m _ h))
  | inr (inl k) ↦ rw (k, find_numbers) (h, find_numbers-begin outside s tt)
  | inr (inr k) ↦ rw (k, find_numbers) (h, find_numbers-begin outside s tt)
]
find_numbers-begin (fraction m) (c ∷ s) h = elim (Kind-cases (kind c)) [
  | inl k ↦
      rw (k, find_numbers)
        (find_numbers-begin (fraction (m ++ c ∷ [])) s (longer-BeginsWithDigit m _ h))
  | inr (inl k) ↦ rw (k, find_numbers) (h, find_numbers-begin outside s tt)
  | inr (inr k) ↦ rw (k, find_numbers) (h, find_numbers-begin outside s tt)
]
