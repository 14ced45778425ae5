-- ===== src/Common/Text/Decimal.antt =====
-- strconv.Itoa of a number that is not negative, and the value of a text of digits.
use Prim.Native.Nat.{◌/◌, ◌%◌}
use audiax_backend.Common.{
  ℕ, zero, suc, ◌+◌, ◌-◌, ◌*◌, ◌<◌, ◌≡◌, refl, Bool, ◌&&◌, [], ◌∷◌, ◌++◌, arith, ltb, leb,
  if◌then◌else◌, Bool-cases, inl, inr,
}
use audiax_backend.Common.Text.{Text}

unfoldable pub is_digit : ℕ → Bool
is_digit c = leb b'0' c && leb c b'9'

-- on fuel, which `itoa_lem` shows to be enough
itoa_from : ℕ → ℕ → Text
itoa_from zero n = []
itoa_from (suc fuel) n =
    let front = itoa_from fuel (n / 10) in
    if ltb n 10 then (b'0' + n) ∷ [] else front ++ (b'0' + n % 10) ∷ []

unfoldable pub itoa : ℕ → Text
unfolding itoa_from
itoa n = itoa_from (suc n) n

-- The value of a text of digits.
pub value_from : ℕ → Text → ℕ
value_from acc [] = acc
value_from acc (c ∷ s) = value_from (acc * 10 + (c - b'0')) s

value_from-append :
    (acc : ℕ) (s : Text) (c : ℕ) → value_from acc (s ++ c ∷ []) ≡ value_from acc s * 10 + (c - b'0')
unfolding value_from
value_from-append acc [] c = refl
value_from-append acc (d ∷ s) c = value_from-append (acc * 10 + (d - b'0')) s c

itoa_from_value : (fuel n : ℕ) → n < fuel → value_from 0 (itoa_from fuel n) ≡ n
unfolding itoa_from
itoa_from_value zero n h = elim h [ ]
itoa_from_value (suc fuel) n h = elim (Bool-cases (ltb n 10)) [
  | inl small ↦ rw small (unfold value_from in omega arith)
  | inr large ↦
      rw (large, value_from-append 0 (itoa_from fuel (n / 10)) (b'0' + n % 10))
        (ground (arith, itoa_from_value fuel (n / 10)))
]

-- Reading back what Itoa prints gives the number.
pub itoa_value : (n : ℕ) → value_from 0 (itoa n) ≡ n
unfolding itoa
itoa_value n = itoa_from_value (suc n) n (omega arith)

itoa_720 : itoa 720 ≡ b'7' ∷ b'2' ∷ b'0' ∷ []
unfolding itoa
itoa_720 = refl
