-- ===== src/Common/Int.antt =====
-- int of Go, of 64 bits. The language's own `*` wraps around; a value that is only passed on keeps the
-- integer that it is. The values of an int are those of 64 bits; the lemmas hold for every integer.
use native.Mathlib.Nat.{mod-lt, mod-eq_of_lt, mod-add-div, mul-add-mod_self_left}
use Prim.Native.Nat.{◌/◌, ◌%◌, ◌^◌}
use audiax_backend.Common.{
  ℕ, ◌-◌, ◌*◌, ◌<◌, ◌≡◌, sym, ap, ◌∙◌, ◌↔◌, inl, inr, Bool, true, false, arith, ltb, nat_eq,
  nat_eq_iff, Bool-cases, if◌then◌else◌,
}

-- `negsuc n` is -(n + 1).
pub data ℤ : Type 0 where
  pos : ℕ → ℤ
  negsuc : ℕ → ℤ

abbrev pub word_mod : ℕ
word_mod = 2 ^ 64

-- the 64 bits of an integer in two's complement, as a number
abbrev pub bits : ℤ → ℕ
bits (pos n) = n % word_mod
bits (negsuc n) = word_mod - 1 - n % word_mod

-- the integer of 64 bits
abbrev pub of_bits : ℕ → ℤ
of_bits m = if ltb m (2 ^ 63) then pos m else negsuc (word_mod - 1 - m)

-- a * b
unfoldable pub mul : ℤ → ℤ → ℤ
mul a b = of_bits (bits a * bits b % word_mod)

-- a == b
abbrev pub int_eq : ℤ → ℤ → Bool
int_eq (pos m) (pos n) = nat_eq m n
int_eq (negsuc m) (negsuc n) = nat_eq m n
int_eq (pos m) (negsuc n) = false
int_eq (negsuc m) (pos n) = false

pub int_eq_iff : (a b : ℤ) → (int_eq a b ≡ true) ↔ (a ≡ b)
int_eq_iff (pos m) (pos n) = (λ h. ap pos ((nat_eq_iff m n).0 h), λ h. (nat_eq_iff m n).1 (cc))
int_eq_iff (negsuc m) (negsuc n) =
    (λ h. ap negsuc ((nat_eq_iff m n).0 h), λ h. (nat_eq_iff m n).1 (cc))
int_eq_iff (pos m) (negsuc n) = (λ h. cc, λ h. cc)
int_eq_iff (negsuc m) (pos n) = (λ h. cc, λ h. cc)

bits-of_bits : (m : ℕ) → m < word_mod → bits (of_bits m) ≡ m
bits-of_bits m h = elim (Bool-cases (ltb m (2 ^ 63))) [
  | inl small ↦ rw small (mod-eq_of_lt h)
  | inr large ↦ rw large (omega arith)
]

-- Bits that are a number of at least 0 are below the sign bit.
pub of_bits_pos : (m n : ℕ) → (of_bits m ≡ pos n) ↔ ((m ≡ n) × (n < 2 ^ 63))
of_bits_pos m n = (λ h. ground arith, λ h. ground arith)

mod-mul : (a b m : ℕ) → a % m * b % m ≡ a * b % m
mod-mul a b m =
    sym (mul-add-mod_self_left m (a / m * b) (a % m * b))
    ∙ ap (λ (t : ℕ). t % m) (omega (arith, ap (λ (t : ℕ). t * b) (mod-add-div a m)))

word_pos : 0 < word_mod
word_pos = omega arith

-- Two products wrap around once.
pub mul-mul :
    (a b : ℤ) (k : ℕ)
    → k < word_mod
    → mul (mul a b) (pos k) ≡ of_bits (bits a * bits b * k % word_mod)
unfolding mul
mul-mul a b k h = ap of_bits (
    rw
      (
        bits-of_bits (bits a * bits b % word_mod) (mod-lt (bits a * bits b) word_pos),
        mod-eq_of_lt h,
      )
      (mod-mul (bits a * bits b) k word_mod))
