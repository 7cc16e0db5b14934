-- ===== src/Base/Bits.antt =====
-- When `a ^ b` and `a | b` are zero, on the native numbers.
use Prim.Native.Nat.{
  ℕ, zero, suc, ◌/◌, ◌%◌, ◌≤◌, max, bit_or, bit_xor, digits, differ, bit_or-bitwise,
  bit_xor-bitwise,
}
use mathlib.Core.Path.{◌≡◌, refl, ◌∙◌, sym}
use native.Mathlib.Omega.{arith}

abbrev xor_digits : ℕ → ℕ → ℕ → ℕ
xor_digits n a b = digits (λ b. b) differ n a b

abbrev or_digits : ℕ → ℕ → ℕ → ℕ
or_digits n a b = digits (λ b. b) max n a b

differ-eq_zero : (x y : ℕ) → differ x y ≡ 0 → x ≡ y
differ-eq_zero zero y h = sym h
differ-eq_zero (suc x) zero h = h
differ-eq_zero (suc x) (suc y) h = omega (arith, differ-eq_zero x y h)

differ_self : (x : ℕ) → differ x x ≡ 0
differ_self zero = refl
differ_self (suc x) = differ_self x

xor_digits-eq_zero : (n a b : ℕ) → a ≤ n → xor_digits n a b ≡ 0 → a ≡ b
xor_digits-eq_zero zero zero b p h = sym h
xor_digits-eq_zero zero (suc a) b p h = absurd (omega arith)
xor_digits-eq_zero (suc n) zero b p h = sym h
xor_digits-eq_zero (suc n) (suc a) b p h = omega (
  arith,
  xor_digits-eq_zero n (suc a / 2) (b / 2) (omega arith) (omega arith),
  differ-eq_zero (suc a % 2) (b % 2) (omega arith),
)

xor_digits_self : (n a : ℕ) → a ≤ n → xor_digits n a a ≡ 0
xor_digits_self zero zero p = refl
xor_digits_self zero (suc a) p = absurd (omega arith)
xor_digits_self (suc n) zero p = refl
xor_digits_self (suc n) (suc a) p =
    omega (arith, xor_digits_self n (suc a / 2) (omega arith), differ_self (suc a % 2))

or_digits-eq_zero : (n a b : ℕ) → a ≤ n → or_digits n a b ≡ 0 → (a ≡ 0) × (b ≡ 0)
or_digits-eq_zero zero zero b p h = (refl, h)
or_digits-eq_zero zero (suc a) b p h = absurd (omega arith)
or_digits-eq_zero (suc n) zero b p h = (refl, h)
or_digits-eq_zero (suc n) (suc a) b p h =
    omega (arith, or_digits-eq_zero n (suc a / 2) (b / 2) (omega arith) (omega arith))

pub bit_xor-eq_zero : (a b : ℕ) → bit_xor a b ≡ 0 → a ≡ b
bit_xor-eq_zero a b h = xor_digits-eq_zero a a b (omega arith) (sym (bit_xor-bitwise a b) ∙ h)

pub bit_xor_self : (a : ℕ) → bit_xor a a ≡ 0
bit_xor_self a = bit_xor-bitwise a a ∙ xor_digits_self a a (omega arith)

pub bit_or-eq_zero : (a b : ℕ) → bit_or a b ≡ 0 → (a ≡ 0) × (b ≡ 0)
bit_or-eq_zero a b h = or_digits-eq_zero a a b (omega arith) (sym (bit_or-bitwise a b) ∙ h)

pub bit_or_zero : bit_or 0 0 ≡ 0
bit_or_zero = refl
