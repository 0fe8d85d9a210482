-- ===== src/Base/Digits.antt =====
-- Exclusive or digit by digit: its law for the last digit, and for a number in two parts.
use Prim.Native.Nat.{
  ℕ, zero, suc, ◌+◌, ◌*◌, ◌/◌, ◌%◌, ◌^◌, ◌≤◌, ◌<◌, bit_xor, differ, digits, bit_xor-bitwise,
}
use mathlib.Core.Path.{◌≡◌, refl, sym, ap, ap₂, ◌∙◌}
use native.Mathlib.Nat.{mul_assoc, pow-suc}
use native.Mathlib.Omega.{arith}

abbrev walk : ℕ → ℕ → ℕ → ℕ
walk count x y = digits (λ z. z) differ count x y

-- Any count that the first number does not exceed gives the same.
walk_enough : (c d x y : ℕ) → x ≤ c → x ≤ d → walk c x y ≡ walk d x y
walk_enough zero d zero y h k = elim d as (λ d. y ≡ walk d 0 y) [ zero ↦ refl | suc d ↦ refl ]
walk_enough zero d (suc x) y h k = absurd (omega arith)
walk_enough (suc c) zero zero y h k = refl
walk_enough (suc c) zero (suc x) y h k = absurd (omega arith)
walk_enough (suc c) (suc d) zero y h k = refl
walk_enough (suc c) (suc d) (suc x) y h k =
    ap (λ r. r * 2 + differ (suc x % 2) (y % 2))
      (walk_enough c d (suc x / 2) (y / 2) (omega arith) (omega arith))

bit_xor-walk : (c x y : ℕ) → x ≤ c → bit_xor x y ≡ walk c x y
bit_xor-walk c x y h = bit_xor-bitwise x y ∙ walk_enough x c x y (omega arith) h

pub zero-bit_xor : (y : ℕ) → bit_xor 0 y ≡ y
zero-bit_xor y = bit_xor-bitwise 0 y

pub bit_xor_last : (x y : ℕ) → bit_xor x y ≡ bit_xor (x / 2) (y / 2) * 2 + differ (x % 2) (y % 2)
bit_xor_last zero y = omega (arith, zero-bit_xor y, zero-bit_xor (y / 2), low)
  where
    low : differ 0 (y % 2) ≡ y % 2
    low = refl
bit_xor_last (suc x) y =
    bit_xor-walk (suc x) (suc x) y (omega arith)
    ∙ ap (λ r. r * 2 + differ (suc x % 2) (y % 2))
        (sym (bit_xor-walk x (suc x / 2) (y / 2) (omega arith)))

pub bit_xor-zero : (c x : ℕ) → x ≤ c → bit_xor x 0 ≡ x
bit_xor-zero c zero h = zero-bit_xor 0
bit_xor-zero zero (suc x) h = absurd (omega arith)
bit_xor-zero (suc c) (suc x) h =
    omega (arith, bit_xor_last (suc x) 0, bit_xor-zero c (suc x / 2) (omega arith), low (suc x % 2))
  where
    low : (d : ℕ) → differ d 0 ≡ d
    low zero = refl
    low (suc d) = refl

-- The upper part of a number is left alone by a number that is below it.
pub bit_xor_low :
    (k h l b : ℕ) → l < 2 ^ k → b < 2 ^ k → bit_xor (h * 2 ^ k + l) b ≡ h * 2 ^ k + bit_xor l b
bit_xor_low zero h l b p q =
    ap₂ bit_xor head none
    ∙ bit_xor-zero h h (omega arith)
    ∙ omega (arith, ap₂ bit_xor (none' l p) none)
  where
    none' : (n : ℕ) → n < 2 ^ 0 → n ≡ 0
    none' n r = omega arith

    none : b ≡ 0
    none = none' b q

    head : h * 2 ^ 0 + l ≡ h
    head = omega arith
bit_xor_low (suc k) h l b p q =
    bit_xor_last (h * 2 ^ suc k + l) b
    ∙ ap₂ (λ r d. r * 2 + d)
        (ap (λ r. bit_xor r (b / 2)) half
          ∙ bit_xor_low k h (l / 2) (b / 2) (omega arith) (omega arith))
        (ap (λ r. differ r (b % 2)) odd)
    ∙ omega (arith, bit_xor_last l b, doubled)
  where
    doubled : h * 2 ^ suc k ≡ h * 2 ^ k * 2
    doubled = ap (λ r. h * r) (pow-suc 2 k) ∙ sym (mul_assoc h (2 ^ k) 2)

    half : (h * 2 ^ suc k + l) / 2 ≡ h * 2 ^ k + l / 2
    half = omega (arith, doubled)

    odd : (h * 2 ^ suc k + l) % 2 ≡ l % 2
    odd = omega (arith, doubled)
