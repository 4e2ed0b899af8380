-- ===== src/Prelude/Bits.antt =====
-- A mask of one bit, at every position.
use Prim.Native.Nat.{ℕ, zero, suc, ◌*◌, ◌/◌, ◌%◌, ◌^◌, ◌≤◌, min, bit_and, digits, bit_and-bitwise}
use mathlib.Core.Path.{◌≡◌, refl, ◌∙◌}
use native.Mathlib.Omega.{arith}

-- The bit of a number at a position.
abbrev pub bit_at : ℕ → ℕ → ℕ
bit_at a zero = a % 2
bit_at a (suc k) = bit_at (a / 2) k

pow-suc : (k : ℕ) → (2 ^ suc k / 2 ≡ 2 ^ k) × (2 ^ suc k % 2 ≡ 0) × (2 ^ suc k ≡ 2 ^ k * 2)
pow-suc k = omega arith

masked_zero : (n a : ℕ) → digits (λ b. zero) min n a 0 ≡ 0
masked_zero zero a = refl
masked_zero (suc n) zero = refl
masked_zero (suc n) (suc a) = omega (arith, masked_zero n (suc a / 2))

bit_at-zero : (k : ℕ) → bit_at 0 k ≡ 0
bit_at-zero zero = refl
bit_at-zero (suc k) = bit_at-zero k

masked : (n k a : ℕ) → a ≤ n → digits (λ b. zero) min n a (2 ^ k) ≡ bit_at a k * 2 ^ k
masked zero k zero h = rw (bit_at-zero k) (omega arith)
masked zero k (suc a) h = absurd (omega arith)
masked (suc n) k zero h = rw (bit_at-zero k) (omega arith)
masked (suc n) zero (suc a) h = omega (arith, masked_zero n (suc a / 2))
masked (suc n) (suc k) (suc a) h =
    let p = pow-suc k in
    let low : min (suc a % 2) 0 ≡ 0 = omega arith in
    let ih = masked n k (suc a / 2) (omega arith) in rw (p.0, p.1, low, ih, p.2) (grind arith)

-- Masking with one bit keeps that bit alone.
pub bit_and-bit_at : (a k : ℕ) → bit_and a (2 ^ k) ≡ bit_at a k * 2 ^ k
bit_and-bit_at a k = bit_and-bitwise a (2 ^ k) ∙ masked a k a (omega arith)

pub bit_at-lt : (a k : ℕ) → bit_at a k ≤ 1
bit_at-lt a zero = omega arith
bit_at-lt a (suc k) = bit_at-lt (a / 2) k
