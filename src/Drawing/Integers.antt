-- ===== src/Drawing/Integers.antt =====
-- The few operations on `int` that the drawing needs.
use conwatch.Prelude.{ℕ, zero, suc, ◌+◌, ◌-◌, ◌≡◌, ℤ, pos, negsuc, leb, if◌then◌else◌, arith}

-- a - b for natural numbers
abbrev pub difference : ℕ → ℕ → ℤ
difference a b = if leb b a then pos (a - b) else negsuc (b - a - 1)

abbrev pub negate : ℤ → ℤ
negate (pos zero) = pos 0
negate (pos (suc n)) = negsuc n
negate (negsuc n) = pos (n + 1)

infixl 6 ◌+ℤ◌ ◌-ℤ◌
abbrev pub ◌+ℤ◌ : ℤ → ℤ → ℤ
pos a +ℤ pos b = pos (a + b)
pos a +ℤ negsuc b = difference a (b + 1)
negsuc a +ℤ pos b = difference b (a + 1)
negsuc a +ℤ negsuc b = negsuc (a + b + 1)

abbrev pub ◌-ℤ◌ : ℤ → ℤ → ℤ
a -ℤ b = a +ℤ negate b

-- What is taken off comes back.
pub minus_plus : (s w l : ℤ) → ((s -ℤ w) -ℤ l) +ℤ l +ℤ w ≡ s
minus_plus s w l = ground arith

pub negate_plus : (t : ℤ) → negate t +ℤ t ≡ pos 0
negate_plus t = ground arith
