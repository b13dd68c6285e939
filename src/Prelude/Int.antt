-- ===== src/Prelude/Int.antt =====
-- Python's `int` over the native numbers: signs, orders and clamps, as far as the program uses them.
use searxng_wth_frnds.Prelude.{ℕ, suc, ◌+◌, ◌-◌, Bool, true, false, ltb, leb, if◌then◌else◌}

-- `negsuc n` is -(n + 1).
pub data ℤ : Type 0 where
  pos : ℕ → ℤ
  negsuc : ℕ → ℤ

-- The value, if it is not negative, and else 0: `max(0, a)`.
abbrev pub at_least_zero : ℤ → ℕ
at_least_zero (pos n) = n
at_least_zero (negsuc n) = 0

-- `a < n` for a number `n` that is not negative.
abbrev pub lt_nat : ℤ → ℕ → Bool
lt_nat (pos a) n = ltb a n
lt_nat (negsuc a) n = true

-- The difference of two numbers.
abbrev pub difference : ℕ → ℕ → ℤ
difference m n = if ltb m n then negsuc (n - m - 1) else pos (m - n)

infixl 65 ◌+ℤ◌
abbrev pub ◌+ℤ◌ : ℤ → ℤ → ℤ
pos a +ℤ pos b = pos (a + b)
pos a +ℤ negsuc b = difference a (suc b)
negsuc a +ℤ pos b = difference b (suc a)
negsuc a +ℤ negsuc b = negsuc (suc (a + b))

-- `a <= b`.
abbrev pub leb_int : ℤ → ℤ → Bool
leb_int (pos a) (pos b) = leb a b
leb_int (pos a) (negsuc b) = false
leb_int (negsuc a) (pos b) = true
leb_int (negsuc a) (negsuc b) = leb b a
