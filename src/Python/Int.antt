-- ===== src/Python/Int.antt =====
-- Python's integers, unbounded and signed, over the native numbers.
use par.Prelude.{ℕ, zero, suc, ◌/◌, Bool, true, false, eqb}

-- `negsuc n` is -(n + 1).
pub data ℤ : Type 0 where
  pos : ℕ → ℤ
  negsuc : ℕ → ℤ

abbrev pub is_negative : ℤ → Bool
is_negative (pos n) = false
is_negative (negsuc n) = true

abbrev pub is_zero : ℤ → Bool
is_zero (pos n) = eqb n 0
is_zero (negsuc n) = false

-- -n
abbrev pub opposite : ℕ → ℤ
opposite zero = pos 0
opposite (suc n) = negsuc n

-- Python's `int` of a quotient: rounds towards zero.
abbrev pub truncate : ℤ → ℕ → ℤ
truncate (pos n) d = pos (n / d)
truncate (negsuc n) d = opposite (suc n / d)
