-- ===== src/Prelude/Int.antt =====
-- Go's signed `int`, as far as the program compares it: `negsuc n` is -(n + 1).
use Prim.Native.Nat.{ℕ, ◌-◌}
use heuristic.Prelude.Tests.{leb, if◌then◌else◌}

pub data ℤ : Type 0 where
  pos : ℕ → ℤ
  negsuc : ℕ → ℤ

-- a - b
abbrev pub sub_ℕ : ℕ → ℕ → ℤ
sub_ℕ a b = if leb b a then pos (a - b) else negsuc (b - a - 1)

-- max(0, n)
abbrev pub max_zero : ℤ → ℕ
max_zero (pos n) = n
max_zero (negsuc n) = 0
