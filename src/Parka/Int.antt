-- ===== src/Parka/Int.antt =====
-- The argument of `Map.Limit`, a Go int of either sign.
use magic_mirror.Prelude.{ℕ, zero, suc, ◌≤◌, arith}

-- `negsuc n` is -(n + 1).
pub data ℤ : Type 0 where
  pos : ℕ → ℤ
  negsuc : ℕ → ℤ

-- max(1, limit)
abbrev pub max_one : ℤ → ℕ
max_one (pos zero) = 1
max_one (pos (suc n)) = suc n
max_one (negsuc n) = 1

pub max_one_pos : (i : ℤ) → 1 ≤ max_one i
max_one_pos (pos zero) = omega arith
max_one_pos (pos (suc n)) = omega arith
max_one_pos (negsuc n) = omega arith
