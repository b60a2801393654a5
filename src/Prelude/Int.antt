-- ===== src/Prelude/Int.antt =====
-- Signed integers, as far as the program needs them: a client's offset compared with a count.
use Prim.Native.Nat.{ℕ}
use mathlib.Core.Bool.{Bool, true, false}
use bqemulator.Prelude.Tests.{ltb, leb}

-- `negsuc n` is -(n + 1).
pub data ℤ : Type 0 where
  pos : ℕ → ℤ
  negsuc : ℕ → ℤ

-- a < n, a > n and a <= n, for an integer and a count.
abbrev pub lt_count : ℤ → ℕ → Bool
lt_count (pos a) n = ltb a n
lt_count (negsuc a) n = true

abbrev pub gt_count : ℤ → ℕ → Bool
gt_count (pos a) n = ltb n a
gt_count (negsuc a) n = false

abbrev pub le_count : ℤ → ℕ → Bool
le_count (pos a) n = leb a n
le_count (negsuc a) n = true

abbrev pub pos_part : ℤ → ℕ
pos_part (pos a) = a
pos_part (negsuc a) = 0

-- x + 1 and x - 1.
unfoldable pub inc : ℤ → ℤ
inc (pos a) = pos (ℕ.suc a)
inc (negsuc ℕ.zero) = pos 0
inc (negsuc (ℕ.suc a)) = negsuc a

unfoldable pub dec : ℤ → ℤ
dec (pos ℕ.zero) = negsuc 0
dec (pos (ℕ.suc a)) = pos a
dec (negsuc a) = negsuc (ℕ.suc a)
