-- ===== src/Prelude/Int.antt =====
-- Signed integers over the native numbers, for C's `int`: sums, orders, and division towards zero.
use Prim.Native.Nat.{ℕ, suc, ◌+◌, ◌-◌, ◌/◌, ◌≤◌}
use mathlib.Core.Bool.{Bool}
use native.Mathlib.Omega.{arith}
use nfsmw_arm_linux.Prelude.Tests.{ltb, leb, if◌then◌else◌}

-- `negsuc n` is -(n + 1).
pub data ℤ : Type 0 where
  pos : ℕ → ℤ
  negsuc : ℕ → ℤ

abbrev pub pos_part : ℤ → ℕ
pos_part (pos n) = n
pos_part (negsuc n) = 0

abbrev pub neg_part : ℤ → ℕ
neg_part (pos n) = 0
neg_part (negsuc n) = suc n

-- a - b, as an integer.
abbrev pub sub_ℕ : ℕ → ℕ → ℤ
sub_ℕ a b = if leb b a then pos (a - b) else negsuc (b - a - 1)

infixl 65 ◌+ℤ◌
infix 50 ◌≤ℤ◌
unfoldable pub ◌+ℤ◌ : ℤ → ℤ → ℤ
a +ℤ b = sub_ℕ (pos_part a + pos_part b) (neg_part a + neg_part b)

abbrev pub ◌≤ℤ◌ : ℤ → ℤ → Type 0
a ≤ℤ b = pos_part a + neg_part b ≤ pos_part b + neg_part a

abbrev pub ltb_ℤ : ℤ → ℤ → Bool
ltb_ℤ a b = ltb (pos_part a + neg_part b) (pos_part b + neg_part a)

abbrev pub negate : ℤ → ℤ
negate a = sub_ℕ (neg_part a) (pos_part a)

abbrev pub magnitude : ℤ → ℕ
magnitude a = pos_part a + neg_part a

-- C's `/` by a positive number.
abbrev pub quotient : ℤ → ℕ → ℤ
quotient (pos n) d = pos (n / d)
quotient (negsuc n) d = sub_ℕ 0 (suc n / d)

-- `if (x < low) x = low; if (x > high) x = high;`
unfoldable pub clamp : (low high x : ℤ) → ℤ
clamp low high x =
    let raised = if ltb_ℤ x low then low else x in if ltb_ℤ high raised then high else raised

pub clamp_bounds :
    (low high x : ℤ) → low ≤ℤ high → (low ≤ℤ clamp low high x) × (clamp low high x ≤ℤ high)
unfolding clamp
clamp_bounds low high x h = ground arith
