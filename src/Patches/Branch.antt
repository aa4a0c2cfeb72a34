-- ===== src/Patches/Branch.antt =====
-- The ARM branches that nfsmw_apply_app_patches of runtime/src/jni_bridge.c builds.
use nfsmw_arm_linux.Prelude.{
  ℕ, ◌+◌, ◌*◌, ◌/◌, ◌%◌, ◌^◌, ◌-◌, ◌<◌, ◌≡◌, true, if◌then◌else◌, ltb, arith,
}
use nfsmw_arm_linux.Prelude.Powers.{bit_or_low}
use nfsmw_arm_linux.Patches.{displacement, branch_in_range, branch_word}

-- Where the processor goes from a branch at an address: the address of the instruction after the next
-- one, and the 24-bit field as a signed number of words.
unfoldable pub branch_target : (from word : ℕ) → ℕ
branch_target from word =
    let field = word % 2 ^ 24 in
    (from + 8 + (if ltb field (2 ^ 23) then field * 4 else field * 4 + 2 ^ 32 - 2 ^ 26)) % 2 ^ 32

-- The top byte of an unconditional branch.
abbrev pub branch_code : ℕ
branch_code = 0xea

pub branch_word-fields : (d : ℕ) → branch_word d ≡ branch_code * 2 ^ 24 + d / 4 % 2 ^ 24
unfolding branch_word
branch_word-fields d = bit_or_low 24 branch_code (d / 4 % 2 ^ 24) (omega arith)

pub branch_word-lt : (d : ℕ) → branch_word d < 4294967296
branch_word-lt d = omega (arith, branch_word-fields d)

-- For two 32-bit addresses whose displacement is in the range of a branch, the branch that is built for
-- them, at the first, is an unconditional one and goes to the second.
pub branch_word-target :
    (from to : ℕ)
    → from < 2 ^ 32
    → to < 2 ^ 32
    → branch_in_range (displacement from to) ≡ true
    → (branch_word (displacement from to) / 2 ^ 24 ≡ branch_code)
      × (branch_target from (branch_word (displacement from to)) ≡ to)
unfolding branch_in_range displacement branch_target
branch_word-target from to f t r = (
  omega (arith, branch_word-fields (displacement from to)),
  ground (arith, branch_word-fields (displacement from to)),
)
