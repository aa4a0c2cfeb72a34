-- ===== src/Patches/Tests.antt =====
-- An image with the event-state helper, patched.
use nfsmw_arm_linux.Prelude.{
  ℕ, ◌-◌, ◌/◌, ◌^◌, ◌≡◌, ◌≢◌, refl, Bool, true, false, List, [], ◌∷◌, some, if◌then◌else◌, leb,
  arith, same_bytes, ok, err,
}
use nfsmw_arm_linux.Memory.{Memory, byte_at, Outside}
use nfsmw_arm_linux.Elf.Segments.{Protect}
use nfsmw_arm_linux.Elf.Types.{Image, null_image}
use nfsmw_arm_linux.Patches.{
  Patching, PatchError, restore_failed, nfsmw_apply_app_patches, expected_prologue, displacement,
  branch_in_range, branch_word, words_at, patch_app, check_app, all_zero, protect_app, protect_page,
  write_app, write_at,
}
use nfsmw_arm_linux.Patches.Branch.{branch_target, branch_code, branch_word-target}
use nfsmw_arm_linux.Patches.Intercept.{
  BranchesTo, nfsmw_apply_app_patches-guard, nfsmw_apply_app_patches-Outside, helper_of, cave_of,
}

abbrev app : Image
app = record null_image {
  mapping = 0x40000000;
  mapping_size = 0x00b00000;
  load_bias = 0x40000000;
  page_size = 4096;
}

abbrev app_memory : Memory
app_memory x = if leb (helper_of app) x then byte_at expected_prologue (x - helper_of app) else 0

abbrev unpatched : Patching
unpatched = record { memory = app_memory; protections = [] }

abbrev obliging : List Protect → Protect → Bool
obliging calls call = true

patched : (nfsmw_apply_app_patches obliging (some app) unpatched).1 ≡ ok tt
unfolding nfsmw_apply_app_patches patch_app check_app same_bytes words_at byte_at all_zero
    branch_in_range displacement protect_app protect_page write_app write_at
patched = refl

nfsmw_apply_app_patches-guard_example :
    BranchesTo
      (nfsmw_apply_app_patches obliging (some app) unpatched).0.memory
      0x4050eea8
      0x40a8d9c0
    × ((words_at (nfsmw_apply_app_patches obliging (some app) unpatched).0.memory 0x40a8d9c0 6
          ≡ 0xe3500000 ∷ 0x03a00003 ∷ 0x012fff1e ∷ words_at app_memory 0x4050eea8 3)
        × BranchesTo
            (nfsmw_apply_app_patches obliging (some app) unpatched).0.memory
            0x40a8d9d8
            0x4050eeb4)
nfsmw_apply_app_patches-guard_example =
    nfsmw_apply_app_patches-guard obliging app unpatched (omega arith) patched

-- The second call of mprotect fails.
abbrev stubborn : List Protect → Protect → Bool
stubborn [] call = true
stubborn (c ∷ calls) call = false

nfsmw_apply_app_patches-Outside_example :
    ((x : ℕ)
      → Outside (helper_of app) 4 x
      → Outside (cave_of app) 28 x
      → (nfsmw_apply_app_patches stubborn (some app) unpatched).0.memory x ≡ app_memory x)
    × ((e : PatchError)
        → (nfsmw_apply_app_patches stubborn (some app) unpatched).1 ≡ err e
        → e ≢ restore_failed
        → (nfsmw_apply_app_patches stubborn (some app) unpatched).0.memory ≡ app_memory)
nfsmw_apply_app_patches-Outside_example =
    nfsmw_apply_app_patches-Outside stubborn app unpatched (omega arith)

in_range : branch_in_range (displacement 0x4050eea8 0x40a8d9c0) ≡ true
unfolding branch_in_range displacement
in_range = refl

branch_word-target_example :
    (branch_word (displacement 0x4050eea8 0x40a8d9c0) / 2 ^ 24 ≡ branch_code)
    × (branch_target 0x4050eea8 (branch_word (displacement 0x4050eea8 0x40a8d9c0)) ≡ 0x40a8d9c0)
branch_word-target_example =
    branch_word-target 0x4050eea8 0x40a8d9c0 (omega arith) (omega arith) in_range
