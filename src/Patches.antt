-- ===== src/Patches.antt =====
-- nfsmw_apply_fmod_patches and nfsmw_apply_app_patches of runtime/src/jni_bridge.c, which rewrite a few
-- instructions of two guest modules after these are relocated. Cache flushes and log lines have no
-- effect here.
pub mod Branch
pub mod Words
pub mod Guard
pub mod Intercept
mod Tests
use nfsmw_arm_linux.Prelude.{
  ℕ, zero, suc, ◌+◌, ◌*◌, ◌/◌, ◌%◌, ◌^◌, ◌-◌, Bool, true, false, ◌||◌, ◌&&◌, not, Option, none,
  some, List, [], ◌∷◌, if◌then◌else◌, ◌==◌, ltb, leb, length, add32, sub32, bit_or, same_bytes, ok,
  err, Run, ◌>>◌, guard, modify, throw, bit_and,
}
use nfsmw_arm_linux.Memory.{Memory, read32, write32}
use nfsmw_arm_linux.Elf.Format.{prot_read, prot_write, prot_exec}
use nfsmw_arm_linux.Elf.Types.{Image}
use nfsmw_arm_linux.Elf.Ranges.{align_down}
use nfsmw_arm_linux.Elf.Segments.{Protect}

pub data PatchError : Type 0 where
  invalid_image unexpected_code cave_not_empty branch_out_of_range return_out_of_range : PatchError
  writable_failed restore_failed : PatchError

-- The memory, and the calls of mprotect, newest first.
pub record Patching : Type 0 where
  pub memory : Memory
  pub protections : List Protect

-- Some words from an address on.
unfoldable pub words_at : Memory → (address count : ℕ) → List ℕ
words_at m address zero = []
words_at m address (suc count) = read32 m address ∷ words_at m (address + 4) count

-- `memcpy` of an array of words.
unfoldable pub write_words : Memory → (address : ℕ) → List ℕ → Memory
write_words m address [] = m
write_words m address (word ∷ words) = write_words (write32 m address word) (address + 4) words

unfoldable pub all_zero : List ℕ → Bool
all_zero [] = true
all_zero (word ∷ words) = word == 0 && all_zero words

abbrev pub fmod_offset : ℕ
fmod_offset = 0x000bfe0c

abbrev pub fmod_expected : List ℕ
fmod_expected = 0xe59f0020 ∷ 0xe59f1020 ∷ 0xe92d4010 ∷ []

-- ldr ip, [pc]; bx ip; and the address that is loaded.
abbrev pub fmod_jump : (replacement : ℕ) → List ℕ
fmod_jump replacement = 0xe59fc000 ∷ 0xe12fff1c ∷ replacement ∷ []

abbrev pub event_state_helper : ℕ
event_state_helper = 0x0050eea8

abbrev pub event_state_resume : ℕ
event_state_resume = 0x0050eeb4

abbrev pub rx_padding_cave : ℕ
rx_padding_cave = 0x00a8d9c0

abbrev pub arm_branch_limit : ℕ
arm_branch_limit = 0x02000000

abbrev pub expected_prologue : List ℕ
expected_prologue = 0xe92d4c10 ∷ 0xe28db008 ∷ 0xe24dd008 ∷ []

-- cmp r0, #0; moveq r0, #3; bxeq lr; the displaced prologue; and a branch.
abbrev pub trampoline : (branch : ℕ) → List ℕ
trampoline branch =
    0xe3500000 ∷ 0x03a00003 ∷ 0x012fff1e ∷ 0xe92d4c10 ∷ 0xe28db008 ∷ 0xe24dd008 ∷ branch ∷ []

-- `to - from - 8` as a 32-bit word in two's complement.
unfoldable pub displacement : (from to : ℕ) → ℕ
displacement from to = sub32 (sub32 to from) 8

-- A multiple of four within -ARM_BRANCH_LIMIT and ARM_BRANCH_LIMIT - 1.
unfoldable pub branch_in_range : (displacement : ℕ) → Bool
branch_in_range displacement =
    displacement % 4 == 0
    && (ltb displacement arm_branch_limit || leb (2 ^ 32 - arm_branch_limit) displacement)

unfoldable pub branch_word : (displacement : ℕ) → ℕ
branch_word displacement = bit_or 0xea000000 (displacement / 4 % 2 ^ 24)

unfoldable pub write_at : (address : ℕ) → List ℕ → Run PatchError Patching (Unit {0})
write_at address words = modify (λ p. record p { memory = write_words p.memory address words })

-- The tests that come before any change.
unfoldable pub check_app : Image → Run PatchError Patching (Unit {0})
check_app image p =
    let helper = add32 image.load_bias event_state_helper in
    let resume = add32 image.load_bias event_state_resume in
    let cave = add32 image.load_bias rx_padding_cave in
    (guard
          (not (image.mapping == 0)
            && (not (image.page_size == 0)
                && (leb (event_state_helper + 12) image.mapping_size
                    && leb (rx_padding_cave + 28) image.mapping_size)))
          invalid_image
        >> guard (same_bytes (words_at p.memory helper 3) expected_prologue) unexpected_code
        >> guard (all_zero (words_at p.memory cave 7)) cave_not_empty
        >> guard (branch_in_range (displacement helper cave)) branch_out_of_range
        >> guard (branch_in_range (displacement (add32 cave 24) resume)) return_out_of_range)
      p

unfoldable pub write_app : Image → Run PatchError Patching (Unit {0})
write_app image =
    let helper = add32 image.load_bias event_state_helper in
    let resume = add32 image.load_bias event_state_resume in
    let cave = add32 image.load_bias rx_padding_cave in
    write_at cave (trampoline (branch_word (displacement (add32 cave 24) resume)))
    >> write_at helper (branch_word (displacement helper cave) ∷ [])

module _ (mprotect : List Protect → Protect → Bool) where
  -- One page, with or without the right to write.
  unfoldable pub protect_page :
      (page size mode : ℕ) → PatchError → Run PatchError Patching (Unit {0})
  protect_page page size mode failure p =
      let call : Protect = record { start = page; size = size; mode = mode } in
      let logged = record p { protections = call ∷ p.protections } in
      if mprotect p.protections call then (logged, ok tt) else (logged, err failure)

  -- `replacement` is the address of linux_cpu_features.
  unfoldable pub patch_fmod : (replacement : ℕ) → Image → Run PatchError Patching (Unit {0})
  patch_fmod replacement image p =
      let address = add32 image.load_bias fmod_offset in
      let page = align_down address image.page_size in
      (guard
            (not (image.mapping == 0)
              && (not (image.page_size == 0) && leb (fmod_offset + 12) image.mapping_size))
            invalid_image
          >> guard (same_bytes (words_at p.memory address 3) fmod_expected) unexpected_code
          >> protect_page page image.page_size (bit_or prot_read (bit_or prot_write prot_exec))
              writable_failed
          >> write_at address (fmod_jump replacement)
          >> protect_page page image.page_size (bit_or prot_read prot_exec) restore_failed)
        p

  -- NULL is `none`.
  unfoldable pub nfsmw_apply_fmod_patches :
      (replacement : ℕ) → Option Image → Run PatchError Patching (Unit {0})
  nfsmw_apply_fmod_patches replacement none = throw invalid_image
  nfsmw_apply_fmod_patches replacement (some image) = patch_fmod replacement image

  -- Both pages, the helper's and then the cave's.
  unfoldable pub protect_app : Image → (mode : ℕ) → PatchError → Run PatchError Patching (Unit {0})
  protect_app image mode failure =
      let helper = add32 image.load_bias event_state_helper in
      let cave = add32 image.load_bias rx_padding_cave in
      protect_page (align_down helper image.page_size) image.page_size mode failure
      >> protect_page (align_down cave image.page_size) image.page_size mode failure

  unfoldable pub patch_app : Image → Run PatchError Patching (Unit {0})
  patch_app image =
      check_app image
      >> protect_app image (bit_or prot_read (bit_or prot_write prot_exec)) writable_failed
      >> write_app image
      >> protect_app image (bit_or prot_read prot_exec) restore_failed

  unfoldable pub nfsmw_apply_app_patches : Option Image → Run PatchError Patching (Unit {0})
  nfsmw_apply_app_patches none = throw invalid_image
  nfsmw_apply_app_patches (some image) = patch_app image
