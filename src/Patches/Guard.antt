-- ===== src/Patches/Guard.antt =====
-- The two ways a run of nfsmw_apply_app_patches of runtime/src/jni_bridge.c ends, for the memory.
use nfsmw_arm_linux.Prelude.{
  ℕ, ◌+◌, ◌<◌, ◌≡◌, ◌≢◌, ◌^◌, refl, ap, ◌⊎◌, inl, inr, Bool, true, List, [], ◌∷◌, arith, same_bytes,
  add32, bit_or, Result-cases, ok, err,
}
use nfsmw_arm_linux.Memory.{Memory}
use nfsmw_arm_linux.Elf.Format.{prot_read, prot_write, prot_exec}
use nfsmw_arm_linux.Elf.Types.{Image}
use nfsmw_arm_linux.Elf.Ranges.{align_down}
use nfsmw_arm_linux.Elf.Segments.{Protect}
use nfsmw_arm_linux.Patches.{
  Patching, PatchError, restore_failed, words_at, write_words, protect_page, check_app, write_app,
  write_at, writable_failed, protect_app, patch_app, event_state_helper, event_state_resume,
  rx_padding_cave, expected_prologue, trampoline, displacement, branch_in_range, branch_word,
}

pub add32-plain : (a b : ℕ) → a + b < 2 ^ 32 → add32 a b ≡ a + b
add32-plain a b h = omega arith

check_app-state : (image : Image) (p : Patching) → (check_app image p).0 ≡ p
unfolding check_app
check_app-state image p = ground arith

pub record Checked (image : Image) (m : Memory) : Type 0 where
  pub prologue :
      same_bytes (words_at m (add32 image.load_bias event_state_helper) 3) expected_prologue ≡ true
  pub entry :
      branch_in_range (
        displacement
          (add32 image.load_bias event_state_helper)
          (add32 image.load_bias rx_padding_cave))
      ≡ true
  pub return :
      branch_in_range (
        displacement
          (add32 (add32 image.load_bias rx_padding_cave) 24)
          (add32 image.load_bias event_state_resume))
      ≡ true

check_app-Checked :
    (image : Image) (p : Patching) → (check_app image p).1 ≡ ok tt → Checked image p.memory
unfolding check_app
check_app-Checked image p h = record {
  prologue = ground arith;
  entry = ground arith;
  return = ground arith;
}

protect_page-memory :
    (mprotect : List Protect → Protect → Bool) (page size mode : ℕ) (failure : PatchError)
    (p : Patching)
    → (protect_page mprotect page size mode failure p).0.memory ≡ p.memory
unfolding protect_page
protect_page-memory mprotect page size mode failure p = ground arith

-- The memory with the guard and the branch to it.
unfoldable pub guarded : Image → Memory → Memory
guarded image m =
    let helper = add32 image.load_bias event_state_helper in
    let cave = add32 image.load_bias rx_padding_cave in
    let back = displacement (add32 cave 24) (add32 image.load_bias event_state_resume) in
    write_words (write_words m cave (trampoline (branch_word back))) helper
      (branch_word (displacement helper cave) ∷ [])

write_app-guarded :
    (image : Image) (p : Patching)
    → ((write_app image p).0.memory ≡ guarded image p.memory) × ((write_app image p).1 ≡ ok tt)
unfolding write_app guarded write_at
write_app-guarded image p = (refl, refl)

check_app-refuses :
    (image : Image) (p : Patching) (e : PatchError)
    → (check_app image p).1 ≡ err e
    → e ≢ restore_failed
unfolding check_app
check_app-refuses image p e h same = ground arith

module _ (mprotect : List Protect → Protect → Bool) (image : Image) where
  protect_app-memory :
      (mode : ℕ) (failure : PatchError) (p : Patching)
      → (protect_app mprotect image mode failure p).0.memory ≡ p.memory
  unfolding protect_app
  protect_app-memory mode failure p =
      let helper_page = align_down (add32 image.load_bias event_state_helper) image.page_size in
      let cave_page = align_down (add32 image.load_bias rx_padding_cave) image.page_size in
      let first = protect_page mprotect helper_page image.page_size mode failure p in
      elim (Result-cases first.1) [
        | inl (a, is) ↦ ground (
          arith,
          is,
          protect_page-memory mprotect helper_page image.page_size mode failure p,
          protect_page-memory mprotect cave_page image.page_size mode failure first.0,
        )
        | inr (e, is) ↦
            ground
              (arith, is, protect_page-memory mprotect helper_page image.page_size mode failure p)
      ]

  protect_app-fails :
      (mode : ℕ) (failure e : PatchError) (p : Patching)
      → (protect_app mprotect image mode failure p).1 ≡ err e
      → e ≡ failure
  unfolding protect_app protect_page
  protect_app-fails mode failure e p h = ground arith

  abbrev open_mode : ℕ
  open_mode = bit_or prot_read (bit_or prot_write prot_exec)

  -- A run ends before it writes, or after the image was found to be the expected one and the guard written.
  pub patch_app-memory :
      (p : Patching)
      → ((e : PatchError) × ((patch_app mprotect image p).1 ≡ err e)
          × (e ≢ restore_failed)
          × ((patch_app mprotect image p).0.memory ≡ p.memory))
        ⊎ (Checked image p.memory
            × (((patch_app mprotect image p).0.memory ≡ guarded image p.memory)
                × ((e : PatchError) → (patch_app mprotect image p).1 ≡ err e → e ≡ restore_failed)))
  unfolding patch_app
  patch_app-memory p =
      let checked = check_app image p in
      let opened = protect_app mprotect image open_mode writable_failed checked.0 in
      elim (Result-cases checked.1) [
        | inr (e, is) ↦ inl (
          e,
          ground (arith, is),
          check_app-refuses image p e is,
          ground (arith, is, ap (λ (q : Patching). q.memory) (check_app-state image p)),
        )
        | inl (a, is) ↦ elim (Result-cases opened.1) [
          | inr (e, shut) ↦ inl (
            e,
            ground (arith, is, shut),
            (λ same. absurd (
                ground
                  (arith, same, protect_app-fails open_mode writable_failed e checked.0 shut))),
            ground (arith, is, shut, kept, protect_app-memory open_mode writable_failed checked.0),
          )
          | inl (b, opens) ↦ inr (
            check_app-Checked image p is,
            (
              ground (
                arith,
                is,
                opens,
                kept,
                protect_app-memory open_mode writable_failed checked.0,
                write_app-guarded image opened.0,
                protect_app-memory (bit_or prot_read prot_exec) restore_failed
                    (write_app image opened.0).0,
              ),
              λ e failed.
                  protect_app-fails (bit_or prot_read prot_exec) restore_failed e
                    (write_app image opened.0).0
                    (ground (arith, is, opens, failed, write_app-guarded image opened.0)),
            ),
          )
        ]
      ]
    where
      kept : (check_app image p).0.memory ≡ p.memory
      kept = ap (λ (q : Patching). q.memory) (check_app-state image p)
