-- ===== src/Patches/Intercept.antt =====
-- The guard that nfsmw_apply_app_patches of runtime/src/jni_bridge.c puts before the event-state helper.
use nfsmw_arm_linux.Prelude.{
  ℕ, ◌+◌, ◌≤◌, ◌≡◌, ◌≢◌, ◌^◌, ◌/◌, refl, sym, ap, ◌∙◌, inl, inr, Bool, List, [], ◌∷◌, some, arith,
  All, eq_of_same_bytes, add32, ok, err,
}
use nfsmw_arm_linux.Memory.{Memory, read32, Outside, read32-write32}
use nfsmw_arm_linux.Elf.Types.{Image}
use nfsmw_arm_linux.Elf.Segments.{Protect}
use nfsmw_arm_linux.Patches.{
  Patching, PatchError, restore_failed, words_at, write_words, nfsmw_apply_app_patches,
  event_state_helper, event_state_resume, rx_padding_cave, expected_prologue, trampoline,
  displacement, branch_word,
}
use nfsmw_arm_linux.Patches.Branch.{branch_target, branch_code, branch_word-target, branch_word-lt}
use nfsmw_arm_linux.Patches.Words.{
  write_words-Outside, words_at-write_words, words_at-write_words_apart, words_at-six, IsWord,
}
use nfsmw_arm_linux.Patches.Guard.{guarded, Checked, add32-plain, patch_app-memory}

abbrev pub helper_of : Image → ℕ
helper_of image = image.load_bias + event_state_helper

abbrev pub cave_of : Image → ℕ
cave_of image = image.load_bias + rx_padding_cave

abbrev pub resume_of : Image → ℕ
resume_of image = image.load_bias + event_state_resume

-- The word at an address is an unconditional branch, without a link, to another address.
abbrev pub BranchesTo : Memory → (from to : ℕ) → Type 0
BranchesTo m from to =
    (read32 m from / 2 ^ 24 ≡ branch_code) × (branch_target from (read32 m from) ≡ to)

-- The padding ends within the 32-bit addresses.
abbrev pub Fits : Image → Type 0
Fits image = cave_of image + 28 ≤ 2 ^ 32

module _ (image : Image) (m : Memory) (fits : Fits image) where
  back_word : ℕ
  back_word = branch_word (displacement (cave_of image + 24) (resume_of image))

  entry_word : ℕ
  entry_word = branch_word (displacement (helper_of image) (cave_of image))

  helper_plain : add32 image.load_bias event_state_helper ≡ helper_of image
  helper_plain = add32-plain image.load_bias event_state_helper (omega (arith, fits))

  resume_plain : add32 image.load_bias event_state_resume ≡ resume_of image
  resume_plain = add32-plain image.load_bias event_state_resume (omega (arith, fits))

  cave_plain : add32 image.load_bias rx_padding_cave ≡ cave_of image
  cave_plain = add32-plain image.load_bias rx_padding_cave (omega (arith, fits))

  behind_plain : add32 (cave_of image) 24 ≡ cave_of image + 24
  behind_plain = add32-plain (cave_of image) 24 (omega (arith, fits))

  guarded-plain :
      guarded image m
      ≡ write_words
          (write_words m (cave_of image) (trampoline back_word))
          (helper_of image)
          (entry_word ∷ [])
  unfolding guarded back_word entry_word
  guarded-plain = rw (helper_plain, resume_plain, cave_plain, behind_plain) refl

  guarded-Outside :
      (x : ℕ)
      → Outside (helper_of image) 4 x
      → Outside (cave_of image) 28 x
      → guarded image m x ≡ m x
  guarded-Outside x far apart =
      ap (λ (n : Memory). n x) guarded-plain
      ∙ write_words-Outside (write_words m (cave_of image) (trampoline back_word)) (helper_of image)
          (entry_word ∷ []) x far
      ∙ write_words-Outside m (cave_of image) (trampoline back_word) x apart

  back_word-IsWord : IsWord back_word
  unfolding back_word
  back_word-IsWord = branch_word-lt (displacement (cave_of image + 24) (resume_of image))

  guarded-entry : read32 (guarded image m) (helper_of image) ≡ entry_word
  unfolding write_words entry_word
  guarded-entry =
      ap (λ (n : Memory). read32 n (helper_of image)) guarded-plain
      ∙ read32-write32 (write_words m (cave_of image) (trampoline back_word)) (helper_of image)
          entry_word (branch_word-lt (displacement (helper_of image) (cave_of image)))

  guarded-cave : words_at (guarded image m) (cave_of image) 7 ≡ trampoline back_word
  guarded-cave =
      ap (λ (n : Memory). words_at n (cave_of image) 7) guarded-plain
      ∙ words_at-write_words_apart (write_words m (cave_of image) (trampoline back_word))
          (helper_of image) (entry_word ∷ []) (cave_of image) 7 (inr (omega arith))
      ∙ words_at-write_words m (cave_of image) (trampoline back_word)
          (words back_word back_word-IsWord)
    where
      words : (w : ℕ) → IsWord w → All IsWord (trampoline w)
      words w h = (
        omega arith,
        (omega arith, (omega arith, (omega arith, (omega arith, (omega arith, (h, tt)))))),
      )

  guarded-intercepts :
      Checked image m
      → BranchesTo (guarded image m) (helper_of image) (cave_of image)
        × ((words_at (guarded image m) (cave_of image) 6
              ≡ 0xe3500000 ∷ 0x03a00003 ∷ 0x012fff1e ∷ words_at m (helper_of image) 3)
            × BranchesTo (guarded image m) (cave_of image + 24) (helper_of image + 12))
  unfolding back_word entry_word
  guarded-intercepts checked =
      let cave =
        words_at-six (guarded image m) (cave_of image) 0xe3500000 0x03a00003 0x012fff1e 0xe92d4c10
          0xe28db008 0xe24dd008 back_word guarded-cave in
      let entry =
        branch_word-target (helper_of image) (cave_of image) (omega (arith, fits))
          (omega (arith, fits)) (rw (helper_plain, cave_plain) at checked.entry) in
      let back =
        branch_word-target (cave_of image + 24) (resume_of image) (omega (arith, fits))
          (omega (arith, fits)) (rw (cave_plain, behind_plain, resume_plain) at checked.return) in
      (
        (
          ap (λ (w : ℕ). w / 2 ^ 24) guarded-entry ∙ entry.0,
          ap (branch_target (helper_of image)) guarded-entry ∙ entry.1,
        ),
        (
          cave.0
              ∙ ap (λ ws. 0xe3500000 ∷ 0x03a00003 ∷ 0x012fff1e ∷ ws)
                  (sym (
                    eq_of_same_bytes (words_at m (helper_of image) 3) expected_prologue
                      (rw helper_plain at checked.prologue))),
          (
            ap (λ (w : ℕ). w / 2 ^ 24) cave.1 ∙ back.0,
            ap (branch_target (cave_of image + 24)) cave.1 ∙ back.1 ∙ omega arith,
          ),
        ),
      )

module _ (mprotect : List Protect → Protect → Bool) (image : Image) (p : Patching)
    (fits : Fits image) where
  -- For an image whose padding at RX_PADDING_CAVE ends within the 32-bit addresses, where
  -- nfsmw_apply_app_patches succeeds: the first word of the helper is an unconditional branch to the padding; the padding
  -- holds `cmp r0, #0`, `moveq r0, #3` and `bxeq lr`, then the three words that the helper began with; and
  -- then an unconditional branch to the helper's fourth word.
  pub nfsmw_apply_app_patches-guard :
      (nfsmw_apply_app_patches mprotect (some image) p).1 ≡ ok tt
      → BranchesTo
          (nfsmw_apply_app_patches mprotect (some image) p).0.memory
          (helper_of image)
          (cave_of image)
        × ((words_at (nfsmw_apply_app_patches mprotect (some image) p).0.memory (cave_of image) 6
              ≡ 0xe3500000 ∷ 0x03a00003 ∷ 0x012fff1e ∷ words_at p.memory (helper_of image) 3)
            × BranchesTo
                (nfsmw_apply_app_patches mprotect (some image) p).0.memory
                (cave_of image + 24)
                (helper_of image + 12))
  unfolding nfsmw_apply_app_patches
  nfsmw_apply_app_patches-guard done = elim (patch_app-memory mprotect image p) [
    | inl (e, is, _, _) ↦ absurd (ground (arith, is, done))
    | inr (checked, (is, _)) ↦ rw is (guarded-intercepts image p.memory fits checked)
  ]

  -- For an image whose padding at RX_PADDING_CAVE ends within the 32-bit addresses: whatever the result of
  -- nfsmw_apply_app_patches, the memory outside the helper's first word and the 28 bytes of the padding is
  -- what it was; and where the error is none but that the protection was not restored, all memory is.
  pub nfsmw_apply_app_patches-Outside :
      ((x : ℕ)
        → Outside (helper_of image) 4 x
        → Outside (cave_of image) 28 x
        → (nfsmw_apply_app_patches mprotect (some image) p).0.memory x ≡ p.memory x)
      × ((e : PatchError)
          → (nfsmw_apply_app_patches mprotect (some image) p).1 ≡ err e
          → e ≢ restore_failed
          → (nfsmw_apply_app_patches mprotect (some image) p).0.memory ≡ p.memory)
  unfolding nfsmw_apply_app_patches
  nfsmw_apply_app_patches-Outside = elim (patch_app-memory mprotect image p) [
    | inl (e, _, _, is) ↦ ((λ x far apart. ap (λ (m : Memory). m x) is), (λ e failed other. is))
    | inr (checked, (is, restore)) ↦ (
      (λ x far apart.
          ap (λ (m : Memory). m x) is ∙ guarded-Outside image p.memory fits x far apart),
      (λ e failed other. absurd (other (restore e failed))),
    )
  ]
