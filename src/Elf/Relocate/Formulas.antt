-- ===== src/Elf/Relocate/Formulas.antt =====
-- The word that a relocation stores, against the formulas of the ARM ELF ABI.
use nfsmw_arm_linux.Prelude.{
  ℕ, ◌+◌, ◌*◌, ◌/◌, ◌%◌, ◌^◌, ◌<◌, ◌≡◌, ◌⊎◌, refl, inl, inr, true, arith, Result, ok, err, add32,
  ◌==◌, if◌then◌else◌, bit_or, ap, ◌∙◌,
}
use nfsmw_arm_linux.Prelude.Powers.{bit_or-zero, bit_or_low}
use nfsmw_arm_linux.Memory.{read32, read32-write32}
use nfsmw_arm_linux.Elf.Format.{
  Relocation, relocation_type, relocation_symbol_index, arm_abs32, arm_relative,
}
use nfsmw_arm_linux.Elf.Types.{Image, DynamicInfo, Error}
use nfsmw_arm_linux.Elf.Ranges.{range_in_image}
use nfsmw_arm_linux.Elf.Relocate.{
  Resolver, Lookup, found, unresolved, relocation_symbol, Process, is_symbolic, apply_symbolic,
  apply_relocation,
}

-- The ARM ELF ABI's formulas: B + A for R_ARM_RELATIVE, and (S + A) | T for R_ARM_ABS32, R_ARM_GLOB_DAT
-- and R_ARM_JUMP_SLOT, where S is the symbol's address and T is 1 for a Thumb function and else 0.
abbrev pub abi_word : (type base addend address thumb : ℕ) → ℕ
abi_word type base addend address thumb =
    if type == arm_relative
    then (base + addend) % 2 ^ 32
    else bit_or ((address + addend) % 2 ^ 32) thumb

-- T is 0, or S and A are even and T is 1.
abbrev pub IsThumb : (addend address thumb : ℕ) → Type 0
IsThumb addend address thumb = (thumb ≡ 0) ⊎ ((thumb ≡ 1) × ((address % 2 ≡ 0) × (addend % 2 ≡ 0)))

bit_or-even : (a : ℕ) → a % 2 ≡ 0 → bit_or a 1 ≡ a + 1
bit_or-even a even =
    ap (λ (t : ℕ). bit_or t 1) halved ∙ bit_or_low 1 (a / 2) 1 (omega arith) ∙ omega (arith, halved)
  where
    halved : a ≡ a / 2 * 2 ^ 1
    halved = omega arith

-- Adding the addend after T, as the code does, is adding it before.
bit_or-add :
    (addend address thumb : ℕ)
    → IsThumb addend address thumb
    → address < 4294967296
    → (bit_or address thumb + addend) % 2 ^ 32 ≡ bit_or ((address + addend) % 2 ^ 32) thumb
bit_or-add addend address thumb (inl none) small =
    rw (none, bit_or-zero address, bit_or-zero ((address + addend) % 2 ^ 32)) refl
bit_or-add addend address thumb (inr (one, (even, even_addend))) small =
    rw (one, bit_or-even address even)
      (omega (arith, bit_or-even ((address + addend) % 2 ^ 32) (omega arith)))

bit_or-lt :
    (addend address thumb : ℕ)
    → IsThumb addend address thumb
    → address < 4294967296
    → bit_or address thumb < 4294967296
bit_or-lt addend address thumb (inl none) small = rw (none, bit_or-zero address) small
bit_or-lt addend address thumb (inr (one, (even, even_addend))) small =
    rw (one, bit_or-even address even) (omega arith)

module _ {C : Type 0} (image : Image) (info : DynamicInfo) (resolver : Resolver C) (r : Relocation)
    (p : Process C) where
  abbrev pub target : ℕ
  target = add32 image.load_bias r.offset

  abbrev pub looked_up : Result Error Lookup
  looked_up =
      (relocation_symbol image info (relocation_symbol_index r.info) resolver p.memory p.context).1

  -- A relocation inside the image, of type R_ARM_RELATIVE or of a symbolic type whose symbol was found with
  -- the value S | T, for a 32-bit address S, succeeds and leaves at its target the word that the ARM ELF
  -- ABI prescribes for the addend A that stood there before. It is assumed that T is 0, or S and A are even
  -- and T is 1; and that A is 0 for R_ARM_GLOB_DAT and R_ARM_JUMP_SLOT, to which the code does not add it.
  pub apply_relocation-abi_word :
      (address thumb : ℕ)
      → range_in_image image target 4 ≡ true
      → (relocation_type r.info ≡ arm_relative)
        ⊎ ((is_symbolic (relocation_type r.info) ≡ true)
            × ((looked_up ≡ ok (found (bit_or address thumb)))
                × ((relocation_type r.info ≡ arm_abs32) ⊎ (read32 p.memory target ≡ 0))))
      → address < 4294967296
      → IsThumb (read32 p.memory target) address thumb
      → ((apply_relocation image info resolver r p).1 ≡ ok tt)
        × (read32 (apply_relocation image info resolver r p).0.memory target
            ≡ abi_word
                (relocation_type r.info)
                image.load_bias
                (read32 p.memory target)
                address
                thumb)
  unfolding apply_relocation apply_symbolic
  apply_relocation-abi_word address thumb near (inl relative) small tag = ground (
    arith,
    read32-write32 p.memory target (add32 image.load_bias (read32 p.memory target)) (omega arith),
  )
  apply_relocation-abi_word address thumb near (inr (symbolic, (is, addends))) small tag =
      let value = bit_or address thumb in
      let addend = read32 p.memory target in
      ground (
        arith,
        is,
        read32-write32 p.memory target (add32 value addend) (omega arith),
        read32-write32 p.memory target value (bit_or-lt addend address thumb tag small),
        bit_or-lt addend address thumb tag small,
        bit_or-add addend address thumb tag small,
      )

  -- A relocation that fails, or whose symbol stays unresolved, leaves the memory as it was.
  pub apply_relocation-unchanged :
      ((e : Error) × ((apply_relocation image info resolver r p).1 ≡ err e))
        ⊎ ((is_symbolic (relocation_type r.info) ≡ true)
            × ((name : ℕ) × (looked_up ≡ ok (unresolved name))))
      → (apply_relocation image info resolver r p).0.memory ≡ p.memory
  unfolding apply_relocation apply_symbolic
  apply_relocation-unchanged (inl (e, failed)) = go looked_up refl
    where
      go :
          (l : Result Error Lookup)
          → looked_up ≡ l
          → (apply_relocation image info resolver r p).0.memory ≡ p.memory
      go (err e') is = ground (arith, is)
      go (ok (found value)) is = ground (arith, is)
      go (ok (unresolved name)) is = ground (arith, is)
  apply_relocation-unchanged (inr (symbolic, (name, is))) = ground (arith, is)
