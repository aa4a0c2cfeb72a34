-- ===== src/Elf/Relocate/Confinement.antt =====
-- elf32_relocate writes only inside the image.
use nfsmw_arm_linux.Prelude.{
  ℕ, ◌+◌, ◌*◌, ◌≡◌, refl, inl, inr, Bool, some, List, arith, Bool-cases, Result, ok, err,
  Result-cases, Keeps, for_each-Keeps, bind-Keeps, add32,
}
use nfsmw_arm_linux.Memory.{Memory, read32, Outside, write32, write32-Outside}
use nfsmw_arm_linux.Elf.Format.{
  Relocation, read_relocation, relocation_size, relocation_type, relocation_symbol_index, indices,
}
use nfsmw_arm_linux.Elf.Types.{Image, DynamicInfo, Error, no_stats}
use nfsmw_arm_linux.Elf.Ranges.{range_in_image}
use nfsmw_arm_linux.Elf.Ranges.Bounds.{IsWide, InImage, range_in_image-InImage}
use nfsmw_arm_linux.Elf.Dynamic.{parse_relocation_info}
use nfsmw_arm_linux.Elf.Segments.{Protect, set_segments_writable}
use nfsmw_arm_linux.Elf.Relocate.{
  Resolver, Lookup, found, unresolved, relocation_symbol, Process, apply_symbolic, apply_relocation,
  apply_at, apply_relocations, relocate_tables, protect_after, relocate_image, elf32_relocate,
}

abbrev MemoryAt : {C : Type 0} → ℕ → ℕ → Process C → Type 0
MemoryAt x v p = p.memory x ≡ v

-- A word whose range the image holds stands apart from an address outside the image.
write-Outside :
    (image : Image) (m : Memory) (target v x : ℕ)
    → InImage image target 4
    → Outside image.mapping image.mapping_size x
    → write32 m target v x ≡ m x
write-Outside image m target v x i out = write32-Outside m target v x (apart out)
  where
    apart : Outside image.mapping image.mapping_size x → Outside target 4 x
    apart (inl h) = inl (omega (arith, i.from_start))
    apart (inr h) = inr (omega (arith, i.to_end))

module _ {C : Type 0} (image : Image) (info : DynamicInfo) (resolver : Resolver C) (x : ℕ)
    (wide : IsWide image) (out : Outside image.mapping image.mapping_size x) where
  apply_symbolic-memory :
      (type index target addend v : ℕ)
      → InImage image target 4
      → Keeps (MemoryAt x v) (apply_symbolic image info resolver type index target addend)
  unfolding apply_symbolic
  apply_symbolic-memory type index target addend v i p kept =
      go (relocation_symbol image info index resolver p.memory p.context).1 refl
    where
      go :
          (r : Result Error Lookup)
          → (relocation_symbol image info index resolver p.memory p.context).1 ≡ r
          → (apply_symbolic image info resolver type index target addend p).0.memory x ≡ v
      go (err e) is = ground (arith, is)
      go (ok (unresolved name)) is = ground (arith, is)
      go (ok (found value)) is = ground (
        arith,
        is,
        write-Outside image p.memory target value x i out,
        write-Outside image p.memory target (add32 value addend) x i out,
      )

  apply_relocation-memory :
      (r : Relocation) (v : ℕ) → Keeps (MemoryAt x v) (apply_relocation image info resolver r)
  unfolding apply_relocation
  apply_relocation-memory r v p kept =
      elim (Bool-cases (range_in_image image (add32 image.load_bias r.offset) 4)) [
        | inr far ↦ ground (arith, far)
        | inl near ↦
            let target = add32 image.load_bias r.offset in
            let i = range_in_image-InImage image target 4 wide near in
            ground (
              arith,
              near,
              write-Outside image p.memory target (add32 image.load_bias (read32 p.memory target)) x
                  i out,
              apply_symbolic-memory (relocation_type r.info) (relocation_symbol_index r.info) target
                  (read32 p.memory target) v i p kept,
            )
      ]

  apply_relocations-memory :
      (relocations count v : ℕ)
      → Keeps (MemoryAt x v) (apply_relocations image info resolver relocations count)
  unfolding apply_relocations apply_at
  apply_relocations-memory relocations count v =
      for_each-Keeps (MemoryAt x v) (indices 0 count) (apply_at image info resolver relocations)
        (step v)
    where
      step : (v index : ℕ) → Keeps (MemoryAt x v) (apply_at image info resolver relocations index)
      step v index p kept =
          apply_relocation-memory (read_relocation p.memory (relocations + index * relocation_size))
            v p kept

  relocate_tables-memory : (v : ℕ) → Keeps (MemoryAt x v) (relocate_tables image info resolver)
  unfolding relocate_tables
  relocate_tables-memory v =
      bind-Keeps (MemoryAt x v)
        (apply_relocations image info resolver info.relocations info.relocation_count)
        (λ _. apply_relocations image info resolver info.plt_relocations info.plt_relocation_count)
        (apply_relocations-memory info.relocations info.relocation_count v)
        (λ _. apply_relocations-memory info.plt_relocations info.plt_relocation_count v)

module _ {C : Type 0} (mprotect : List Protect → Protect → Bool) (image : Image)
    (resolver : Resolver C) (p : Process C) (x : ℕ) where
  protect_after-memory :
      (r : Process C × Result Error (Unit {0}))
      → (protect_after mprotect image r).0.memory ≡ r.0.memory
  unfolding protect_after
  protect_after-memory (q, result) = refl

  relocate_image-memory :
      IsWide image
      → Outside image.mapping image.mapping_size x
      → (relocate_image mprotect image resolver p).0.memory x ≡ p.memory x
  unfolding relocate_image
  relocate_image-memory wide out = elim (Result-cases (parse_relocation_info image p.memory)) [
    | inr (e, is) ↦ ground (arith, is)
    | inl (info, is) ↦
        let (log, writable) = set_segments_writable mprotect image p.memory p.protections in
        let q : Process C = record p { protections = log } in
        ground (
          arith,
          is,
          protect_after-memory (relocate_tables image info resolver q),
          relocate_tables-memory image info resolver x wide out (p.memory x) q refl,
        )
  ]

-- Relocating an image, whatever its tables hold and whatever the resolver and mprotect answer,
-- changes no byte outside the image's mapping, on success and on failure. The mapping's start and
-- size are 32-bit words.
pub elf32_relocate-memory :
    {C : Type 0} (mprotect : List Protect → Protect → Bool) (image : Image) (resolver : Resolver C)
    (p : Process C) (x : ℕ)
    → IsWide image
    → Outside image.mapping image.mapping_size x
    → (elf32_relocate mprotect (some image) resolver p).0.memory x ≡ p.memory x
unfolding elf32_relocate
elf32_relocate-memory mprotect image resolver p x wide out = ground (
  arith,
  relocate_image-memory mprotect image resolver
      (record p { stats = no_stats; first_unresolved = 0 }) x wide out,
)
