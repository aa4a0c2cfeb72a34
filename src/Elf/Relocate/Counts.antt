-- ===== src/Elf/Relocate/Counts.antt =====
-- What the relocation statistics count.
use nfsmw_arm_linux.Prelude.{
  ℕ, zero, suc, ◌+◌, ◌*◌, ◌≤◌, Bool, ◌≡◌, refl, ap, some, List, [], ◌∷◌, arith, Result, ok, err,
  Keeps, for_each, for_each-Keeps, bind-Keeps, >>=-eq-ok, length,
}
use nfsmw_arm_linux.Elf.Format.{
  Relocation, read_relocation, relocation_size, relocation_symbol_index, indices,
}
use nfsmw_arm_linux.Elf.Types.{Image, DynamicInfo, RelocationStats, no_stats, Error}
use nfsmw_arm_linux.Elf.Dynamic.{parse_relocation_info}
use nfsmw_arm_linux.Elf.Segments.{Protect, set_segments_writable}
use nfsmw_arm_linux.Elf.Relocate.{
  Resolver, Lookup, found, unresolved, relocation_symbol, Process, count_symbolic, count_relative,
  count_unresolved, apply_symbolic, apply_relocation, apply_at, apply_relocations, relocate_tables,
  protect_after, relocate_image, elf32_relocate,
}

-- The sum that the relocation probe reports as the module's total.
abbrev pub total : RelocationStats → ℕ
total s = s.relative + s.absolute + s.global_data + s.jump_slots

-- Unresolved relocations are symbolic ones.
abbrev pub Sound : RelocationStats → Type 0
Sound s = s.unresolved ≤ s.absolute + s.global_data + s.jump_slots

module _ {C : Type 0} (image : Image) (info : DynamicInfo) (resolver : Resolver C) where
  -- How one round changes the counters.
  record Counted (p q : Process C) (result : Result Error (Unit {0})) : Type 0 where
    sound : Sound p.stats → Sound q.stats
    counted : result ≡ ok tt → total q.stats ≡ total p.stats + 1

  apply_relocation-Counted :
      (r : Relocation) (p : Process C)
      → Counted p
          (apply_relocation image info resolver r p).0
          (apply_relocation image info resolver r p).1
  unfolding apply_relocation apply_symbolic count_symbolic count_relative count_unresolved
  apply_relocation-Counted r p = go _ refl
    where
      index : ℕ
      index = relocation_symbol_index r.info

      go :
          (l : Result Error Lookup)
          → (relocation_symbol image info index resolver p.memory p.context).1 ≡ l
          → Counted p
              (apply_relocation image info resolver r p).0
              (apply_relocation image info resolver r p).1
      go (err e) is = ground (arith, is)
      go (ok (found value)) is = ground (arith, is)
      go (ok (unresolved name)) is = ground (arith, is)

  apply_at-Counted :
      (relocations i : ℕ) (p : Process C)
      → Counted p
          (apply_at image info resolver relocations i p).0
          (apply_at image info resolver relocations i p).1
  unfolding apply_at
  apply_at-Counted relocations i p =
      apply_relocation-Counted (read_relocation p.memory (relocations + i * relocation_size)) p

  loop-total :
      (relocations : ℕ) (is : List ℕ) (p : Process C) {q : Process C}
      → for_each is (apply_at image info resolver relocations) p ≡ (q, ok tt)
      → total q.stats ≡ total p.stats + length is
  unfolding for_each
  loop-total relocations [] p e = ground arith
  loop-total relocations (i ∷ is) p e =
      let step = apply_at image info resolver relocations in
      let (u, one, more) = >>=-eq-ok (step i) (λ _. for_each is step) p e in
      omega (
        arith,
        (apply_at-Counted relocations i p).counted one,
        loop-total relocations is (step i p).0 more,
      )

  length-indices : (first count : ℕ) → length (indices first count) ≡ count
  unfolding indices
  length-indices first zero = refl
  length-indices first (suc count) = ap suc (length-indices (first + 1) count)

  table-total :
      (relocations count : ℕ) (p : Process C) {q : Process C}
      → apply_relocations image info resolver relocations count p ≡ (q, ok tt)
      → total q.stats ≡ total p.stats + count
  unfolding apply_relocations
  table-total relocations count p e =
      omega (arith, loop-total relocations (indices 0 count) p e, length-indices 0 count)

  tables-total :
      (p : Process C) {q : Process C}
      → relocate_tables image info resolver p ≡ (q, ok tt)
      → total q.stats ≡ total p.stats + info.relocation_count + info.plt_relocation_count
  unfolding relocate_tables
  tables-total p e =
      let first = apply_relocations image info resolver info.relocations info.relocation_count in
      let second =
        apply_relocations image info resolver info.plt_relocations info.plt_relocation_count in
      let (u, one, more) = >>=-eq-ok first (λ _. second) p e in
      omega (
        arith,
        table-total info.relocations info.relocation_count p (λ i. ((first p).0, one i)),
        table-total info.plt_relocations info.plt_relocation_count (first p).0 more,
      )

  apply_relocations-Sound :
      (relocations count : ℕ)
      → Keeps (λ p. Sound p.stats) (apply_relocations image info resolver relocations count)
  unfolding apply_relocations
  apply_relocations-Sound relocations count =
      for_each-Keeps (λ p. Sound p.stats) (indices 0 count)
        (apply_at image info resolver relocations) (λ i p. (apply_at-Counted relocations i p).sound)

  relocate_tables-Sound : Keeps (λ p. Sound p.stats) (relocate_tables image info resolver)
  unfolding relocate_tables
  relocate_tables-Sound =
      bind-Keeps (λ p. Sound p.stats)
        (apply_relocations image info resolver info.relocations info.relocation_count)
        (λ _. apply_relocations image info resolver info.plt_relocations info.plt_relocation_count)
        (apply_relocations-Sound info.relocations info.relocation_count)
        (λ _. apply_relocations-Sound info.plt_relocations info.plt_relocation_count)

module _ {C : Type 0} (mprotect : List Protect → Protect → Bool) (image : Image)
    (resolver : Resolver C) (p : Process C) where
  protect_after-ok :
      (r : Process C × Result Error (Unit {0}))
      → (protect_after mprotect image r).1 ≡ ok tt
      → r.1 ≡ ok tt
  unfolding protect_after
  protect_after-ok (q, result) e = ground arith

  -- The statistics of a relocation that succeeds: with the tables that parse_relocation_info finds in
  -- the image, the four kinds add up to the entries of both tables, each counted once, and no more
  -- are unresolved than are symbolic.
  pub elf32_relocate-total :
      {info : DynamicInfo}
      → parse_relocation_info image p.memory ≡ ok info
      → (elf32_relocate mprotect (some image) resolver p).1 ≡ ok tt
      → (total (elf32_relocate mprotect (some image) resolver p).0.stats
          ≡ info.relocation_count + info.plt_relocation_count)
        × Sound (elf32_relocate mprotect (some image) resolver p).0.stats
  unfolding elf32_relocate relocate_image protect_after
  elf32_relocate-total {info} is done =
      let start : Process C = record p { stats = no_stats; first_unresolved = 0 } in
      let q : Process C = record start {
        protections = (set_segments_writable mprotect image p.memory p.protections).0;
      } in
      let r = relocate_tables image info resolver q in
      let fine : r.1 ≡ ok tt = ground (arith, is) in
      ground (
        arith,
        is,
        tables-total image info resolver q {q = r.0} (λ i. (r.0, fine i)),
        relocate_tables-Sound image info resolver q (omega arith),
      )
