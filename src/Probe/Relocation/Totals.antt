-- ===== src/Probe/Relocation/Totals.antt =====
-- The totals that nfsmw_relocation_probe adds for an image.
use nfsmw_arm_linux.Prelude.{
  ℕ, ◌+◌, ◌≤◌, Bool, some, List, Bytes, arith, ◌≡◌, ◌∙◌, refl, Result, ok, err,
}
use nfsmw_arm_linux.Memory.{Memory}
use nfsmw_arm_linux.Elf.Types.{Image, DynamicInfo, Error}
use nfsmw_arm_linux.Elf.Segments.{Protect}
use nfsmw_arm_linux.Elf.Dynamic.{parse_relocation_info}
use nfsmw_arm_linux.Elf.Relocate.{Process, elf32_relocate}
use nfsmw_arm_linux.Elf.Relocate.Contexts.{elf32_relocate-context}
use nfsmw_arm_linux.Elf.Relocate.Counts.{elf32_relocate-total}
use nfsmw_arm_linux.Probe.Hosts.{Linker}
use nfsmw_arm_linux.Probe.Relocation.{
  Context, runtime_lookup, relocation_lookup, add_module, probe_image,
}

module _ (address : Bytes → ℕ) (linker : Linker) where
  -- A lookup leaves both totals alone.
  Totals : (processed unresolved : ℕ) → Context → Type 0
  Totals processed unresolved context =
      (context.stats.total_relocations ≡ processed)
      × (context.stats.unresolved_relocations ≡ unresolved)

  runtime_lookup-Totals :
      (name : Bytes) (context : Context)
      → Totals context.stats.total_relocations context.stats.unresolved_relocations
          (runtime_lookup address linker name context).0
  unfolding runtime_lookup Totals
  runtime_lookup-Totals name context = ground arith

  relocation_lookup-Totals :
      (name : Bytes) (binding : ℕ) (m : Memory) (context : Context)
      → Totals context.stats.total_relocations context.stats.unresolved_relocations
          (relocation_lookup address linker name binding m context).0
  unfolding relocation_lookup Totals
  relocation_lookup-Totals name binding m context =
      ground (arith, runtime_lookup-Totals name context)

  module _ (mprotect : List Protect → Protect → Bool) where
    -- An image whose relocation succeeds adds the entries of both its tables to the processed relocations,
    -- and to the unresolved ones at most as many.
    pub probe_image-total :
        (image : Image) (p : Process Context) {info : DynamicInfo}
        → parse_relocation_info image p.memory ≡ ok info
        → (probe_image address linker mprotect image p).1 ≡ ok tt
        → ((probe_image address linker mprotect image p).0.context.stats.total_relocations
            ≡ p.context.stats.total_relocations
              + (info.relocation_count + info.plt_relocation_count))
          × ((probe_image address linker mprotect image p).0.context.stats.unresolved_relocations
              ≤ p.context.stats.unresolved_relocations
                + (info.relocation_count + info.plt_relocation_count))
    unfolding probe_image add_module Totals
    probe_image-total image p {info} is done =
        let fine : relocated.1 ≡ ok tt = succeeded relocated.1 refl in
        let (sum, sound) = elf32_relocate-total mprotect image (some lookup) begun is fine in
        ground (arith, fine, kept, sum, sound)
      where
        lookup : Bytes → ℕ → Memory → Context → Context × ℕ
        lookup = relocation_lookup address linker

        begun : Process Context
        begun = record p { context = record p.context { current = image } }

        keeps :
            (processed unresolved : ℕ) (name : Bytes) (binding : ℕ) (m : Memory) (c : Context)
            → Totals processed unresolved c
            → Totals processed unresolved (lookup name binding m c).0
        keeps processed unresolved name binding m c (a, b) =
            let (a', b') = relocation_lookup-Totals name binding m c in (a' ∙ a, b' ∙ b)

        relocated : Process Context × Result Error (Unit {0})
        relocated = elf32_relocate mprotect (some image) (some lookup) begun

        kept :
            Totals p.context.stats.total_relocations p.context.stats.unresolved_relocations
              relocated.0.context
        kept =
            elf32_relocate-context
              (Totals p.context.stats.total_relocations p.context.stats.unresolved_relocations)
              lookup
              (keeps p.context.stats.total_relocations p.context.stats.unresolved_relocations)
              mprotect image begun (refl, refl)

        succeeded : (r : Result Error (Unit {0})) → relocated.1 ≡ r → r ≡ ok tt
        succeeded (ok _) e = refl
        succeeded (err x) e = ground (arith, e, done)
