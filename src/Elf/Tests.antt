-- ===== src/Elf/Tests.antt =====
-- The sample module mapped and relocated: tests of elf32_loader.c and the theorems at it.
use nfsmw_arm_linux.Prelude.{◌≡◌, refl, inl, inr, some, [], ◌∷◌, arith, ok}
use nfsmw_arm_linux.Memory.{read32}
use nfsmw_arm_linux.Elf.Format.{Relocation, read_symbol, symbol_size, table}
use nfsmw_arm_linux.Elf.Types.{no_stats}
use nfsmw_arm_linux.Elf.Sample.{module_bytes, host, start, loaded, info, mprotect, loaded-IsWide}
use nfsmw_arm_linux.Elf.Dynamic.{parse_relocation_info}
use nfsmw_arm_linux.Elf.Load.{elf32_map}
use nfsmw_arm_linux.Elf.Load.Confined.{IsHost, ReservesFit, elf32_map-memory}
use nfsmw_arm_linux.Elf.Load.Cleanup.{Settled, elf32_map-Settled}
use nfsmw_arm_linux.Elf.Relocate.Confinement.{elf32_relocate-memory}
use nfsmw_arm_linux.Elf.Relocate.Formulas.{
  abi_word, apply_relocation-abi_word, apply_relocation-unchanged,
}
use nfsmw_arm_linux.Elf.Relocate.Counts.{total, Sound, elf32_relocate-total}
use nfsmw_arm_linux.Elf.Relocate.Exports.{Answers, elf32_find_export-first}
use nfsmw_arm_linux.Elf.Dynamic.Bounds.{
  StringsFit, parse_dynamic-StringsFit, TablesFit, parse_relocation_info-TablesFit,
}
use nfsmw_arm_linux.Elf.Relocate.{
  Process, Resolver, elf32_relocate, relocate_image, relocate_tables, protect_after,
  apply_relocations, apply_at, apply_relocation, apply_symbolic, relocation_symbol,
  resolve_undefined, symbol_value, count_symbolic, count_relative, count_unresolved,
  elf32_find_export, find_symbol, exports, same_name,
}

-- The resolver finds nothing.
abbrev resolver : Resolver (Unit {0})
resolver = some (λ name binding m context. (context, 0))

process : Process (Unit {0})
unfolding loaded
process = record {
  memory = loaded.memory;
  protections = loaded.protections;
  stats = no_stats;
  first_unresolved = 0;
  context = tt;
}

relocated : Process (Unit {0})
unfolding elf32_relocate relocate_image relocate_tables protect_after apply_relocations apply_at
    apply_relocation apply_symbolic relocation_symbol resolve_undefined symbol_value count_symbolic
    count_relative count_unresolved process mprotect
relocated = (elf32_relocate mprotect (some loaded.image) resolver process).0

loaded_ok : ((elf32_map host 1 start).1 ≡ ok tt) × (read32 loaded.memory 4368 ≡ 3)
unfolding loaded
loaded_ok = (refl, refl)

loaded_place :
    (loaded.image.mapping ≡ 4096) × (loaded.image.mapping_size ≡ 512) × (loaded.image.soname ≡ 4349)
unfolding loaded
loaded_place = (refl, refl, refl)

info_lem : parse_relocation_info loaded.image process.memory ≡ ok info
unfolding process
info_lem = refl

relocated_ok : (elf32_relocate mprotect (some loaded.image) resolver process).1 ≡ ok tt
unfolding relocated
relocated_ok = refl

-- B + A = 4096 + 16, and S + A = (4096 + 264) + 3.
relocated_words : (read32 relocated.memory 4364 ≡ 4112) × (read32 relocated.memory 4368 ≡ 4363)
unfolding relocated
relocated_words = (refl, refl)

host-ReservesFit : ReservesFit host
host-ReservesFit size place e = ground arith

host-IsHost : IsHost host
unfolding module_bytes
host-IsHost = record {
  bytes = λ a. omega arith;
  page_word = omega arith;
  reserves = host-ReservesFit;
}

-- The stack at 100 is as it was.
elf32_map-memory_example : (elf32_map host 1 start).0.memory 100 ≡ 0
elf32_map-memory_example =
    elf32_map-memory host 1 100 start host-IsHost (λ size place e. inl (ground arith))

elf32_map-Settled_example : Settled start (elf32_map host 1 start)
elf32_map-Settled_example = elf32_map-Settled host 1 start host-ReservesFit

parse_dynamic-StringsFit_example : StringsFit loaded.image
unfolding loaded
parse_dynamic-StringsFit_example =
    parse_dynamic-StringsFit loaded.image loaded.memory loaded-IsWide refl

parse_relocation_info-TablesFit_example : TablesFit loaded.image info
parse_relocation_info-TablesFit_example =
    parse_relocation_info-TablesFit loaded.image process.memory loaded-IsWide info_lem

elf32_relocate-memory_example :
    (elf32_relocate mprotect (some loaded.image) resolver process).0.memory 100 ≡ process.memory 100
unfolding loaded
elf32_relocate-memory_example =
    elf32_relocate-memory mprotect loaded.image resolver process 100 loaded-IsWide
      (inl (omega arith))

abbrev absolute : Relocation
absolute = record { offset = 272; info = 258 }

-- Symbol 0 has no section and nobody resolves it.
abbrev undefined : Relocation
undefined = record { offset = 272; info = 2 }

apply_relocation-abi_word_example :
    ((apply_relocation loaded.image info resolver absolute process).1 ≡ ok tt)
    × (read32 (apply_relocation loaded.image info resolver absolute process).0.memory 4368
        ≡ abi_word 2 4096 3 4360 0)
unfolding relocated
apply_relocation-abi_word_example =
    apply_relocation-abi_word loaded.image info resolver absolute process 4360 0 refl
      (inr (refl, (refl, inl refl))) (omega arith) (inl refl)

apply_relocation-unchanged_example :
    (apply_relocation loaded.image info resolver undefined process).0.memory ≡ process.memory
unfolding relocated
apply_relocation-unchanged_example =
    apply_relocation-unchanged loaded.image info resolver undefined process
      (inr (refl, (4348, refl)))

elf32_relocate-total_example :
    (total (elf32_relocate mprotect (some loaded.image) resolver process).0.stats ≡ 2)
    × Sound (elf32_relocate mprotect (some loaded.image) resolver process).0.stats
elf32_relocate-total_example =
    elf32_relocate-total mprotect loaded.image resolver process info_lem relocated_ok

elf32_find_export-first_example :
    Answers loaded.image process.memory
      (b'f' ∷ b'o' ∷ b'o' ∷ [])
      (table read_symbol symbol_size process.memory info.symbols info.symbol_count)
      (elf32_find_export (some loaded.image) (some (b'f' ∷ b'o' ∷ b'o' ∷ [])) process.memory)
elf32_find_export-first_example =
    elf32_find_export-first loaded.image process.memory (b'f' ∷ b'o' ∷ b'o' ∷ []) info info_lem

-- The symbol foo at 264 of the image that is loaded at 4096.
foo_address :
    elf32_find_export (some loaded.image) (some (b'f' ∷ b'o' ∷ b'o' ∷ [])) process.memory ≡ 4360
unfolding relocated elf32_find_export find_symbol exports same_name symbol_value
foo_address = refl
