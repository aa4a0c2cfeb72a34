-- ===== src/Elf/Format.antt =====
-- The ELF32 structures that elf32_loader.c reads, at their offsets in memory, passing on the
-- constants that it names.
mod Constants
pub use Constants.*
use nfsmw_arm_linux.Prelude.{ℕ, zero, suc, ◌+◌, ◌*◌, ◌/◌, ◌%◌, List, [], ◌∷◌, map}
use nfsmw_arm_linux.Memory.{Memory, read16, read32}

-- `Elf32_Phdr`, 32 bytes.
pub record Segment : Type 0 where
  pub kind : ℕ
  pub offset : ℕ
  pub vaddr : ℕ
  pub filesz : ℕ
  pub memsz : ℕ
  pub flags : ℕ

abbrev pub segment_size : ℕ
segment_size = 32

unfoldable pub read_segment : Memory → ℕ → Segment
read_segment m a = record {
  kind = read32 m a;
  offset = read32 m (a + 4);
  vaddr = read32 m (a + 8);
  filesz = read32 m (a + 16);
  memsz = read32 m (a + 20);
  flags = read32 m (a + 24);
}

-- `Elf32_Dyn`, 8 bytes.
pub record Entry : Type 0 where
  pub tag : ℕ
  pub value : ℕ

abbrev pub entry_size : ℕ
entry_size = 8

unfoldable pub read_entry : Memory → ℕ → Entry
read_entry m a = record { tag = read32 m a; value = read32 m (a + 4) }

-- `Elf32_Sym`, 16 bytes.
pub record Symbol : Type 0 where
  pub name : ℕ
  pub value : ℕ
  pub info : ℕ
  pub section : ℕ

abbrev pub symbol_size : ℕ
symbol_size = 16

unfoldable pub read_symbol : Memory → ℕ → Symbol
read_symbol m a = record {
  name = read32 m a;
  value = read32 m (a + 4);
  info = m (a + 12);
  section = read16 m (a + 14);
}

-- `ELF32_ST_BIND` and `ELF32_ST_TYPE` of the info byte.
abbrev pub symbol_binding : ℕ → ℕ
symbol_binding info = info / 16

abbrev pub symbol_type : ℕ → ℕ
symbol_type info = info % 16

-- `Elf32_Rel`, 8 bytes.
pub record Relocation : Type 0 where
  pub offset : ℕ
  pub info : ℕ

abbrev pub relocation_size : ℕ
relocation_size = 8

unfoldable pub read_relocation : Memory → ℕ → Relocation
read_relocation m a = record { offset = read32 m a; info = read32 m (a + 4) }

-- `ELF32_R_SYM` and `ELF32_R_TYPE`.
abbrev pub relocation_symbol_index : ℕ → ℕ
relocation_symbol_index info = info / 256

abbrev pub relocation_type : ℕ → ℕ
relocation_type info = info % 256

-- `Elf32_Ehdr`, 52 bytes: the fields that are checked or used.
pub record Header : Type 0 where
  pub magic : ℕ
  pub class : ℕ
  pub encoding : ℕ
  pub kind : ℕ
  pub machine : ℕ
  pub phoff : ℕ
  pub phentsize : ℕ
  pub phnum : ℕ

abbrev pub header_size : ℕ
header_size = 52

unfoldable pub read_header : Memory → ℕ → Header
read_header m a = record {
  magic = read32 m a;
  class = m (a + 4);
  encoding = m (a + 5);
  kind = read16 m (a + 16);
  machine = read16 m (a + 18);
  phoff = read32 m (a + 28);
  phentsize = read16 m (a + 42);
  phnum = read16 m (a + 44);
}

-- The indices `first`, …, `first + count - 1` of a counted loop.
unfoldable pub indices : ℕ → ℕ → List ℕ
indices first zero = []
indices first (suc count) = first ∷ indices (first + 1) count

-- The `count` structures of one size that stand from an address on.
unfoldable pub table : {A : Type 0} → (Memory → ℕ → A) → ℕ → Memory → ℕ → ℕ → List A
unfolding indices
table read size m base count = map (λ i. read m (base + i * size)) (indices 0 count)
