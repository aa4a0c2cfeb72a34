-- ===== src/Elf/Dynamic/Bounds.antt =====
-- What parse_dynamic and parse_relocation_info accept lies in the image.
use nfsmw_arm_linux.Prelude.{
  ℕ, ◌+◌, ◌*◌, ◌≤◌, ◌<◌, ◌≡◌, ◌⊎◌, inl, inr, true, false, arith, Bool-cases, ok, Result-cases, ◌==◌,
}
use nfsmw_arm_linux.Memory.{Memory}
use nfsmw_arm_linux.Elf.Types.{Image, DynamicInfo}
use nfsmw_arm_linux.Elf.Ranges.{range_in_image}
use nfsmw_arm_linux.Elf.Ranges.Bounds.{IsWide, InImage, range_in_image-InImage}
use nfsmw_arm_linux.Elf.Dynamic.{
  StringScan, scan_strings, check_strings, first_scan, dynamic_entries, parse_dynamic, TableScan,
  check_tables, scan_tables, no_tables, parse_relocation_info,
}

-- The string table lies in the mapping, is not empty, and the soname starts inside it.
pub record StringsFit (image : Image) : Type 0 where
  pub inside : InImage image image.string_table image.string_table_size
  pub nonempty : 0 < image.string_table_size
  pub soname_low : image.string_table ≤ image.soname
  pub soname_high : image.soname < image.string_table + image.string_table_size

check_strings-StringsFit :
    (image : Image) (scan : StringScan) {image' : Image}
    → IsWide image
    → check_strings image scan ≡ ok image'
    → StringsFit image'
unfolding check_strings
check_strings-StringsFit image scan wide e =
    let near : range_in_image image scan.string_address scan.string_table_size ≡ true =
      ground arith in
    let i = range_in_image-InImage image scan.string_address scan.string_table_size wide near in
    ground (arith, i.no_wrap, i.from_start, i.to_end)

-- Where parse_dynamic succeeds on a mapping of 32-bit start and size, the resulting image's string
-- table is not empty and lies in its mapping, and its soname starts inside the string table.
pub parse_dynamic-StringsFit :
    (image : Image) (m : Memory) {image' : Image}
    → IsWide image
    → parse_dynamic image m ≡ ok image'
    → StringsFit image'
unfolding parse_dynamic
parse_dynamic-StringsFit image m wide e =
    elim (Result-cases (scan_strings image (dynamic_entries image m) (first_scan image))) [
      | inl (scan, is) ↦ check_strings-StringsFit image scan wide (ground (arith, is))
      | inr (failure, is) ↦ absurd (ground (arith, is))
    ]

-- A table of 8-byte entries is empty or lies in the mapping.
abbrev pub TableFits : Image → (start count : ℕ) → Type 0
TableFits image start count = (count ≡ 0) ⊎ InImage image start (count * 8)

pub record TablesFit (image : Image) (info : DynamicInfo) : Type 0 where
  pub symbols_fit : InImage image info.symbols (info.symbol_count * 16)
  pub symbols_nonempty : 0 < info.symbol_count
  pub relocations_fit : TableFits image info.relocations info.relocation_count
  pub plt_relocations_fit : TableFits image info.plt_relocations info.plt_relocation_count

check_tables-TablesFit :
    (image : Image) (m : Memory) (scan : TableScan) {info : DynamicInfo}
    → IsWide image
    → check_tables image m scan ≡ ok info
    → TablesFit image info
unfolding check_tables
check_tables-TablesFit image m scan {info} wide e = record {
  symbols_fit = symbols_fit;
  symbols_nonempty = ground arith;
  relocations_fit = relocations_fit (Bool-cases (scan.relocation_size == 0));
  plt_relocations_fit = plt_fit (Bool-cases (scan.plt_size == 0));
}
  where
    symbols_fit : InImage image info.symbols (info.symbol_count * 16)
    symbols_fit =
        range_in_image-InImage image info.symbols (info.symbol_count * 16) wide (ground arith)

    relocations_fit :
        ((scan.relocation_size == 0) ≡ true) ⊎ ((scan.relocation_size == 0) ≡ false)
        → TableFits image info.relocations info.relocation_count
    relocations_fit (inl empty) = inl (ground (arith, empty))
    relocations_fit (inr full) =
        let whole : info.relocation_count * 8 ≡ scan.relocation_size = ground (arith, full) in
        inr (
          rw whole (
            range_in_image-InImage image info.relocations scan.relocation_size wide
              (ground (arith, full))))

    plt_fit :
        ((scan.plt_size == 0) ≡ true) ⊎ ((scan.plt_size == 0) ≡ false)
        → TableFits image info.plt_relocations info.plt_relocation_count
    plt_fit (inl empty) = inl (ground (arith, empty))
    plt_fit (inr full) =
        let whole : info.plt_relocation_count * 8 ≡ scan.plt_size = ground (arith, full) in
        inr (
          rw whole (
            range_in_image-InImage image info.plt_relocations scan.plt_size wide
              (ground (arith, full))))

-- Where parse_relocation_info succeeds on a mapping of 32-bit start and size, the symbol table is not
-- empty and lies in the mapping, and so does each relocation table that is not empty.
pub parse_relocation_info-TablesFit :
    (image : Image) (m : Memory) {info : DynamicInfo}
    → IsWide image
    → parse_relocation_info image m ≡ ok info
    → TablesFit image info
unfolding parse_relocation_info
parse_relocation_info-TablesFit image m wide e =
    check_tables-TablesFit image m (scan_tables image (dynamic_entries image m) no_tables) wide e
