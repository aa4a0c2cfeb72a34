-- ===== src/Elf/Dynamic.antt =====
-- parse_dynamic and parse_relocation_info of elf32_loader.c.
pub mod Bounds
use nfsmw_arm_linux.Prelude.{
  ℕ, ◌+◌, ◌*◌, ◌/◌, ◌%◌, Bool, true, false, ◌||◌, ◌&&◌, not, List, [], ◌∷◌, if◌then◌else◌, ◌==◌,
  ltb, leb, add32, word_max, Result, ok, err,
}
use nfsmw_arm_linux.Memory.{Memory, read32}
use nfsmw_arm_linux.Elf.Format.{
  Entry, read_entry, entry_size, table, symbol_size, relocation_size, dt_null, dt_pltrelsz, dt_hash,
  dt_strtab, dt_symtab, dt_rela, dt_relasz, dt_relaent, dt_strsz, dt_syment, dt_soname, dt_rel,
  dt_relsz, dt_relent, dt_pltrel, dt_jmprel,
}
use nfsmw_arm_linux.Elf.Types.{
  Image, DynamicInfo, Error, unexpected_rela, unterminated_dynamic, invalid_string_table,
  invalid_soname, invalid_symbol_metadata, invalid_symbol_count, invalid_rel_table,
  invalid_plt_table,
}
use nfsmw_arm_linux.Elf.Ranges.{range_in_image}

-- The entries of PT_DYNAMIC.
unfoldable pub dynamic_entries : Image → Memory → List Entry
dynamic_entries image m = table read_entry entry_size m image.dynamic image.dynamic_count

-- The locals of parse_dynamic, and the size that it writes to the image as it scans.
pub record StringScan : Type 0 where
  pub string_address : ℕ
  pub string_table_size : ℕ
  pub soname_offset : ℕ
  pub soname_seen : Bool

unfoldable pub scan_string : Image → Entry → StringScan → Result Error StringScan
scan_string image entry scan =
    if entry.tag == dt_strtab
    then ok (record scan { string_address = add32 image.load_bias entry.value })
    else if entry.tag == dt_strsz
    then ok (record scan { string_table_size = entry.value })
    else if entry.tag == dt_soname
    then ok (record scan { soname_offset = entry.value; soname_seen = true })
    else if entry.tag == dt_rela || (entry.tag == dt_relasz || entry.tag == dt_relaent)
    then err unexpected_rela
    else ok scan

-- The loop up to DT_NULL; a table without one is refused.
unfoldable pub scan_strings : Image → List Entry → StringScan → Result Error StringScan
scan_strings image [] scan = err unterminated_dynamic
scan_strings image (entry ∷ entries) scan = elim (entry.tag == dt_null) [
  | true ↦ ok scan
  | false ↦ elim (scan_string image entry scan) [
    | ok scan' ↦ scan_strings image entries scan'
    | err e ↦ err e
  ]
]

-- The checks after the loop.
unfoldable pub check_strings : Image → StringScan → Result Error Image
check_strings image scan =
    if scan.string_address == 0
      || (scan.string_table_size == 0
          || not (range_in_image image scan.string_address scan.string_table_size))
    then err invalid_string_table
    else if not scan.soname_seen || leb scan.string_table_size scan.soname_offset
    then err invalid_soname
    else ok (record image {
      string_table_size = scan.string_table_size;
      string_table = scan.string_address;
      soname = scan.string_address + scan.soname_offset;
    })

abbrev pub first_scan : Image → StringScan
first_scan image = record {
  string_address = 0;
  string_table_size = image.string_table_size;
  soname_offset = 0;
  soname_seen = false;
}

unfoldable pub parse_dynamic : Image → Memory → Result Error Image
parse_dynamic image m = elim (scan_strings image (dynamic_entries image m) (first_scan image)) [
  | ok scan ↦ check_strings image scan
  | err e ↦ err e
]

-- The locals of parse_relocation_info.
pub record TableScan : Type 0 where
  pub symbol_address : ℕ
  pub symbol_size : ℕ
  pub hash_address : ℕ
  pub relocation_address : ℕ
  pub relocation_size : ℕ
  pub relocation_entry_size : ℕ
  pub plt_address : ℕ
  pub plt_size : ℕ
  pub plt_type : ℕ

unfoldable pub scan_table : Image → Entry → TableScan → TableScan
scan_table image entry scan =
    let pointer = add32 image.load_bias entry.value in
    if entry.tag == dt_symtab
    then record scan { symbol_address = pointer }
    else if entry.tag == dt_syment
    then record scan { symbol_size = entry.value }
    else if entry.tag == dt_hash
    then record scan { hash_address = pointer }
    else if entry.tag == dt_rel
    then record scan { relocation_address = pointer }
    else if entry.tag == dt_relsz
    then record scan { relocation_size = entry.value }
    else if entry.tag == dt_relent
    then record scan { relocation_entry_size = entry.value }
    else if entry.tag == dt_jmprel
    then record scan { plt_address = pointer }
    else if entry.tag == dt_pltrelsz
    then record scan { plt_size = entry.value }
    else if entry.tag == dt_pltrel
    then record scan { plt_type = entry.value }
    else scan

unfoldable pub scan_tables : Image → List Entry → TableScan → TableScan
scan_tables image [] scan = scan
scan_tables image (entry ∷ entries) scan =
    let rest = scan_tables image entries (scan_table image entry scan) in
    if entry.tag == dt_null then scan else rest

abbrev pub no_tables : TableScan
no_tables = record {
  symbol_address = 0;
  symbol_size = 0;
  hash_address = 0;
  relocation_address = 0;
  relocation_size = 0;
  relocation_entry_size = relocation_size;
  plt_address = 0;
  plt_size = 0;
  plt_type = dt_rel;
}

-- The four groups of checks after the loop.
unfoldable pub check_tables : Image → Memory → TableScan → Result Error DynamicInfo
check_tables image m scan =
    let count = read32 m (scan.hash_address + 4) in
    if scan.symbol_address == 0
      || (not (scan.symbol_size == symbol_size)
          || (scan.hash_address == 0 || not (range_in_image image scan.hash_address 8)))
    then err invalid_symbol_metadata
    else if count == 0
        || (ltb (word_max / symbol_size) count
            || not (range_in_image image scan.symbol_address (count * symbol_size)))
    then err invalid_symbol_count
    else if not (scan.relocation_entry_size == relocation_size)
        || (not (scan.relocation_size % relocation_size == 0)
            || (not (scan.relocation_size == 0)
                && not (range_in_image image scan.relocation_address scan.relocation_size)))
    then err invalid_rel_table
    else if not (scan.plt_type == dt_rel)
        || (not (scan.plt_size % relocation_size == 0)
            || (not (scan.plt_size == 0)
                && not (range_in_image image scan.plt_address scan.plt_size)))
    then err invalid_plt_table
    else ok (record {
      symbols = scan.symbol_address;
      symbol_count = count;
      relocations = scan.relocation_address;
      relocation_count = scan.relocation_size / relocation_size;
      plt_relocations = scan.plt_address;
      plt_relocation_count = scan.plt_size / relocation_size;
    })

unfoldable pub parse_relocation_info : Image → Memory → Result Error DynamicInfo
parse_relocation_info image m =
    check_tables image m (scan_tables image (dynamic_entries image m) no_tables)
