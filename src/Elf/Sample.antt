-- ===== src/Elf/Sample.antt =====
-- A small module of 69 words, mapped by elf32_map, for the tests.
use nfsmw_arm_linux.Prelude.{
  ℕ, ◌≡◌, refl, Bool, true, none, some, List, [], ◌∷◌, ◌++◌, arith, ok, for_each, ltb,
  if◌then◌else◌,
}
use nfsmw_arm_linux.Memory.{Memory, byte_at, write32, c_string, copy_in, zero_fill}
use nfsmw_arm_linux.Elf.Format.{
  read_segment, read_entry, read_symbol, read_relocation, read_header, table, indices,
}
use nfsmw_arm_linux.Elf.Types.{null_image, DynamicInfo}
use nfsmw_arm_linux.Elf.Ranges.{range_in_file, range_in_image, align_down, align_up, protection}
use nfsmw_arm_linux.Elf.Ranges.Bounds.{IsWide}
use nfsmw_arm_linux.Elf.Segments.{
  Protect, call_mprotect, protect_segments, protect_segment, set_segments_writable,
  set_segment_writable,
}
use nfsmw_arm_linux.Elf.Dynamic.{
  parse_dynamic, check_strings, scan_strings, scan_string, dynamic_entries, parse_relocation_info,
  check_tables, scan_tables, scan_table,
}
use nfsmw_arm_linux.Elf.Load.{
  Host, Loader, elf32_map, map_file, check_file, header_supported, page_size_valid, scan_segments,
  check_extent, scan_segment, segment_end, extend, load_image, reserve_image, prepare_segment,
  finish_image, find_dynamic, done, elf32_unmap, release,
}

abbrev pub header_words : List ℕ
header_words = 0x464c457f ∷ 0x10101 ∷ 0 ∷ 0 ∷ 0x280003 ∷ 1 ∷ 0 ∷ 52 ∷ 0 ∷ 0 ∷ 0x200034 ∷ 2 ∷ 0 ∷ []

abbrev pub segment_words : List ℕ
segment_words = 1 ∷ 0 ∷ 0 ∷ 0 ∷ 276 ∷ 276 ∷ 6 ∷ 512 ∷ 2 ∷ 116 ∷ 116 ∷ 0 ∷ 80 ∷ 80 ∷ 6 ∷ 4 ∷ []

abbrev pub dynamic_words : List ℕ
dynamic_words =
    5 ∷ 252 ∷ 10 ∷ 9 ∷ 14 ∷ 1 ∷ 6 ∷ 204 ∷ 11 ∷ 16 ∷ 4 ∷ 196 ∷ 17 ∷ 236 ∷ 18 ∷ 16 ∷ 19 ∷ 8 ∷ 0 ∷ 0
    ∷ []

-- The hash table's two counts, two symbols, R_ARM_RELATIVE at 268 and R_ARM_ABS32 of symbol 1 at 272,
-- the strings "", "lib" and "foo", and three data words.
abbrev pub content_words : List ℕ
content_words =
    1 ∷ 2 ∷ 0 ∷ 0 ∷ 0 ∷ 0 ∷ 5 ∷ 264 ∷ 0 ∷ 0x10010 ∷ 268 ∷ 23 ∷ 272 ∷ 258 ∷ 0x62696c00 ∷ 0x6f6f6600
    ∷ 0 ∷ 7 ∷ 16 ∷ 3 ∷ []

unfoldable pub module_bytes : Memory
unfolding byte_at
module_bytes = byte_at (header_words ++ (segment_words ++ (dynamic_words ++ content_words)))

abbrev pub host : Host
host = record {
  openable = true;
  size = some 276;
  mappable = true;
  content = module_bytes;
  page_size = 512;
  reserve = λ size. if ltb size 65536 then some 4096 else none;
  mprotect = λ _ _. true;
}

abbrev pub start : Loader
start = record {
  memory = λ _. 0;
  protections = [];
  descriptors = 3;
  file_mappings = 0;
  reservations = [];
  image = null_image;
}

-- The state that elf32_map leaves; the line names all that a test has to see through.
unfoldable pub loaded : Loader
unfolding elf32_map map_file check_file header_supported page_size_valid scan_segments check_extent
    scan_segment segment_end extend load_image reserve_image prepare_segment finish_image
    find_dynamic done elf32_unmap release range_in_file range_in_image align_down align_up
    protection call_mprotect protect_segments protect_segment set_segments_writable
    set_segment_writable parse_dynamic check_strings scan_strings scan_string dynamic_entries
    parse_relocation_info check_tables scan_tables scan_table read_segment read_entry read_symbol
    read_relocation read_header table indices copy_in zero_fill write32 c_string for_each
    module_bytes
loaded = (elf32_map host 1 start).0

abbrev pub info : DynamicInfo
info = record {
  symbols = 4300;
  symbol_count = 2;
  relocations = 4332;
  relocation_count = 2;
  plt_relocations = 0;
  plt_relocation_count = 0;
}

unfoldable pub mprotect : List Protect → Protect → Bool
mprotect _ _ = true

pub loaded-IsWide : IsWide loaded.image
unfolding loaded
loaded-IsWide = omega arith

pub info_lem : parse_relocation_info loaded.image loaded.memory ≡ ok info
unfolding loaded
info_lem = refl
