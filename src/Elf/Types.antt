-- ===== src/Elf/Types.antt =====
-- `struct elf32_image`, `struct elf32_relocation_stats`, `struct elf32_dynamic_info`, and the
-- messages that the loader reports.
use nfsmw_arm_linux.Prelude.{ℕ}

-- Pointers are addresses; NULL is 0.
pub record Image : Type 0 where
  pub mapping : ℕ
  pub mapping_size : ℕ
  pub load_bias : ℕ
  pub virtual_base : ℕ
  pub page_size : ℕ
  pub program_headers : ℕ
  pub program_header_count : ℕ
  pub dynamic : ℕ
  pub dynamic_count : ℕ
  pub string_table : ℕ
  pub string_table_size : ℕ
  pub soname : ℕ
  pub path : ℕ

-- `memset(image, 0, sizeof(*image))`.
abbrev pub null_image : Image
null_image = record {
  mapping = 0;
  mapping_size = 0;
  load_bias = 0;
  virtual_base = 0;
  page_size = 0;
  program_headers = 0;
  program_header_count = 0;
  dynamic = 0;
  dynamic_count = 0;
  string_table = 0;
  string_table_size = 0;
  soname = 0;
  path = 0;
}

pub record RelocationStats : Type 0 where
  pub relative : ℕ
  pub absolute : ℕ
  pub global_data : ℕ
  pub jump_slots : ℕ
  pub unresolved : ℕ

abbrev pub no_stats : RelocationStats
no_stats = record { relative = 0; absolute = 0; global_data = 0; jump_slots = 0; unresolved = 0 }

pub record DynamicInfo : Type 0 where
  pub symbols : ℕ
  pub symbol_count : ℕ
  pub relocations : ℕ
  pub relocation_count : ℕ
  pub plt_relocations : ℕ
  pub plt_relocation_count : ℕ

pub data Error : Type 0 where
  open_failed stat_failed too_large map_input_failed truncated_header unsupported_header : Error
  invalid_program_headers invalid_page_size invalid_segment no_loadable_image reserve_failed : Error
  prepare_failed headers_unavailable invalid_dynamic_table no_dynamic : Error
  unexpected_rela unterminated_dynamic invalid_string_table invalid_soname : Error
  protection_overflow protect_failed writable_overflow make_writable_failed : Error
  invalid_symbol_metadata invalid_symbol_count invalid_rel_table invalid_plt_table : Error
  symbol_index_out_of_range invalid_symbol_name unterminated_symbol_name : Error
  ifunc_unsupported tls_unsupported target_outside unsupported_type invalid_arguments : Error
