-- ===== src/Probe/Symbols.antt =====
-- The census of symbol_probe.c. What it prints has no effect here.
pub mod Counts
use nfsmw_arm_linux.Prelude.{
  ℕ, ◌+◌, ◌-◌, ◌*◌, ◌/◌, Bool, true, false, ◌||◌, ◌&&◌, not, Option, none, some, List, [], ◌∷◌,
  ◌++◌, if◌then◌else◌, ◌==◌, ltb, leb, length, add32, word_max, Bytes, same_bytes, Result, ok, err,
}
use nfsmw_arm_linux.Memory.{Memory, read32, c_string}
use nfsmw_arm_linux.Elf.Format.{
  Entry, Symbol, read_symbol, symbol_size, symbol_binding, table, bind_global, bind_weak,
  undefined_section, dt_null, dt_hash, dt_symtab, dt_syment,
}
use nfsmw_arm_linux.Elf.Types.{Image}
use nfsmw_arm_linux.Elf.Ranges.{range_in_image}
use nfsmw_arm_linux.Elf.Dynamic.{dynamic_entries}
use nfsmw_arm_linux.Compat.Resolve.{nfsmw_compat_resolve}
use nfsmw_arm_linux.Probe.Names.{
  in_list, nfsmw_symbol_requires_softfp, nfsmw_symbol_requires_bionic_bridge,
}
use nfsmw_arm_linux.Probe.Hosts.{
  Linker, Event, opened, close_all, candidates, host_capacity, search_handles,
}

-- The messages of the probe.
pub data ProbeError : Type 0 where
  invalid_probe_arguments no_symbol_table invalid_symbol_total : ProbeError

-- The locals of dynamic_symbols.
pub record SymbolScan : Type 0 where
  pub symbol_address : ℕ
  pub hash_address : ℕ
  pub entry_size : ℕ

abbrev pub no_symbols : SymbolScan
no_symbols = record { symbol_address = 0; hash_address = 0; entry_size = 0 }

unfoldable pub scan_symbols : Image → List Entry → SymbolScan → SymbolScan
scan_symbols image [] scan = scan
scan_symbols image (entry ∷ entries) scan =
    let next =
      if entry.tag == dt_symtab
      then record scan { symbol_address = add32 image.load_bias entry.value }
      else if entry.tag == dt_syment
      then record scan { entry_size = entry.value }
      else if entry.tag == dt_hash
      then record scan { hash_address = add32 image.load_bias entry.value }
      else scan in
    let rest = scan_symbols image entries next in if entry.tag == dt_null then scan else rest

unfoldable pub check_symbols : Image → Memory → SymbolScan → Result ProbeError (List Symbol)
check_symbols image m scan =
    let count = read32 m (scan.hash_address + 4) in
    if scan.symbol_address == 0
      || (not (scan.entry_size == symbol_size)
          || (scan.hash_address == 0 || not (range_in_image image scan.hash_address 8)))
    then err no_symbol_table
    else if count == 0
        || (ltb (word_max / symbol_size) count
            || not (range_in_image image scan.symbol_address (count * symbol_size)))
    then err invalid_symbol_total
    else ok (table read_symbol symbol_size m scan.symbol_address count)

unfoldable pub dynamic_symbols : Image → Memory → Result ProbeError (List Symbol)
dynamic_symbols image m =
    check_symbols image m (scan_symbols image (dynamic_entries image m) no_symbols)

unfoldable pub valid_name : Image → Symbol → Memory → Option Bytes
valid_name image symbol m =
    if leb image.string_table_size symbol.name
    then none
    else c_string m (image.string_table + symbol.name) (image.string_table_size - symbol.name)

-- The tests of the loops that do not `continue`: the binding, and the name.
unfoldable pub bound_name : Image → Symbol → Memory → Option Bytes
bound_name image symbol m =
    let binding = symbol_binding symbol.info in
    if not (binding == bind_global) && not (binding == bind_weak)
    then none
    else valid_name image symbol m

unfoldable pub symbol_exports : Image → Symbol → Memory → (name : Bytes) → Bool
symbol_exports image symbol m name =
    if symbol.section == undefined_section then false else elim (bound_name image symbol m) [
      | none ↦ false
      | some candidate ↦ same_bytes candidate name
    ]

unfoldable pub symbols_export : Image → List Symbol → Memory → (name : Bytes) → Bool
symbols_export image [] m name = false
symbols_export image (symbol ∷ symbols) m name =
    symbol_exports image symbol m name || symbols_export image symbols m name

unfoldable pub image_exports : Image → Memory → (name : Bytes) → Bool
image_exports image m name = elim (dynamic_symbols image m) [
  | err e ↦ false
  | ok symbols ↦ symbols_export image symbols m name
]

unfoldable pub any_image_exports : List Image → Memory → (name : Bytes) → Bool
any_image_exports [] m name = false
any_image_exports (image ∷ images) m name =
    image_exports image m name || any_image_exports images m name

-- `struct name_report`: the values up to its count.
pub record NameReport : Type 0 where
  pub values : List Bytes
  pub dropped : ℕ

abbrev pub empty_report : NameReport
empty_report = record { values = []; dropped = 0 }

abbrev pub report_capacity : ℕ
report_capacity = 96

unfoldable pub report_add : (name : Bytes) → NameReport → NameReport
report_add name report =
    if in_list name report.values
    then report
    else if ltb (length report.values) report_capacity
    then record report { values = report.values ++ (name ∷ []) }
    else record report { dropped = report.dropped + 1 }

-- `struct nfsmw_symbol_probe_stats`.
pub record SymbolStats : Type 0 where
  pub imports : ℕ
  pub guest_provided : ℕ
  pub softfp_thunks : ℕ
  pub compat_bridges : ℕ
  pub host_candidates : ℕ
  pub abi_bridges_required : ℕ
  pub missing : ℕ
  pub weak_unresolved : ℕ

abbrev pub no_symbol_stats : SymbolStats
no_symbol_stats = record {
  imports = 0;
  guest_provided = 0;
  softfp_thunks = 0;
  compat_bridges = 0;
  host_candidates = 0;
  abi_bridges_required = 0;
  missing = 0;
  weak_unresolved = 0;
}

-- The statistics and the two reports.
pub record Census : Type 0 where
  pub stats : SymbolStats
  pub bridge_report : NameReport
  pub missing_report : NameReport

abbrev pub no_census : Census
no_census = record {
  stats = no_symbol_stats;
  bridge_report = empty_report;
  missing_report = empty_report;
}

module _ (linker : Linker) where
  unfoldable pub open_handles : List Bytes → List ℕ × List Event → List ℕ × List Event
  open_handles [] (handles, log) = (handles, log)
  open_handles (candidate ∷ rest) (handles, log) =
      let handle = linker.dlopen candidate in
      let more = open_handles rest (
        if not (handle == 0)
        then (handles ++ (handle ∷ []), opened handle ∷ log)
        else (handles, log)) in
      if length handles == host_capacity then (handles, log) else more

  unfoldable pub open_host_handles : List Event → List ℕ × List Event
  open_host_handles log = open_handles candidates ([], log)

  unfoldable pub host_exports : (handles : List ℕ) → (name : Bytes) → Bool
  host_exports handles name =
      not (linker.dlsym 0 name == 0) || not (search_handles linker handles name == 0)

  module _ (address : Bytes → ℕ) (images : List Image) (handles : List ℕ) (m : Memory) where
    -- The provider of one import.
    unfoldable pub count_import : (name : Bytes) (binding : ℕ) → Census → Census
    count_import name binding census =
        let stats = census.stats in
        let counted = record stats { imports = stats.imports + 1 } in
        if any_image_exports images m name
        then record census { stats = record counted { guest_provided = stats.guest_provided + 1 } }
        else if nfsmw_symbol_requires_softfp name
        then record census { stats = record counted { softfp_thunks = stats.softfp_thunks + 1 } }
        else if not (nfsmw_compat_resolve address (some name) == 0)
        then record census { stats = record counted { compat_bridges = stats.compat_bridges + 1 } }
        else if nfsmw_symbol_requires_bionic_bridge name
        then record census {
          stats = record counted { abi_bridges_required = stats.abi_bridges_required + 1 };
          bridge_report = report_add name census.bridge_report;
        }
        else if host_exports handles name
        then record census {
          stats = record counted { host_candidates = stats.host_candidates + 1 };
        }
        else if binding == bind_weak
        then record census {
          stats = record counted { weak_unresolved = stats.weak_unresolved + 1 };
        }
        else record census {
          stats = record counted { missing = stats.missing + 1 };
          missing_report = report_add name census.missing_report;
        }

    unfoldable pub count_symbol : Image → Symbol → Census → Census
    count_symbol image symbol census =
        if not (symbol.section == undefined_section) || symbol.name == 0
        then census
        else elim (bound_name image symbol m) [
          | none ↦ census
          | some name ↦ count_import name (symbol_binding symbol.info) census
        ]

    unfoldable pub count_symbols : Image → List Symbol → Census → Census
    count_symbols image [] census = census
    count_symbols image (symbol ∷ symbols) census =
        count_symbols image symbols (count_symbol image symbol census)

    -- The images in order, up to one without a symbol table.
    unfoldable pub count_images : List Image → Census → Census × Result ProbeError (Unit {0})
    count_images [] census = (census, ok tt)
    count_images (image ∷ rest) census = elim (dynamic_symbols image m) [
      | err e ↦ (census, err e)
      | ok symbols ↦ count_images rest (count_symbols image symbols census)
    ]

  -- The handles are closed on both paths. No images stands for NULL too; then nothing is counted.
  unfoldable pub nfsmw_probe_symbols :
      (address : Bytes → ℕ)
      → List Image
      → Memory
      → Census × List Event
      → (Census × List Event) × Result ProbeError (Unit {0})
  nfsmw_probe_symbols address [] m (census, log) = ((census, log), err invalid_probe_arguments)
  nfsmw_probe_symbols address (image ∷ images) m (census, log) =
      let (handles, log') = open_host_handles log in
      let (census', result) =
        count_images address (image ∷ images) handles m (image ∷ images) no_census in
      ((census', close_all handles log'), result)
