-- ===== src/Lifecycle.antt =====
-- nfsmw_run_initializers and nfsmw_run_finalizers of runtime/src/initializer_trace.c. The module's
-- functions are `execute`: what a call at an address does to the memory. Log lines have no effect here.
pub mod Order
pub mod Inside
mod Tests
use nfsmw_arm_linux.Prelude.{
  ℕ, zero, suc, ◌+◌, ◌*◌, ◌/◌, ◌%◌, ◌-◌, Bool, true, false, ◌||◌, ◌&&◌, not, Option, none, some,
  List, [], ◌∷◌, ◌++◌, if◌then◌else◌, ◌==◌, leb, add32, word_max, bit_and, ok, err, Run, ◌>>◌,
  ◌>>=◌, pure, throw, for_each,
}
use nfsmw_arm_linux.Memory.{Memory, read32}
use nfsmw_arm_linux.Elf.Format.{
  Entry, indices, dt_null, dt_init, dt_init_array, dt_init_arraysz, dt_fini, dt_fini_array,
  dt_fini_arraysz,
}
use nfsmw_arm_linux.Elf.Types.{Image}
use nfsmw_arm_linux.Elf.Dynamic.{dynamic_entries}

pub data Error : Type 0 where
  invalid_arguments outside_image invalid_array : Error

-- The memory, the addresses called so far, oldest first, and the counter `called`.
pub record Process : Type 0 where
  pub memory : Memory
  pub calls : List ℕ
  pub called : ℕ

-- The tags that tell the two functions' scans apart.
pub record Tags : Type 0 where
  pub function_tag : ℕ
  pub array_tag : ℕ
  pub size_tag : ℕ

abbrev pub init_tags : Tags
init_tags = record { function_tag = dt_init; array_tag = dt_init_array; size_tag = dt_init_arraysz }

abbrev pub fini_tags : Tags
fini_tags = record { function_tag = dt_fini; array_tag = dt_fini_array; size_tag = dt_fini_arraysz }

-- The locals that the scan fills in.
pub record Scan : Type 0 where
  pub legacy : ℕ
  pub array_address : ℕ
  pub array_size : ℕ

abbrev pub no_scan : Scan
no_scan = record { legacy = 0; array_address = 0; array_size = 0 }

unfoldable pub scan_entry : Tags → Image → Entry → Scan → Scan
scan_entry tags image entry scan =
    let pointer = add32 image.load_bias entry.value in
    if entry.tag == tags.function_tag
    then record scan { legacy = pointer }
    else if entry.tag == tags.array_tag
    then record scan { array_address = pointer }
    else if entry.tag == tags.size_tag
    then record scan { array_size = entry.value }
    else scan

unfoldable pub scan_entries : Tags → Image → List Entry → Scan → Scan
scan_entries tags image [] scan = scan
scan_entries tags image (entry ∷ entries) scan =
    let rest = scan_entries tags image entries (scan_entry tags image entry scan) in
    if entry.tag == dt_null then scan else rest

unfoldable pub scan_dynamic : Tags → Image → Memory → Scan
scan_dynamic tags image m = scan_entries tags image (dynamic_entries image m) no_scan

unfoldable pub in_image : Image → ℕ → ℕ → Bool
in_image image address length =
    let start = image.mapping in
    let end = add32 start image.mapping_size in
    leb start end && (leb start address && (leb address end && leb length (end - address)))

-- 0 and -1 mark no function.
unfoldable pub runs : ℕ → Bool
runs address = not (address == 0 || address == word_max)

-- `count - 1`, …, 0.
unfoldable pub countdown : ℕ → List ℕ
countdown zero = []
countdown (suc count) = count ∷ countdown count

module _ (execute : ℕ → Memory → Memory) (image : Image) where
  -- An odd address is a Thumb function; the lowest bit is no part of its place.
  unfoldable pub call_lifecycle_function : ℕ → Run Error Process (Unit {0})
  call_lifecycle_function address p =
      if not (runs address)
      then (p, ok tt)
      else if not (in_image image (bit_and address (word_max - 1)) 1)
      then (p, err outside_image)
      else (
        record {
          memory = execute address p.memory;
          calls = p.calls ++ (address ∷ []);
          called = add32 p.called 1;
        },
        ok tt,
      )

  -- The word is read when its turn comes.
  unfoldable pub call_at : (array_address index : ℕ) → Run Error Process (Unit {0})
  call_at array_address index p =
      call_lifecycle_function (read32 p.memory (array_address + index * 4)) p

  unfoldable pub call_legacy : Scan → Run Error Process (Unit {0})
  call_legacy scan = if not (scan.legacy == 0) then call_lifecycle_function scan.legacy else pure tt

  -- The array's entries in a given order, if the array is not empty.
  unfoldable pub call_array : (ℕ → List ℕ) → Scan → Run Error Process (Unit {0})
  call_array order scan =
      if scan.array_size == 0
      then pure tt
      else if scan.array_address == 0
          || (not (scan.array_size % 4 == 0)
              || not (in_image image scan.array_address scan.array_size))
      then throw invalid_array
      else for_each (order (scan.array_size / 4)) (call_at scan.array_address)

-- NULL for the image is `none`, and `counted` tells whether `called` is not NULL.
unfoldable pub nfsmw_run_initializers :
    (ℕ → Memory → Memory) → Option Image → (counted : Bool) → Run Error Process (Unit {0})
nfsmw_run_initializers execute none counted p = (p, err invalid_arguments)
nfsmw_run_initializers execute (some image) counted p =
    let scan = scan_dynamic init_tags image p.memory in
    if image.mapping == 0 || not counted
    then (p, err invalid_arguments)
    else (call_legacy execute image scan >> call_array execute image (indices 0) scan) p

unfoldable pub nfsmw_run_finalizers :
    (ℕ → Memory → Memory) → Option Image → (counted : Bool) → Run Error Process (Unit {0})
nfsmw_run_finalizers execute none counted p = (p, err invalid_arguments)
nfsmw_run_finalizers execute (some image) counted p =
    let scan = scan_dynamic fini_tags image p.memory in
    if image.mapping == 0 || not counted
    then (p, err invalid_arguments)
    else (call_array execute image countdown scan >> call_legacy execute image scan) p
