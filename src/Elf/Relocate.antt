-- ===== src/Elf/Relocate.antt =====
-- relocation_symbol, apply_relocations, elf32_relocate and elf32_find_export of elf32_loader.c.
pub mod Confinement
pub mod Formulas
pub mod Counts
pub mod Exports
pub mod Contexts
-- `__builtin___clear_cache` and the log line of an unresolved symbol have no effect here.
use nfsmw_arm_linux.Prelude.{
  ℕ, ◌+◌, ◌-◌, ◌*◌, Bool, true, false, ◌||◌, ◌&&◌, not, Option, none, some, List, [], ◌∷◌,
  if◌then◌else◌, ◌==◌, ltb, leb, add32, Result, ok, err, Run, ◌>>◌, for_each,
}
use nfsmw_arm_linux.Memory.{Memory, read32, write32, c_string}
use nfsmw_arm_linux.Elf.Format.{
  Symbol, read_symbol, symbol_size, symbol_binding, symbol_type, Relocation, read_relocation,
  relocation_size, relocation_symbol_index, relocation_type, indices, table, bind_local,
  bind_global, bind_weak, undefined_section, absolute_section, type_tls, type_ifunc, arm_abs32,
  arm_glob_dat, arm_jump_slot, arm_relative,
}
use nfsmw_arm_linux.Elf.Types.{
  Image, DynamicInfo, RelocationStats, no_stats, Error, symbol_index_out_of_range,
  invalid_symbol_name, unterminated_symbol_name, ifunc_unsupported, tls_unsupported, target_outside,
  unsupported_type, invalid_arguments,
}
use nfsmw_arm_linux.Elf.Ranges.{range_in_image}
use nfsmw_arm_linux.Elf.Dynamic.{parse_relocation_info}
use nfsmw_arm_linux.Elf.Segments.{Protect, protect_segments, set_segments_writable}

-- The bytes of a symbol's name.
abbrev pub Name : Type 0
Name = List ℕ

-- What relocation_symbol returns: 0 with a value, or 1 with the name's address.
pub data Lookup : Type 0 where
  found : ℕ → Lookup
  unresolved : ℕ → Lookup

-- `elf32_symbol_resolver`, which reads the memory and acts on a context; NULL is `none`.
abbrev pub Resolver : Type 0 → Type 0
Resolver C = Option (Name → ℕ → Memory → C → C × ℕ)

-- A defined symbol's address.
unfoldable pub symbol_value : Image → Symbol → ℕ
symbol_value image symbol =
    if symbol.section == absolute_section then symbol.value else add32 image.load_bias symbol.value

module _ {C : Type 0} where
  -- An undefined symbol: ask the resolver, then accept a weak one as 0.
  unfoldable pub resolve_undefined :
      Resolver C → Name → (binding pointer : ℕ) → Memory → C → C × Lookup
  resolve_undefined none name binding pointer m context =
      (context, if binding == bind_weak then found 0 else unresolved pointer)
  resolve_undefined (some resolver) name binding pointer m context =
      let (context', value) = resolver name binding m context in
      (
        context',
        if not (value == 0)
            then found value
            else if binding == bind_weak
            then found 0
            else unresolved pointer,
      )

  unfoldable pub relocation_symbol :
      Image → DynamicInfo → ℕ → Resolver C → Memory → C → C × Result Error Lookup
  relocation_symbol image info symbol_index resolver m context =
      let symbol = read_symbol m (info.symbols + symbol_index * symbol_size) in
      let binding =
        if ltb symbol_index info.symbol_count then symbol_binding symbol.info else bind_local in
      let pointer = image.string_table + symbol.name in
      if leb info.symbol_count symbol_index
      then (context, err symbol_index_out_of_range)
      else if leb image.string_table_size symbol.name
      then (context, err invalid_symbol_name)
      else elim (c_string m pointer (image.string_table_size - symbol.name)) [
        | none ↦ (context, err unterminated_symbol_name)
        | some name ↦
            let (context', value) = resolve_undefined resolver name binding pointer m context in
            if not (symbol.section == undefined_section)
            then if symbol_type symbol.info == type_ifunc
              then (context, err ifunc_unsupported)
              else if symbol_type symbol.info == type_tls
              then (context, err tls_unsupported)
              else (context, ok (found (symbol_value image symbol)))
            else (context', ok value)
      ]

-- What apply_relocations changes. NULL in `first_unresolved` is 0.
pub record Process (C : Type 0) : Type 0 where
  pub memory : Memory
  pub protections : List Protect
  pub stats : RelocationStats
  pub first_unresolved : ℕ
  pub context : C

abbrev pub is_symbolic : ℕ → Bool
is_symbolic type = type == arm_abs32 || (type == arm_glob_dat || type == arm_jump_slot)

unfoldable pub count_symbolic : ℕ → RelocationStats → RelocationStats
count_symbolic type stats =
    if type == arm_abs32
    then record stats { absolute = stats.absolute + 1 }
    else if type == arm_glob_dat
    then record stats { global_data = stats.global_data + 1 }
    else record stats { jump_slots = stats.jump_slots + 1 }

unfoldable pub count_unresolved : RelocationStats → RelocationStats
count_unresolved stats = record stats { unresolved = stats.unresolved + 1 }

unfoldable pub count_relative : RelocationStats → RelocationStats
count_relative stats = record stats { relative = stats.relative + 1 }

module _ {C : Type 0} (image : Image) (info : DynamicInfo) (resolver : Resolver C) where
  -- The branch of a relocation that names a symbol.
  unfoldable pub apply_symbolic :
      (type symbol_index target addend : ℕ) → Run Error (Process C) (Unit {0})
  apply_symbolic type symbol_index target addend p =
      let stats = count_symbolic type p.stats in
      let (context, result) =
        relocation_symbol image info symbol_index resolver p.memory p.context in
      elim result [
        | err e ↦ (record p { stats = stats; context = context }, err e)
        | ok (unresolved pointer) ↦ (
          record p {
            stats = count_unresolved stats;
            first_unresolved = if p.first_unresolved == 0 then pointer else p.first_unresolved;
            context = context;
          },
          ok tt,
        )
        | ok (found value) ↦ (
          record p {
            memory =
                write32 p.memory target (if type == arm_abs32 then add32 value addend else value);
            stats = stats;
            context = context;
          },
          ok tt,
        )
      ]

  -- One round of the loop.
  unfoldable pub apply_relocation : Relocation → Run Error (Process C) (Unit {0})
  apply_relocation relocation p =
      let type = relocation_type relocation.info in
      let target = add32 image.load_bias relocation.offset in
      let addend = read32 p.memory target in
      if not (range_in_image image target 4)
      then (p, err target_outside)
      else if type == arm_relative
      then (
        record p {
          memory = write32 p.memory target (add32 image.load_bias addend);
          stats = count_relative p.stats;
        },
        ok tt,
      )
      else if is_symbolic type
      then apply_symbolic type (relocation_symbol_index relocation.info) target addend p
      else (p, err unsupported_type)

  -- Each round reads its relocation from the memory that the earlier rounds left.
  unfoldable pub apply_at : (relocations index : ℕ) → Run Error (Process C) (Unit {0})
  apply_at relocations index p =
      apply_relocation (read_relocation p.memory (relocations + index * relocation_size)) p

  unfoldable pub apply_relocations : (relocations count : ℕ) → Run Error (Process C) (Unit {0})
  apply_relocations relocations count = for_each (indices 0 count) (apply_at relocations)

  -- Both tables, in order.
  unfoldable pub relocate_tables : Run Error (Process C) (Unit {0})
  relocate_tables = do
    apply_relocations info.relocations info.relocation_count
    apply_relocations info.plt_relocations info.plt_relocation_count

module _ {C : Type 0} (mprotect : List Protect → Protect → Bool) where
  -- The label `protect`: the protections are restored on both paths, and the first failure is
  -- returned only if that succeeds (the message of the last failure stands in the buffer).
  unfoldable pub protect_after :
      Image → Process C × Result Error (Unit {0}) → Process C × Result Error (Unit {0})
  protect_after image (p, result) =
      let (log, restored) = protect_segments mprotect image p.memory p.protections in
      (record p { protections = log }, elim restored [ ok _ ↦ result | err e ↦ err e ])

  unfoldable pub relocate_image : Image → Resolver C → Run Error (Process C) (Unit {0})
  relocate_image image resolver p = elim (parse_relocation_info image p.memory) [
    | err e ↦ (p, err e)
    | ok info ↦
        let (log, writable) = set_segments_writable mprotect image p.memory p.protections in
        elim writable [
          | err e ↦ (record p { protections = log }, err e)
          | ok _ ↦
              protect_after image
                (relocate_tables image info resolver (record p { protections = log }))
        ]
  ]

  unfoldable pub elf32_relocate : Option Image → Resolver C → Run Error (Process C) (Unit {0})
  elf32_relocate none resolver p = (p, err invalid_arguments)
  elf32_relocate (some image) resolver p =
      if image.mapping == 0
      then (p, err invalid_arguments)
      else relocate_image image resolver (record p { stats = no_stats; first_unresolved = 0 })

-- Equality of C strings.
unfoldable pub same_name : Name → Name → Bool
same_name [] [] = true
same_name [] (y ∷ ys) = false
same_name (x ∷ xs) [] = false
same_name (x ∷ xs) (y ∷ ys) = x == y && same_name xs ys

-- The tests of the loop in elf32_find_export that do not `continue`.
unfoldable pub exports : Image → Symbol → Memory → Name → Bool
exports image symbol m name =
    let binding = symbol_binding symbol.info in
    if symbol.section == undefined_section
      || (not (binding == bind_global) && not (binding == bind_weak)
          || leb image.string_table_size symbol.name)
    then false
    else elim (c_string m (image.string_table + symbol.name)
        (image.string_table_size - symbol.name)) [
          | none ↦ false
          | some candidate ↦ same_name candidate name
        ]

-- The symbols of the loop, in order.
unfoldable pub find_symbol : Image → List Symbol → Memory → Name → ℕ
find_symbol image [] m name = 0
find_symbol image (symbol ∷ symbols) m name =
    let rest = find_symbol image symbols m name in
    if exports image symbol m name
    then if symbol_type symbol.info == type_tls then 0 else symbol_value image symbol
    else rest

-- `elf32_find_export(image, name)`; NULL arguments are `none`.
unfoldable pub elf32_find_export : Option Image → Option Name → Memory → ℕ
elf32_find_export none name m = 0
elf32_find_export (some image) none m = 0
elf32_find_export (some image) (some name) m = elim (parse_relocation_info image m) [
  | err e ↦ 0
  | ok info ↦
      find_symbol image (table read_symbol symbol_size m info.symbols info.symbol_count) m name
]
