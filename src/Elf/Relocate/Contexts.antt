-- ===== src/Elf/Relocate/Contexts.antt =====
-- elf32_relocate acts on the resolver's context through the resolver alone.
use nfsmw_arm_linux.Prelude.{
  ℕ, ◌+◌, ◌*◌, ◌≡◌, ◌⊎◌, refl, inl, inr, Bool, some, none, List, arith, Result, ok, err,
  Result-cases, Option-cases, Keeps, for_each-Keeps, bind-Keeps, ltb, add32, if◌then◌else◌, subst,
  sym, ◌-◌, Option,
}
use nfsmw_arm_linux.Memory.{Memory, read32, c_string}
use nfsmw_arm_linux.Elf.Format.{
  Relocation, read_relocation, relocation_size, relocation_type, relocation_symbol_index, indices,
  Symbol, read_symbol, symbol_size, symbol_binding, bind_local,
}
use nfsmw_arm_linux.Elf.Types.{Image, DynamicInfo, Error, no_stats}
use nfsmw_arm_linux.Elf.Dynamic.{parse_relocation_info}
use nfsmw_arm_linux.Elf.Segments.{Protect, set_segments_writable}
use nfsmw_arm_linux.Elf.Relocate.{
  Name, Lookup, found, unresolved, resolve_undefined, relocation_symbol, Process, apply_symbolic,
  apply_relocation, apply_at, apply_relocations, relocate_tables, protect_after, relocate_image,
  elf32_relocate,
}

module _ {C : Type 0} (P : C → Type 0) (resolver : Name → ℕ → Memory → C → C × ℕ)
    (keeps : (name : Name) (binding : ℕ) (m : Memory) (c : C)
      → P c
      → P (resolver name binding m c).0) where
  module _ (image : Image) (info : DynamicInfo) where
    relocation_symbol-context :
        (index : ℕ) (m : Memory) (c : C)
        → P c
        → P (relocation_symbol image info index (some resolver) m c).0
    unfolding relocation_symbol resolve_undefined
    relocation_symbol-context index m c kept =
        let symbol = read_symbol m (info.symbols + index * symbol_size) in
        let binding =
          if ltb index info.symbol_count then symbol_binding symbol.info else bind_local in
        let pointer = image.string_table + symbol.name in
        let string = c_string m pointer (image.string_table_size - symbol.name) in
        elim (Option-cases string) [
          | inl absent ↦ subst P (sym (silent absent)) kept
          | inr (name, is) ↦ elim (asked name is) [
            | inl e ↦ subst P (sym e) kept
            | inr e ↦ subst P (sym e) (keeps name binding m c kept)
          ]
        ]
      where
        symbol : Symbol
        symbol = read_symbol m (info.symbols + index * symbol_size)

        string : Option Name
        string =
            c_string m (image.string_table + symbol.name) (image.string_table_size - symbol.name)

        after : C
        after = (relocation_symbol image info index (some resolver) m c).0

        silent : string ≡ none → after ≡ c
        silent absent = ground (arith, absent)

        asked :
            (name : Name)
            → string ≡ some name
            → (after ≡ c)
              ⊎ (after
                  ≡ (resolver name
                      (if ltb index info.symbol_count
                        then symbol_binding symbol.info
                        else bind_local)
                      m
                      c).0)
        asked name is = ground (arith, is)

    ContextKept : Process C → Type 0
    ContextKept p = P p.context

    apply_symbolic-context :
        (type index target addend : ℕ)
        → Keeps ContextKept (apply_symbolic image info (some resolver) type index target addend)
    unfolding apply_symbolic ContextKept
    apply_symbolic-context type index target addend p kept =
        subst P
          (sym (go (relocation_symbol image info index (some resolver) p.memory p.context).1 refl))
          (relocation_symbol-context index p.memory p.context kept)
      where
        go :
            (r : Result Error Lookup)
            → (relocation_symbol image info index (some resolver) p.memory p.context).1 ≡ r
            → (apply_symbolic image info (some resolver) type index target addend p).0.context
              ≡ (relocation_symbol image info index (some resolver) p.memory p.context).0
        go (err e) is = ground (arith, is)
        go (ok (unresolved name)) is = ground (arith, is)
        go (ok (found value)) is = ground (arith, is)

    apply_relocation-context :
        (r : Relocation) → Keeps ContextKept (apply_relocation image info (some resolver) r)
    unfolding apply_relocation ContextKept
    apply_relocation-context r p kept = elim apart [
      | inl e ↦ subst P (sym e) kept
      | inr e ↦ subst P (sym e) (
          apply_symbolic-context (relocation_type r.info) (relocation_symbol_index r.info)
            (add32 image.load_bias r.offset) (read32 p.memory (add32 image.load_bias r.offset)) p
            kept)
    ]
      where
        apart :
            ((apply_relocation image info (some resolver) r p).0.context ≡ p.context)
            ⊎ ((apply_relocation image info (some resolver) r p).0.context
                ≡ (apply_symbolic image info
                    (some resolver)
                    (relocation_type r.info)
                    (relocation_symbol_index r.info)
                    (add32 image.load_bias r.offset)
                    (read32 p.memory (add32 image.load_bias r.offset))
                    p).0.context)
        apart = ground arith

    apply_relocations-context :
        (relocations count : ℕ)
        → Keeps ContextKept (apply_relocations image info (some resolver) relocations count)
    unfolding apply_relocations apply_at
    apply_relocations-context relocations count =
        for_each-Keeps ContextKept (indices 0 count)
          (apply_at image info (some resolver) relocations)
          (λ index p.
            apply_relocation-context
              (read_relocation p.memory (relocations + index * relocation_size)) p)

    relocate_tables-context : Keeps ContextKept (relocate_tables image info (some resolver))
    unfolding relocate_tables
    relocate_tables-context =
        bind-Keeps ContextKept
          (apply_relocations image info (some resolver) info.relocations info.relocation_count)
          (λ _.
            apply_relocations image info (some resolver) info.plt_relocations
              info.plt_relocation_count)
          (apply_relocations-context info.relocations info.relocation_count)
          (λ _. apply_relocations-context info.plt_relocations info.plt_relocation_count)

  module _ (mprotect : List Protect → Protect → Bool) (image : Image) where
    -- What every lookup of the resolver keeps of its context, a relocation keeps.
    pub elf32_relocate-context :
        (p : Process C)
        → P p.context
        → P (elf32_relocate mprotect (some image) (some resolver) p).0.context
    unfolding elf32_relocate relocate_image protect_after ContextKept
    elf32_relocate-context p kept = elim (Result-cases (parse_relocation_info image p.memory)) [
      | inr (e, is) ↦ subst P (sym (refused e is)) kept
      | inl (info, is) ↦ elim (ran info is) [
        | inl e ↦ subst P (sym e) kept
        | inr e ↦ subst P (sym e) (relocate_tables-context image info (begun info) kept)
      ]
    ]
      where
        after : C
        after = (elf32_relocate mprotect (some image) (some resolver) p).0.context

        begun : DynamicInfo → Process C
        begun info = record p {
          stats = no_stats;
          first_unresolved = 0;
          protections = (set_segments_writable mprotect image p.memory p.protections).0;
        }

        refused : (e : Error) → parse_relocation_info image p.memory ≡ err e → after ≡ p.context
        refused e is = ground (arith, is)

        ran :
            (info : DynamicInfo)
            → parse_relocation_info image p.memory ≡ ok info
            → (after ≡ p.context)
              ⊎ (after ≡ (relocate_tables image info (some resolver) (begun info)).0.context)
        ran info is = ground (arith, is)
