-- ===== src/Elf/Relocate/Exports.antt =====
-- elf32_find_export returns the first defined global or weak symbol of that name.
use nfsmw_arm_linux.Prelude.{
  ℕ, zero, suc, ◌+◌, ◌-◌, not, ◌&&◌, ◌%◌, ◌/◌, ◌^◌, ◌<◌, ◌≡◌, ◌≢◌, ◌⊎◌, refl, ◌∙◌, sym, ap, subst,
  inl, inr, true, false, some, List, [], ◌∷◌, ◌++◌, arith, All, ok, ◌==◌, length, Bool-cases,
  Option-cases,
}
use nfsmw_arm_linux.Memory.{Memory, c_string}
use nfsmw_arm_linux.Elf.Format.{Symbol, read_symbol, symbol_size, table}
use nfsmw_arm_linux.Elf.Types.{Image, DynamicInfo}
use nfsmw_arm_linux.Elf.Dynamic.{parse_relocation_info}
use nfsmw_arm_linux.Elf.Relocate.{
  Name, symbol_value, same_name, exports, find_symbol, elf32_find_export,
}

-- From an address on, the memory has the bytes of a name, none of them NUL, and then a NUL.
abbrev pub Spells : Memory → ℕ → Name → Type 0
Spells m a [] = m a ≡ 0
Spells m a (x ∷ xs) = (x ≢ 0) × (m a ≡ x) × Spells m (a + 1) xs

c_string-Spells :
    (m : Memory) (a n : ℕ) (cs : Name) → c_string m a n ≡ some cs → Spells m a cs × (length cs < n)
unfolding c_string
c_string-Spells m a zero cs h = absurd (cc h)
c_string-Spells m a (suc n) cs h = elim (Bool-cases (m a == 0)) [
  | inl e ↦
      let is : [] ≡ cs = ground (arith, e) in
      subst (λ l. Spells m a l × (length l < suc n)) is (ground (arith, e), omega arith)
  | inr e ↦ elim (Option-cases (c_string m (a + 1) n)) [
    | inl e' ↦ absurd (ground (arith, e, e'))
    | inr (rest, e') ↦
        let later = c_string-Spells m (a + 1) n rest e' in
        let is : m a ∷ rest ≡ cs = ground (arith, e, e') in
        subst (λ l. Spells m a l × (length l < suc n)) is
          ((ground (arith, e), refl, later.0), omega (arith, later.1))
  ]
]

Spells-c_string :
    (m : Memory) (a n : ℕ) (cs : Name) → Spells m a cs → length cs < n → c_string m a n ≡ some cs
unfolding c_string
Spells-c_string m a zero cs h lt = absurd (omega (arith, lt))
Spells-c_string m a (suc n) [] h lt = ground (arith, h)
Spells-c_string m a (suc n) (x ∷ xs) h lt =
    ground (arith, h.0, h.1, Spells-c_string m (a + 1) n xs h.2)

eq_of_same_name : (xs ys : Name) → same_name xs ys ≡ true → xs ≡ ys
unfolding same_name
eq_of_same_name [] [] h = refl
eq_of_same_name [] (y ∷ ys) h = absurd (cc h)
eq_of_same_name (x ∷ xs) [] h = absurd (cc h)
eq_of_same_name (x ∷ xs) (y ∷ ys) h = ground (arith, eq_of_same_name xs ys)

same_name_refl : (xs : Name) → same_name xs xs ≡ true
unfolding same_name
same_name_refl [] = refl
same_name_refl (x ∷ xs) = ground (arith, same_name_refl xs)

-- The symbol is defined, global (1) or weak (2), and its name in the string table, with its NUL, is
-- the given one.
pub record IsExport (image : Image) (m : Memory) (name : Name) (s : Symbol) : Type 0 where
  pub defined : s.section ≢ 0
  pub bound : (s.info / 16 ≡ 1) ⊎ (s.info / 16 ≡ 2)
  pub inside : s.name + length name < image.string_table_size
  pub spelled : Spells m (image.string_table + s.name) name

-- The address that ELF gives a symbol: none (0) if it is thread-local (6), the value itself if it is
-- absolute (0xfff1), and else the value from the image's bias on, in 32 bits.
abbrev pub IsAddress : Image → Symbol → ℕ → Type 0
IsAddress image s address =
    ((s.info % 16 ≡ 6) × (address ≡ 0))
    ⊎ (((s.info % 16 ≢ 6) × (s.section ≡ 0xfff1) × (address ≡ s.value))
        ⊎ ((s.info % 16 ≢ 6)
            × (s.section ≢ 0xfff1)
            × (address ≡ (image.load_bias + s.value) % 2 ^ 32)))

bound_cases :
    {binding : ℕ}
    → (not (binding == 1) && not (binding == 2)) ≡ false
    → (binding ≡ 1) ⊎ (binding ≡ 2)
bound_cases h = ground arith

module _ (image : Image) (m : Memory) (name : Name) where
  exports-IsExport : (s : Symbol) → exports image s m name ≡ true → IsExport image m name s
  unfolding exports
  exports-IsExport s h =
      elim (Option-cases
        (c_string m (image.string_table + s.name) (image.string_table_size - s.name))) [
          | inl e ↦ absurd (ground (arith, e))
          | inr (found, e) ↦
              let spells =
                c_string-Spells m (image.string_table + s.name) (image.string_table_size - s.name)
                  found e in
              let is = eq_of_same_name found name (ground (arith, e)) in
              record {
                defined = ground (arith, e);
                bound = bound_cases (ground (arith, e));
                inside = ground (arith, spells.1, ap length is);
                spelled = subst (Spells m (image.string_table + s.name)) is spells.0;
              }
        ]

  IsExport-exports : (s : Symbol) → IsExport image m name s → exports image s m name ≡ true
  unfolding exports
  IsExport-exports s is =
      let found =
        Spells-c_string m (image.string_table + s.name) (image.string_table_size - s.name) name
          is.spelled (omega (arith, is.inside)) in
      ground (arith, found, is.defined, is.bound, is.inside, same_name_refl name)

  find_symbol-next :
      (s : Symbol) (ss : List Symbol)
      → exports image s m name ≡ false
      → find_symbol image (s ∷ ss) m name ≡ find_symbol image ss m name
  unfolding find_symbol
  find_symbol-next s ss e = ground (arith, e)

  find_symbol-here :
      (s : Symbol) (ss : List Symbol)
      → exports image s m name ≡ true
      → IsAddress image s (find_symbol image (s ∷ ss) m name)
  unfolding find_symbol symbol_value
  find_symbol-here s ss e = elim (Bool-cases (s.info % 16 == 6)) [
    | inl tls ↦ inl (ground arith, ground (arith, e, tls))
    | inr plain ↦ elim (Bool-cases (s.section == 0xfff1)) [
      | inl absolute ↦ inr (inl (ground arith, ground arith, ground (arith, e, plain, absolute)))
      | inr biased ↦ inr (inr (ground arith, ground arith, ground (arith, e, plain, biased)))
    ]
  ]

  -- What a lookup in the symbols answers.
  abbrev pub Answers : List Symbol → ℕ → Type 0
  Answers ss answer =
      (All (λ s. ¬ IsExport image m name s) ss × (answer ≡ 0))
      ⊎ ((before : List Symbol) × (s : Symbol) × (after : List Symbol) × (ss
            ≡ before ++ (s ∷ after))
          × All (λ b. ¬ IsExport image m name b) before
          × IsExport image m name s
          × IsAddress image s answer)

  find_symbol-Answers : (ss : List Symbol) → Answers ss (find_symbol image ss m name)
  unfolding find_symbol
  find_symbol-Answers [] = inl (tt, refl)
  find_symbol-Answers (s ∷ ss) = elim (Bool-cases (exports image s m name)) [
    | inl e ↦ inr ([], s, ss, refl, tt, exports-IsExport s e, find_symbol-here s ss e)
    | inr e ↦
        let apart : ¬ IsExport image m name s = λ is. cc (IsExport-exports s is, e) in
        let same = find_symbol-next s ss e in
        elim (find_symbol-Answers ss) [
          | inl rest ↦ inl ((apart, rest.0), same ∙ rest.1)
          | inr (before, found, after, split, none_before, is, address) ↦ inr (
            s ∷ before,
            found,
            after,
            ap (λ l. s ∷ l) split,
            (apart, none_before),
            is,
            subst (IsAddress image found) (sym same) address,
          )
        ]
  ]

elf32_find_export-find_symbol :
    (image : Image) (m : Memory) (name : Name) (info : DynamicInfo)
    → parse_relocation_info image m ≡ ok info
    → elf32_find_export (some image) (some name) m
      ≡ find_symbol image (table read_symbol symbol_size m info.symbols info.symbol_count) m name
unfolding elf32_find_export
elf32_find_export-find_symbol image m name info parsed = ground (arith, parsed)

-- For an image whose dynamic section parses, elf32_find_export returns 0 if no symbol of its table is
-- exported under the name, and else the ELF address of the first such symbol (0 if that one is
-- thread-local); exported are the defined global and weak symbols whose name in the string table
-- has the same bytes up to a NUL inside that table.
pub elf32_find_export-first :
    (image : Image) (m : Memory) (name : Name) (info : DynamicInfo)
    → parse_relocation_info image m ≡ ok info
    → Answers image m name
        (table read_symbol symbol_size m info.symbols info.symbol_count)
        (elf32_find_export (some image) (some name) m)
elf32_find_export-first image m name info parsed =
    let symbols = table read_symbol symbol_size m info.symbols info.symbol_count in
    subst (Answers image m name symbols)
      (sym (elf32_find_export-find_symbol image m name info parsed))
      (find_symbol-Answers image m name symbols)
