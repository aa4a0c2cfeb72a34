-- ===== src/Probe/Symbols/Counts.antt =====
-- What the census of symbol_probe.c adds up to, and what its reports list.
use nfsmw_arm_linux.Prelude.{
  ℕ, ◌+◌, ◌≤◌, true, false, not, ◌||◌, some, List, [], ◌∷◌, ◌++◌, ◌==◌, ltb, ltb→lt, length,
  length-append, Bytes, same_bytes, same_bytes_comm, arith, ◌≡◌, ◌∙◌, ◌⊎◌, refl, sym, ap, subst,
  Bool-cases, Option-cases, Result-cases, inl, inr, All, All-append,
}
use nfsmw_arm_linux.Memory.{Memory}
use nfsmw_arm_linux.Elf.Format.{Symbol, symbol_binding, undefined_section}
use nfsmw_arm_linux.Elf.Types.{Image}
use nfsmw_arm_linux.Compat.Resolve.{nfsmw_compat_resolve}
use nfsmw_arm_linux.Probe.Names.{in_list, nfsmw_symbol_requires_bionic_bridge}
use nfsmw_arm_linux.Probe.Hosts.{Linker, Event}
use nfsmw_arm_linux.Probe.Symbols.{
  dynamic_symbols, bound_name, any_image_exports, NameReport, report_capacity, report_add,
  SymbolStats, Census, no_census, open_host_handles, host_exports, count_import, count_symbol,
  count_symbols, count_images, nfsmw_probe_symbols,
}

-- No name stands twice.
unfoldable pub Distinct : List Bytes → Type 0
Distinct [] = Unit
Distinct (name ∷ names) = (in_list name names ≡ false) × Distinct names

-- A report is within its capacity, repeats no name, and its names have a property.
pub record IsReport (P : Bytes → Type 0) (report : NameReport) : Type 0 where
  pub bounded : length report.values ≤ report_capacity
  pub distinct : Distinct report.values
  pub each : All P report.values

in_list-append :
    (name last : Bytes) (names : List Bytes)
    → in_list name names ≡ false
    → same_bytes name last ≡ false
    → in_list name (names ++ (last ∷ [])) ≡ false
unfolding in_list
in_list-append name last [] absent other = rw other refl
in_list-append name last (first ∷ names) absent other = elim (Bool-cases (same_bytes name first)) [
  | inl e ↦ absurd (cc (absent, ap (λ b. b || in_list name names) e))
  | inr e ↦
      rw e
        (in_list-append name last names (sym (ap (λ b. b || in_list name names) e) ∙ absent) other)
]

Distinct-append :
    (names : List Bytes) (name : Bytes)
    → Distinct names
    → in_list name names ≡ false
    → Distinct (names ++ (name ∷ []))
unfolding Distinct in_list
Distinct-append [] name distinct absent = (refl, tt)
Distinct-append (first ∷ names) name (here, later) absent =
    elim (Bool-cases (same_bytes name first)) [
      | inl e ↦ absurd (cc (absent, ap (λ b. b || in_list name names) e))
      | inr e ↦ (
        in_list-append first name names here (same_bytes_comm first name ∙ e),
        Distinct-append names name later (sym (ap (λ b. b || in_list name names) e) ∙ absent),
      )
    ]

report_add-IsReport :
    (P : Bytes → Type 0) (name : Bytes) (report : NameReport)
    → P name
    → IsReport P report
    → IsReport P (report_add name report)
unfolding report_add
report_add-IsReport P name report holds is = elim (Bool-cases (in_list name report.values)) [
  | inl e ↦ rw e is
  | inr absent ↦ elim (Bool-cases (ltb (length report.values) report_capacity)) [
    | inr full ↦
        rw (absent, full) (record { bounded = is.bounded; distinct = is.distinct; each = is.each })
    | inl room ↦
        rw (absent, room)
          (record {
            bounded = omega (arith, ltb→lt _ _ room, length-append report.values (name ∷ []));
            distinct = Distinct-append report.values name is.distinct absent;
            each = All-append P report.values (name ∷ []) is.each (holds, tt);
          })
  ]
]

-- Every import is counted under one heading.
abbrev pub IsSum : SymbolStats → Type 0
IsSum s =
    s.imports
    ≡ s.guest_provided + s.softfp_thunks + s.compat_bridges + s.host_candidates
      + s.abi_bridges_required + s.missing + s.weak_unresolved

module _ (linker : Linker) (address : Bytes → ℕ) (images : List Image) (handles : List ℕ)
    (m : Memory) where
  -- What the reports list: a name of Bionic's that has no bridge, and one that nobody has.
  abbrev pub NeedsBridge : Bytes → Type 0
  NeedsBridge name =
      (any_image_exports images m name ≡ false)
      × ((nfsmw_compat_resolve address (some name) ≡ 0)
          × (nfsmw_symbol_requires_bionic_bridge name ≡ true))

  abbrev pub IsMissing : Bytes → Type 0
  IsMissing name =
      (any_image_exports images m name ≡ false)
      × ((nfsmw_compat_resolve address (some name) ≡ 0)
          × (host_exports linker handles name ≡ false))

  pub record IsCensus (census : Census) : Type 0 where
    pub sum : IsSum census.stats
    pub bridges : IsReport NeedsBridge census.bridge_report
    pub lacks : IsReport IsMissing census.missing_report

  count_import-IsSum :
      (name : Bytes) (binding : ℕ) (census : Census)
      → IsSum census.stats
      → IsSum (count_import linker address images handles m name binding census).stats
  unfolding count_import
  count_import-IsSum name binding census sum = ground arith

  count_import-bridges :
      (name : Bytes) (binding : ℕ) (census : Census)
      → ((count_import linker address images handles m name binding census).bridge_report
          ≡ census.bridge_report)
        ⊎ (((count_import linker address images handles m name binding census).bridge_report
              ≡ report_add name census.bridge_report)
            × NeedsBridge name)
  unfolding count_import
  count_import-bridges name binding census = ground arith

  count_import-lacks :
      (name : Bytes) (binding : ℕ) (census : Census)
      → ((count_import linker address images handles m name binding census).missing_report
          ≡ census.missing_report)
        ⊎ (((count_import linker address images handles m name binding census).missing_report
              ≡ report_add name census.missing_report)
            × IsMissing name)
  unfolding count_import
  count_import-lacks name binding census = ground arith

  extended-IsReport :
      {P : Bytes → Type 0} (name : Bytes) (report report' : NameReport)
      → IsReport P report
      → (report' ≡ report) ⊎ ((report' ≡ report_add name report) × P name)
      → IsReport P report'
  extended-IsReport {P} name report report' is (inl e) = subst (IsReport P) (sym e) is
  extended-IsReport {P} name report report' is (inr (e, holds)) =
      subst (IsReport P) (sym e) (report_add-IsReport P name report holds is)

  count_import-IsCensus :
      (name : Bytes) (binding : ℕ) (census : Census)
      → IsCensus census
      → IsCensus (count_import linker address images handles m name binding census)
  count_import-IsCensus name binding census is = record {
    sum = count_import-IsSum name binding census is.sum;
    bridges =
        extended-IsReport name census.bridge_report _ is.bridges
          (count_import-bridges name binding census);
    lacks =
        extended-IsReport name census.missing_report _ is.lacks
          (count_import-lacks name binding census);
  }

  count_symbol-IsCensus :
      (image : Image) (symbol : Symbol) (census : Census)
      → IsCensus census
      → IsCensus (count_symbol linker address images handles m image symbol census)
  unfolding count_symbol
  count_symbol-IsCensus image symbol census is =
      elim (Bool-cases (not (symbol.section == undefined_section) || symbol.name == 0)) [
        | inl e ↦ rw e is
        | inr e ↦ elim (Option-cases (bound_name image symbol m)) [
          | inl none_of ↦ rw (e, none_of) is
          | inr (name, found) ↦
              rw (e, found) (count_import-IsCensus name (symbol_binding symbol.info) census is)
        ]
      ]

  count_symbols-IsCensus :
      (image : Image) (symbols : List Symbol) (census : Census)
      → IsCensus census
      → IsCensus (count_symbols linker address images handles m image symbols census)
  unfolding count_symbols
  count_symbols-IsCensus image [] census is = is
  count_symbols-IsCensus image (symbol ∷ symbols) census is =
      count_symbols-IsCensus image symbols
        (count_symbol linker address images handles m image symbol census)
        (count_symbol-IsCensus image symbol census is)

  pub count_images-IsCensus :
      (rest : List Image) (census : Census)
      → IsCensus census
      → IsCensus (count_images linker address images handles m rest census).0
  unfolding count_images
  count_images-IsCensus [] census is = is
  count_images-IsCensus (image ∷ rest) census is = elim (Result-cases (dynamic_symbols image m)) [
    | inr (e, failed) ↦ rw (failed, count_images) is
    | inl (symbols, read) ↦
        rw (read, count_images)
          (count_images-IsCensus rest _ (count_symbols-IsCensus image symbols census is))
  ]

  no_census-IsCensus : IsCensus no_census
  unfolding Distinct
  no_census-IsCensus = record {
    sum = refl;
    bridges = record { bounded = omega arith; distinct = tt; each = tt };
    lacks = record { bounded = omega arith; distinct = tt; each = tt };
  }

-- A run of nfsmw_probe_symbols on some images, whether it succeeds or fails, counts each import under
-- exactly one heading; both reports repeat no name and hold at most 96; the first lists names that
-- need a Bionic bridge and have none, the second names that neither an image nor the host's
-- libraries export, and no image exports any of them.
pub nfsmw_probe_symbols-IsCensus :
    (linker : Linker) (address : Bytes → ℕ) (image : Image) (images : List Image) (m : Memory)
    (census : Census) (log : List Event)
    → IsCensus linker address
        (image ∷ images)
        (open_host_handles linker log).0
        m
        (nfsmw_probe_symbols linker address (image ∷ images) m (census, log)).0.0
unfolding nfsmw_probe_symbols
nfsmw_probe_symbols-IsCensus linker address image images m census log =
    count_images-IsCensus linker address (image ∷ images) (open_host_handles linker log).0 m
      (image ∷ images) no_census
      (no_census-IsCensus linker address (image ∷ images) (open_host_handles linker log).0 m)
