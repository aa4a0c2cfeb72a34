-- ===== src/Probe/Tests.antt =====
-- The sample module relocated with the chain of providers, on a host that has two libraries.
use nfsmw_arm_linux.Prelude.{
  ℕ, ◌+◌, ◌≤◌, ◌≡◌, ◌≢◌, ◌↔◌, refl, false, some, [], ◌∷◌, Bytes, codes, arith, if◌then◌else◌,
  same_bytes, strip_prefix,
}
use nfsmw_arm_linux.Elf.Types.{no_stats, null_image}
use nfsmw_arm_linux.Elf.Sample.{loaded, mprotect, info_lem}
use nfsmw_arm_linux.Elf.Relocate.{
  Process, elf32_relocate, relocate_image, relocate_tables, protect_after, apply_relocations,
  apply_at, apply_relocation, apply_symbolic, relocation_symbol, resolve_undefined, symbol_value,
  count_symbolic, count_relative, count_unresolved,
}
use nfsmw_arm_linux.Compat.Resolve.{nfsmw_compat_resolve}
use nfsmw_arm_linux.Probe.Names.{in_list, nfsmw_symbol_requires_bionic_bridge, starts}
use nfsmw_arm_linux.Probe.Names.Providers.{bridge_names-resolve}
use nfsmw_arm_linux.Probe.Hosts.{Linker, opened}
use nfsmw_arm_linux.Probe.Hosts.Balance.{IsBalanced, opens, closes, occurrences}
use nfsmw_arm_linux.Probe.Symbols.{no_census, open_host_handles, nfsmw_probe_symbols}
use nfsmw_arm_linux.Probe.Symbols.Counts.{IsCensus, nfsmw_probe_symbols-IsCensus}
use nfsmw_arm_linux.Probe.Relocation.{
  Context, no_probe_stats, relocation_lookup, probe_image, nfsmw_relocation_probe,
}
use nfsmw_arm_linux.Probe.Relocation.Providers.{relocation_lookup-bridge}
use nfsmw_arm_linux.Probe.Relocation.Settled.{IsSettled, nfsmw_relocation_probe-IsSettled}
use nfsmw_arm_linux.Probe.Relocation.Totals.{probe_image-total}

abbrev address : Bytes → ℕ
address _ = 8192

placed : (object : Bytes) → address object ≢ 0
placed object e = absurd (omega arith)

abbrev linker : Linker
linker = record {
  dlopen = λ name.
      if same_bytes name (codes "libc.so.6")
      then 5
      else if same_bytes name (codes "libEGL.so")
      then 6
      else 0;
  dlsym = λ handle name. if same_bytes name (codes "strlen") then 77 else 0;
  egl_get_proc_address = λ _ _. 0;
}

-- A host without libraries.
abbrev bare : Linker
bare = record { dlopen = λ _. 0; dlsym = λ _ _. 0; egl_get_proc_address = λ _ _. 0 }

-- A handle that an earlier run retained.
abbrev context : Context
context = record {
  earlier = loaded.image ∷ [];
  current = null_image;
  hosts = record {
    host_handles = [];
    egl_get_proc_address = 0;
    retained_host_handles = 9 ∷ [];
    log = opened 9 ∷ [];
  };
  stats = no_probe_stats;
  hooks = record {
    guest_set_output = 0;
    guest_cpp_set_output = 0;
    guest_set_filesystem = 0;
    guest_create_sound = 0;
  };
}

abbrev process : Process Context
process = record {
  memory = loaded.memory;
  protections = loaded.protections;
  stats = no_stats;
  first_unresolved = 0;
  context = context;
}

bridge_names-resolve_example :
    (nfsmw_compat_resolve address (some (codes "fopen")) ≢ 0)
    ↔ (same_bytes (codes "fopen") (codes "lstat") ≡ false)
unfolding in_list same_bytes
bridge_names-resolve_example = bridge_names-resolve address placed (codes "fopen") refl

relocation_lookup-bridge_example :
    relocation_lookup address linker (codes "lstat") 1 loaded.memory context
    ≡ relocation_lookup address bare (codes "lstat") 1 loaded.memory context
unfolding nfsmw_symbol_requires_bionic_bridge starts strip_prefix in_list same_bytes
relocation_lookup-bridge_example =
    relocation_lookup-bridge address linker (codes "lstat") 1 loaded.memory context bare refl

context-IsSettled : IsSettled context.hosts
unfolding IsSettled IsBalanced opens closes occurrences
context-IsSettled = (refl, λ handle. omega arith)

nfsmw_relocation_probe-IsSettled_example :
    IsSettled
      (nfsmw_relocation_probe address linker mprotect (loaded.image ∷ []) process).0.context.hosts
nfsmw_relocation_probe-IsSettled_example =
    nfsmw_relocation_probe-IsSettled address linker mprotect (loaded.image ∷ []) process
      context-IsSettled

probe_image-total_example :
    ((probe_image address linker mprotect loaded.image process).0.context.stats.total_relocations
      ≡ 0 + (2 + 0))
    × ((probe_image address linker mprotect loaded.image
          process).0.context.stats.unresolved_relocations
        ≤ 0 + (2 + 0))
unfolding probe_image loaded elf32_relocate relocate_image relocate_tables protect_after
    apply_relocations apply_at apply_relocation apply_symbolic relocation_symbol resolve_undefined
    symbol_value count_symbolic count_relative count_unresolved mprotect
probe_image-total_example =
    probe_image-total address linker mprotect loaded.image process info_lem refl

nfsmw_probe_symbols-IsCensus_example :
    IsCensus linker address
      (loaded.image ∷ [])
      (open_host_handles linker []).0
      loaded.memory
      (nfsmw_probe_symbols linker address (loaded.image ∷ []) loaded.memory (no_census, [])).0.0
nfsmw_probe_symbols-IsCensus_example =
    nfsmw_probe_symbols-IsCensus linker address loaded.image [] loaded.memory no_census []
