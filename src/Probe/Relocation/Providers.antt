-- ===== src/Probe/Relocation/Providers.antt =====
-- Who answers a lookup of relocation_lookup.
use nfsmw_arm_linux.Prelude.{
  ℕ, ◌+◌, true, not, ◌==◌, Bytes, arith, ◌≡◌, ◌⊎◌, refl, Bool-cases, inl, inr,
}
use nfsmw_arm_linux.Memory.{Memory}
use nfsmw_arm_linux.Probe.Names.{nfsmw_symbol_requires_bionic_bridge}
use nfsmw_arm_linux.Probe.Hosts.{Linker}
use nfsmw_arm_linux.Probe.Relocation.{
  ProbeStats, Context, nfsmw_display_resolve, guest_lookup, runtime_lookup, relocation_lookup,
}

-- The lookups that the statistics count.
abbrev pub counted : ProbeStats → ℕ
counted s =
    s.guest_resolutions + s.softfp_resolutions + s.host_resolutions + s.alias_resolutions
    + s.blocked_resolutions + s.missing_resolutions

module _ (address : Bytes → ℕ) (linker : Linker) (name : Bytes) (binding : ℕ) (m : Memory)
    (context : Context) where
  runtime_lookup-counted :
      (counted (runtime_lookup address linker name context).0.stats ≡ counted context.stats + 1)
      ⊎ ((counted (runtime_lookup address linker name context).0.stats ≡ counted context.stats)
          × ((runtime_lookup address linker name context).1 ≡ nfsmw_display_resolve address name))
  unfolding runtime_lookup
  runtime_lookup-counted = ground arith

  -- Every lookup raises the six counters of relocation_lookup by one in total, except one that the
  -- display functions answer, which raises none.
  pub relocation_lookup-counted :
      (counted (relocation_lookup address linker name binding m context).0.stats
        ≡ counted context.stats + 1)
      ⊎ ((counted (relocation_lookup address linker name binding m context).0.stats
            ≡ counted context.stats)
          × ((relocation_lookup address linker name binding m context).1
              ≡ nfsmw_display_resolve address name))
  unfolding relocation_lookup
  relocation_lookup-counted = elim (Bool-cases (not (guest_lookup context.earlier name m == 0))) [
    | inl e ↦ rw e (inl (omega arith))
    | inr e ↦ rw e runtime_lookup-counted
  ]

  runtime_lookup-bridge :
      (other : Linker)
      → nfsmw_symbol_requires_bionic_bridge name ≡ true
      → runtime_lookup address linker name context ≡ runtime_lookup address other name context
  unfolding runtime_lookup
  runtime_lookup-bridge other bridge = rw bridge refl

  -- A name that nfsmw_symbol_requires_bionic_bridge accepts is never bound to the host: whatever another
  -- dynamic linker would answer, relocation_lookup gives the same address, and leaves the same context.
  pub relocation_lookup-bridge :
      (other : Linker)
      → nfsmw_symbol_requires_bionic_bridge name ≡ true
      → relocation_lookup address linker name binding m context
        ≡ relocation_lookup address other name binding m context
  unfolding relocation_lookup
  relocation_lookup-bridge other bridge =
      elim (Bool-cases (not (guest_lookup context.earlier name m == 0))) [
        | inl e ↦ rw e refl
        | inr e ↦ rw e (runtime_lookup-bridge other bridge)
      ]

  runtime_lookup-hosts : (runtime_lookup address linker name context).0.hosts ≡ context.hosts
  unfolding runtime_lookup
  runtime_lookup-hosts = ground arith

  pub relocation_lookup-hosts :
      (relocation_lookup address linker name binding m context).0.hosts ≡ context.hosts
  unfolding relocation_lookup
  relocation_lookup-hosts = elim (Bool-cases (not (guest_lookup context.earlier name m == 0))) [
    | inl e ↦ rw e refl
    | inr e ↦ rw e runtime_lookup-hosts
  ]
