-- ===== src/Probe/Relocation/Settled.antt =====
-- The host libraries and the totals over a whole run of nfsmw_relocation_probe.
use nfsmw_arm_linux.Prelude.{
  ℕ, Bool, some, List, [], ◌∷◌, Bytes, arith, ◌≡◌, ◌∙◌, refl, sym, subst, ap, Result, ok, err,
  Result-cases, inl, inr,
}
use nfsmw_arm_linux.Memory.{Memory}
use nfsmw_arm_linux.Elf.Types.{Image, Error}
use nfsmw_arm_linux.Elf.Segments.{Protect}
use nfsmw_arm_linux.Elf.Relocate.{Process, elf32_relocate}
use nfsmw_arm_linux.Elf.Relocate.Contexts.{elf32_relocate-context}
use nfsmw_arm_linux.Probe.Hosts.{
  Linker, Hosts, close_host_libraries, nfsmw_relocation_release_hosts, retain_host_libraries,
}
use nfsmw_arm_linux.Probe.Hosts.Balance.{
  occurrences, opens, closes, IsBalanced, open_host_libraries-IsBalanced,
  close_host_libraries-IsBalanced, retain_host_libraries-IsBalanced, release_hosts-IsBalanced,
}
use nfsmw_arm_linux.Probe.Relocation.{
  Context, relocation_lookup, probe_image, probe_images, settle_hosts, start_probe,
  nfsmw_relocation_probe,
}
use nfsmw_arm_linux.Probe.Relocation.Providers.{relocation_lookup-hosts}

-- Between two runs no handle is in a context, and every handle that was opened and not closed is retained.
unfoldable pub IsSettled : Hosts → Type 0
IsSettled hosts = (hosts.host_handles ≡ []) × IsBalanced hosts

module _ (address : Bytes → ℕ) (linker : Linker) (mprotect : List Protect → Protect → Bool) where
  Same : Hosts → Context → Type 0
  Same hosts context = context.hosts ≡ hosts

  -- Relocating an image leaves the host libraries alone.
  probe_image-hosts :
      (image : Image) (p : Process Context)
      → (probe_image address linker mprotect image p).0.context.hosts ≡ p.context.hosts
  unfolding probe_image Same
  probe_image-hosts image p = go (elf32_relocate mprotect (some image) (some lookup) begun).1 refl
    where
      lookup : List ℕ → ℕ → Memory → Context → Context × ℕ
      lookup = relocation_lookup address linker

      begun : Process Context
      begun = record p { context = record p.context { current = image } }

      kept :
          (elf32_relocate mprotect (some image) (some lookup) begun).0.context.hosts
          ≡ p.context.hosts
      kept =
          elf32_relocate-context (Same p.context.hosts) lookup
            (λ name binding m c same.
              relocation_lookup-hosts address linker name binding m c ∙ same)
            mprotect image begun refl

      go :
          (r : Result Error (Unit {0}))
          → (elf32_relocate mprotect (some image) (some lookup) begun).1 ≡ r
          → (probe_image address linker mprotect image p).0.context.hosts ≡ p.context.hosts
      go (err e) is = ground (arith, is, kept)
      go (ok _) is = ground (arith, is, kept)

  probe_images-hosts :
      (images : List Image) (p : Process Context)
      → (probe_images address linker mprotect images p).0.context.hosts ≡ p.context.hosts
  unfolding probe_images
  probe_images-hosts [] p = refl
  probe_images-hosts (image ∷ images) p =
      elim (Result-cases (probe_image address linker mprotect image p).1) [
        | inr (e, is) ↦ ground (arith, is, probe_image-hosts image p)
        | inl (u, is) ↦ ground (
          arith,
          is,
          probe_image-hosts image p,
          probe_images-hosts images (probe_image address linker mprotect image p).0,
        )
      ]

  settle_hosts-IsSettled :
      (p : Process Context) (r : Result Error (Unit {0}))
      → IsBalanced p.context.hosts
      → IsSettled (settle_hosts address linker mprotect (p, r)).0.context.hosts
  unfolding settle_hosts IsSettled close_host_libraries retain_host_libraries
  settle_hosts-IsSettled p (ok _) balanced =
      (refl, retain_host_libraries-IsBalanced p.context.hosts balanced)
  settle_hosts-IsSettled p (err _) balanced =
      (refl, close_host_libraries-IsBalanced p.context.hosts balanced)

  start_probe-IsBalanced :
      (p : Process Context)
      → IsSettled p.context.hosts
      → IsBalanced (start_probe address linker mprotect p).context.hosts
  unfolding start_probe IsSettled IsBalanced occurrences
  start_probe-IsBalanced p (none_held, balanced) =
      open_host_libraries-IsBalanced linker
        (record p.context.hosts { host_handles = []; egl_get_proc_address = 0 }) (cleared balanced)
    where
      cleared :
          IsBalanced p.context.hosts
          → IsBalanced (record p.context.hosts { host_handles = []; egl_get_proc_address = 0 })
      cleared balanced' handle = omega (arith, balanced' handle, ap (occurrences handle) none_held)

  -- Every run of nfsmw_relocation_probe, whether it succeeds or fails, leaves the host libraries
  -- settled if it finds them so: no handle remains in its context, and each handle was opened as often as
  -- it was closed and is retained.
  pub nfsmw_relocation_probe-IsSettled :
      (images : List Image) (p : Process Context)
      → IsSettled p.context.hosts
      → IsSettled (nfsmw_relocation_probe address linker mprotect images p).0.context.hosts
  unfolding nfsmw_relocation_probe IsSettled
  nfsmw_relocation_probe-IsSettled [] p settled = settled
  nfsmw_relocation_probe-IsSettled (image ∷ images) p settled =
      let begun = start_probe address linker mprotect p in
      let r = probe_images address linker mprotect (image ∷ images) begun in
      settle_hosts-IsSettled r.0 r.1 (
        subst IsBalanced (sym (probe_images-hosts (image ∷ images) begun))
          (start_probe-IsBalanced p settled))

-- A settled process that releases the retained libraries has closed every handle as often as it was
-- opened.
pub release_hosts-closed :
    (hosts : Hosts) (handle : ℕ)
    → IsSettled hosts
    → opens handle (nfsmw_relocation_release_hosts hosts).log
      ≡ closes handle (nfsmw_relocation_release_hosts hosts).log
unfolding IsSettled IsBalanced nfsmw_relocation_release_hosts occurrences
release_hosts-closed hosts handle (none_held, balanced) =
    omega (arith, release_hosts-IsBalanced hosts balanced handle, ap (occurrences handle) none_held)
