-- ===== src/Probe/Relocation.antt =====
-- relocation_lookup and nfsmw_relocation_probe of relocation_probe.c, with the names that the headers
-- fmod_output.h and the display part of platform_probe.c answer. Log lines have no effect here.
pub mod Providers
pub mod Settled
pub mod Totals
use nfsmw_arm_linux.Prelude.{
  ℕ, ◌+◌, Bool, true, false, ◌&&◌, not, Option, none, some, List, [], ◌∷◌, ◌++◌, if◌then◌else◌,
  ◌==◌, Bytes, codes, same_bytes, Result, ok, err,
}
use nfsmw_arm_linux.Memory.{Memory}
use nfsmw_arm_linux.Elf.Types.{Image, RelocationStats, Error, invalid_arguments}
use nfsmw_arm_linux.Elf.Segments.{Protect}
use nfsmw_arm_linux.Elf.Relocate.{Resolver, Process, elf32_relocate, elf32_find_export}
use nfsmw_arm_linux.Compat.Resolve.{Symbol, resolve_in, nfsmw_compat_resolve}
use nfsmw_arm_linux.Probe.Names.{
  nfsmw_symbol_requires_softfp, nfsmw_symbol_requires_bionic_bridge, nfsmw_softfp_resolve,
}
use nfsmw_arm_linux.Probe.Hosts.{
  Linker, Hosts, open_host_libraries, close_host_libraries, retain_host_libraries, host_lookup,
}

-- `struct nfsmw_relocation_probe_stats`.
pub record ProbeStats : Type 0 where
  pub guest_resolutions : ℕ
  pub softfp_resolutions : ℕ
  pub host_resolutions : ℕ
  pub alias_resolutions : ℕ
  pub blocked_resolutions : ℕ
  pub missing_resolutions : ℕ
  pub total_relocations : ℕ
  pub unresolved_relocations : ℕ

abbrev pub no_probe_stats : ProbeStats
no_probe_stats = record {
  guest_resolutions = 0;
  softfp_resolutions = 0;
  host_resolutions = 0;
  alias_resolutions = 0;
  blocked_resolutions = 0;
  missing_resolutions = 0;
  total_relocations = 0;
  unresolved_relocations = 0;
}

-- The guest functions that the wrappers call; NULL is 0.
pub record Hooks : Type 0 where
  pub guest_set_output : ℕ
  pub guest_cpp_set_output : ℕ
  pub guest_set_filesystem : ℕ
  pub guest_create_sound : ℕ

-- `struct relocation_context` with what it points to and the file's static variables: the images before
-- the current one, the current one, the host libraries, the statistics and the hooks.
pub record Context : Type 0 where
  pub earlier : List Image
  pub current : Image
  pub hosts : Hosts
  pub stats : ProbeStats
  pub hooks : Hooks

abbrev pub eabi_symbols : List Symbol
eabi_symbols =
    (codes "__aeabi_uidiv", codes "__aeabi_uidiv")
    ∷ (codes "__aeabi_ui2d", codes "__aeabi_ui2d")
    ∷ (codes "__aeabi_uidivmod", codes "__aeabi_uidivmod")
    ∷ (codes "__aeabi_uldivmod", codes "__aeabi_uldivmod")
    ∷ (codes "__aeabi_dmul", codes "__aeabi_dmul")
    ∷ (codes "__aeabi_dcmplt", codes "__aeabi_dcmplt")
    ∷ (codes "__aeabi_f2d", codes "__aeabi_f2d")
    ∷ (codes "__aeabi_ul2d", codes "__aeabi_ul2d")
    ∷ (codes "__aeabi_idivmod", codes "__aeabi_idivmod")
    ∷ (codes "__aeabi_idiv", codes "__aeabi_idiv")
    ∷ (codes "__aeabi_dadd", codes "__aeabi_dadd")
    ∷ []

abbrev pub alias_symbols : List Symbol
alias_symbols =
    (codes "__assert2", codes "nfsmw_android_assert2")
    ∷ (codes "__dso_handle", codes "nfsmw_dso_handle")
    ∷ []

-- A later test of nfsmw_display_resolve overrides an earlier one; the names differ.
abbrev pub display_symbols : List Symbol
display_symbols =
    (codes "glScissor", codes "mapped_scissor") ∷ (codes "glViewport", codes "mapped_viewport") ∷ []

abbrev pub set_filesystem_name : Bytes
set_filesystem_name =
    codes
      "_ZN4FMOD6System13setFileSystemEPF11FMOD_RESULTPKciPjPPvS6_EPFS1_S5_S5_EPFS1_S5_S5_jS4_S5_EPFS1_S5_jS5_EPFS1_P18FMOD_ASYNCREADINFOS5_ESA_i"

abbrev pub create_sound_name : Bytes
create_sound_name = codes "_ZN4FMOD6System11createSoundEPKcjP22FMOD_CREATESOUNDEXINFOPPNS_5SoundE"

-- -1 is `none`.
unfoldable pub nfsmw_fmod_output_symbol : (name : Bytes) → Option ℕ
nfsmw_fmod_output_symbol name =
    if same_bytes name (codes "FMOD_System_SetOutput")
    then some 0
    else if same_bytes name (codes "_ZN4FMOD6System9setOutputE15FMOD_OUTPUTTYPE")
    then some 1
    else none

-- `strcmp` of the string at an address with a literal.
unfoldable pub string_at : Memory → (address : ℕ) → Bytes → Bool
string_at m address [] = m address == 0
string_at m address (c ∷ cs) = m address == c && string_at m (address + 1) cs

unfoldable pub is_app : Memory → Image → Bool
is_app m image = not (image.soname == 0) && string_at m image.soname (codes "libapp.so")

-- Addresses of C objects are the linker's.
module _ (address : Bytes → ℕ) where
  unfoldable pub aeabi_lookup : (name : Bytes) → ℕ
  aeabi_lookup name = resolve_in address eabi_symbols name

  unfoldable pub alias_lookup : (name : Bytes) → ℕ
  alias_lookup name = resolve_in address alias_symbols name

  unfoldable pub nfsmw_display_resolve : (name : Bytes) → ℕ
  nfsmw_display_resolve name = resolve_in address display_symbols name

  -- The three replacements of a guest function by a wrapper, each on the hooks and the address.
  unfoldable pub wrap_output : (app : Bool) (name : Bytes) → Hooks × ℕ → Hooks × ℕ
  wrap_output app name (hooks, value) = elim (nfsmw_fmod_output_symbol name) [
    | none ↦ (hooks, value)
    | some symbol ↦
        if not app
        then (hooks, value)
        else if symbol == 0
        then (record hooks { guest_set_output = value }, address (codes "compatible_set_output"))
        else (
          record hooks { guest_cpp_set_output = value },
          address (codes "compatible_cpp_set_output"),
        )
  ]

  unfoldable pub wrap_filesystem : (app : Bool) (name : Bytes) → Hooks × ℕ → Hooks × ℕ
  wrap_filesystem app name (hooks, value) =
      if same_bytes name set_filesystem_name && app
      then (
        record hooks { guest_set_filesystem = value },
        address (codes "compatible_set_filesystem"),
      )
      else (hooks, value)

  unfoldable pub wrap_sound : (app : Bool) (name : Bytes) → Hooks × ℕ → Hooks × ℕ
  wrap_sound app name (hooks, value) =
      if same_bytes name create_sound_name && app
      then (record hooks { guest_create_sound = value }, address (codes "compatible_create_sound"))
      else (hooks, value)

  unfoldable pub wrap : (app : Bool) (name : Bytes) → Hooks × ℕ → Hooks × ℕ
  wrap app name found = wrap_sound app name (wrap_filesystem app name (wrap_output app name found))

abbrev pub count_guest : ProbeStats → ProbeStats
count_guest s = record s { guest_resolutions = s.guest_resolutions + 1 }

abbrev pub count_softfp : ProbeStats → ProbeStats
count_softfp s = record s { softfp_resolutions = s.softfp_resolutions + 1 }

abbrev pub count_host : ProbeStats → ProbeStats
count_host s = record s { host_resolutions = s.host_resolutions + 1 }

abbrev pub count_alias : ProbeStats → ProbeStats
count_alias s = record s { alias_resolutions = s.alias_resolutions + 1 }

abbrev pub count_blocked : ProbeStats → ProbeStats
count_blocked s = record s { blocked_resolutions = s.blocked_resolutions + 1 }

abbrev pub count_missing : ProbeStats → ProbeStats
count_missing s = record s { missing_resolutions = s.missing_resolutions + 1 }

-- The first of the images that exports the name.
unfoldable pub guest_lookup : List Image → (name : Bytes) → Memory → ℕ
guest_lookup [] name m = 0
guest_lookup (image ∷ images) name m =
    let later = guest_lookup images name m in
    let value = elf32_find_export (some image) (some name) m in
    if not (value == 0) then value else later

module _ (address : Bytes → ℕ) (linker : Linker) where
  -- The lookup once no earlier image exports the name.
  unfoldable pub runtime_lookup : (name : Bytes) → Context → Context × ℕ
  runtime_lookup name context =
      let stats = context.stats in
      let eabi = aeabi_lookup address name in
      let softfp =
        if nfsmw_symbol_requires_softfp name then nfsmw_softfp_resolve address name else 0 in
      let alias = alias_lookup address name in
      let bridge = nfsmw_compat_resolve address (some name) in
      let display = nfsmw_display_resolve address name in
      let host = host_lookup linker context.hosts name in
      if not (eabi == 0)
      then (record context { stats = count_alias stats }, eabi)
      else if not (softfp == 0)
      then (record context { stats = count_softfp stats }, softfp)
      else if not (alias == 0)
      then (record context { stats = count_alias stats }, alias)
      else if not (bridge == 0)
      then (record context { stats = count_alias stats }, bridge)
      else if nfsmw_symbol_requires_bionic_bridge name
      then (record context { stats = count_blocked stats }, 0)
      else if not (display == 0)
      then (context, display)
      else if not (host == 0)
      then (record context { stats = count_host stats }, host)
      else (record context { stats = count_missing stats }, 0)

  unfoldable pub relocation_lookup : (name : Bytes) (binding : ℕ) → Memory → Context → Context × ℕ
  relocation_lookup name binding m context =
      let found = guest_lookup context.earlier name m in
      let (hooks, value) = wrap address (is_app m context.current) name (context.hooks, found) in
      if not (found == 0)
      then (record context { stats = count_guest context.stats; hooks = hooks }, value)
      else runtime_lookup name context

  -- The relocation of one image, with what it adds to the statistics if it succeeds.
  unfoldable pub add_module : RelocationStats → ProbeStats → ProbeStats
  add_module counts stats = record stats {
    total_relocations =
        stats.total_relocations
        + (counts.relative + counts.absolute + counts.global_data + counts.jump_slots);
    unresolved_relocations = stats.unresolved_relocations + counts.unresolved;
  }

  module _ (mprotect : List Protect → Protect → Bool) where
    unfoldable pub probe_image : Image → Process Context → Process Context × Result Error (Unit {0})
    probe_image image p =
        let context = record p.context { current = image } in
        let (q, result) =
          elf32_relocate mprotect (some image) (some relocation_lookup)
            (record p { context = context }) in
        elim result [
          | err e ↦ (q, err e)
          | ok _ ↦ (
            record q {
              context = record q.context {
                stats = add_module q.stats q.context.stats;
                earlier = q.context.earlier ++ (image ∷ []);
              };
            },
            ok tt,
          )
        ]

    unfoldable pub probe_images :
        List Image → Process Context → Process Context × Result Error (Unit {0})
    probe_images [] p = (p, ok tt)
    probe_images (image ∷ images) p =
        let (q, result) = probe_image image p in
        elim result [ err e ↦ (q, err e) | ok _ ↦ probe_images images q ]

    abbrev pub on_hosts : (Hosts → Hosts) → Process Context → Process Context
    on_hosts f p = record p { context = record p.context { hosts = f p.context.hosts } }

    -- The libraries are retained after a success and closed after a failure.
    unfoldable pub settle_hosts :
        Process Context × Result Error (Unit {0}) → Process Context × Result Error (Unit {0})
    settle_hosts (p, ok _) = (on_hosts retain_host_libraries p, ok tt)
    settle_hosts (p, err e) = (on_hosts close_host_libraries p, err e)

    -- The process as the context is cleared and the libraries are opened.
    unfoldable pub start_probe : Process Context → Process Context
    start_probe p =
        let hosts = record p.context.hosts { host_handles = []; egl_get_proc_address = 0 } in
        record p {
          context = record p.context {
            earlier = [];
            hosts = open_host_libraries linker hosts;
            stats = no_probe_stats;
          };
        }

    -- No images stands for NULL too; the statistics are not NULL.
    unfoldable pub nfsmw_relocation_probe :
        List Image → Process Context → Process Context × Result Error (Unit {0})
    nfsmw_relocation_probe [] p = (p, err invalid_arguments)
    nfsmw_relocation_probe (image ∷ images) p =
        settle_hosts (probe_images (image ∷ images) (start_probe p))
