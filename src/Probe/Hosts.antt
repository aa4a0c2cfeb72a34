-- ===== src/Probe/Hosts.antt =====
-- The host libraries of relocation_probe.c: opening, closing, retaining and searching them.
pub mod Balance
use nfsmw_arm_linux.Prelude.{
  ℕ, ◌+◌, Bool, true, false, ◌&&◌, not, List, [], ◌∷◌, ◌++◌, if◌then◌else◌, ◌==◌, length, Bytes,
  codes,
}
use nfsmw_arm_linux.Probe.Names.{starts}

-- The dynamic linker: `dlopen` of a name, `dlsym` in a handle (RTLD_DEFAULT is 0), and the function
-- that eglGetProcAddress at an address is. NULL is 0.
pub record Linker : Type 0 where
  pub dlopen : Bytes → ℕ
  pub dlsym : (handle : ℕ) → Bytes → ℕ
  pub egl_get_proc_address : (address : ℕ) → Bytes → ℕ

-- What the linker has done, newest first.
pub data Event : Type 0 where
  opened : ℕ → Event
  closed : ℕ → Event

-- The handles of a `relocation_context` up to host_count, its function, and the file's static
-- variables retained_host_handles up to their count.
pub record Hosts : Type 0 where
  pub host_handles : List ℕ
  pub egl_get_proc_address : ℕ
  pub retained_host_handles : List ℕ
  pub log : List Event

abbrev pub host_capacity : ℕ
host_capacity = 8

abbrev pub candidates : List Bytes
candidates =
    codes "libc.so.6"
    ∷ codes "libm.so.6"
    ∷ codes "libdl.so.2"
    ∷ codes "libpthread.so.0"
    ∷ codes "libEGL.so.1"
    ∷ codes "libEGL.so"
    ∷ codes "libGLESv2.so.2"
    ∷ codes "libGLESv2.so"
    ∷ []

module _ (linker : Linker) where
  -- A handle that was opened: the first EGL library that has it gives eglGetProcAddress.
  unfoldable pub keep_handle : (candidate : Bytes) (handle : ℕ) → Hosts → Hosts
  keep_handle candidate handle hosts = record hosts {
    host_handles = hosts.host_handles ++ (handle ∷ []);
    egl_get_proc_address =
        if starts (codes "libEGL") candidate && hosts.egl_get_proc_address == 0
        then linker.dlsym handle (codes "eglGetProcAddress")
        else hosts.egl_get_proc_address;
    log = opened handle ∷ hosts.log;
  }

  unfoldable pub open_candidate : (candidate : Bytes) → Hosts → Hosts
  open_candidate candidate hosts =
      let handle = linker.dlopen candidate in
      if not (handle == 0) then keep_handle candidate handle hosts else hosts

  unfoldable pub open_candidates : List Bytes → Hosts → Hosts
  open_candidates [] hosts = hosts
  open_candidates (candidate ∷ rest) hosts =
      let more = open_candidates rest (open_candidate candidate hosts) in
      if length hosts.host_handles == host_capacity then hosts else more

  unfoldable pub open_host_libraries : Hosts → Hosts
  open_host_libraries = open_candidates candidates

  -- The address under a name in the handles, in order.
  unfoldable pub search_handles : List ℕ → (name : Bytes) → ℕ
  search_handles [] name = 0
  search_handles (handle ∷ rest) name =
      let later = search_handles rest name in
      let address = linker.dlsym handle name in if not (address == 0) then address else later

  unfoldable pub host_lookup : Hosts → (name : Bytes) → ℕ
  host_lookup hosts name =
      let default = linker.dlsym 0 name in
      let held = search_handles hosts.host_handles name in
      if not (default == 0)
      then default
      else if not (held == 0)
      then held
      else if not (hosts.egl_get_proc_address == 0) && starts (codes "gl") name
      then linker.egl_get_proc_address hosts.egl_get_proc_address name
      else 0

-- `dlclose` of each, the last first.
unfoldable pub close_all : List ℕ → List Event → List Event
close_all [] log = log
close_all (handle ∷ rest) log = closed handle ∷ close_all rest log

unfoldable pub close_host_libraries : Hosts → Hosts
close_host_libraries hosts = record hosts {
  host_handles = [];
  log = close_all hosts.host_handles hosts.log;
}

unfoldable pub nfsmw_relocation_release_hosts : Hosts → Hosts
nfsmw_relocation_release_hosts hosts = record hosts {
  retained_host_handles = [];
  log = close_all hosts.retained_host_handles hosts.log;
}

unfoldable pub retain_host_libraries : Hosts → Hosts
retain_host_libraries hosts =
    let released = nfsmw_relocation_release_hosts hosts in
    record released { retained_host_handles = hosts.host_handles; host_handles = [] }
