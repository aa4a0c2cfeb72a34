-- ===== src/Audio/Handles.antt =====
-- Libraries that the guest opens by compat_dlopen of compat_bridge.c.
use nfsmw_arm_linux.Prelude.{
  ℕ, ◌≡◌, ◌≢◌, Bool, false, ◌||◌, Option, none, some, if◌then◌else◌, Bytes, codes, same_bytes,
  arith,
}
use nfsmw_arm_linux.Audio.Objects.{
  Export, nfsmw_opensl_dlsym, nfsmw_opensl_is_handle, compat_dlopen, compat_dlsym, compat_dlclose,
}

abbrev is_opensl : Option Bytes → Bool
is_opensl none = false
is_opensl (some name) =
    same_bytes name (codes "libOpenSLES.so") || same_bytes name (codes "libOpenSLES.so.1")

unfoldable pub bridge_address : (address : Export → ℕ) → Option Export → ℕ
bridge_address address none = 0
bridge_address address (some export) = address export

-- Where the host's dlopen never returns the address of the bridge's token: the symbols of a library opened
-- by one of the two names of OpenSL ES are the bridge's, and closing it does nothing; the symbols of any
-- other library, and its closing, are the host's.
pub compat_dlsym-dlopen :
    (token : ℕ) (dlopen : Option Bytes → ℕ → ℕ) (dlsym : ℕ → Option Bytes → ℕ) (dlclose : ℕ → ℕ)
    (address : Export → ℕ) (library : Option Bytes) (flags : ℕ) (symbol : Option Bytes)
    → dlopen library flags ≢ token
    → (compat_dlsym token dlsym address (compat_dlopen token dlopen library flags) symbol ≡ (
        if is_opensl library
        then bridge_address address (nfsmw_opensl_dlsym symbol)
        else dlsym (dlopen library flags) symbol))
      × (compat_dlclose token dlclose (compat_dlopen token dlopen library flags)
          ≡ (if is_opensl library then 0 else dlclose (dlopen library flags)))
unfolding compat_dlopen compat_dlsym compat_dlclose nfsmw_opensl_is_handle bridge_address
compat_dlsym-dlopen token dlopen dlsym dlclose address none flags symbol apart = ground arith
compat_dlsym-dlopen token dlopen dlsym dlclose address (some name) flags symbol apart = ground arith
