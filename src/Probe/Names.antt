-- ===== src/Probe/Names.antt =====
-- The name lists of symbol_probe.c, and the table of softfp_symbols.c.
pub mod Providers
use nfsmw_arm_linux.Prelude.{
  ℕ, Bool, true, false, ◌||◌, Option, none, some, List, [], ◌∷◌, Bytes, codes, same_bytes,
  strip_prefix,
}
use nfsmw_arm_linux.Compat.Resolve.{Symbol, resolve_in}

unfoldable pub in_list : (name : Bytes) → List Bytes → Bool
in_list name [] = false
in_list name (listed ∷ rest) = same_bytes name listed || in_list name rest

-- `strncmp(name, prefix, strlen(prefix)) == 0`.
unfoldable pub starts : (prefix name : Bytes) → Bool
starts prefix name = elim (strip_prefix prefix name) [ some _ ↦ true | none ↦ false ]

abbrev pub softfp_names : List Bytes
softfp_names =
    codes "glBlendColor"
    ∷ codes "glClearColor"
    ∷ codes "glClearDepthf"
    ∷ codes "glDepthRangef"
    ∷ codes "glLineWidth"
    ∷ codes "glPolygonOffset"
    ∷ codes "glSampleCoverage"
    ∷ codes "glTexParameterf"
    ∷ codes "glUniform1f"
    ∷ codes "glUniform2f"
    ∷ codes "glUniform3f"
    ∷ codes "glUniform4f"
    ∷ codes "glVertexAttrib1f"
    ∷ codes "glVertexAttrib2f"
    ∷ codes "glVertexAttrib3f"
    ∷ codes "glVertexAttrib4f"
    ∷ codes "acos"
    ∷ codes "acosf"
    ∷ codes "asinf"
    ∷ codes "atan2"
    ∷ codes "atan2f"
    ∷ codes "ceil"
    ∷ codes "ceilf"
    ∷ codes "cos"
    ∷ codes "cosf"
    ∷ codes "exp"
    ∷ codes "expf"
    ∷ codes "floor"
    ∷ codes "floorf"
    ∷ codes "fmod"
    ∷ codes "fmodf"
    ∷ codes "frexp"
    ∷ codes "ldexp"
    ∷ codes "log"
    ∷ codes "log10"
    ∷ codes "log10f"
    ∷ codes "lrintf"
    ∷ codes "modf"
    ∷ codes "pow"
    ∷ codes "powf"
    ∷ codes "rint"
    ∷ codes "roundf"
    ∷ codes "sin"
    ∷ codes "sinf"
    ∷ codes "sqrt"
    ∷ codes "sqrtf"
    ∷ codes "strtod"
    ∷ codes "tan"
    ∷ codes "tanf"
    ∷ []

unfoldable pub nfsmw_symbol_requires_softfp : (name : Bytes) → Bool
nfsmw_symbol_requires_softfp name = in_list name softfp_names

abbrev pub bridge_names : List Bytes
bridge_names =
    codes "__errno"
    ∷ codes "__sF"
    ∷ codes "_ctype_"
    ∷ codes "_tolower_tab_"
    ∷ codes "closedir"
    ∷ codes "fclose"
    ∷ codes "fdopen"
    ∷ codes "fflush"
    ∷ codes "fopen"
    ∷ codes "fprintf"
    ∷ codes "fread"
    ∷ codes "fseek"
    ∷ codes "fseeko"
    ∷ codes "ftell"
    ∷ codes "ftello"
    ∷ codes "fwide"
    ∷ codes "fwrite"
    ∷ codes "lstat"
    ∷ codes "opendir"
    ∷ codes "readdir"
    ∷ codes "readdir_r"
    ∷ codes "sigaction"
    ∷ codes "sigprocmask"
    ∷ codes "stat"
    ∷ codes "statfs"
    ∷ codes "vfprintf"
    ∷ codes "setjmp"
    ∷ codes "sigsetjmp"
    ∷ codes "longjmp"
    ∷ codes "siglongjmp"
    ∷ []

unfoldable pub nfsmw_symbol_requires_bionic_bridge : (name : Bytes) → Bool
nfsmw_symbol_requires_bionic_bridge name =
    starts (codes "pthread_") name
    || (starts (codes "sem_") name
        || (starts (codes "__pthread_") name
            || (starts (codes "__android_log_") name
                || (starts (codes "AndroidBitmap_") name || in_list name bridge_names))))

-- The guest's name and the bridge's.
abbrev pub softfp_symbols : List Symbol
softfp_symbols =
    (codes "glBlendColor", codes "nfsmw_glBlendColor")
    ∷ (codes "glClearColor", codes "nfsmw_glClearColor")
    ∷ (codes "glClearDepthf", codes "nfsmw_glClearDepthf")
    ∷ (codes "glDepthRangef", codes "nfsmw_glDepthRangef")
    ∷ (codes "glLineWidth", codes "nfsmw_glLineWidth")
    ∷ (codes "glPolygonOffset", codes "nfsmw_glPolygonOffset")
    ∷ (codes "glSampleCoverage", codes "nfsmw_glSampleCoverage")
    ∷ (codes "glTexParameterf", codes "nfsmw_glTexParameterf")
    ∷ (codes "glUniform1f", codes "nfsmw_glUniform1f")
    ∷ (codes "glUniform2f", codes "nfsmw_glUniform2f")
    ∷ (codes "glUniform3f", codes "nfsmw_glUniform3f")
    ∷ (codes "glUniform4f", codes "nfsmw_glUniform4f")
    ∷ (codes "glVertexAttrib1f", codes "nfsmw_glVertexAttrib1f")
    ∷ (codes "glVertexAttrib2f", codes "nfsmw_glVertexAttrib2f")
    ∷ (codes "glVertexAttrib3f", codes "nfsmw_glVertexAttrib3f")
    ∷ (codes "glVertexAttrib4f", codes "nfsmw_glVertexAttrib4f")
    ∷ (codes "acos", codes "nfsmw_acos")
    ∷ (codes "acosf", codes "nfsmw_acosf")
    ∷ (codes "asinf", codes "nfsmw_asinf")
    ∷ (codes "atan2", codes "nfsmw_atan2")
    ∷ (codes "atan2f", codes "nfsmw_atan2f")
    ∷ (codes "ceil", codes "nfsmw_ceil")
    ∷ (codes "ceilf", codes "nfsmw_ceilf")
    ∷ (codes "cos", codes "nfsmw_cos")
    ∷ (codes "cosf", codes "nfsmw_cosf")
    ∷ (codes "exp", codes "nfsmw_exp")
    ∷ (codes "expf", codes "nfsmw_expf")
    ∷ (codes "floor", codes "nfsmw_floor")
    ∷ (codes "floorf", codes "nfsmw_floorf")
    ∷ (codes "fmod", codes "nfsmw_fmod")
    ∷ (codes "fmodf", codes "nfsmw_fmodf")
    ∷ (codes "frexp", codes "nfsmw_frexp")
    ∷ (codes "ldexp", codes "nfsmw_ldexp")
    ∷ (codes "log", codes "nfsmw_log")
    ∷ (codes "log10", codes "nfsmw_log10")
    ∷ (codes "log10f", codes "nfsmw_log10f")
    ∷ (codes "lrintf", codes "nfsmw_lrintf")
    ∷ (codes "modf", codes "nfsmw_modf")
    ∷ (codes "pow", codes "nfsmw_pow")
    ∷ (codes "powf", codes "nfsmw_powf")
    ∷ (codes "rint", codes "nfsmw_rint")
    ∷ (codes "roundf", codes "nfsmw_roundf")
    ∷ (codes "sin", codes "nfsmw_sin")
    ∷ (codes "sinf", codes "nfsmw_sinf")
    ∷ (codes "sqrt", codes "nfsmw_sqrt")
    ∷ (codes "sqrtf", codes "nfsmw_sqrtf")
    ∷ (codes "strtod", codes "nfsmw_strtod")
    ∷ (codes "tan", codes "nfsmw_tan")
    ∷ (codes "tanf", codes "nfsmw_tanf")
    ∷ []

unfoldable pub nfsmw_softfp_resolve : (address : Bytes → ℕ) → (name : Bytes) → ℕ
nfsmw_softfp_resolve address name = resolve_in address softfp_symbols name
