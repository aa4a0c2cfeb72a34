-- ===== src/Compat/Resolve.antt =====
-- nfsmw_compat_resolve of compat_bridge.c: the address that stands for a name of the guest's C library.
use nfsmw_arm_linux.Prelude.{
  ℕ, Option, none, some, List, [], ◌∷◌, if◌then◌else◌, Bytes, codes, same_bytes,
}

-- A name of the guest and the object whose address it gets.
abbrev pub Symbol : Type 0
Symbol = Bytes × Bytes

-- Addresses are the linker's; NULL is 0. The first row that has the name decides.
unfoldable pub resolve_in : (address : Bytes → ℕ) → List Symbol → (name : Bytes) → ℕ
resolve_in address [] name = 0
resolve_in address ((symbol, object) ∷ rest) name =
    let below = resolve_in address rest name in
    if same_bytes name symbol then address object else below

-- The three tables and the functions, in the order of the tests.
abbrev pub compat_symbols : List Symbol
compat_symbols =
    (codes "__sF", codes "bionic_files")
    ∷ (codes "_ctype_", codes "ctype_pointer")
    ∷ (codes "_tolower_tab_", codes "tolower_pointer")
    ∷ (codes "__errno", codes "compat_errno")
    ∷ (codes "abort", codes "compat_abort")
    ∷ (codes "__assert2", codes "compat_assert2")
    ∷ (codes "clock_gettime", codes "compat_clock_gettime")
    ∷ (codes "gettimeofday", codes "compat_gettimeofday")
    ∷ (codes "dlopen", codes "compat_dlopen")
    ∷ (codes "dlsym", codes "compat_dlsym")
    ∷ (codes "dlclose", codes "compat_dlclose")
    ∷ (codes "fclose", codes "compat_fclose")
    ∷ (codes "fdopen", codes "compat_fdopen")
    ∷ (codes "fflush", codes "compat_fflush")
    ∷ (codes "fopen", codes "compat_fopen")
    ∷ (codes "fprintf", codes "compat_fprintf")
    ∷ (codes "fread", codes "compat_fread")
    ∷ (codes "fseek", codes "compat_fseek")
    ∷ (codes "fseeko", codes "compat_fseeko")
    ∷ (codes "ftell", codes "compat_ftell")
    ∷ (codes "ftello", codes "compat_ftello")
    ∷ (codes "fwide", codes "compat_fwide")
    ∷ (codes "fwrite", codes "compat_fwrite")
    ∷ (codes "vfprintf", codes "compat_vfprintf")
    ∷ (codes "stat", codes "compat_stat")
    ∷ (codes "statfs", codes "compat_statfs")
    ∷ (codes "opendir", codes "compat_opendir")
    ∷ (codes "closedir", codes "compat_closedir")
    ∷ (codes "readdir", codes "compat_readdir")
    ∷ (codes "readdir_r", codes "compat_readdir_r")
    ∷ (codes "__android_log_print", codes "compat_android_log_print")
    ∷ (codes "__android_log_write", codes "compat_android_log_write")
    ∷ (codes "__android_log_assert", codes "compat_android_log_assert")
    ∷ (codes "AndroidBitmap_getInfo", codes "compat_android_bitmap_get_info")
    ∷ (codes "AndroidBitmap_lockPixels", codes "compat_android_bitmap_lock")
    ∷ (codes "AndroidBitmap_unlockPixels", codes "compat_android_bitmap_unlock")
    ∷ (codes "__cxa_atexit", codes "compat_cxa_atexit")
    ∷ (codes "__cxa_finalize", codes "compat_cxa_finalize")
    ∷ (codes "__cxa_thread_atexit_impl", codes "compat_cxa_thread_atexit")
    ∷ (codes "pthread_mutexattr_init", codes "compat_mutexattr_init")
    ∷ (codes "pthread_mutexattr_destroy", codes "compat_mutexattr_destroy")
    ∷ (codes "pthread_mutexattr_settype", codes "compat_mutexattr_settype")
    ∷ (codes "pthread_mutexattr_setpshared", codes "compat_mutexattr_setpshared")
    ∷ (codes "pthread_mutex_init", codes "compat_pthread_mutex_init")
    ∷ (codes "pthread_mutex_destroy", codes "compat_pthread_mutex_destroy")
    ∷ (codes "pthread_mutex_lock", codes "compat_pthread_mutex_lock")
    ∷ (codes "pthread_mutex_unlock", codes "compat_pthread_mutex_unlock")
    ∷ (codes "pthread_mutex_trylock", codes "compat_pthread_mutex_trylock")
    ∷ (codes "pthread_cond_init", codes "compat_pthread_cond_init")
    ∷ (codes "pthread_cond_destroy", codes "compat_pthread_cond_destroy")
    ∷ (codes "pthread_cond_signal", codes "compat_pthread_cond_signal")
    ∷ (codes "pthread_cond_broadcast", codes "compat_pthread_cond_broadcast")
    ∷ (codes "pthread_cond_wait", codes "compat_pthread_cond_wait")
    ∷ (codes "pthread_cond_timedwait", codes "compat_pthread_cond_timedwait")
    ∷ (codes "pthread_rwlock_init", codes "compat_pthread_rwlock_init")
    ∷ (codes "pthread_rwlock_destroy", codes "compat_pthread_rwlock_destroy")
    ∷ (codes "pthread_rwlock_rdlock", codes "compat_pthread_rwlock_rdlock")
    ∷ (codes "pthread_rwlock_wrlock", codes "compat_pthread_rwlock_wrlock")
    ∷ (codes "pthread_rwlock_unlock", codes "compat_pthread_rwlock_unlock")
    ∷ (codes "pthread_attr_init", codes "compat_pthread_attr_init")
    ∷ (codes "pthread_attr_destroy", codes "compat_pthread_attr_destroy")
    ∷ (codes "pthread_attr_setstacksize", codes "compat_pthread_attr_setstacksize")
    ∷ (codes "pthread_attr_setstack", codes "compat_pthread_attr_setstack")
    ∷ (codes "pthread_attr_getstack", codes "compat_pthread_attr_getstack")
    ∷ (codes "pthread_attr_setschedparam", codes "compat_pthread_attr_setschedparam")
    ∷ (codes "pthread_attr_setschedpolicy", codes "compat_pthread_attr_setschedpolicy")
    ∷ (codes "pthread_attr_setdetachstate", codes "compat_pthread_attr_setdetachstate")
    ∷ (codes "pthread_create", codes "compat_pthread_create")
    ∷ (codes "pthread_self", codes "compat_pthread_self")
    ∷ (codes "pthread_equal", codes "compat_pthread_equal")
    ∷ (codes "pthread_join", codes "compat_pthread_join")
    ∷ (codes "pthread_detach", codes "compat_pthread_detach")
    ∷ (codes "pthread_exit", codes "compat_pthread_exit")
    ∷ (codes "pthread_setschedparam", codes "compat_pthread_setschedparam")
    ∷ (codes "pthread_getschedparam", codes "compat_pthread_getschedparam")
    ∷ (codes "pthread_getattr_np", codes "compat_pthread_getattr_np")
    ∷ (codes "pthread_once", codes "compat_pthread_once")
    ∷ (codes "pthread_key_create", codes "compat_pthread_key_create")
    ∷ (codes "pthread_key_delete", codes "compat_pthread_key_delete")
    ∷ (codes "pthread_setspecific", codes "compat_pthread_setspecific")
    ∷ (codes "pthread_getspecific", codes "compat_pthread_getspecific")
    ∷ (codes "sem_init", codes "compat_sem_init")
    ∷ (codes "sem_destroy", codes "compat_sem_destroy")
    ∷ (codes "sem_wait", codes "compat_sem_wait")
    ∷ (codes "sem_post", codes "compat_sem_post")
    ∷ (codes "sem_trywait", codes "compat_sem_trywait")
    ∷ (codes "sem_getvalue", codes "compat_sem_getvalue")
    ∷ (codes "sem_timedwait", codes "compat_sem_timedwait")
    ∷ (codes "sigaction", codes "compat_sigaction")
    ∷ (codes "sigprocmask", codes "compat_sigprocmask")
    ∷ (codes "setjmp", codes "nfsmw_bionic_setjmp")
    ∷ (codes "sigsetjmp", codes "nfsmw_bionic_sigsetjmp")
    ∷ (codes "longjmp", codes "nfsmw_bionic_longjmp")
    ∷ (codes "siglongjmp", codes "nfsmw_bionic_siglongjmp")
    ∷ []

unfoldable pub nfsmw_compat_resolve : (address : Bytes → ℕ) → (name : Option Bytes) → ℕ
nfsmw_compat_resolve address none = 0
nfsmw_compat_resolve address (some name) = resolve_in address compat_symbols name
