-- ===== src/Launch/Readiness.antt =====
-- What main of runtime/src/main.c has found out before guest code may run.
use nfsmw_arm_linux.Prelude.{ℕ, ◌≡◌, Bool, true, false, ◌||◌, ◌&&◌, List, [], ◌∷◌, arith, ok}
use nfsmw_arm_linux.Launch.{
  Action, Launch, record_action, act, prepare, compat_init, probe_symbols, platform_probe,
  relocation_probe, apply_fmod_patches, apply_app_patches, signal_selftest, jni_startup, jni_run,
  jni_shutdown, compat_finalize, release_hosts, map, describe, run_initializers, run_finalizers,
  unmap,
}

-- The stages that have succeeded.
pub record Progress : Type 0 where
  pub surveyed : Bool
  pub hosted : Bool
  pub relocated : Bool
  pub fmod_patched : Bool
  pub app_patched : Bool
  pub signals_tested : Bool

abbrev pub no_progress : Progress
no_progress = record {
  surveyed = false;
  hosted = false;
  relocated = false;
  fmod_patched = false;
  app_patched = false;
  signals_tested = false;
}

unfoldable pub progress_after : Action → Bool → Progress → Progress
progress_after probe_symbols done p = record p { surveyed = done || p.surveyed }
progress_after platform_probe done p = record p { hosted = done || p.hosted }
progress_after relocation_probe done p = record p { relocated = done || p.relocated }
progress_after apply_fmod_patches done p = record p { fmod_patched = done || p.fmod_patched }
progress_after apply_app_patches done p = record p { app_patched = done || p.app_patched }
progress_after signal_selftest done p = record p { signals_tested = done || p.signals_tested }
progress_after action done p = p

unfoldable pub progress : (List Action → Action → Bool) → List Action → Progress
progress answer [] = no_progress
progress answer (action ∷ before) =
    progress_after action (answer before action) (progress answer before)

abbrev pub prepared : Progress → Bool
prepared p = p.surveyed && (p.hosted && (p.relocated && (p.fmod_patched && p.app_patched)))

abbrev pub ready : Progress → Bool
ready p = prepared p && p.signals_tested

-- The actions that run code of the guest's modules.
unfoldable pub is_guest : Action → Bool
is_guest (run_initializers index) = true
is_guest (run_finalizers index) = true
is_guest jni_startup = true
is_guest jni_run = true
is_guest compat_finalize = true
is_guest action = false

pub progress_after-ready :
    (action : Action) (done : Bool) (p : Progress)
    → ready p ≡ true
    → ready (progress_after action done p) ≡ true
unfolding progress_after
progress_after-ready compat_init done p h = h
progress_after-ready probe_symbols done p h = ground arith
progress_after-ready platform_probe done p h = ground arith
progress_after-ready relocation_probe done p h = ground arith
progress_after-ready apply_fmod_patches done p h = ground arith
progress_after-ready apply_app_patches done p h = ground arith
progress_after-ready signal_selftest done p h = ground arith
progress_after-ready jni_startup done p h = h
progress_after-ready jni_run done p h = h
progress_after-ready jni_shutdown done p h = h
progress_after-ready compat_finalize done p h = h
progress_after-ready release_hosts done p h = h
progress_after-ready (map index) done p h = h
progress_after-ready (describe index) done p h = h
progress_after-ready (run_initializers index) done p h = h
progress_after-ready (run_finalizers index) done p h = h
progress_after-ready (unmap index) done p h = h

module _ (answer : List Action → Action → Bool) where
  pub prepare-prepared :
      (s : Launch)
      → (prepare answer s).1 ≡ ok tt
      → prepared (progress answer (prepare answer s).0.history) ≡ true
  unfolding prepare act record_action progress progress_after
  prepare-prepared s h = ground arith

  pub selftest-ready :
      (s : Launch)
      → prepared (progress answer s.history) ≡ true
      → (act answer signal_selftest s).1 ≡ ok tt
      → ready (progress answer (act answer signal_selftest s).0.history) ≡ true
  unfolding act record_action progress progress_after
  selftest-ready s h done = ground arith

  -- Guest code runs only after everything before it succeeded, with no relocation left unresolved.
  unfoldable pub Guarded : (unresolved : ℕ) → List Action → Type 0
  Guarded unresolved [] = Unit
  Guarded unresolved (action ∷ before) =
      (is_guest action ≡ true → (unresolved ≡ 0) × (ready (progress answer before) ≡ true))
      × Guarded unresolved before
