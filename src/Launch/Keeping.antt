-- ===== src/Launch/Keeping.antt =====
-- What the stages of main of runtime/src/main.c keep, when each action they may do keeps it.
use nfsmw_arm_linux.Prelude.{
  ℕ, zero, suc, Bool, true, false, List, ◌==◌, ◌>>◌, modify, guard, Keeps, bind-Keeps, arith,
}
use nfsmw_arm_linux.Launch.{
  Action, Launch, Stage, Settings, failed, started, completed, one_more, map, describe, load_module,
  load_modules, module_count, record_action, call, when, act, prepare, initialize_modules, play,
  execute, construct, finalize_modules, jni_startup, jni_run, jni_shutdown, probe_symbols,
  platform_probe, relocation_probe, apply_fmod_patches, apply_app_patches, signal_selftest,
  run_initializers, run_finalizers,
}

module _ (answer : List Action → Action → Bool) (P : Launch → Type 0) (Allowed : Action → Type 0)
    (keeps : (action : Action)
      → Allowed action
      → (s : Launch) → P s
      → P (record_action action s)) where
  pub record Keeping (stage : Stage) : Type 0 where
    pub kept : Keeps P stage

  pub act-Keeping : (action : Action) → Allowed action → Keeping (act answer action)
  unfolding act
  act-Keeping action allowed = record { kept = λ s h. ground (arith, keeps action allowed s h) }

  pub then-Keeping :
      {first second : Stage} → Keeping first → Keeping second → Keeping (first >> second)
  then-Keeping {first} {second} h k = record {
    kept = bind-Keeps P first (λ _. second) h.kept (λ _. k.kept);
  }

  pub when-Keeping : (test : Bool) (stage : Stage) → Keeping stage → Keeping (when test stage)
  unfolding when
  when-Keeping true stage h = h
  when-Keeping false stage h = record { kept = λ s held. held }

  guard-Keeping : (test : Bool) → Keeping (guard test failed)
  guard-Keeping true = record { kept = λ s held. held }
  guard-Keeping false = record { kept = λ s held. held }

  call-Keeping : (action : Action) → Allowed action → Keeping (call action)
  unfolding call
  call-Keeping action allowed = record { kept = keeps action allowed }

  modify-Keeping :
      (change : Launch → Launch) → ((s : Launch) → P s → P (change s)) → Keeping (modify change)
  modify-Keeping change h = record { kept = h }

  module _ (settings : Settings) (image : (index : ℕ) → Allowed (map index))
      (text : (index : ℕ) → Allowed (describe index))
      (counted : (s : Launch) → P s → P (one_more s)) where
    pub load_modules-Keeping :
        (count index : ℕ) → Keeping (load_modules answer settings count index)
    unfolding load_modules load_module
    load_modules-Keeping zero index = record { kept = λ s held. held }
    load_modules-Keeping (suc count) index =
        then-Keeping
          (then-Keeping
            (then-Keeping
              (then-Keeping (guard-Keeping (settings.path_fits index))
                (act-Keeping (map index) (image index)))
              (modify-Keeping one_more counted))
            (act-Keeping (describe index) (text index)))
          (load_modules-Keeping count (suc index))

  initialize_modules-Keeping :
      ((index : ℕ) → Allowed (run_initializers index))
      → (count index : ℕ) → Keeping (initialize_modules answer count index)
  unfolding initialize_modules
  initialize_modules-Keeping allowed zero index = record { kept = λ s held. held }
  initialize_modules-Keeping allowed (suc count) index =
      then-Keeping (act-Keeping (run_initializers index) (allowed index))
        (initialize_modules-Keeping allowed count (suc index))

  pub finalize_modules-Keeping :
      ((index : ℕ) → Allowed (run_finalizers index))
      → (count : ℕ) → Keeping (finalize_modules answer count)
  unfolding finalize_modules
  finalize_modules-Keeping allowed zero = record { kept = λ s held. held }
  finalize_modules-Keeping allowed (suc count) =
      then-Keeping (act-Keeping (run_finalizers count) (allowed count))
        (finalize_modules-Keeping allowed count)

  pub prepare-Keeping :
      Allowed probe_symbols
      → Allowed platform_probe
      → Allowed relocation_probe
      → Allowed apply_fmod_patches
      → Allowed apply_app_patches
      → Keeping (prepare answer)
  unfolding prepare
  prepare-Keeping symbols platform relocation fmod app =
      then-Keeping
        (then-Keeping
          (then-Keeping
            (then-Keeping (act-Keeping probe_symbols symbols) (act-Keeping platform_probe platform))
            (act-Keeping relocation_probe relocation))
          (act-Keeping apply_fmod_patches fmod))
        (act-Keeping apply_app_patches app)

  module _ (settings : Settings) (startup : Allowed jni_startup) (run : Allowed jni_run)
      (shutdown : Allowed jni_shutdown) where
    play-Keeping : Keeping (play answer settings)
    unfolding play
    play-Keeping =
        then-Keeping
          (then-Keeping (act-Keeping jni_startup startup)
            (when-Keeping settings.run_game (act answer jni_run) (act-Keeping jni_run run)))
          (when-Keeping settings.run_game (call jni_shutdown) (call-Keeping jni_shutdown shutdown))

    -- The constructors and what follows, once they may start.
    pub execute-Keeping :
        ((index : ℕ) → Allowed (run_initializers index))
        → ((s : Launch) → P s → P (started s))
        → ((s : Launch) → P s → P (completed s))
        → Keeping (execute answer settings)
    unfolding execute
    execute-Keeping initializers begin complete =
        then-Keeping
          (then-Keeping
            (then-Keeping (modify-Keeping started begin)
              (initialize_modules-Keeping initializers module_count 0))
            (modify-Keeping completed complete))
          (when-Keeping settings.run_jni (play answer settings) play-Keeping)

    pub construct-Keeping :
        (unresolved : ℕ)
        → Allowed signal_selftest
        → Keeping (execute answer settings)
        → Keeping (construct answer unresolved settings)
    unfolding construct
    construct-Keeping unresolved selftest rest =
        then-Keeping (guard-Keeping (unresolved == 0))
          (then-Keeping (act-Keeping signal_selftest selftest) rest)
