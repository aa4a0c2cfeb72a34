-- ===== src/Launch.antt =====
-- main of runtime/src/main.c: the order of the stages, and what is released on each way out. A stage is an
-- action, and `answer` says whether it succeeds, from the actions before it; the stages have models of
-- their own. The test of the GL libraries (`--probe-gl`) is not modelled. Log lines have no effect here.
pub mod Images
pub mod Keeping
pub mod Cleanup
pub mod Readiness
pub mod Guests
mod Tests
use nfsmw_arm_linux.Prelude.{
  ℕ, zero, suc, ◌+◌, Bool, true, false, List, [], ◌∷◌, ◌==◌, ◌&&◌, if◌then◌else◌, Result, ok, err,
  Run, ◌>>◌, guard, modify, pure,
}

pub data Action : Type 0 where
  compat_init probe_symbols platform_probe relocation_probe apply_fmod_patches : Action
  apply_app_patches signal_selftest jni_startup jni_run jni_shutdown compat_finalize : Action
  release_hosts : Action
  map describe run_initializers run_finalizers unmap : (index : ℕ) → Action

-- The actions, newest first, and main's local variables.
pub record Launch : Type 0 where
  pub history : List Action
  pub mapped : ℕ
  pub constructors_started : Bool
  pub constructors_completed : Bool

-- `goto done`.
pub data Failed : Type 0 where
  failed : Failed

-- Whether NFSMW_RUN_CONSTRUCTORS, NFSMW_RUN_JNI and NFSMW_RUN_GAME are set, and whether a module's path
-- fits into the buffer.
pub record Settings : Type 0 where
  pub run_constructors : Bool
  pub run_jni : Bool
  pub run_game : Bool
  pub path_fits : ℕ → Bool

abbrev pub module_count : ℕ
module_count = 5

abbrev pub Stage : Type 0
Stage = Run Failed Launch (Unit {0})

unfoldable pub record_action : Action → Launch → Launch
record_action action s = record s { history = action ∷ s.history }

-- A call whose result is not looked at.
unfoldable pub call : Action → Stage
call action = modify (record_action action)

unfoldable pub when : Bool → Stage → Stage
when true stage = stage
when false stage = pure tt

abbrev pub started : Launch → Launch
started s = record s { constructors_started = true }

abbrev pub completed : Launch → Launch
completed s = record s { constructors_completed = true }

abbrev pub one_more : Launch → Launch
one_more s = record s { mapped = suc s.mapped }

unfoldable pub unmap_modules : (count : ℕ) → Launch → Launch
unmap_modules zero s = record s { mapped = 0 }
unmap_modules (suc count) s = unmap_modules count (record_action (unmap count) s)

abbrev pub launched : Launch
launched = record {
  history = compat_init ∷ [];
  mapped = 0;
  constructors_started = false;
  constructors_completed = false;
}

-- Whether the game is run, and so the process ends by `_exit(0)` after it.
abbrev pub plays : Settings → Bool
plays settings = settings.run_constructors && (settings.run_jni && settings.run_game)

module _ (answer : List Action → Action → Bool) where
  -- A call that leads to `done` where it fails.
  unfoldable pub act : Action → Stage
  act action s =
      let after = record_action action s in
      if answer s.history action then (after, ok tt) else (after, err failed)

  unfoldable pub load_module : Settings → ℕ → Stage
  load_module settings index =
      guard (settings.path_fits index) failed
      >> act (map index)
      >> modify one_more
      >> act (describe index)

  unfoldable pub load_modules : Settings → (count index : ℕ) → Stage
  load_modules settings zero index = pure tt
  load_modules settings (suc count) index =
      load_module settings index >> load_modules settings count (suc index)

  unfoldable pub prepare : Stage
  prepare =
      act probe_symbols
      >> act platform_probe
      >> act relocation_probe
      >> act apply_fmod_patches
      >> act apply_app_patches

  unfoldable pub initialize_modules : (count index : ℕ) → Stage
  initialize_modules zero index = pure tt
  initialize_modules (suc count) index =
      act (run_initializers index) >> initialize_modules count (suc index)

  unfoldable pub play : Settings → Stage
  play settings =
      act jni_startup
      >> when settings.run_game (act jni_run)
      >> when settings.run_game (call jni_shutdown)

  -- From the first constructor on.
  unfoldable pub execute : Settings → Stage
  execute settings =
      modify started
      >> initialize_modules module_count 0
      >> modify completed
      >> when settings.run_jni (play settings)

  -- `unresolved` is the relocation probe's count.
  unfoldable pub construct : (unresolved : ℕ) → Settings → Stage
  construct unresolved settings =
      guard (unresolved == 0) failed >> (act signal_selftest >> execute settings)

  unfoldable pub stages : (unresolved : ℕ) → Settings → Stage
  stages unresolved settings =
      load_modules settings module_count 0
      >> (prepare >> when settings.run_constructors (construct unresolved settings))

  -- The finalizers of the modules below `count`, the last first, up to a failure.
  unfoldable pub finalize_modules : (count : ℕ) → Stage
  finalize_modules zero = pure tt
  finalize_modules (suc count) = act (run_finalizers count) >> finalize_modules count

  -- Once constructors have started, the process ends with its images mapped.
  unfoldable pub finish_started : (code : ℕ) → Launch → Launch × ℕ
  finish_started code s =
      let settled = record_action compat_finalize (record_action jni_shutdown s) in
      let finalized = finalize_modules module_count settled in
      if s.constructors_completed
      then (finalized.0, elim (finalized.1) [ ok done ↦ code | err e ↦ 1 ])
      else (settled, code)

  unfoldable pub finish : (code : ℕ) → Launch → Launch × ℕ
  finish code s =
      let ended = finish_started code s in
      if s.constructors_started
      then ended
      else (record_action release_hosts (unmap_modules s.mapped s), code)

  -- `directory` is whether the one argument is given.
  unfoldable pub main : (unresolved : ℕ) → Settings → (directory : Bool) → Launch × ℕ
  main unresolved settings false = (launched, 2)
  main unresolved settings true =
      let run = stages unresolved settings launched in
      let closed = finish 0 run.0 in
      let aborted = finish 1 run.0 in
      elim (run.1) [ ok done ↦ if plays settings then (run.0, 0) else closed | err e ↦ aborted ]
