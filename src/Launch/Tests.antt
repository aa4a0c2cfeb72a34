-- ===== src/Launch/Tests.antt =====
-- Runs of main.
use nfsmw_arm_linux.Prelude.{◌≡◌, refl, Bool, true, List, [], ◌∷◌, ◌==◌, not}
use nfsmw_arm_linux.Launch.{
  Action, Settings, main, compat_init, map, describe, unmap, release_hosts, stages, load_modules,
  load_module, act, record_action, finish, finish_started, unmap_modules,
}
use nfsmw_arm_linux.Launch.Readiness.{Guarded}
use nfsmw_arm_linux.Launch.Guests.{main-Guarded}
use nfsmw_arm_linux.Launch.Cleanup.{Ended, main-Ended}

abbrev playing : Settings
playing = record {
  run_constructors = true;
  run_jni = true;
  run_game = true;
  path_fits = λ index. true;
}

-- The description of the second module fails, and nothing else.
abbrev misdescribed : List Action → Action → Bool
misdescribed before (describe index) = not (index == 1)
misdescribed before action = true

abbrev obliging : List Action → Action → Bool
obliging before action = true

undone :
    (main misdescribed 0 playing true).0.history
    ≡ release_hosts ∷ unmap 0 ∷ unmap 1 ∷ describe 1 ∷ map 1 ∷ describe 0 ∷ map 0 ∷ compat_init ∷ []
unfolding main stages load_modules load_module act record_action finish finish_started unmap_modules
undone = refl

main-Ended_example : Ended misdescribed (main misdescribed 0 playing true).0
main-Ended_example = main-Ended misdescribed 0 playing

main-Guarded_example : Guarded obliging 0 (main obliging 0 playing true).0.history
main-Guarded_example = main-Guarded obliging 0 playing true
