-- ===== src/Launch/Guests.antt =====
-- When main of runtime/src/main.c runs code of the guest.
use nfsmw_arm_linux.Prelude.{
  ℕ, zero, suc, ◌≡◌, refl, ◌⊎◌, inl, inr, Bool, true, false, List, ◌==◌, arith, if_holds, Result,
  Result-cases, ◌>>◌, >>-state, guard,
}
use nfsmw_arm_linux.Launch.{
  Action, Launch, Settings, module_count, unmap, record_action, act, when, load_modules, prepare,
  execute, construct, stages, unmap_modules, finish_started, finish, launched, plays, main,
  jni_shutdown, compat_finalize, release_hosts, signal_selftest, failed, Failed,
}
use nfsmw_arm_linux.Launch.Readiness.{
  progress, prepared, ready, is_guest, progress_after-ready, prepare-prepared, selftest-ready,
  Guarded,
}
use nfsmw_arm_linux.Launch.Keeping.{
  Keeping, act-Keeping, prepare-Keeping, execute-Keeping, load_modules-Keeping,
  finalize_modules-Keeping,
}

module _ (answer : List Action → Action → Bool) (unresolved : ℕ) where
  abbrev Quiet : Action → Type 0
  Quiet action = is_guest action ≡ false

  -- Before the constructors.
  abbrev Waiting : Launch → Type 0
  Waiting s = Guarded answer unresolved s.history × (s.constructors_started ≡ false)

  -- Once guest code may run.
  abbrev Open : Launch → Type 0
  Open s =
      Guarded answer unresolved s.history
      × ((unresolved ≡ 0) × (ready (progress answer s.history) ≡ true))

  abbrev Settled : Launch → Type 0
  Settled s =
      Guarded answer unresolved s.history
      × ((s.constructors_started ≡ false)
          ⊎ ((unresolved ≡ 0) × (ready (progress answer s.history) ≡ true)))

  record_action-Waiting :
      (action : Action) → Quiet action → (s : Launch) → Waiting s → Waiting (record_action action s)
  unfolding record_action Guarded
  record_action-Waiting action quiet s (guarded, fresh) =
      (((λ guest. absurd (cc (quiet, guest))), guarded), fresh)

  record_action-Open :
      (action : Action) → Unit {0} → (s : Launch) → Open s → Open (record_action action s)
  unfolding record_action Guarded progress
  record_action-Open action any s (guarded, (none_left, is_ready)) = (
    ((λ guest. (none_left, is_ready)), guarded),
    (
      none_left,
      progress_after-ready action (answer s.history action) (progress answer s.history) is_ready,
    ),
  )

  construct-Settled :
      (settings : Settings) (s : Launch)
      → Waiting s
      → prepared (progress answer s.history) ≡ true
      → Settled (construct answer unresolved settings s).0
  unfolding construct is_guest
  construct-Settled settings s waiting done = go (unresolved == 0) refl
    where
      tested : Keeping answer Waiting Quiet record_action-Waiting (act answer signal_selftest)
      tested = act-Keeping answer Waiting Quiet record_action-Waiting signal_selftest refl

      executed : Keeping answer Open (λ _. Unit) record_action-Open (execute answer settings)
      executed =
          execute-Keeping answer Open (λ _. Unit) record_action-Open settings tt tt tt (λ index. tt)
            (λ s h. h) (λ s h. h)

      go :
          (test : Bool)
          → (unresolved == 0) ≡ test
          → Settled
              ((guard test failed >> (act answer signal_selftest >> execute answer settings)) s).0
      go false some_left = (waiting.0, inl waiting.1)
      go true none_left =
          >>-state Settled (act answer signal_selftest) (execute answer settings) s
            (λ e is. let w = tested.kept s waiting in (w.0, inl w.1))
            (λ a is.
              let opened : Open (act answer signal_selftest s).0 = (
                (tested.kept s waiting).0,
                (ground (arith, none_left), selftest-ready answer s done is),
              ) in
              let ended = executed.kept (act answer signal_selftest s).0 opened in
              (ended.0, inr ended.1))

  stages-Settled : (settings : Settings) → Settled (stages answer unresolved settings launched).0
  unfolding stages is_guest Guarded when
  stages-Settled settings =
      >>-state Settled (load_modules answer settings module_count 0)
        (prepare answer >> when settings.run_constructors (construct answer unresolved settings))
        launched (λ e is. quiet load.0 loaded)
        (λ a is.
          >>-state Settled (prepare answer)
            (when settings.run_constructors (construct answer unresolved settings)) load.0
            (λ e is. quiet (prepare answer load.0).0 (preparing.kept load.0 loaded))
            (λ a is.
              go settings.run_constructors (prepare answer load.0).0 (preparing.kept load.0 loaded)
                (prepare-prepared answer load.0 is)))
    where
      load : Launch × Result Failed (Unit {0})
      load = load_modules answer settings module_count 0 launched

      quiet : (s : Launch) → Waiting s → Settled s
      quiet s (guarded, fresh) = (guarded, inl fresh)

      loaded : Waiting load.0
      loaded =
          (load_modules-Keeping answer Waiting Quiet record_action-Waiting settings (λ index. refl)
              (λ index. refl) (λ s h. h) module_count 0).kept
            launched (((λ guest. absurd (cc guest)), tt), refl)

      preparing : Keeping answer Waiting Quiet record_action-Waiting (prepare answer)
      preparing =
          prepare-Keeping answer Waiting Quiet record_action-Waiting refl refl refl refl refl

      go :
          (test : Bool) (s : Launch)
          → Waiting s
          → prepared (progress answer s.history) ≡ true
          → Settled (when test (construct answer unresolved settings) s).0
      go true s waiting done = construct-Settled settings s waiting done
      go false s waiting done = quiet s waiting

  -- An action that is no guest code keeps what is guarded.
  record_action-Guarded :
      (action : Action)
      → Quiet action
      → (s : Launch) → Guarded answer unresolved s.history
      → Guarded answer unresolved (record_action action s).history
  unfolding record_action Guarded
  record_action-Guarded action quiet s guarded = ((λ guest. absurd (cc (quiet, guest))), guarded)

  unmap_modules-Guarded :
      (count : ℕ) (s : Launch)
      → Guarded answer unresolved s.history
      → Guarded answer unresolved (unmap_modules count s).history
  unfolding unmap_modules is_guest
  unmap_modules-Guarded zero s guarded = guarded
  unmap_modules-Guarded (suc count) s guarded =
      unmap_modules-Guarded count (record_action (unmap count) s)
        (record_action-Guarded (unmap count) refl s guarded)

  finish_started-Guarded :
      (code : ℕ) (s : Launch)
      → Open s
      → Guarded answer unresolved (finish_started answer code s).0.history
  unfolding finish_started
  finish_started-Guarded code s opened =
      let shut = record_action jni_shutdown s in
      let settled = record_action compat_finalize shut in
      let kept : Open settled =
        record_action-Open compat_finalize tt shut (record_action-Open jni_shutdown tt s opened) in
      if_holds (λ (end : Launch × ℕ). Guarded answer unresolved end.0.history)
        s.constructors_completed _ _
        (λ done.
          ((finalize_modules-Keeping answer Open (λ _. Unit) record_action-Open (λ index. tt)
              module_count).kept
            settled kept).0)
        (λ missed. kept.0)

  finish-Guarded :
      (code : ℕ) (s : Launch)
      → Settled s
      → Guarded answer unresolved (finish answer code s).0.history
  unfolding finish is_guest
  finish-Guarded code s (guarded, way) =
      if_holds (λ (end : Launch × ℕ). Guarded answer unresolved end.0.history)
        s.constructors_started _ _ (λ begun. opened way begun)
        (λ fresh.
          record_action-Guarded release_hosts refl (unmap_modules s.mapped s)
            (unmap_modules-Guarded s.mapped s guarded))
    where
      opened :
          (s.constructors_started ≡ false)
            ⊎ ((unresolved ≡ 0) × (ready (progress answer s.history) ≡ true))
          → s.constructors_started ≡ true
          → Guarded answer unresolved (finish_started answer code s).0.history
      opened (inl fresh) begun = absurd (cc (fresh, begun))
      opened (inr is_ready) begun = finish_started-Guarded code s (guarded, is_ready)

-- For every outcome of the stages, every count of unresolved relocations and every setting: whenever main
-- runs code of the guest (a module's initializers or finalizers, the functions that were registered for the
-- exit, the start of the JNI or the game), no relocation is unresolved, and the provider census, the probe
-- of the host, the relocation, both patches and the test of the signal bridge have succeeded before.
pub main-Guarded :
    (answer : List Action → Action → Bool) (unresolved : ℕ) (settings : Settings) (directory : Bool)
    → Guarded answer unresolved (main answer unresolved settings directory).0.history
unfolding main is_guest Guarded
main-Guarded answer unresolved settings false = ((λ guest. absurd (cc guest)), tt)
main-Guarded answer unresolved settings true =
    let run = stages answer unresolved settings launched in
    let settled = stages-Settled answer unresolved settings in
    elim (Result-cases run.1) [
      | inr (e, is) ↦ rw (main, is) (finish-Guarded answer unresolved 1 run.0 settled)
      | inl (a, is) ↦
          rw (main, is)
            (if_holds (λ (end : Launch × ℕ). Guarded answer unresolved end.0.history)
              (plays settings) _ _ (λ played. settled.0)
              (λ quiet. finish-Guarded answer unresolved 0 run.0 settled))
    ]
