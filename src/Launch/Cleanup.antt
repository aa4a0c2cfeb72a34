-- ===== src/Launch/Cleanup.antt =====
-- How main of runtime/src/main.c ends, for the modules it mapped.
use nfsmw_arm_linux.Prelude.{
  ◌==◌, >>-ok, guard, subst, ℕ, zero, suc, ◌≡◌, refl, sym, ap, ◌∙◌, ◌⊎◌, inl, inr, Bool, true,
  false, some, List, [], ◌∷◌, arith, if_holds, Result-cases, ok, err, ◌>>=◌, ◌>>◌, >>-ok, guard,
  subst,
}
use nfsmw_arm_linux.Launch.{
  execute, started, failed, signal_selftest, act, Action, Launch, Settings, module_count, unmap,
  record_action, when, load_modules, prepare, construct, stages, unmap_modules, finish_started,
  finish, launched, plays, main, jni_shutdown, compat_finalize, release_hosts,
}
use nfsmw_arm_linux.Launch.Images.{
  images_after, mapped_images, below, Neutral, Holds, load_modules-Holds, record_action-Holds,
}
use nfsmw_arm_linux.Launch.Keeping.{
  Keeping, prepare-Keeping, construct-Keeping, execute-Keeping, then-Keeping, when-Keeping,
  finalize_modules-Keeping,
}

module _ (answer : List Action → Action → Bool) where
  unmap_modules-images :
      (count : ℕ) (s : Launch)
      → mapped_images answer s.history ≡ some (below count)
      → (mapped_images answer (unmap_modules count s).history ≡ some [])
        × ((unmap_modules count s).constructors_started ≡ s.constructors_started)
  unfolding unmap_modules mapped_images images_after below record_action
  unmap_modules-images zero s h = (h, refl)
  unmap_modules-images (suc count) s h =
      unmap_modules-images count (record_action (unmap count) s) (ground (arith, h))

  launched-Holds : Holds answer 0 launched
  unfolding mapped_images images_after below
  launched-Holds = (refl, refl)

  -- An action that maps and unmaps nothing keeps the modules.
  neutral-Holds :
      (count : ℕ) (action : Action)
      → Neutral action
      → (s : Launch) → Holds answer count s
      → Holds answer count (record_action action s)
  neutral-Holds count action neutral s held = record_action-Holds answer count action s neutral held

  remaining-Keeping :
      (unresolved : ℕ) (settings : Settings) (count : ℕ)
      → Keeping answer
          (Holds answer count)
          Neutral
          (neutral-Holds count)
          (prepare answer >> when settings.run_constructors (construct answer unresolved settings))
  unfolding images_after
  remaining-Keeping unresolved settings count =
      let keeps = neutral-Holds count in
      then-Keeping answer (Holds answer count) Neutral keeps
        (prepare-Keeping answer (Holds answer count) Neutral keeps (λ done images. refl)
          (λ done images. refl) (λ done images. refl) (λ done images. refl) (λ done images. refl))
        (when-Keeping answer (Holds answer count) Neutral keeps settings.run_constructors
          (construct answer unresolved settings)
          (construct-Keeping answer (Holds answer count) Neutral keeps settings
            (λ done images. refl) (λ done images. refl) (λ done images. refl) unresolved
            (λ done images. refl)
            (execute-Keeping answer (Holds answer count) Neutral keeps settings
              (λ done images. refl) (λ done images. refl) (λ done images. refl)
              (λ index done images. refl) (λ s h. h) (λ s h. h))))

  -- The locals after the stages: all modules are mapped where constructors were started, or no stage failed.
  stages-Holds :
      (unresolved : ℕ) (settings : Settings)
      → (loaded : ℕ) × (Holds answer loaded (stages answer unresolved settings launched).0
          × (((stages answer unresolved settings launched).0.constructors_started ≡ true
                → loaded ≡ module_count)
              × ((stages answer unresolved settings launched).1 ≡ ok tt → loaded ≡ module_count)))
  unfolding stages
  stages-Holds unresolved settings =
      let load = load_modules answer settings module_count 0 launched in
      let (fresh, (loaded, (held, all))) =
        load_modules-Holds answer settings module_count 0 launched launched-Holds refl in
      elim (Result-cases load.1) [
        | inr (e, is) ↦
            rw (is, ◌>>=◌)
              (
                loaded,
                (
                  held,
                  (
                    (λ (begun : load.0.constructors_started ≡ true). absurd (cc (fresh, begun))),
                    λ (done : err e ≡ ok tt). absurd (cc done),
                  ),
                ),
              )
        | inl (a, is) ↦
            let rest = remaining-Keeping unresolved settings loaded in
            rw (is, ◌>>=◌) (loaded, (rest.kept load.0 held, ((λ begun. all is), λ done. all is)))
      ]

  finish_started-mapped :
      (code : ℕ) (s : Launch)
      → Holds answer module_count s
      → mapped_images answer (finish_started answer code s).0.history ≡ some (below module_count)
  unfolding finish_started images_after
  finish_started-mapped code s held =
      let settled = record_action compat_finalize (record_action jni_shutdown s) in
      let kept : Holds answer module_count settled =
        record_action-Holds answer module_count compat_finalize (record_action jni_shutdown s)
          (λ done images. refl)
          (record_action-Holds answer module_count jni_shutdown s (λ done images. refl) held) in
      if_holds
        (λ (end : Launch × ℕ). mapped_images answer end.0.history ≡ some (below module_count))
        s.constructors_completed _ _
        (λ done.
          ((finalize_modules-Keeping answer (Holds answer module_count) Neutral
              (neutral-Holds module_count) (λ index done images. refl) module_count).kept
            settled kept).0)
        (λ missed. kept.0)

  -- What is left of the modules at the end: none, and the providers' libraries are released last, where no
  -- constructor was started; all five, the newest first, where one was.
  abbrev pub Ended : Launch → Type 0
  Ended s =
      ((s.constructors_started ≡ false)
        × ((before : List Action) × ((s.history ≡ release_hosts ∷ before)
              × (mapped_images answer s.history ≡ some []))))
      ⊎ ((s.constructors_started ≡ true)
          × (mapped_images answer s.history ≡ some (below module_count)))

  abbrev StartedAt : Bool → Launch → Type 0
  StartedAt begun s = s.constructors_started ≡ begun

  action-started :
      (begun : Bool) (action : Action)
      → Unit {0}
      → (s : Launch) → StartedAt begun s
      → StartedAt begun (record_action action s)
  unfolding record_action
  action-started begun action any s h = h

  finish_started-started :
      (code : ℕ) (s : Launch)
      → (finish_started answer code s).0.constructors_started ≡ s.constructors_started
  unfolding finish_started record_action
  finish_started-started code s =
      if_holds (λ (end : Launch × ℕ). end.0.constructors_started ≡ s.constructors_started)
        s.constructors_completed _ _
        (λ done.
          (finalize_modules-Keeping answer (StartedAt s.constructors_started) (λ _. Unit)
              (action-started s.constructors_started) (λ index. tt) module_count).kept
            (record_action compat_finalize (record_action jni_shutdown s)) refl)
        (λ missed. refl)

  finish-Ended :
      (code loaded : ℕ) (s : Launch)
      → Holds answer loaded s
      → (s.constructors_started ≡ true → loaded ≡ module_count)
      → Ended (finish answer code s).0
  unfolding finish mapped_images images_after record_action
  finish-Ended code loaded s held all =
      if_holds (λ (end : Launch × ℕ). Ended end.0) s.constructors_started _ _
        (λ begun. inr (
          finish_started-started code s ∙ begun,
          finish_started-mapped code s (rw (all begun) at held),
        ))
        (λ fresh.
          let (images, same) =
            unmap_modules-images s.mapped s (held.0 ∙ ap (λ n. some (below n)) (sym held.1)) in
          inl (same ∙ fresh, ((unmap_modules s.mapped s).history, (refl, images))))

  -- Once the constructors stage has succeeded, constructors were started.
  execute-started :
      (settings : Settings) (s : Launch) → StartedAt true (execute answer settings s).0
  unfolding execute
  execute-started settings s =
      (execute-Keeping answer (StartedAt true) (λ _. Unit) (action-started true) settings tt tt tt
          (λ index. tt) (λ t h. refl) (λ t h. h)).kept
        (started s) refl

  construct-started :
      (unresolved : ℕ) (settings : Settings) (s : Launch)
      → (construct answer unresolved settings s).1 ≡ ok tt
      → StartedAt true (construct answer unresolved settings s).0
  unfolding construct
  construct-started unresolved settings s done =
      let ((a, checked), (rest, same)) =
        >>-ok (guard (unresolved == 0) failed)
          (act answer signal_selftest >> execute answer settings) s done in
      let after = (guard {S = Launch} (unresolved == 0) failed s).0 in
      let ((b, tested), (_, same')) =
        >>-ok (act answer signal_selftest) (execute answer settings) after rest in
      subst (StartedAt true) (same' ∙ same)
        (execute-started settings (act answer signal_selftest after).0)

  stages-started :
      (unresolved : ℕ) (settings : Settings)
      → settings.run_constructors ≡ true
      → (stages answer unresolved settings launched).1 ≡ ok tt
      → StartedAt true (stages answer unresolved settings launched).0
  unfolding stages when
  stages-started unresolved settings wanted done =
      let rest =
        prepare answer >> when settings.run_constructors (construct answer unresolved settings) in
      let load = load_modules answer settings module_count 0 in
      let (_, (second, same)) = >>-ok load rest launched done in
      let (_, (third, same')) =
        >>-ok (prepare answer)
          (when settings.run_constructors (construct answer unresolved settings)) (load launched).0
          second in
      subst (StartedAt true) (same' ∙ same)
        (go settings.run_constructors wanted (prepare answer (load launched).0).0 third)
    where
      go :
          (test : Bool)
          → test ≡ true
          → (s : Launch) → (when test (construct answer unresolved settings) s).1 ≡ ok tt
          → StartedAt true (when test (construct answer unresolved settings) s).0
      go true wanted s done = construct-started unresolved settings s done
      go false wanted s done = absurd (cc wanted)

  -- For every outcome of the stages and every setting, given the directory of the modules: at the end of
  -- main, where no constructor was started, no module is mapped, each having been unmapped as the newest of
  -- those then mapped, and the providers' libraries are released last; and where constructors were started,
  -- all five modules are still mapped.
  pub main-Ended :
      (unresolved : ℕ) (settings : Settings) → Ended (main answer unresolved settings true).0
  unfolding main
  main-Ended unresolved settings =
      let (loaded, (held, (begun, done))) = stages-Holds unresolved settings in
      let run = stages answer unresolved settings launched in
      elim (Result-cases run.1) [
        | inr (e, is) ↦ rw (main, is) (finish-Ended 1 loaded run.0 held begun)
        | inl (a, is) ↦
            rw (main, is)
              (if_holds (λ (end : Launch × ℕ). Ended end.0) (plays settings) _ _
                (λ played. inr (
                  stages-started unresolved settings (ground (arith, played)) (is),
                  (rw (done is) at held).0,
                ))
                (λ quiet. finish-Ended 0 loaded run.0 held begun))
      ]
