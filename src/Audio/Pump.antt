-- ===== src/Audio/Pump.antt =====
-- The pump of opensl_bridge.c and the callback that it calls.
use nfsmw_arm_linux.Prelude.{
  ℕ, zero, suc, ◌≡◌, refl, sym, ap, ◌∙◌, inl, inr, true, false, Option, none, some, List, [], ◌∷◌,
  arith, Bool-cases,
}
use nfsmw_arm_linux.Audio.{
  Sdl, Sound, Operation, create_player, enqueue, register, set_state, destroy, pump,
  nfsmw_platform_runtime_audio_start, nfsmw_platform_runtime_audio_queue,
  engine_create_audio_player, queue_enqueue, queue_register_callback, play_set_state,
  object_destroy, due, perform, perform_all, call_back, pump_once, nfsmw_opensl_pump,
}

module _ {W : Type 0} (api : Sdl W) where
  perform-active :
      (operation : Operation) (s : Sound W)
      → s.callback_active ≡ true
      → (perform api (λ t. t) operation s).callback_active ≡ true
  unfolding perform nfsmw_platform_runtime_audio_start nfsmw_platform_runtime_audio_queue
      engine_create_audio_player queue_enqueue queue_register_callback play_set_state object_destroy
  perform-active (create_player wanted format) s h = ground arith
  perform-active (enqueue buffer size) s h = ground arith
  perform-active (register callback) s h = h
  perform-active (set_state state) s h = h
  perform-active (destroy player) s h = ground arith
  perform-active pump s h = h

  perform_inner :
      (inner : Sound W → Sound W)
      → ((s : Sound W) → s.callback_active ≡ true → inner s ≡ s)
      → (operation : Operation) (s : Sound W) → s.callback_active ≡ true
      → perform api inner operation s ≡ perform api (λ t. t) operation s
  unfolding perform
  perform_inner inner idle (create_player wanted format) s h = refl
  perform_inner inner idle (enqueue buffer size) s h = refl
  perform_inner inner idle (register callback) s h = refl
  perform_inner inner idle (set_state state) s h = refl
  perform_inner inner idle (destroy player) s h = refl
  perform_inner inner idle pump s h = idle s h

  perform_all_inner :
      (inner : Sound W → Sound W)
      → ((s : Sound W) → s.callback_active ≡ true → inner s ≡ s)
      → (operations : List Operation) (s : Sound W) → s.callback_active ≡ true
      → perform_all api inner operations s ≡ perform_all api (λ t. t) operations s
  unfolding perform_all
  perform_all_inner inner idle [] s h = refl
  perform_all_inner inner idle (operation ∷ rest) s h =
      ap (perform_all api inner rest) (perform_inner inner idle operation s h)
      ∙ perform_all_inner inner idle rest (perform api (λ t. t) operation s)
          (perform-active operation s h)

  due-active : (s : Sound W) → s.callback_active ≡ true → due api s ≡ none
  unfolding due
  due-active s h = ground arith

  module _ (guest : ℕ → ℕ → Sound W → List Operation) where
    pump_active :
        (depth : ℕ) (s : Sound W)
        → s.callback_active ≡ true
        → nfsmw_opensl_pump api guest depth s ≡ s
    unfolding nfsmw_opensl_pump pump_once call_back
    pump_active zero s h = refl
    pump_active (suc depth) s h =
        ap (λ d. call_back api guest (nfsmw_opensl_pump api guest depth) d s) (due-active s h)

    call_back_inner :
        (depth : ℕ) (d : Option (ℕ × ℕ)) (s : Sound W)
        → call_back api guest (nfsmw_opensl_pump api guest depth) d s
          ≡ call_back api guest (λ t. t) d s
    unfolding call_back
    call_back_inner depth none s = refl
    call_back_inner depth (some (callback, context)) s =
        let active = record s { callback_active = true } in
        ap (λ (t : Sound W). record t { callback_active = false })
          (perform_all_inner (nfsmw_opensl_pump api guest depth) (pump_active depth)
            (guest callback context active) active refl)

    pump_once-active :
        (s : Sound W) → (pump_once api guest (λ t. t) s).callback_active ≡ s.callback_active
    unfolding pump_once call_back
    pump_once-active s = elim (Bool-cases s.callback_active) [
      | inl active ↦ ground (arith, active, due-active s active)
      | inr idle ↦ go idle (due api s)
    ]
      where
        go :
            s.callback_active ≡ false
            → (d : Option (ℕ × ℕ))
            → (call_back api guest (λ t. t) d s).callback_active ≡ s.callback_active
        go idle none = refl
        go idle (some (callback, context)) = sym idle

    -- Whatever SDL answers and a callback does of the bridge, the pump ends: for every bound but zero on the
    -- depth of its calls within one another, it does what it does when a call by the callback has no
    -- effect. The flag that a callback is active is then as it was before.
    pub nfsmw_opensl_pump-ends :
        (depth : ℕ) (s : Sound W)
        → (nfsmw_opensl_pump api guest (suc depth) s ≡ pump_once api guest (λ t. t) s)
          × ((nfsmw_opensl_pump api guest (suc depth) s).callback_active ≡ s.callback_active)
    unfolding nfsmw_opensl_pump pump_once
    nfsmw_opensl_pump-ends depth s =
        let same = call_back_inner depth (due api s) s in
        (same, ap (λ (t : Sound W). t.callback_active) same ∙ pump_once-active s)
