-- ===== src/Audio/Tests.antt =====
-- A callback that queues a buffer and then pumps again.
use nfsmw_arm_linux.Prelude.{ℕ, ◌+◌, ◌≡◌, refl, true, false, some, List, [], ◌∷◌}
use nfsmw_arm_linux.Audio.{
  Sdl, Sound, Operation, enqueue, pump, pump_once, nfsmw_opensl_pump, call_back, due, perform,
  perform_all, queue_enqueue, nfsmw_platform_runtime_audio_queue,
  nfsmw_platform_runtime_audio_queued,
}
use nfsmw_arm_linux.Audio.Pump.{nfsmw_opensl_pump-ends}

-- SDL's state is the number of bytes queued.
abbrev counting : Sdl ℕ
counting = record {
  open_audio_device = λ frequency channels queued. (queued, 1);
  queue_audio = λ device bytes size queued. (queued + size, 0);
  queued_audio_size = λ device queued. queued;
}

abbrev playing : Sound ℕ
playing = record {
  sdl = 0;
  runtime_started = true;
  audio_device = 1;
  queue_callback = some (4096, 7);
  queue_buffer_size = 100;
  play_state = 3;
  callback_active = false;
}

abbrev refill : ℕ → ℕ → Sound ℕ → List Operation
refill callback context s = enqueue context 60 ∷ pump ∷ []

refilled : (nfsmw_opensl_pump counting refill 3 playing).sdl ≡ 60
unfolding nfsmw_opensl_pump pump_once call_back due perform perform_all queue_enqueue
    nfsmw_platform_runtime_audio_queue nfsmw_platform_runtime_audio_queued
refilled = refl

nfsmw_opensl_pump-ends_example :
    (nfsmw_opensl_pump counting refill 3 playing ≡ pump_once counting refill (λ t. t) playing)
    × ((nfsmw_opensl_pump counting refill 3 playing).callback_active ≡ false)
nfsmw_opensl_pump-ends_example = nfsmw_opensl_pump-ends counting refill 2 playing
