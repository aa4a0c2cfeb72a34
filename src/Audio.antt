-- ===== src/Audio.antt =====
-- The sound that OpenSL ES code of the guest plays: opensl_bridge.c, the sound functions of
-- platform_probe.c, and the calls of compat_bridge.c that lead to the bridge. SDL's sound is a parameter.
-- Log lines have no effect here.
pub mod Objects
pub mod Handles
pub mod Pump
mod Tests
use nfsmw_arm_linux.Prelude.{
  ℕ, zero, suc, ◌/◌, ◌%◌, Bool, true, false, ◌||◌, ◌&&◌, not, Option, none, some, List, [], ◌∷◌,
  if◌then◌else◌, ◌==◌, leb,
}

abbrev pub sl_success : ℕ
sl_success = 0

abbrev pub playstate_stopped : ℕ
playstate_stopped = 1

-- What the bridge needs of SDL, on a state of SDL's own. `open_audio_device` returns 0 on failure, and
-- `queue_audio` returns 0 on success.
pub record Sdl (W : Type 0) : Type 0 where
  pub open_audio_device : (frequency channels : ℕ) → W → W × ℕ
  pub queue_audio : (device : ℕ) → (bytes size : ℕ) → W → W × ℕ
  pub queued_audio_size : (device : ℕ) → W → ℕ

-- SDL's state, the sound members of `runtime`, and the static variables of opensl_bridge.c. A callback is
-- its address, which is not NULL, and its context.
pub record Sound (W : Type 0) : Type 0 where
  pub sdl : W
  pub runtime_started : Bool
  pub audio_device : ℕ
  pub queue_callback : Option (ℕ × ℕ)
  pub queue_buffer_size : ℕ
  pub play_state : ℕ
  pub callback_active : Bool

-- The members of `struct pcm_format` that are read.
pub record PcmFormat : Type 0 where
  pub channels : ℕ
  pub samples_per_second : ℕ

unfoldable pub player_frequency : Option PcmFormat → ℕ
player_frequency none = 44100
player_frequency (some format) =
    if leb 1000 format.samples_per_second then format.samples_per_second / 1000 else 44100

unfoldable pub player_channels : Option PcmFormat → ℕ
player_channels none = 2
player_channels (some format) =
    if leb 1 format.channels && leb format.channels 2 then format.channels else 2

-- What the guest's callback may do, in the order in which it does it.
pub data Operation : Type 0 where
  create_player : (wanted : Bool) → Option PcmFormat → Operation
  enqueue : (buffer size : ℕ) → Operation
  register : Option (ℕ × ℕ) → Operation
  set_state : ℕ → Operation
  destroy : (player : Bool) → Operation
  pump : Operation

module _ {W : Type 0} (api : Sdl W) where
  -- 0 where the device is open afterwards; -1 is 1 here.
  unfoldable pub nfsmw_platform_runtime_audio_start :
      (frequency channels : ℕ) → Sound W → Sound W × ℕ
  nfsmw_platform_runtime_audio_start frequency channels s =
      let opened = api.open_audio_device frequency (channels % 256) s.sdl in
      let after = record s { sdl = opened.0; audio_device = opened.1 } in
      if not s.runtime_started
      then (s, 1)
      else if not (s.audio_device == 0)
      then (s, 0)
      else if opened.1 == 0
      then (after, 1)
      else (after, 0)

  unfoldable pub nfsmw_platform_runtime_audio_queue : (bytes size : ℕ) → Sound W → Sound W × ℕ
  nfsmw_platform_runtime_audio_queue bytes size s =
      let queued = api.queue_audio s.audio_device bytes size s.sdl in
      if s.audio_device == 0 || (bytes == 0 || size == 0)
      then (s, 1)
      else (record s { sdl = queued.0 }, queued.1)

  unfoldable pub nfsmw_platform_runtime_audio_queued : Sound W → ℕ
  nfsmw_platform_runtime_audio_queued s =
      if s.audio_device == 0 then 0 else api.queued_audio_size s.audio_device s.sdl

  -- `wanted` is whether the place for the player is not NULL; the result says whether it is filled.
  unfoldable pub engine_create_audio_player :
      (wanted : Bool) → Option PcmFormat → Sound W → Sound W × ℕ
  engine_create_audio_player wanted format s =
      let start =
        nfsmw_platform_runtime_audio_start (player_frequency format) (player_channels format) s in
      if not wanted
      then (s, 13)
      else if not (start.1 == 0)
      then (start.0, 13)
      else (start.0, sl_success)

  unfoldable pub queue_enqueue : (buffer size : ℕ) → Sound W → Sound W × ℕ
  queue_enqueue buffer size s =
      let queued = nfsmw_platform_runtime_audio_queue buffer size s in
      if not (queued.1 == 0)
      then (queued.0, 13)
      else (record (queued.0) { queue_buffer_size = size }, sl_success)

  -- The first word of the state; the second is 0.
  unfoldable pub queue_get_state : Sound W → ℕ
  queue_get_state s = if nfsmw_platform_runtime_audio_queued s == 0 then 0 else 1

  unfoldable pub queue_register_callback : Option (ℕ × ℕ) → Sound W → Sound W
  queue_register_callback callback s = record s { queue_callback = callback }

  unfoldable pub play_set_state : ℕ → Sound W → Sound W
  play_set_state state s = record s { play_state = state }

  -- `player` is whether the object is the player.
  unfoldable pub object_destroy : (player : Bool) → Sound W → Sound W
  object_destroy player s =
      if player then record s { queue_callback = none; queue_buffer_size = 0 } else s

  -- The callback and its context, where the queue wants more.
  unfoldable pub due : Sound W → Option (ℕ × ℕ)
  due s =
      if not (s.queue_buffer_size == 0)
        && (not s.callback_active
            && leb (nfsmw_platform_runtime_audio_queued s) s.queue_buffer_size)
      then s.queue_callback
      else none

  -- `inner` is what a call of the pump by the callback does.
  unfoldable pub perform : (inner : Sound W → Sound W) → Operation → Sound W → Sound W
  perform inner (create_player wanted format) s = (engine_create_audio_player wanted format s).0
  perform inner (enqueue buffer size) s = (queue_enqueue buffer size s).0
  perform inner (register callback) s = queue_register_callback callback s
  perform inner (set_state state) s = play_set_state state s
  perform inner (destroy player) s = object_destroy player s
  perform inner pump s = inner s

  unfoldable pub perform_all : (inner : Sound W → Sound W) → List Operation → Sound W → Sound W
  perform_all inner [] s = s
  perform_all inner (operation ∷ rest) s = perform_all inner rest (perform inner operation s)

  -- `guest` is what a callback does, from its address, its context and the state.
  module _ (guest : ℕ → ℕ → Sound W → List Operation) where
    unfoldable pub call_back : (inner : Sound W → Sound W) → Option (ℕ × ℕ) → Sound W → Sound W
    call_back inner none s = s
    call_back inner (some (callback, context)) s =
        let active = record s { callback_active = true } in
        record (perform_all inner (guest callback context active) active) {
          callback_active = false;
        }

    unfoldable pub pump_once : (inner : Sound W → Sound W) → Sound W → Sound W
    pump_once inner s = call_back inner (due s) s

    -- `depth` bounds the calls of the pump within one another.
    unfoldable pub nfsmw_opensl_pump : (depth : ℕ) → Sound W → Sound W
    nfsmw_opensl_pump zero s = s
    nfsmw_opensl_pump (suc depth) s = pump_once (nfsmw_opensl_pump depth) s
