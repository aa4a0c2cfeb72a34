-- ===== src/Game/Controls.antt =====
-- The controls of nfsmw_jni_run, frame by frame. The floats `direct_steering` and `direct_vertical` are
-- counted in units of 1 / (32767 - 4096). Log lines, and the float payload of a motion event, are left
-- out.
use nfsmw_arm_linux.Prelude.{
  ℕ, ◌-◌, ◌/◌, Bool, true, false, ◌&&◌, ◌||◌, not, List, [], ◌∷◌, if◌then◌else◌, ◌==◌, ltb, leb,
  get_or, sub32, min,
}
use nfsmw_arm_linux.Prelude.Int.{ℤ, pos, sub_ℕ, ltb_ℤ, ◌+ℤ◌, negate, magnitude, quotient, clamp}
use nfsmw_arm_linux.Elf.Format.{indices}

-- The first argument of nativeTouchScreenEvent: 0, 2 and 1.
pub data TouchAction : Type 0 where
  down move up : TouchAction

-- What the loop calls of the guest. A motion event has the six axes as they are sent.
pub data GuestCall : Type 0 where
  touch : TouchAction → (x y : ℤ) → GuestCall
  moga_key : (action code : ℕ) → GuestCall
  moga_motion : List ℤ → GuestCall
  run_loop_tick : GuestCall

-- What one frame reads: the axes and buttons of nfsmw_platform_runtime_input, the clock as the frame
-- starts and as a button is handled, and whether the frame's sound is delivered.
pub record Input : Type 0 where
  pub steering : ℤ
  pub vertical : ℤ
  pub right_x : ℤ
  pub right_y : ℤ
  pub left_trigger : ℤ
  pub right_trigger : ℤ
  pub buttons : ℕ → ℕ
  pub now : ℕ
  pub later : ℕ → ℕ
  pub sound : Bool

-- The locals of the loop, and the calls made so far, newest first.
pub record Controls : Type 0 where
  pub cursor_x : ℤ
  pub cursor_y : ℤ
  pub cursor_visible : Bool
  pub touch_down : Bool
  pub scroll_touch_down : Bool
  pub gameplay_mode_used : Bool
  pub last_cursor_activity : ℕ
  pub previous : ℕ → ℕ
  pub previous_axes : List ℤ
  pub have_previous_axes : Bool
  pub direct_steering : ℤ
  pub direct_vertical : ℤ
  pub calls : List GuestCall

abbrev pub full_scale : ℕ
full_scale = 32767 - 4096

abbrev pub button_count : ℕ
button_count = 15

abbrev pub android_keys : List ℕ
android_keys = 96 ∷ 97 ∷ 99 ∷ 100 ∷ 109 ∷ 0 ∷ 108 ∷ 106 ∷ 107 ∷ 102 ∷ 103 ∷ 19 ∷ 20 ∷ 21 ∷ 22 ∷ []

unfoldable pub pressed : Input → ℕ → Bool
pressed i index = not (i.buttons index == 0)

unfoldable pub any_pressed : Input → List ℕ → Bool
any_pressed i [] = false
any_pressed i (index ∷ rest) = pressed i index || any_pressed i rest

-- `value > limit || value < -limit`.
abbrev pub beyond : ℕ → ℤ → Bool
beyond limit value = ltb limit (magnitude value)

unfoldable pub input_active : Input → Bool
input_active i =
    any_pressed i (indices 0 button_count)
    || (beyond 4096 i.steering
        || (beyond 4096 i.vertical
            || (beyond 8192 i.right_x
                || (beyond 8192 i.right_y
                    || (ltb_ℤ (pos 12288) i.left_trigger || ltb_ℤ (pos 12288) i.right_trigger)))))

-- nativeTouchScreenEvent at the cursor.
unfoldable pub send_touch : TouchAction → Controls → Controls
send_touch action c = record c { calls = touch action c.cursor_x c.cursor_y ∷ c.calls }

-- The cursor goes off after 15 seconds without input.
unfoldable pub check_idle : Input → Controls → Controls
check_idle i c =
    let released = if c.touch_down || c.scroll_touch_down then send_touch up c else c in
    if not c.cursor_visible
    then c
    else if input_active i
    then record c { last_cursor_activity = i.now }
    else if leb 15000 (sub32 i.now c.last_cursor_activity)
    then record released {
      touch_down = false;
      scroll_touch_down = false;
      cursor_visible = false;
      gameplay_mode_used = true;
    }
    else c

-- The stick's share of full scale beyond the dead zone, with its sign.
unfoldable pub direct_axis : ℤ → ℤ
direct_axis raw =
    let share = min (magnitude raw) 32767 - 4096 in
    if leb (magnitude raw) 4096
    then pos 0
    else if ltb_ℤ raw (pos 0)
    then sub_ℕ 0 share
    else pos share

-- A step of the cursor or the page by the stick, with D-pad, shoulder buttons or triggers.
unfoldable pub cursor_step : (raw : ℤ) → (back forth : Bool) → ℤ
cursor_step raw back forth = if back then sub_ℕ 0 8 else if forth then pos 8 else quotient raw 4096

unfoldable pub scroll_step : (raw : ℤ) → (back forth : Bool) → ℤ
scroll_step raw back forth =
    let stick = quotient (negate raw) 8192 in
    let backed = if back then stick +ℤ sub_ℕ 0 4 else stick in
    clamp (sub_ℕ 0 8) (pos 8) (if forth then backed +ℤ pos 4 else backed)

-- Width and height are those of the display.
module _ (width height : ℕ) where
  unfoldable pub shift_cursor : (dx dy : ℤ) → Controls → Controls
  shift_cursor dx dy c = record c {
    cursor_x = clamp (pos 8) (sub_ℕ width 9) (c.cursor_x +ℤ dx);
    cursor_y = clamp (pos 8) (sub_ℕ height 9) (c.cursor_y +ℤ dy);
  }

  unfoldable pub release_touch : Controls → Controls
  release_touch c = if c.touch_down then record (send_touch up c) { touch_down = false } else c

  unfoldable pub release_scroll : Controls → Controls
  release_scroll c =
      if c.scroll_touch_down then record (send_touch up c) { scroll_touch_down = false } else c

  unfoldable pub begin_scroll : Controls → Controls
  begin_scroll c =
      if c.scroll_touch_down then c else record (send_touch down c) { scroll_touch_down = true }

  -- A drag by the right stick, the shoulder buttons or the triggers.
  unfoldable pub scroll : (dx dy : ℤ) → Controls → Controls
  scroll dx dy c =
      if magnitude dx == 0 && magnitude dy == 0
      then release_scroll c
      else send_touch move (shift_cursor dx dy (begin_scroll (release_touch c)))

  unfoldable pub move_cursor : Input → Controls → Controls
  move_cursor i c =
      shift_cursor (cursor_step i.steering (pressed i 13) (pressed i 14))
        (cursor_step i.vertical (pressed i 11) (pressed i 12)) c

  unfoldable pub scroll_by : Input → Controls → Controls
  scroll_by i c =
      scroll (scroll_step i.right_x (pressed i 9) (pressed i 10))
        (scroll_step i.right_y (ltb_ℤ (pos 12288) i.left_trigger)
          (ltb_ℤ (pos 12288) i.right_trigger))
        c

  -- The cursor, or the steering of the car where the cursor is off.
  unfoldable pub point_or_steer : Input → Controls → Controls
  point_or_steer i c =
      if c.cursor_visible
      then record (scroll_by i (move_cursor i c)) {
        direct_steering = pos 0;
        direct_vertical = pos 0;
      }
      else record c {
        direct_steering =
            if pressed i 13
            then sub_ℕ 0 full_scale
            else if pressed i 14
            then pos full_scale
            else direct_axis i.steering;
        direct_vertical = direct_axis i.vertical;
      }

  -- The axes that a motion event carries; both sticks are kept from it.
  unfoldable pub sent_axes : Input → Controls → List ℤ
  sent_axes i c =
      let trigger : ℤ → ℤ = λ raw. if c.cursor_visible then pos 0 else raw in
      pos 0 ∷ pos 0 ∷ pos 0 ∷ pos 0 ∷ trigger i.left_trigger ∷ trigger i.right_trigger ∷ []

  -- An axis differs by more than 512.
  unfoldable pub axes_moved : List ℤ → List ℤ → Bool
  axes_moved (axis ∷ axes) (old ∷ olds) = beyond 512 (axis +ℤ negate old) || axes_moved axes olds
  axes_moved axes olds = false

  unfoldable pub send_motion : Input → Controls → Controls
  send_motion i c =
      let axes = sent_axes i c in
      let seen = record c { previous_axes = axes } in
      if not c.have_previous_axes || axes_moved axes c.previous_axes
      then record seen { calls = moga_motion axes ∷ c.calls; have_previous_axes = true }
      else seen

  -- The cursor goes on or off; no finger stays down as it goes off.
  unfoldable pub toggle_cursor : (ticks : ℕ) → Controls → Controls
  toggle_cursor ticks c = release_scroll (
      if c.cursor_visible
      then release_touch (record c { cursor_visible = false })
      else record c { cursor_visible = true; last_cursor_activity = ticks })

  unfoldable pub press_select : Input → (index : ℕ) → Controls → Controls
  press_select i index c =
      let toggled = toggle_cursor (i.later index) c in
      if pressed i index && (index == 4 && not (pressed i 6))
      then record toggled {
        gameplay_mode_used = c.gameplay_mode_used || not toggled.cursor_visible;
      }
      else c

  unfoldable pub press_start : Input → (index : ℕ) → Controls → Controls
  press_start i index c =
      if pressed i index && (index == 6 && c.gameplay_mode_used)
      then toggle_cursor (i.later index) c
      else c

  unfoldable pub send_key : Input → (index : ℕ) → Controls → Controls
  send_key i index c =
      if not (index == 4) && not (c.cursor_visible && (not (index == 1) && not (index == 6)))
      then record c {
        calls = moga_key (if pressed i index then 0 else 1) (get_or android_keys index 0) ∷ c.calls;
      }
      else c

  unfoldable pub press_touch : Input → (index : ℕ) → Controls → Controls
  press_touch i index c =
      if pressed i index && (c.cursor_visible && (index == 0 && not c.touch_down))
      then record (send_touch down (release_scroll c)) { touch_down = true }
      else c

  unfoldable pub lift_touch : Input → (index : ℕ) → Controls → Controls
  lift_touch i index c = if index == 0 && not (pressed i index) then release_touch c else c

  unfoldable pub change_button : Input → (index : ℕ) → Controls → Controls
  change_button i index c =
      lift_touch i index
        (press_touch i index (send_key i index (press_start i index (press_select i index c))))

  unfoldable pub remember : Input → (index : ℕ) → Controls → Controls
  remember i index c = record c {
    previous = λ k. if k == index then i.buttons index else c.previous k;
  }

  unfoldable pub handle_button : Input → (index : ℕ) → Controls → Controls
  handle_button i index c = remember i index (
      if not (get_or android_keys index 0 == 0) && not (i.buttons index == c.previous index)
      then change_button i index c
      else c)

  unfoldable pub handle_buttons : Input → List ℕ → Controls → Controls
  handle_buttons i [] c = c
  handle_buttons i (index ∷ rest) c = handle_buttons i rest (handle_button i index c)

  unfoldable pub tick : Controls → Controls
  tick c = record c { calls = run_loop_tick ∷ c.calls }

  unfoldable pub frame : Input → Controls → Controls
  frame i c = tick (
      handle_buttons i (indices 0 button_count) (send_motion i (point_or_steer i (check_idle i c))))

  -- The frames up to the one whose sound fails or whose buttons ask to quit; there are at most
  -- frame_limit of them.
  unfoldable pub game_loop : List Input → Controls → Controls
  game_loop [] c = c
  game_loop (i ∷ rest) c =
      let on = game_loop rest (frame i c) in
      if not i.sound || (pressed i 4 && pressed i 6) then frame i c else on

  -- The locals as the loop starts.
  unfoldable pub first_controls : (start_ticks : ℕ) → Controls
  first_controls start_ticks = record {
    cursor_x = pos (width / 2);
    cursor_y = pos (height / 2);
    cursor_visible = true;
    touch_down = false;
    scroll_touch_down = false;
    gameplay_mode_used = false;
    last_cursor_activity = start_ticks;
    previous = λ _. 0;
    previous_axes = pos 0 ∷ pos 0 ∷ pos 0 ∷ pos 0 ∷ pos 0 ∷ pos 0 ∷ [];
    have_previous_axes = false;
    direct_steering = pos 0;
    direct_vertical = pos 0;
    calls = [];
  }
