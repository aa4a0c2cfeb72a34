-- ===== src/Game/Screen.antt =====
-- The cursor and every touch of nfsmw_jni_run stay eight pixels inside the display.
use nfsmw_arm_linux.Prelude.{
  ℕ, ◌≤◌, true, false, ◌&&◌, ◌||◌, not, List, [], ◌∷◌, arith, Bool-cases, inl, inr,
}
use nfsmw_arm_linux.Prelude.Int.{ℤ, pos, sub_ℕ, ◌≤ℤ◌, ◌+ℤ◌, clamp_bounds}
use nfsmw_arm_linux.Elf.Format.{indices}
use nfsmw_arm_linux.Game.Controls.{
  TouchAction, down, move, up, GuestCall, touch, moga_key, moga_motion, run_loop_tick, Input,
  Controls, button_count, pressed, send_touch, check_idle, shift_cursor, release_touch,
  release_scroll, begin_scroll, scroll, move_cursor, scroll_by, point_or_steer, send_motion,
  toggle_cursor, press_select, press_start, send_key, press_touch, lift_touch, change_button,
  remember, handle_button, handle_buttons, tick, frame, game_loop, first_controls,
}

-- A position at least eight pixels from every edge.
abbrev pub Inner : (width height : ℕ) → (x y : ℤ) → Type 0
Inner width height x y = (pos 8 ≤ℤ x) × (x ≤ℤ sub_ℕ width 9) × (pos 8 ≤ℤ y) × (y ≤ℤ sub_ℕ height 9)

-- Every touch is at such a position.
unfoldable pub Touches : (width height : ℕ) → List GuestCall → Type 0
Touches width height [] = Unit
Touches width height (touch action x y ∷ calls) =
    Inner width height x y × Touches width height calls
Touches width height (moga_key action code ∷ calls) = Touches width height calls
Touches width height (moga_motion axes ∷ calls) = Touches width height calls
Touches width height (run_loop_tick ∷ calls) = Touches width height calls

pub record OnScreen (width height : ℕ) (c : Controls) : Type 0 where
  pub cursor : Inner width height c.cursor_x c.cursor_y
  pub touches : Touches width height c.calls

module _ (width height : ℕ) where
  send_touch-OnScreen :
      (action : TouchAction) (c : Controls)
      → OnScreen width height c
      → OnScreen width height (send_touch action c)
  unfolding send_touch Touches
  send_touch-OnScreen action c h = record { cursor = h.cursor; touches = (h.cursor, h.touches) }

  -- Steps that leave the cursor where it is.
  check_idle-OnScreen :
      (i : Input) (c : Controls) → OnScreen width height c → OnScreen width height (check_idle i c)
  unfolding check_idle
  check_idle-OnScreen i c h = ground (arith, send_touch-OnScreen up c h)

  release_touch-OnScreen :
      (c : Controls)
      → OnScreen width height c
      → OnScreen width height (release_touch width height c)
  unfolding release_touch
  release_touch-OnScreen c h = ground (arith, send_touch-OnScreen up c h)

  release_scroll-OnScreen :
      (c : Controls)
      → OnScreen width height c
      → OnScreen width height (release_scroll width height c)
  unfolding release_scroll
  release_scroll-OnScreen c h = ground (arith, send_touch-OnScreen up c h)

  begin_scroll-OnScreen :
      (c : Controls) → OnScreen width height c → OnScreen width height (begin_scroll width height c)
  unfolding begin_scroll
  begin_scroll-OnScreen c h = ground (arith, send_touch-OnScreen down c h)

  send_motion-OnScreen :
      (i : Input) (c : Controls)
      → OnScreen width height c
      → OnScreen width height (send_motion width height i c)
  unfolding send_motion Touches
  send_motion-OnScreen i c h = ground arith

  toggle_cursor-OnScreen :
      (ticks : ℕ) (c : Controls)
      → OnScreen width height c
      → OnScreen width height (toggle_cursor width height ticks c)
  unfolding toggle_cursor
  toggle_cursor-OnScreen ticks c h = elim (Bool-cases c.cursor_visible) [
    | inl on ↦ rw on (
        release_scroll-OnScreen _ (
          release_touch-OnScreen (record c { cursor_visible = false })
            (record { cursor = h.cursor; touches = h.touches })))
    | inr off ↦ rw off (
        release_scroll-OnScreen (record c { cursor_visible = true; last_cursor_activity = ticks })
          (record { cursor = h.cursor; touches = h.touches }))
  ]

  press_select-OnScreen :
      (i : Input) (index : ℕ) (c : Controls)
      → OnScreen width height c
      → OnScreen width height (press_select width height i index c)
  unfolding press_select
  press_select-OnScreen i index c h = ground (arith, toggle_cursor-OnScreen (i.later index) c h)

  press_start-OnScreen :
      (i : Input) (index : ℕ) (c : Controls)
      → OnScreen width height c
      → OnScreen width height (press_start width height i index c)
  unfolding press_start
  press_start-OnScreen i index c h = ground (arith, toggle_cursor-OnScreen (i.later index) c h)

  send_key-OnScreen :
      (i : Input) (index : ℕ) (c : Controls)
      → OnScreen width height c
      → OnScreen width height (send_key width height i index c)
  unfolding send_key Touches
  send_key-OnScreen i index c h = ground arith

  press_touch-OnScreen :
      (i : Input) (index : ℕ) (c : Controls)
      → OnScreen width height c
      → OnScreen width height (press_touch width height i index c)
  unfolding press_touch
  press_touch-OnScreen i index c h = ground (
    arith,
    send_touch-OnScreen down (release_scroll width height c) (release_scroll-OnScreen c h),
  )

  lift_touch-OnScreen :
      (i : Input) (index : ℕ) (c : Controls)
      → OnScreen width height c
      → OnScreen width height (lift_touch width height i index c)
  unfolding lift_touch
  lift_touch-OnScreen i index c h = ground (arith, release_touch-OnScreen c h)

  change_button-OnScreen :
      (i : Input) (index : ℕ) (c : Controls)
      → OnScreen width height c
      → OnScreen width height (change_button width height i index c)
  unfolding change_button
  change_button-OnScreen i index c h = lift_touch-OnScreen i index _ (
      press_touch-OnScreen i index _ (
        send_key-OnScreen i index _
          (press_start-OnScreen i index _ (press_select-OnScreen i index c h))))

  handle_button-OnScreen :
      (i : Input) (index : ℕ) (c : Controls)
      → OnScreen width height c
      → OnScreen width height (handle_button width height i index c)
  unfolding handle_button remember
  handle_button-OnScreen i index c h = ground (arith, change_button-OnScreen i index c h)

  handle_buttons-OnScreen :
      (i : Input) (rest : List ℕ) (c : Controls)
      → OnScreen width height c
      → OnScreen width height (handle_buttons width height i rest c)
  unfolding handle_buttons
  handle_buttons-OnScreen i [] c h = h
  handle_buttons-OnScreen i (index ∷ rest) c h =
      handle_buttons-OnScreen i rest (handle_button width height i index c)
        (handle_button-OnScreen i index c h)

  tick-OnScreen :
      (c : Controls) → OnScreen width height c → OnScreen width height (tick width height c)
  unfolding tick Touches
  tick-OnScreen c h = record { cursor = h.cursor; touches = h.touches }

  -- Steps that move the cursor.
  module _ (wide : 17 ≤ width) (high : 17 ≤ height) where
    shift_cursor-OnScreen :
        (dx dy : ℤ) (c : Controls)
        → OnScreen width height c
        → OnScreen width height (shift_cursor width height dx dy c)
    unfolding shift_cursor
    shift_cursor-OnScreen dx dy c h =
        let (left, right) =
          clamp_bounds (pos 8) (sub_ℕ width 9) (c.cursor_x +ℤ dx) (ground arith) in
        let (top, bottom) =
          clamp_bounds (pos 8) (sub_ℕ height 9) (c.cursor_y +ℤ dy) (ground arith) in
        record { cursor = (left, right, top, bottom); touches = h.touches }

    scroll-OnScreen :
        (dx dy : ℤ) (c : Controls)
        → OnScreen width height c
        → OnScreen width height (scroll width height dx dy c)
    unfolding scroll
    scroll-OnScreen dx dy c h =
        let dragged = begin_scroll width height (release_touch width height c) in
        let moved =
          shift_cursor-OnScreen dx dy dragged
            (begin_scroll-OnScreen _ (release_touch-OnScreen c h)) in
        ground (
          arith,
          release_scroll-OnScreen c h,
          send_touch-OnScreen move (shift_cursor width height dx dy dragged) moved,
        )

    scroll_by-OnScreen :
        (i : Input) (c : Controls)
        → OnScreen width height c
        → OnScreen width height (scroll_by width height i c)
    unfolding scroll_by
    scroll_by-OnScreen i c h = scroll-OnScreen _ _ c h

    move_cursor-OnScreen :
        (i : Input) (c : Controls)
        → OnScreen width height c
        → OnScreen width height (move_cursor width height i c)
    unfolding move_cursor
    move_cursor-OnScreen i c h = shift_cursor-OnScreen _ _ c h

    point_or_steer-OnScreen :
        (i : Input) (c : Controls)
        → OnScreen width height c
        → OnScreen width height (point_or_steer width height i c)
    unfolding point_or_steer
    point_or_steer-OnScreen i c h =
        ground
          (arith, scroll_by-OnScreen i (move_cursor width height i c) (move_cursor-OnScreen i c h))

    frame-OnScreen :
        (i : Input) (c : Controls)
        → OnScreen width height c
        → OnScreen width height (frame width height i c)
    unfolding frame
    frame-OnScreen i c h = tick-OnScreen _ (
        handle_buttons-OnScreen i (indices 0 button_count) _
          (send_motion-OnScreen i _ (point_or_steer-OnScreen i _ (check_idle-OnScreen i c h))))

    game_loop-OnScreen_from :
        (inputs : List Input) (c : Controls)
        → OnScreen width height c
        → OnScreen width height (game_loop width height inputs c)
    unfolding game_loop
    game_loop-OnScreen_from [] c h = h
    game_loop-OnScreen_from (i ∷ rest) c h =
        let next = frame-OnScreen i c h in
        elim (Bool-cases (not i.sound || (pressed i 4 && pressed i 6))) [
          | inl stops ↦ rw stops next
          | inr goes ↦ rw goes (game_loop-OnScreen_from rest (frame width height i c) next)
        ]

    first_controls-OnScreen :
        (start_ticks : ℕ) → OnScreen width height (first_controls width height start_ticks)
    unfolding first_controls Touches
    first_controls-OnScreen start_ticks = ground arith

    -- On a display of at least 17 by 17 pixels, the cursor and every touch that the guest gets stay
    -- eight pixels inside the display, however many frames the game loop runs and whatever the
    -- controller does in them.
    pub game_loop-OnScreen :
        (start_ticks : ℕ) (inputs : List Input)
        → OnScreen width height
            (game_loop width height inputs (first_controls width height start_ticks))
    game_loop-OnScreen start_ticks inputs =
        game_loop-OnScreen_from inputs (first_controls width height start_ticks)
          (first_controls-OnScreen start_ticks)
