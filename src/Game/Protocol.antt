-- ===== src/Game/Protocol.antt =====
-- The touches of nfsmw_jni_run as a protocol: one finger, which goes down, moves while it is down, and
-- goes up.
use nfsmw_arm_linux.Prelude.{
  ℕ, Bool, true, false, ◌&&◌, ◌||◌, not, Option, none, some, List, [], ◌∷◌, arith, ◌≡◌, refl,
  Bool-cases, inl, inr,
}
use nfsmw_arm_linux.Prelude.Int.{ℤ}
use nfsmw_arm_linux.Elf.Format.{indices}
use nfsmw_arm_linux.Game.Controls.{
  TouchAction, down, move, up, GuestCall, touch, moga_key, moga_motion, run_loop_tick, Input,
  Controls, button_count, pressed, send_touch, check_idle, shift_cursor, release_touch,
  release_scroll, begin_scroll, scroll, move_cursor, scroll_by, point_or_steer, send_motion,
  toggle_cursor, press_select, press_start, send_key, press_touch, lift_touch, change_button,
  remember, handle_button, handle_buttons, tick, frame, game_loop, first_controls,
}

-- Whether the finger is down after a touch, if the touch was in order.
unfoldable pub react : TouchAction → Option Bool → Option Bool
react down (some false) = some true
react move (some true) = some true
react up (some true) = some false
react action finger = none

-- Whether the finger is down after some calls, the newest first, if all touches were in order.
unfoldable pub finger : List GuestCall → Option Bool
finger [] = some false
finger (touch action x y ∷ calls) = react action (finger calls)
finger (moga_key action code ∷ calls) = finger calls
finger (moga_motion axes ∷ calls) = finger calls
finger (run_loop_tick ∷ calls) = finger calls

-- The locals say where the finger is: it is down for a press or for a drag, not for both, and it is not
-- down while the cursor is off.
pub record InOrder (c : Controls) : Type 0 where
  pub agrees : finger c.calls ≡ some (c.touch_down || c.scroll_touch_down)
  pub apart : (c.touch_down && c.scroll_touch_down) ≡ false
  pub hidden : (not c.cursor_visible && (c.touch_down || c.scroll_touch_down)) ≡ false

check_idle-InOrder : (i : Input) (c : Controls) → InOrder c → InOrder (check_idle i c)
unfolding check_idle send_touch finger react
check_idle-InOrder i c h = ground arith

module _ (width height : ℕ) where
  scroll-InOrder :
      (dx dy : ℤ) (c : Controls)
      → InOrder c
      → c.cursor_visible ≡ true
      → InOrder (scroll width height dx dy c)
  unfolding scroll shift_cursor begin_scroll release_scroll release_touch send_touch finger react
  scroll-InOrder dx dy c h on = ground arith

  move_cursor-InOrder :
      (i : Input) (c : Controls) → InOrder c → InOrder (move_cursor width height i c)
  unfolding move_cursor shift_cursor
  move_cursor-InOrder i c h = ground arith

  move_cursor-visible :
      (i : Input) (c : Controls) → (move_cursor width height i c).cursor_visible ≡ c.cursor_visible
  unfolding move_cursor shift_cursor
  move_cursor-visible i c = refl

  scroll_by-InOrder :
      (i : Input) (c : Controls)
      → InOrder c
      → c.cursor_visible ≡ true
      → InOrder (scroll_by width height i c)
  unfolding scroll_by
  scroll_by-InOrder i c h on = scroll-InOrder _ _ c h on

  point_or_steer-InOrder :
      (i : Input) (c : Controls) → InOrder c → InOrder (point_or_steer width height i c)
  unfolding point_or_steer
  point_or_steer-InOrder i c h = ground (
    arith,
    move_cursor-visible i c,
    scroll_by-InOrder i (move_cursor width height i c) (move_cursor-InOrder i c h),
  )

  send_motion-InOrder :
      (i : Input) (c : Controls) → InOrder c → InOrder (send_motion width height i c)
  unfolding send_motion finger
  send_motion-InOrder i c h = ground arith

  toggle_cursor-InOrder :
      (ticks : ℕ) (c : Controls) → InOrder c → InOrder (toggle_cursor width height ticks c)
  unfolding toggle_cursor release_scroll release_touch send_touch finger react
  toggle_cursor-InOrder ticks c h = ground arith

  press_select-InOrder :
      (i : Input) (index : ℕ) (c : Controls)
      → InOrder c
      → InOrder (press_select width height i index c)
  unfolding press_select
  press_select-InOrder i index c h = ground (arith, toggle_cursor-InOrder (i.later index) c h)

  press_start-InOrder :
      (i : Input) (index : ℕ) (c : Controls)
      → InOrder c
      → InOrder (press_start width height i index c)
  unfolding press_start
  press_start-InOrder i index c h = ground (arith, toggle_cursor-InOrder (i.later index) c h)

  send_key-InOrder :
      (i : Input) (index : ℕ) (c : Controls) → InOrder c → InOrder (send_key width height i index c)
  unfolding send_key finger
  send_key-InOrder i index c h = ground arith

  press_touch-InOrder :
      (i : Input) (index : ℕ) (c : Controls)
      → InOrder c
      → InOrder (press_touch width height i index c)
  unfolding press_touch release_scroll send_touch finger react
  press_touch-InOrder i index c h = ground arith

  lift_touch-InOrder :
      (i : Input) (index : ℕ) (c : Controls)
      → InOrder c
      → InOrder (lift_touch width height i index c)
  unfolding lift_touch release_touch send_touch finger react
  lift_touch-InOrder i index c h = ground arith

  change_button-InOrder :
      (i : Input) (index : ℕ) (c : Controls)
      → InOrder c
      → InOrder (change_button width height i index c)
  unfolding change_button
  change_button-InOrder i index c h = lift_touch-InOrder i index _ (
      press_touch-InOrder i index _ (
        send_key-InOrder i index _
          (press_start-InOrder i index _ (press_select-InOrder i index c h))))

  handle_button-InOrder :
      (i : Input) (index : ℕ) (c : Controls)
      → InOrder c
      → InOrder (handle_button width height i index c)
  unfolding handle_button remember
  handle_button-InOrder i index c h = ground (arith, change_button-InOrder i index c h)

  handle_buttons-InOrder :
      (i : Input) (rest : List ℕ) (c : Controls)
      → InOrder c
      → InOrder (handle_buttons width height i rest c)
  unfolding handle_buttons
  handle_buttons-InOrder i [] c h = h
  handle_buttons-InOrder i (index ∷ rest) c h =
      handle_buttons-InOrder i rest (handle_button width height i index c)
        (handle_button-InOrder i index c h)

  tick-InOrder : (c : Controls) → InOrder c → InOrder (tick width height c)
  unfolding tick finger
  tick-InOrder c h = ground arith

  frame-InOrder : (i : Input) (c : Controls) → InOrder c → InOrder (frame width height i c)
  unfolding frame
  frame-InOrder i c h = tick-InOrder _ (
      handle_buttons-InOrder i (indices 0 button_count) _
        (send_motion-InOrder i _ (point_or_steer-InOrder i _ (check_idle-InOrder i c h))))

  game_loop-InOrder_from :
      (inputs : List Input) (c : Controls) → InOrder c → InOrder (game_loop width height inputs c)
  unfolding game_loop
  game_loop-InOrder_from [] c h = h
  game_loop-InOrder_from (i ∷ rest) c h =
      let next = frame-InOrder i c h in
      elim (Bool-cases (not i.sound || (pressed i 4 && pressed i 6))) [
        | inl stops ↦ rw stops next
        | inr goes ↦ rw goes (game_loop-InOrder_from rest (frame width height i c) next)
      ]

  first_controls-InOrder : (start_ticks : ℕ) → InOrder (first_controls width height start_ticks)
  unfolding first_controls finger
  first_controls-InOrder start_ticks = record { agrees = refl; apart = refl; hidden = refl }

  -- However many frames the game loop runs and whatever the controller does in them, the guest gets
  -- touches in order: the finger goes down only while it is up, and moves and goes up only while it is
  -- down. The loop's locals tell where the finger is, which is down for a press or for a drag but never
  -- for both, and never while the cursor is off.
  pub game_loop-InOrder :
      (start_ticks : ℕ) (inputs : List Input)
      → InOrder (game_loop width height inputs (first_controls width height start_ticks))
  game_loop-InOrder start_ticks inputs =
      game_loop-InOrder_from inputs (first_controls width height start_ticks)
        (first_controls-InOrder start_ticks)
