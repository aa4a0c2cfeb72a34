-- ===== src/Game/Tests.antt =====
-- Two frames: the first button goes down, and then the right stick drags the page.
use nfsmw_arm_linux.Prelude.{
  ℕ, true, false, List, [], ◌∷◌, if◌then◌else◌, ◌==◌, arith, ◌≡◌, ◌↔◌, ◌≤◌, refl,
}
use nfsmw_arm_linux.Prelude.Int.{ℤ, pos, negsuc, magnitude, ◌≤ℤ◌, ◌+ℤ◌, clamp}
use nfsmw_arm_linux.Elf.Format.{indices}
use nfsmw_arm_linux.Game.Controls.{
  down, move, up, touch, moga_motion, run_loop_tick, Input, Controls, full_scale, pressed,
  any_pressed, input_active, send_touch, check_idle, direct_axis, cursor_step, scroll_step,
  shift_cursor, release_touch, release_scroll, begin_scroll, scroll, move_cursor, scroll_by,
  point_or_steer, sent_axes, axes_moved, send_motion, toggle_cursor, press_select, press_start,
  send_key, press_touch, lift_touch, change_button, remember, handle_button, handle_buttons, tick,
  frame, game_loop, first_controls,
}
use nfsmw_arm_linux.Game.Protocol.{InOrder, game_loop-InOrder}
use nfsmw_arm_linux.Game.Steering.{point_or_steer-steering}
use nfsmw_arm_linux.Game.Screen.{OnScreen, game_loop-OnScreen}

abbrev input : (right_x : ℤ) (button : ℕ) → Input
input right_x button = record {
  steering = pos 0;
  vertical = pos 0;
  right_x = right_x;
  right_y = pos 0;
  left_trigger = pos 0;
  right_trigger = pos 0;
  buttons = λ index. if index == button then 1 else 0;
  now = 1000;
  later = λ index. 1000;
  sound = true;
}

abbrev inputs : List Input
inputs = input (pos 0) 0 ∷ input (negsuc 16383) 0 ∷ []

-- The press ends where the drag begins, two pixels to the left of where that goes.
dragged :
    (game_loop 640 480 inputs (first_controls 640 480 0)).calls
    ≡ run_loop_tick
      ∷ touch move (pos 322) (pos 240)
      ∷ touch down (pos 320) (pos 240)
      ∷ touch up (pos 320) (pos 240)
      ∷ run_loop_tick
      ∷ touch down (pos 320) (pos 240)
      ∷ moga_motion (pos 0 ∷ pos 0 ∷ pos 0 ∷ pos 0 ∷ pos 0 ∷ pos 0 ∷ [])
      ∷ []
unfolding game_loop first_controls frame check_idle input_active any_pressed pressed indices
    point_or_steer move_cursor scroll_by cursor_step scroll_step shift_cursor scroll begin_scroll
    release_touch release_scroll send_touch send_motion sent_axes axes_moved direct_axis
    handle_buttons handle_button change_button press_select press_start toggle_cursor send_key
    press_touch lift_touch remember tick clamp ◌+ℤ◌
dragged = refl

game_loop-InOrder_example : InOrder (game_loop 640 480 inputs (first_controls 640 480 0))
game_loop-InOrder_example = game_loop-InOrder 640 480 0 inputs

game_loop-OnScreen_example : OnScreen 640 480 (game_loop 640 480 inputs (first_controls 640 480 0))
game_loop-OnScreen_example = game_loop-OnScreen 640 480 (omega arith) (omega arith) 0 inputs

-- The cursor is off.
abbrev driving : Controls
driving = record (first_controls 640 480 0) { cursor_visible = false }

point_or_steer-steering_example :
    ((point_or_steer 640 480 (input (pos 0) 0) driving).direct_steering
      ≤ℤ (point_or_steer 640 480
          (record (input (pos 0) 0) { steering = pos 5000 })
          driving).direct_steering)
    × (magnitude (point_or_steer 640 480 (input (pos 0) 0) driving).direct_steering ≤ full_scale)
    × (((point_or_steer 640 480 (input (pos 0) 0) driving).direct_steering ≡ pos 0) ↔ (0 ≤ 4096))
unfolding pressed
point_or_steer-steering_example =
    point_or_steer-steering 640 480 driving refl (input (pos 0) 0)
      (record (input (pos 0) 0) { steering = pos 5000 }) refl refl refl refl (omega arith)
