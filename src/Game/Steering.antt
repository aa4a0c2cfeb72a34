-- ===== src/Game/Steering.antt =====
-- The steering that nfsmw_jni_run stores in the guest's controller.
use nfsmw_arm_linux.Prelude.{ℕ, ◌≤◌, ◌≡◌, ◌↔◌, false, arith}
use nfsmw_arm_linux.Prelude.Int.{ℤ, pos, magnitude, ◌≤ℤ◌}
use nfsmw_arm_linux.Game.Controls.{
  Input, Controls, full_scale, pressed, direct_axis, point_or_steer,
}

direct_axis-monotone : (raw raw' : ℤ) → raw ≤ℤ raw' → direct_axis raw ≤ℤ direct_axis raw'
unfolding direct_axis
direct_axis-monotone raw raw' h = ground arith

direct_axis_bounds : (raw : ℤ) → magnitude (direct_axis raw) ≤ full_scale
unfolding direct_axis
direct_axis_bounds raw = ground arith

direct_axis-zero_iff : (raw : ℤ) → (direct_axis raw ≡ pos 0) ↔ (magnitude raw ≤ 4096)
unfolding direct_axis
direct_axis-zero_iff raw = ground arith

module _ (width height : ℕ) (c : Controls) (off : c.cursor_visible ≡ false) where
  steering_lem :
      (i : Input)
      → pressed i 13 ≡ false
      → pressed i 14 ≡ false
      → (point_or_steer width height i c).direct_steering ≡ direct_axis i.steering
  unfolding point_or_steer
  steering_lem i left right = ground (arith, off, left, right)

  -- While the cursor is off and no steering button is pressed, the stored steering follows the stick: a
  -- stick further to the right never steers less to the right, the steering never exceeds full scale,
  -- and it is zero exactly in the dead zone of 4096 to either side.
  pub point_or_steer-steering :
      (i i' : Input)
      → pressed i 13 ≡ false
      → pressed i 14 ≡ false
      → pressed i' 13 ≡ false
      → pressed i' 14 ≡ false
      → i.steering ≤ℤ i'.steering
      → ((point_or_steer width height i c).direct_steering
          ≤ℤ (point_or_steer width height i' c).direct_steering)
        × (magnitude (point_or_steer width height i c).direct_steering ≤ full_scale)
        × (((point_or_steer width height i c).direct_steering ≡ pos 0)
            ↔ (magnitude i.steering ≤ 4096))
  point_or_steer-steering i i' left right left' right' h =
      rw (steering_lem i left right, steering_lem i' left' right')
        (
          direct_axis-monotone i.steering i'.steering h,
          direct_axis_bounds i.steering,
          direct_axis-zero_iff i.steering,
        )
