-- ===== src/Game.antt =====
-- The game loop of nfsmw_jni_run in runtime/src/jni_bridge.c, as far as it turns the controller into
-- what the guest is told: touches, keys, motion events and the steering that is stored directly.
pub mod Controls
pub mod Protocol
pub mod Screen
pub mod Steering
mod Tests
