-- ===== src/Compat.antt =====
-- Parts of runtime/src/compat_bridge.c, which stands in for Android's C library.
pub mod Exit
pub mod Slots
pub mod Mutex
pub mod Condition
pub mod Lock
pub mod Semaphore
pub mod Thread
pub mod Signals
pub mod Resolve
mod Tests
