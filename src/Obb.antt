-- ===== src/Obb.antt =====
-- runtime/src/obb_index.c: the index of the OBB archive's ZIP directory.
pub mod Parse
pub mod Index
mod Tests
