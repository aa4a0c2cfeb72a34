-- ===== src/Elf.antt =====
-- runtime/src/elf32_loader.c and elf32_loader.h: mapping and relocating an ELF32/ARM module.
pub mod Format
pub mod Ranges
pub mod Types
pub mod Segments
pub mod Dynamic
pub mod Relocate
pub mod Load
pub mod Sample
mod Tests
