-- ===== src/Probe.antt =====
-- The probes of runtime/src that bind the guest's imports: symbol_probe.c counts the providers of every
-- import, and relocation_probe.c relocates the images with a chain of providers.
pub mod Names
pub mod Hosts
pub mod Relocation
pub mod Symbols
mod Tests
