-- ===== src/Doom.antt =====
-- src/ffi/mod.rs: the boundary between the kernel and the Doom engine.
pub mod Keys
pub mod Palette
pub mod Engine
