-- ===== src/Vga.antt =====
-- The display: text mode and mode 13h.
pub mod Text
pub mod Mode13
pub mod Format
