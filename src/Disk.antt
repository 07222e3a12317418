-- ===== src/Disk.antt =====
-- src/ata.rs and src/fs.rs: the disk and the archive on it.
pub mod Ata
pub mod Archive
