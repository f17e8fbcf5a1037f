-- ===== src/Raw.antt =====
-- Package internal/raw: embedded previews of camera RAW files.
pub mod File
pub mod Int64
pub mod Tiff
pub mod Cr3
pub mod Raf
pub mod Preview
