-- ===== src/Raw/Tiff.antt =====
-- internal/raw/tiff.go: constants, tag values and the data of the walk over the IFDs.
pub mod Values
pub mod Ifd
pub mod Walk
pub mod Extract
pub mod Errors
pub mod Bounds
pub mod Sound
pub mod Panics
