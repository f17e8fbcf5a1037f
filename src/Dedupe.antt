-- ===== src/Dedupe.antt =====
-- internal/dedupe: groups of similar photos.
pub mod Groups
pub mod Sound
pub mod Whole
pub mod Total
pub mod Dates
pub mod Best
pub mod Mover
