-- ===== src/Storage.antt =====
-- internal/storage: what the statements of the store do to its tables. A table is the list of its rows.
pub mod Tables
pub mod Like
pub mod Files
pub mod Refines
pub mod Meta
pub mod Recents
pub mod Rankings
pub mod Scores
pub mod Faces
