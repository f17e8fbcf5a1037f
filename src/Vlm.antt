-- ===== src/Vlm.antt =====
-- Package internal/vlm: the vision model that scores photos.
pub mod Answers
pub mod Archive
pub mod Config
pub mod Manager
pub mod Plans
pub mod Models
