-- ===== src/App.antt =====
-- internal/app: the stages of the analysis of a folder, and the settings.
pub mod Duplicates
pub mod Engine
pub mod Describe
pub mod Rank
pub mod People
pub mod Settings
pub mod Score
pub mod Analysis
