-- ===== src/Cloud.antt =====
-- internal/cloudsource: the cache of cloud albums.
pub mod Names
pub mod Mirror
pub mod Cache
