-- ===== src/Scoring.antt =====
-- internal/scoring: the clusters of faces.
pub mod Clusters
