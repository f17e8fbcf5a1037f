-- ===== src/Tests.antt =====
-- Small inputs on which the definitions are run and the theorems are applied.
mod Analysis
mod Answers
mod App
mod Archive
mod Cloud
mod Config
mod Dedupe
mod Duplicates
mod Export
mod Mirror
mod Mover
mod Plans
mod Rankings
mod Raw
mod Scoring
mod Storage
mod Updater
mod Vlm
