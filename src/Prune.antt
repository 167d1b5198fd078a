-- ===== src/Prune.antt =====
-- internal/repository/prune.go: which packs to delete, to repack and to keep.
pub mod Types
pub mod Select
pub mod Decide
pub mod Repack
pub mod Plan
pub mod Execute
