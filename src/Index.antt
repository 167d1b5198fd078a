-- ===== src/Index.antt =====
-- internal/repository/index: the index of blobs.
pub mod Associated
pub mod Hashed
pub mod PackIndex
pub mod Master
pub mod Saved
pub mod ArrayTree
