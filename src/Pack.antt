-- ===== src/Pack.antt =====
-- internal/repository/pack: the format of pack files.
pub mod Size
pub mod Header
pub mod Packer
