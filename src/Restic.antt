-- ===== src/Restic.antt =====
-- internal/restic: the data that the repository's parts exchange.
pub mod Blob
