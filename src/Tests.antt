-- ===== src/Tests.antt =====
-- Runs of the model at concrete inputs, and the theorems at inputs that meet their hypotheses.
mod Prune
mod Filter
mod Policy
mod BlobCache
mod Associated
mod Tags
mod Crypto
mod Pack
mod Index
mod Master
