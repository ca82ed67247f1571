-- ===== src/Fs.antt =====
-- cp/fs: spool files, and the EDF file system with its block cache.
pub mod Spool
pub mod Volume
pub mod Bcache
pub mod Edf
