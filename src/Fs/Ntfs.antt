-- ===== src/Fs/Ntfs.antt =====
-- The NTFS layer.
pub mod Runlist
