-- ===== src/Fs.antt =====
-- The filesystem layer: device extents and the filesystems' own layouts.
pub mod Types
pub mod Extents
pub mod ClusterChain
pub mod Ntfs
