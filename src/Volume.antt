-- ===== src/Volume.antt =====
-- The volume layer: partition tables and the sectors they stand in.
pub mod SectorIo
pub mod Mbr
pub mod MbrPlacement
pub mod ExtendedChain
pub mod MbrPartitions
pub mod PartitionView
pub mod Gpt
pub mod PartitionLabel
pub mod PartitionTable
