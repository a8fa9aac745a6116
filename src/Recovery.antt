-- ===== src/Recovery.antt =====
-- The recovery layer: which bytes are claimed, by whom, and what is scanned and written.
pub mod RegionSet
pub mod Candidate
pub mod Arbitration
pub mod ScanRegions
pub mod Damage
pub mod ByteAccounting
pub mod WriteOrder
