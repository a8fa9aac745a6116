-- ===== src/Core.antt =====
-- The core layer: error values, overflow-checked arithmetic, bounds-checked reading of bytes.
pub mod Result
pub mod SafeArith
pub mod Bytes
pub mod Io
pub mod Sha256Block
pub mod Sha256
pub mod Crc32
pub mod NameEscape
pub mod Utf16Name
