-- ===== src/Lib.antt =====
-- A verification library for the recovery engine: finding files on a damaged or reformatted device,
-- deciding which of several explanations of the same bytes to believe, and writing them out. The
-- engine reads hostile bytes, so its parts are total functions with typed errors and bounded loops;
-- this library models those functions and proves what they promise.
--
-- Prelude.antt passes on the names of the standard library and holds the shared lemmas on lists,
-- predicates over lists (Prelude/Predicates) and sorting (Prelude/Sorting, the guarantees of
-- `std::ranges::sort` as an interface, with an insertion sort that fulfils it), slices of lists, texts as
-- lists of bytes (Prelude/Texts) and tests of small ranges by evaluation (Prelude/Tables).
--
-- Core is src/core and include/revenant/core.
--   Core/Result: `Result`, `Error` and `ErrorCode`; `map` is `transform`, `andThen` is `>>=`.
--   Core/SafeArith: SafeArith.cpp and BoundedCount.hpp. A w-bit number is a natural number; what
--     wraps is reduced by `% u64_mod`.
--   Core/Bytes: ByteReader and the readers of Endian.hpp, over a list of numbers below 256.
--   Core/Io: core/io. Io.antt has the device that a reader sees, a function from an offset and a count
--     to the bytes read, and the predicate `IsDevice` that it holds given contents; the layers over a
--     device are stated against it. Core/Io/ReadRange and Core/Io/AlignedRead are the headers of these
--     names, Core/Io/CachingDevice is CachingDevice.cpp with the cache passed from read to read; its
--     loop has a round for each byte wanted and one more. Core/Io/RetryingDevice is
--     RetryingDevice.cpp over a source that is given how many reads it was asked for before, so that it
--     may answer the same read differently; its loop has a round for each byte wanted and one more. The
--     independent description is the log of the reads of the source in Core/Io/RetryingDevice/Log.
--   Core/Sha256Block and Core/Sha256: the compression of a block and the digest fed in pieces; the
--     independent description is `padded` and `compress_blocks` in Core/Sha256/Padding.
--   Core/Crc32, Core/NameEscape and Core/Utf16Name: the files of these names; a string is the list of
--     its bytes, and the loop of the decoder has a round for each code unit.
-- Fs is src/fs.
--   Fs/Extents: ExtentSpan.cpp and ExtentLocate.cpp, whose independent description is `place_of` in
--     Fs/Extents/Places: where on the device a byte of the file lies.
--   Fs/ClusterChain: ClusterChain.cpp. The table is any function from a cluster to its entry or an
--     error, of which `entry_at` is the one that reads the device. The loop has fuel for one round
--     more than the volume has clusters and the final test.
--   Fs/Ntfs/Runlist: ntfs/Runlist.cpp and ntfs/RunlistRun.cpp; Fs/Ntfs/Runlist/Encoder is
--     tools/imagegen/ntfs/RunlistEncoder.cpp. The decoder's loop has fuel for a round per byte: each
--     round moves the cursor by at least one byte.
-- Recovery is src/recovery.
--   Recovery/RegionSet: RegionSet.cpp. The `std::map` from a start to a finish is a list of pairs in
--     key order; an iterator is the place between what is passed, last first, and what is ahead.
--   Recovery/Arbitration: `arbitrate` of Arbitration.cpp, over that region set.
--   Recovery/ScanRegions: ScanRegions.cpp. `chunked` answers `none` when the fuel of `appendChunks`
--     runs out; there is a round for each byte of the region and one more.
--   Recovery/Damage: Damage.cpp. Recovery/ByteAccounting: ByteAccounting.cpp, over that region set.
--   Recovery/WriteOrder: WriteOrder.cpp.
-- Volume is src/volume.
--   Volume/SectorIo: SectorIo.cpp. Volume/PartitionView: PartitionView.cpp.
--   Volume/Mbr: Mbr.cpp and MbrLayout.hpp. Volume/MbrPlacement: MbrPlacement.cpp.
--   Volume/ExtendedChain: ExtendedChain.cpp, with fuel for every sector of the device and two rounds
--     more. Volume/MbrPartitions: MbrPartitions.cpp.
--   Volume/Gpt: Gpt.hpp and GptLayout.hpp, with a child for each of GptHeaderFields.cpp, Gpt.cpp
--     (Header), GptEntry.cpp, GptEntryArray.cpp, GptPlacement.cpp and GptPartitions.cpp. The
--     independent description of a table is `IsListing` in Volume/Gpt/Placement/Exact, over the fields
--     of the slots in Volume/Gpt/Entry/Fields.
--   Volume/PartitionLabel and Volume/PartitionTable: the files of these names, over both schemes.
-- Bytes read from the device and the sorting routine are parameters. Not modelled: input and output,
-- the command line, the parsers of the filesystems other than what is named above, the carvers, and
-- the session's files.
pub mod Prelude
pub mod Core
pub mod Fs
pub mod Recovery
pub mod Volume
pub mod Tests
