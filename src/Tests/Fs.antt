-- ===== src/Tests/Fs.antt =====
-- src/fs at concrete inputs.
use data_recovery.Prelude.{
  ℕ, ◌+◌, ◌*◌, ◌≤◌, ◌≡◌, ◌≢◌, ◌↔◌, refl, List, [], ◌∷◌, ◌++◌, some, none, true, false, ltb, ◌==◌,
  if◌then◌else◌, arith,
}
use data_recovery.Core.Result.{Result, ok, error_at, Returns, invalid_argument}
use data_recovery.Fs.Types.{Extent}
use data_recovery.Fs.Extents.{append_extent, trim_to_size, locate_in_extents}
use data_recovery.Fs.Extents.Places.{place_of, total_of}
use data_recovery.Fs.Extents.Append.{place_of-append_extent}
use data_recovery.Fs.Extents.Trim.{trim_to_size-prefix, trim_to_size_empty_extent}
use data_recovery.Fs.Extents.Locate.{place_of-locate_in_extents, locate_in_extents_spanning}
use data_recovery.Fs.ClusterChain.{
  ClusterGeometry, done, stuck, chain_from, chain_extents, cluster_offset,
}
use data_recovery.Fs.ClusterChain.Follow.{Chain, chain_from_iff, chain_from-ne-stuck}
use data_recovery.Fs.ClusterChain.Layout.{chain_extents_layout}
use data_recovery.Fs.Ntfs.Runlist.{
  DataRun, Runlist, Decoded, decode_runlist, step_one_run, read_raw_run, signed_delta,
}
use data_recovery.Core.Bytes.{read_le}
use data_recovery.Fs.Ntfs.Runlist.Encoder.{encode_runlist}
use data_recovery.Fs.Ntfs.Runlist.Steps.{total_length}
use data_recovery.Fs.Ntfs.Runlist.RoundTrip.{decode_runlist-encode_runlist, IsEncodable}
use data_recovery.Fs.Ntfs.Runlist.Sound.{
  decode_runlist-ne-stuck, decode_runlist-IsDecoded, IsDecoded,
}

abbrev first_extent : Extent
first_extent = record { device_offset = 100; length_bytes = 10 }

abbrev second_extent : Extent
second_extent = record { device_offset = 500; length_bytes = 6 }

abbrev file_extents : List Extent
file_extents = first_extent ∷ second_extent ∷ []

place_of-append_extent_example :
    place_of (append_extent file_extents (record { device_offset = 506; length_bytes = 4 })) 17
    ≡ place_of (file_extents ++ (record { device_offset = 506; length_bytes = 4 } ∷ [])) 17
place_of-append_extent_example =
    place_of-append_extent file_extents (record { device_offset = 506; length_bytes = 4 }) 17
      (omega arith) (omega arith)

trim_to_size-prefix_example : Returns (trim_to_size file_extents 12) (λ taken.
    (total_of taken ≡ 12)
    × (place_of taken 11 ≡ (if ltb 11 12 then place_of file_extents 11 else none)))
unfolding total_of
trim_to_size-prefix_example = trim_to_size-prefix file_extents 12 11 (omega arith) (omega arith)

trim_to_size_empty_extent_example :
    trim_to_size (record { device_offset = 100; length_bytes = 0 } ∷ file_extents) 12 ≡ ok []
trim_to_size_empty_extent_example =
    trim_to_size_empty_extent (record { device_offset = 100; length_bytes = 0 }) file_extents 12
      refl

located : locate_in_extents file_extents (record { offset = 12; length = 4 }) ≡ ok 502
unfolding locate_in_extents
located = refl

place_of-locate_in_extents_example : place_of file_extents (12 + 3) ≡ some (502 + 3)
unfolding total_of
place_of-locate_in_extents_example =
    place_of-locate_in_extents file_extents (record { offset = 12; length = 4 }) 502 3 (omega arith)
      (omega arith) (omega arith) located

abbrev small_volume : ClusterGeometry
small_volume = record {
  bytes_per_cluster = 8;
  table_offset_bytes = 0;
  table_size_bytes = 64;
  data_offset_bytes = 1000;
  total_clusters = 10;
}

-- Cluster 5 leads to 6 and 6 to 9, where the chain ends.
abbrev table : ℕ → Result ℕ
table cluster = if cluster == 5 then ok 6 else (if cluster == 6 then ok 9 else ok 0x0fff_ffff)

chain_runs : chain_from table small_volume 5 ≡ done (ok (5 ∷ 6 ∷ 9 ∷ []))
unfolding chain_from
chain_runs = refl

chain_from_iff_example :
    (chain_from table small_volume 5 ≡ done (ok (5 ∷ 6 ∷ 9 ∷ [])))
    ↔ (Chain table small_volume 5 (5 ∷ 6 ∷ 9 ∷ []) × (3 ≤ 10))
chain_from_iff_example = chain_from_iff table small_volume 5 (5 ∷ 6 ∷ 9 ∷ [])

chain_from-ne-stuck_example : chain_from (λ c. ok 5) small_volume 5 ≢ stuck
chain_from-ne-stuck_example = chain_from-ne-stuck (λ c. ok 5) small_volume 5

chain_extents_layout_example : Returns (chain_extents (5 ∷ 6 ∷ 9 ∷ []) small_volume 20) (λ es.
    (total_of es ≡ 20) × (place_of es (2 * 8 + 3) ≡ some (cluster_offset small_volume 9 + 3)))
unfolding cluster_offset
chain_extents_layout_example =
    chain_extents_layout small_volume (5 ∷ 6 ∷ 9 ∷ []) 20 2 3 9 (omega arith) (omega arith)
      (omega arith) refl (omega arith) (omega arith)

-- A run, a hole, and a run before the first one.
abbrev three_runs : List DataRun
three_runs =
    record { start_cluster = 1000; length_clusters = 300; sparse = false }
    ∷ record { start_cluster = 0; length_clusters = 5; sparse = true }
    ∷ record { start_cluster = 10; length_clusters = 2; sparse = false }
    ∷ []

three_runs-IsEncodable : IsEncodable 0 three_runs
three_runs-IsEncodable = (
  record {
    some_clusters = omega arith;
    length_fits = omega arith;
    start_fits = omega arith;
    hole = λ e. cc;
  },
  omega arith,
  (
    record {
      some_clusters = omega arith;
      length_fits = omega arith;
      start_fits = omega arith;
      hole = λ e. refl;
    },
    omega arith,
    (
      record {
        some_clusters = omega arith;
        length_fits = omega arith;
        start_fits = omega arith;
        hole = λ e. cc;
      },
      omega arith,
      tt,
    ),
  ),
)

encode_runs :
    encode_runlist three_runs
    ≡ 0x22 ∷ 0x2c ∷ 0x01 ∷ 0xe8 ∷ 0x03 ∷ 0x01 ∷ 0x05 ∷ 0x21 ∷ 0x02 ∷ 0x22 ∷ 0xfc ∷ 0x00 ∷ []
unfolding encode_runlist
encode_runs = refl

decode_runlist-encode_runlist_example :
    decode_runlist (encode_runlist three_runs)
    ≡ Decoded.done (ok (record { runs = three_runs; total_clusters = total_length three_runs }))
decode_runlist-encode_runlist_example =
    decode_runlist-encode_runlist three_runs three_runs-IsEncodable (omega arith)

decode_runlist-ne-stuck_example : decode_runlist (0x11 ∷ 0x03 ∷ []) ≢ Decoded.stuck
decode_runlist-ne-stuck_example = decode_runlist-ne-stuck (0x11 ∷ 0x03 ∷ [])

abbrev one_run : Runlist
one_run = record {
  runs = record { start_cluster = 5; length_clusters = 3; sparse = false } ∷ [];
  total_clusters = 3;
}

decode_runs : decode_runlist (0x11 ∷ 0x03 ∷ 0x05 ∷ 0x00 ∷ []) ≡ Decoded.done (ok one_run)
unfolding decode_runlist step_one_run read_raw_run signed_delta read_le
decode_runs = refl

decode_runlist-IsDecoded_example : IsDecoded one_run
decode_runlist-IsDecoded_example =
    decode_runlist-IsDecoded (0x11 ∷ 0x03 ∷ 0x05 ∷ 0x00 ∷ []) one_run decode_runs

-- The range begins in the last extent and leaves the file.
locate_in_extents_spanning_example :
    locate_in_extents
      ((first_extent ∷ []) ++ (second_extent ∷ []))
      (record { offset = total_of (first_extent ∷ []) + 2; length = 9 })
    ≡ error_at invalid_argument 2
unfolding total_of
locate_in_extents_spanning_example =
    locate_in_extents_spanning (first_extent ∷ []) second_extent [] 2 9 (omega arith) (omega arith)
      (omega arith)
