-- ===== src/Recovery/ScanRegions/Coverage.antt =====
-- `regions_from` and `chunked`: which bytes the regions they answer hold.
use data_recovery.Prelude.{
  ℕ, zero, suc, ◌+◌, ◌-◌, ◌%◌, ◌≤◌, ◌<◌, ◌≡◌, refl, sym, ap, ◌∙◌, min, List, [], ◌∷◌, ◌++◌, true,
  false, ◌&&◌, some, ltb, leb, arith, All, Bool-cases, inl, inr, All-append,
}
use mathlib.Core.List.{append-nil, append_assoc}
use data_recovery.Core.SafeArith.{u64_max, u64_mod}
use data_recovery.Fs.Types.{ScanRegion, within}
use data_recovery.Recovery.RegionSet.Gaps.{covers, covers-append}
use data_recovery.Recovery.ScanRegions.{
  region_end, tail_of, regions_from, chunk_loop, append_chunks, chunk_all, chunked,
}

-- No region ends past the largest 64-bit number.
abbrev pub FitsWord : ScanRegion → Type 0
FitsWord region = region.offset + region.length_bytes ≤ u64_max

-- A byte is still to be scanned exactly if it was to be scanned and does not lie before the cursor,
-- for regions that end within 64 bits.
pub covers-regions_from :
    (regions : List ScanRegion) (cursor x : ℕ)
    → All FitsWord regions
    → covers (regions_from regions cursor) x ≡ (covers regions x && leb cursor x)
unfolding covers regions_from region_end tail_of
covers-regions_from [] cursor x fits = refl
covers-regions_from (r ∷ rs) cursor x (f, fs) =
    let whole : (r.offset + r.length_bytes) % u64_mod ≡ r.offset + r.length_bytes = omega arith in
    ground (arith, whole, covers-regions_from rs cursor x fs)

-- Not empty, and within the bound.
abbrev pub IsChunk : ℕ → ScanRegion → Type 0
IsChunk chunk_bytes region = (0 < region.length_bytes) × (region.length_bytes ≤ chunk_bytes)

-- One round of the loop, on the regions that it and the later rounds add.
covers-chunk :
    (at taken finish x : ℕ) (cs : List ScanRegion)
    → at < finish
    → taken ≤ finish - at
    → covers cs x ≡ (leb (at + taken) x && ltb x finish)
    → covers (record { offset = at; length_bytes = taken } ∷ cs) x ≡ (leb at x && ltb x finish)
unfolding covers
covers-chunk at taken finish x cs h t e = ground arith

chunk_loop_next :
    (fuel : ℕ) (chunks : List ScanRegion) (at finish n left next : ℕ)
    → ltb at finish ≡ true
    → (finish + u64_mod - at) % u64_mod ≡ left
    → (at + min n left) % u64_mod ≡ next
    → chunk_loop (suc fuel) chunks at finish n
      ≡ chunk_loop fuel
          (chunks ++ (record { offset = at; length_bytes = min n left } ∷ []))
          next
          finish
          n
chunk_loop_next fuel chunks at finish n left next more l m = unfold chunk_loop in rw (more, l, m)

chunk_loop_ended :
    (fuel : ℕ) (chunks : List ScanRegion) (at finish n : ℕ)
    → ltb at finish ≡ false
    → chunk_loop (suc fuel) chunks at finish n ≡ some chunks
chunk_loop_ended fuel chunks at finish n ended = unfold chunk_loop in rw ended

chunk_loop-pieces :
    (fuel : ℕ) (chunks : List ScanRegion) (at finish n x : ℕ)
    → finish ≤ u64_max
    → at ≤ finish
    → 0 < n
    → finish - at < fuel
    → (cs : List ScanRegion) × (chunk_loop fuel chunks at finish n ≡ some (chunks ++ cs))
      × (covers cs x ≡ (leb at x && ltb x finish))
      × All (IsChunk n) cs
chunk_loop-pieces zero chunks at finish n x fits inside pos fuel = absurd (omega arith)
chunk_loop-pieces (suc fuel) chunks at finish n x fits inside pos enough =
    elim (Bool-cases (ltb at finish)) [
      | inr ended ↦ (
        [],
        chunk_loop_ended fuel chunks at finish n ended ∙ ap some (sym (append-nil chunks)),
        unfold covers in ground arith,
        tt,
      )
      | inl more ↦
          let lt : at < finish = ground arith in
          let left : (finish + u64_mod - at) % u64_mod ≡ finish - at = omega arith in
          let chunk : ScanRegion = record { offset = at; length_bytes = min n (finish - at) } in
          let moved : (at + min n (finish - at)) % u64_mod ≡ at + min n (finish - at) =
            omega arith in
          let (cs, e, c, a) =
            chunk_loop-pieces fuel (chunks ++ (chunk ∷ [])) (at + min n (finish - at)) finish n x
              fits (omega arith) pos (omega arith) in
          (
            chunk ∷ cs,
            (chunk_loop_next fuel chunks at finish n (finish - at) (at + min n (finish - at)) more
                  left moved
                ∙ e
                ∙ ap some (append_assoc chunks (chunk ∷ []) cs)),
            covers-chunk at (min n (finish - at)) finish x cs lt (omega arith) c,
            ((omega arith, omega arith), a),
          )
    ]

append_chunks_lem :
    (chunks : List ScanRegion) (r : ScanRegion) (n : ℕ)
    → FitsWord r
    → append_chunks chunks r n
      ≡ chunk_loop (suc r.length_bytes) chunks r.offset (r.offset + r.length_bytes) n
append_chunks_lem chunks r n fits =
    let whole : (r.offset + r.length_bytes) % u64_mod ≡ r.offset + r.length_bytes = omega arith in
    unfold append_chunks region_end in rw whole

append_chunks-pieces :
    (chunks : List ScanRegion) (r : ScanRegion) (n x : ℕ)
    → FitsWord r
    → 0 < n
    → (cs : List ScanRegion) × (append_chunks chunks r n ≡ some (chunks ++ cs))
      × (covers cs x ≡ within r.offset (r.offset + r.length_bytes) x)
      × All (IsChunk n) cs
append_chunks-pieces chunks r n x fits pos =
    let (cs, e, c, a) =
      chunk_loop-pieces (suc r.length_bytes) chunks r.offset (r.offset + r.length_bytes) n x fits
        (omega arith) pos (omega arith) in
    (cs, append_chunks_lem chunks r n fits ∙ e, c, a)

chunk_all_lem :
    (chunks longer : List ScanRegion) (r : ScanRegion) (rs : List ScanRegion) (n : ℕ)
    → append_chunks chunks r n ≡ some longer
    → chunk_all chunks (r ∷ rs) n ≡ chunk_all longer rs n
unfolding chunk_all
chunk_all_lem chunks longer r rs n e = rw (e, chunk_all)

joined_cover :
    (cs ds : List ScanRegion) (r : ScanRegion) (rs : List ScanRegion) (x : ℕ)
    → covers cs x ≡ within r.offset (r.offset + r.length_bytes) x
    → covers ds x ≡ covers rs x
    → covers (cs ++ ds) x ≡ covers (r ∷ rs) x
unfolding covers
joined_cover cs ds r rs x c d = covers-append cs ds x ∙ ground (arith, c, d)

chunk_all-pieces :
    (chunks rs : List ScanRegion) (n x : ℕ)
    → All FitsWord rs
    → 0 < n
    → (cs : List ScanRegion) × (chunk_all chunks rs n ≡ some (chunks ++ cs))
      × (covers cs x ≡ covers rs x)
      × All (IsChunk n) cs
chunk_all-pieces chunks [] n x fits pos =
    ([], unfold chunk_all in ap some (sym (append-nil chunks)), refl, tt)
chunk_all-pieces chunks (r ∷ rs) n x (f, fs) pos =
    let (cs, e, c, a) = append_chunks-pieces chunks r n x f pos in
    let (ds, e', c', a') = chunk_all-pieces (chunks ++ cs) rs n x fs pos in
    (
      cs ++ ds,
      chunk_all_lem chunks (chunks ++ cs) r rs n e ∙ e' ∙ ap some (append_assoc chunks cs ds),
      joined_cover cs ds r rs x c c',
      All-append (IsChunk n) cs ds a a',
    )

-- Chunks of at least one byte: the regions are cut without losing or adding a byte, and no chunk is
-- empty or longer than the bound, for regions that end within 64 bits.
pub chunked-covers :
    (regions : List ScanRegion) (chunk_bytes x : ℕ)
    → All FitsWord regions
    → 0 < chunk_bytes
    → (chunks : List ScanRegion) × (chunked regions chunk_bytes ≡ some chunks)
      × (covers chunks x ≡ covers regions x)
      × All (IsChunk chunk_bytes) chunks
unfolding chunked
chunked-covers regions chunk_bytes x fits pos = chunk_all-pieces [] regions chunk_bytes x fits pos
