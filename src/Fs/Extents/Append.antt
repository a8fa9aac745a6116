-- ===== src/Fs/Extents/Append.antt =====
-- Joining a run to the extents before it does not move any byte of the file.
use data_recovery.Prelude.{
  ℕ, ◌+◌, ◌-◌, ◌≤◌, ◌<◌, ◌≡◌, refl, List, [], ◌∷◌, ◌++◌, inl, inr, arith, Bool-cases,
}
use data_recovery.Core.SafeArith.{u64_max}
use data_recovery.Fs.Types.{Extent}
use data_recovery.Fs.Extents.{continues, append_extent}
use data_recovery.Fs.Extents.Places.{place_of, total_of, IsWithin, IsSolid}

-- Wherever the run is put, joined to the last extent or after it, a byte of the file lies where it
-- would if the run were a further extent; for extents and a run that end within 64 bits.
pub place_of-append_extent :
    (es : List Extent) (run : Extent) (i : ℕ)
    → IsWithin es
    → run.device_offset + run.length_bytes ≤ u64_max
    → place_of (append_extent es run) i ≡ place_of (es ++ (run ∷ [])) i
unfolding append_extent place_of
place_of-append_extent [] run i w h = refl
place_of-append_extent (e ∷ []) run i w h = ground arith
place_of-append_extent (e ∷ d ∷ es) run i w h =
    ground (arith, place_of-append_extent (d ∷ es) run (i - e.length_bytes) w.1 h)

pub append_extent-IsWithin :
    (es : List Extent) (run : Extent)
    → IsWithin es
    → run.device_offset + run.length_bytes ≤ u64_max
    → IsWithin (append_extent es run)
unfolding append_extent
append_extent-IsWithin [] run w h = (h, tt)
append_extent-IsWithin (e ∷ []) run w h = elim (Bool-cases (continues e run)) [
  | inl joined ↦ rw joined (ground arith, tt)
  | inr apart ↦ rw apart (w.0, (h, tt))
]
append_extent-IsWithin (e ∷ d ∷ es) run w h = (w.0, append_extent-IsWithin (d ∷ es) run w.1 h)

pub total_of-append_extent :
    (es : List Extent) (run : Extent)
    → IsWithin es
    → run.device_offset + run.length_bytes ≤ u64_max
    → total_of (append_extent es run) ≡ total_of es + run.length_bytes
unfolding append_extent total_of
total_of-append_extent [] run w h = omega arith
total_of-append_extent (e ∷ []) run w h = elim (Bool-cases (continues e run)) [
  | inl joined ↦ rw joined (ground arith)
  | inr apart ↦ rw apart (omega arith)
]
total_of-append_extent (e ∷ d ∷ es) run w h =
    omega (arith, total_of-append_extent (d ∷ es) run w.1 h)

pub append_extent-IsSolid :
    (es : List Extent) (run : Extent)
    → IsWithin es
    → run.device_offset + run.length_bytes ≤ u64_max
    → 0 < run.length_bytes
    → IsSolid es
    → IsSolid (append_extent es run)
unfolding append_extent
append_extent-IsSolid [] run w h k s = (k, tt)
append_extent-IsSolid (e ∷ []) run w h k s = elim (Bool-cases (continues e run)) [
  | inl joined ↦ rw joined (ground arith, tt)
  | inr apart ↦ rw apart (s.0, (k, tt))
]
append_extent-IsSolid (e ∷ d ∷ es) run w h k s =
    (s.0, append_extent-IsSolid (d ∷ es) run w.1 h k s.1)
