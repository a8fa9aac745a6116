-- ===== src/Fs/Ntfs/Runlist/Deltas.antt =====
-- A signed delta, written in any width that holds it and read back.
use data_recovery.Prelude.{ℕ, ◌-◌, ◌*◌, ◌%◌, ◌^◌, ◌≤◌, ◌≡◌, true, arith}
use data_recovery.Core.SafeArith.{u64_mod}
use data_recovery.Fs.Ntfs.Runlist.{ℤ, pos, negsuc, read_le_field, signed_delta}
use data_recovery.Fs.Ntfs.Runlist.Encoder.{le_bytes, pattern64, fits_below}
use data_recovery.Fs.Ntfs.Runlist.Bytes.{eight_widths, widen}

abbrev pub WidensBack : ℕ → Type 0
WidensBack width =
    (delta : ℤ)
    → fits_below delta (2 ^ (width * 8 - 1)) ≡ true
    → signed_delta (read_le_field (le_bytes (pattern64 delta) width)) width ≡ delta

widens_1 : WidensBack 1
unfolding signed_delta
widens_1 (pos n) h =
    rw (widen 1 0 n (n % u64_mod) (ground arith) (ground arith) (ground arith)) (ground arith)
widens_1 (negsuc n) h =
    rw
      (widen 1 (2 ^ 56 - 1) (2 ^ 8 - 1 - n) (u64_mod - 1 - n % u64_mod) (ground arith)
        (ground arith) (ground arith))
      (ground arith)

widens_2 : WidensBack 2
unfolding signed_delta
widens_2 (pos n) h =
    rw (widen 2 0 n (n % u64_mod) (ground arith) (ground arith) (ground arith)) (ground arith)
widens_2 (negsuc n) h =
    rw
      (widen 2 (2 ^ 48 - 1) (2 ^ 16 - 1 - n) (u64_mod - 1 - n % u64_mod) (ground arith)
        (ground arith) (ground arith))
      (ground arith)

widens_3 : WidensBack 3
unfolding signed_delta
widens_3 (pos n) h =
    rw (widen 3 0 n (n % u64_mod) (ground arith) (ground arith) (ground arith)) (ground arith)
widens_3 (negsuc n) h =
    rw
      (widen 3 (2 ^ 40 - 1) (2 ^ 24 - 1 - n) (u64_mod - 1 - n % u64_mod) (ground arith)
        (ground arith) (ground arith))
      (ground arith)

widens_4 : WidensBack 4
unfolding signed_delta
widens_4 (pos n) h =
    rw (widen 4 0 n (n % u64_mod) (ground arith) (ground arith) (ground arith)) (ground arith)
widens_4 (negsuc n) h =
    rw
      (widen 4 (2 ^ 32 - 1) (2 ^ 32 - 1 - n) (u64_mod - 1 - n % u64_mod) (ground arith)
        (ground arith) (ground arith))
      (ground arith)

widens_5 : WidensBack 5
unfolding signed_delta
widens_5 (pos n) h =
    rw (widen 5 0 n (n % u64_mod) (ground arith) (ground arith) (ground arith)) (ground arith)
widens_5 (negsuc n) h =
    rw
      (widen 5 (2 ^ 24 - 1) (2 ^ 40 - 1 - n) (u64_mod - 1 - n % u64_mod) (ground arith)
        (ground arith) (ground arith))
      (ground arith)

widens_6 : WidensBack 6
unfolding signed_delta
widens_6 (pos n) h =
    rw (widen 6 0 n (n % u64_mod) (ground arith) (ground arith) (ground arith)) (ground arith)
widens_6 (negsuc n) h =
    rw
      (widen 6 (2 ^ 16 - 1) (2 ^ 48 - 1 - n) (u64_mod - 1 - n % u64_mod) (ground arith)
        (ground arith) (ground arith))
      (ground arith)

widens_7 : WidensBack 7
unfolding signed_delta
widens_7 (pos n) h =
    rw (widen 7 0 n (n % u64_mod) (ground arith) (ground arith) (ground arith)) (ground arith)
widens_7 (negsuc n) h =
    rw
      (widen 7 (2 ^ 8 - 1) (2 ^ 56 - 1 - n) (u64_mod - 1 - n % u64_mod) (ground arith)
        (ground arith) (ground arith))
      (ground arith)

widens_8 : WidensBack 8
unfolding signed_delta
widens_8 (pos n) h =
    rw (widen 8 0 n (n % u64_mod) (ground arith) (ground arith) (ground arith)) (ground arith)
widens_8 (negsuc n) h =
    rw
      (widen 8 0 (2 ^ 64 - 1 - n) (u64_mod - 1 - n % u64_mod) (ground arith) (ground arith)
        (ground arith))
      (ground arith)

pub widens_back : (width : ℕ) → 1 ≤ width → width ≤ 8 → WidensBack width
widens_back =
    eight_widths WidensBack widens_1 widens_2 widens_3 widens_4 widens_5 widens_6 widens_7 widens_8
