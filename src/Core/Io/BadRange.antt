-- ===== src/Core/Io/BadRange.antt =====
-- include/revenant/core/io/BadRange.hpp: a range of a device that could not be read.
use data_recovery.Prelude.{ℕ}

pub record BadRange : Type 0 where
  pub offset_bytes : ℕ
  pub length_bytes : ℕ
