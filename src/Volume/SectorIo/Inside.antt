-- ===== src/Volume/SectorIo/Inside.antt =====
-- `byte_offset_of`: the whole sector lies on the device.
use data_recovery.Prelude.{ℕ, ◌+◌, ◌*◌, ◌/◌, ◌≤◌, ◌<◌, ◌≡◌, ◌↔◌, arith}
use native.Mathlib.Nat.{div-add-mod, mod-lt}
use data_recovery.Core.Result.{ok}
use data_recovery.Core.Io.{Device}
use data_recovery.Volume.SectorIo.{byte_offset_of}

le_div→mul_add_le : (m a b : ℕ) → b < m / a → b * a + a ≤ m
le_div→mul_add_le m a b h = grind (arith, div-add-mod m a)

mul_add_le→lt_div : (m a b : ℕ) → 0 < a → b * a + a ≤ m → b < m / a
mul_add_le→lt_div m a b pos h = grind (arith, div-add-mod m a, mod-lt m {m = a} pos)

-- A place is answered for a sector exactly if sectors have a size and the whole sector lies on the
-- device; the place is then the sector's number times the size.
pub byte_offset_of_iff :
    (device : Device) (lba place : ℕ)
    → (byte_offset_of device lba ≡ ok place) ↔ (
        (0 < device.sector_size)
        × (lba * device.sector_size + device.sector_size ≤ device.size_in_bytes)
        × (place ≡ lba * device.sector_size))
unfolding byte_offset_of
byte_offset_of_iff device lba place = (
  λ e.
      let pos : 0 < device.sector_size = ground (arith, e) in
      let inside : lba < device.size_in_bytes / device.sector_size = ground (arith, e) in
      (pos, le_div→mul_add_le _ _ _ inside, ground (arith, e)),
  λ (pos, inside, same). ground (arith, same, mul_add_le→lt_div _ _ _ pos inside),
)
