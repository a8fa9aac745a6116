-- ===== src/Core/Sha256.antt =====
-- src/core/Sha256.cpp: the digest of a message that is fed in pieces.
pub mod Streaming
pub mod Padding
use data_recovery.Prelude.{
  ℕ, zero, suc, ◌+◌, ◌-◌, ◌*◌, ◌/◌, ◌%◌, ◌^◌, List, [], ◌∷◌, ◌++◌, ◌==◌, if◌then◌else◌, length,
  take, drop, min,
}
use data_recovery.Core.SafeArith.{u64_mod}
use data_recovery.Core.Sha256Block.{compress_block}

abbrev pub block_bytes : ℕ
block_bytes = 64

-- `pending_` up to `pendingBytes_`.
pub record Sha256 : Type 0 where
  pub state : List ℕ
  pub pending : List ℕ
  pub total_bytes : ℕ

abbrev pub initial_state : List ℕ
initial_state =
    0x6a09_e667 ∷ 0xbb67_ae85 ∷ 0x3c6e_f372 ∷ 0xa54f_f53a ∷ 0x510e_527f ∷ 0x9b05_688c ∷ 0x1f83_d9ab
    ∷ 0x5be0_cd19 ∷ []

abbrev pub fresh : Sha256
fresh = record { state = initial_state; pending = []; total_bytes = 0 }

-- The block is absorbed as soon as it is whole.
unfoldable pub absorb_if_whole : Sha256 → Sha256
absorb_if_whole hash =
    if length hash.pending == block_bytes
    then record hash { state = compress_block hash.state hash.pending; pending = [] }
    else hash

-- `fillPending`: how many bytes are taken, and the state with them.
unfoldable pub taken : Sha256 → List ℕ → ℕ
taken hash bytes = min (block_bytes - length hash.pending) (length bytes)

unfoldable pub fill_pending : Sha256 → List ℕ → Sha256
fill_pending hash bytes = record hash { pending = hash.pending ++ take (taken hash bytes) bytes }

-- The loop of `update`, with a round for each byte at most.
unfoldable pub update_loop : ℕ → Sha256 → List ℕ → Sha256
update_loop fuel hash [] = hash
update_loop zero hash (b ∷ rest) = hash
update_loop (suc fuel) hash (b ∷ rest) =
    update_loop fuel (absorb_if_whole (fill_pending hash (b ∷ rest)))
      (drop (taken hash (b ∷ rest)) (b ∷ rest))

-- `update`
unfoldable pub update : Sha256 → List ℕ → Sha256
update hash bytes =
    update_loop (length bytes)
      (record hash { total_bytes = (hash.total_bytes + length bytes) % u64_mod }) bytes

-- `appendPadByte`
unfoldable pub append_pad_byte : Sha256 → ℕ → Sha256
append_pad_byte hash value =
    absorb_if_whole (record hash { pending = hash.pending ++ (value ∷ []) })

-- The loop of `padToLengthField`.
unfoldable pub pad_zeros : ℕ → Sha256 → Sha256
pad_zeros zero hash = hash
pad_zeros (suc fuel) hash =
    let rest = pad_zeros fuel (append_pad_byte hash 0) in
    if length hash.pending == block_bytes - 8 then hash else rest

-- `padToLengthField`: fewer zeros than a block has bytes.
unfoldable pub pad_to_length_field : Sha256 → Sha256
pad_to_length_field hash = pad_zeros 64 (append_pad_byte hash 0x80)

-- `toBigEndian` of a number of `width` bytes.
unfoldable pub be_bytes : ℕ → ℕ → List ℕ
be_bytes value zero = []
be_bytes value (suc width) = value / 256 ^ width % 256 ∷ be_bytes value width

unfoldable pub append_pad_bytes : Sha256 → List ℕ → Sha256
append_pad_bytes hash [] = hash
append_pad_bytes hash (b ∷ bytes) = append_pad_bytes (append_pad_byte hash b) bytes

-- `absorbTail`
unfoldable pub absorb_tail : Sha256 → Sha256
absorb_tail hash =
    append_pad_bytes (pad_to_length_field hash) (be_bytes (hash.total_bytes * 8 % u64_mod) 8)

-- `digestOf`
unfoldable pub digest_of : List ℕ → List ℕ
digest_of [] = []
digest_of (word ∷ state) = be_bytes word 4 ++ digest_of state

-- `finish`
unfoldable pub finish : Sha256 → List ℕ
finish hash = digest_of (absorb_tail hash).state

-- `sha256`
unfoldable pub sha256 : List ℕ → List ℕ
sha256 bytes = finish (update fresh bytes)

-- `toHex`, as character codes.
unfoldable pub hex_digit : ℕ → ℕ
hex_digit nibble = if (nibble / 10) == 0 then 48 + nibble else 87 + nibble

unfoldable pub to_hex : List ℕ → List ℕ
to_hex [] = []
to_hex (value ∷ digest) = hex_digit (value / 16) ∷ hex_digit (value % 16) ∷ to_hex digest
