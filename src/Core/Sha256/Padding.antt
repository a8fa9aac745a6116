-- ===== src/Core/Sha256/Padding.antt =====
-- `sha256` of a message against the standard's description: pad the message, and compress it block
-- by block.
use data_recovery.Prelude.{
  ℕ, zero, suc, ◌+◌, ◌-◌, ◌*◌, ◌/◌, ◌%◌, ◌≤◌, ◌<◌, ◌≡◌, ◌⊎◌, refl, sym, ap, ◌∙◌, List, [], ◌∷◌,
  ◌++◌, ◌==◌, length, take, drop, arith, Bool-cases, inl, inr, length-append, take-append_exact,
  drop-append_exact,
}
use mathlib.Core.List.{append_assoc}
use data_recovery.Core.SafeArith.{u64_mod}
use data_recovery.Core.Sha256Block.{compress_block}
use data_recovery.Core.Sha256.{
  Sha256, block_bytes, initial_state, fresh, update, append_pad_byte, append_pad_bytes, pad_zeros,
  pad_to_length_field, be_bytes, absorb_tail, digest_of, finish, sha256,
}
use data_recovery.Core.Sha256.Streaming.{
  IsReady, length-append_one, append_pad_byte_part, append_pad_byte_whole,
  length-pending-append_pad_byte, length-pending-append_pad_bytes, append_pad_bytes-IsReady,
  append_pad_bytes-append, append_pad_bytes-with_total, with_total, update-append_pad_bytes,
}

-- The first `n` blocks of a message, compressed in turn.
unfoldable pub compress_blocks : ℕ → List ℕ → List ℕ → List ℕ
compress_blocks zero state message = state
compress_blocks (suc n) state message =
    compress_blocks n (compress_block state (take block_bytes message)) (drop block_bytes message)

abbrev pub zeros : ℕ → List ℕ
zeros zero = []
zeros (suc n) = 0 ∷ zeros n

-- The zeros that carry a message of `size` bytes and the byte 0x80 to 8 bytes before the end of a
-- block.
abbrev pub zero_count : ℕ → ℕ
zero_count size = (120 - (size + 1) % block_bytes) % block_bytes

-- The padded message: its bytes, a 1 bit, zeros, and its length in bits as 8 bytes.
abbrev pub padded : List ℕ → List ℕ
padded bytes =
    bytes
    ++ (0x80 ∷ zeros (zero_count (length bytes))
        ++ be_bytes (length bytes % u64_mod * 8 % u64_mod) 8)

length-zeros : (n : ℕ) → length (zeros n) ≡ n
length-zeros zero = refl
length-zeros (suc n) = ap suc (length-zeros n)

length-be_bytes : (value width : ℕ) → length (be_bytes value width) ≡ width
unfolding be_bytes
length-be_bytes value zero = refl
length-be_bytes value (suc width) = ap suc (length-be_bytes value width)

compress_blocks-whole :
    (n : ℕ) (state block rest : List ℕ)
    → length block ≡ block_bytes
    → compress_blocks (suc n) state (block ++ rest)
      ≡ compress_blocks n (compress_block state block) rest
unfolding compress_blocks
compress_blocks-whole n state block rest h =
    ap
      (λ (bs : List ℕ).
        compress_blocks n (compress_block state bs) (drop block_bytes (block ++ rest)))
      (take-append_exact block_bytes block rest h)
    ∙ ap (compress_blocks n (compress_block state block))
        (drop-append_exact block_bytes block rest h)

-- Bytes that complete a number of blocks.
state-append_pad_bytes :
    (n : ℕ) (hash : Sha256) (xs : List ℕ)
    → IsReady hash
    → length hash.pending + length xs ≡ n * block_bytes
    → (append_pad_bytes hash xs).state ≡ compress_blocks n hash.state (hash.pending ++ xs)
unfolding append_pad_bytes
state-append_pad_bytes zero hash [] h e = unfold compress_blocks in refl
state-append_pad_bytes (suc n) hash [] h e = absurd (omega (arith, h, e))
state-append_pad_bytes zero hash (x ∷ xs) h e = absurd (omega (arith, h, e))
state-append_pad_bytes (suc n) hash (x ∷ xs) h e =
    let split : (hash.pending ++ (x ∷ [])) ++ xs ≡ hash.pending ++ (x ∷ xs) =
      append_assoc hash.pending (x ∷ []) xs in
    let longer = length-append_one hash.pending x in
    elim (Bool-cases (length hash.pending + 1 == block_bytes)) [
      | inl whole ↦
          let full : length hash.pending + 1 ≡ block_bytes = ground (arith, whole) in
          let next : Sha256 = record hash {
            state = compress_block hash.state (hash.pending ++ (x ∷ []));
            pending = [];
          } in
          ap (λ (s : Sha256). (append_pad_bytes s xs).state) (append_pad_byte_whole hash x full)
          ∙ state-append_pad_bytes n next xs (omega arith) (omega (arith, full, e))
          ∙ sym (
              compress_blocks-whole n hash.state (hash.pending ++ (x ∷ [])) xs
                (omega (arith, longer, full)))
          ∙ ap (compress_blocks (suc n) hash.state) split
      | inr part ↦
          let lt : length hash.pending + 1 < block_bytes = ground (arith, part, h) in
          let next : Sha256 = record hash { pending = hash.pending ++ (x ∷ []) } in
          ap (λ (s : Sha256). (append_pad_bytes s xs).state) (append_pad_byte_part hash x lt)
          ∙ state-append_pad_bytes (suc n) next xs (omega (arith, longer, lt))
              (omega (arith, longer, e))
          ∙ ap (compress_blocks (suc n) hash.state) split
    ]

pad_zeros-append_pad_bytes :
    (fuel z : ℕ) (hash : Sha256)
    → IsReady hash
    → (length hash.pending + z) % block_bytes ≡ block_bytes - 8
    → z < block_bytes
    → z ≤ fuel
    → pad_zeros fuel hash ≡ append_pad_bytes hash (zeros z)
unfolding pad_zeros append_pad_bytes
pad_zeros-append_pad_bytes zero zero hash h e l enough = refl
pad_zeros-append_pad_bytes zero (suc z) hash h e l enough = absurd (omega arith)
pad_zeros-append_pad_bytes (suc fuel) z hash h e l enough =
    elim (Bool-cases (length hash.pending == block_bytes - 8)) [
      | inl stands ↦
          let at : length hash.pending ≡ block_bytes - 8 = ground (arith, stands) in
          let nothing : 0 ≡ z = omega (arith, at, e, l) in
          rw stands (ap (λ n. append_pad_bytes hash (zeros n)) nothing)
      | inr goes ↦
          let away : (length hash.pending < block_bytes - 8)
              ⊎ (block_bytes - 8 < length hash.pending) =
            ground (arith, goes) in
          let some_zeros : z ≡ suc (z - 1) = omega (arith, away, e, h) in
          let one = length-pending-append_pad_byte hash 0 h in
          rw goes (
            pad_zeros-append_pad_bytes fuel (z - 1) (append_pad_byte hash 0) (omega (arith, one))
              (omega (arith, one, e, some_zeros)) (omega (arith, l)) (omega (arith, enough))
            ∙ ap (λ n. append_pad_bytes hash (zeros n)) (sym some_zeros))
    ]

absorb_tail-append_pad_bytes :
    (hash : Sha256) (z : ℕ)
    → IsReady hash
    → (length hash.pending + 1 + z) % block_bytes ≡ block_bytes - 8
    → z < block_bytes
    → absorb_tail hash
      ≡ append_pad_bytes hash (0x80 ∷ zeros z ++ be_bytes (hash.total_bytes * 8 % u64_mod) 8)
unfolding absorb_tail pad_to_length_field append_pad_bytes
absorb_tail-append_pad_bytes hash z h e l =
    let one = length-pending-append_pad_byte hash 0x80 h in
    ap (λ (s : Sha256). append_pad_bytes s (be_bytes (hash.total_bytes * 8 % u64_mod) 8))
      (pad_zeros-append_pad_bytes 64 z (append_pad_byte hash 0x80) (omega (arith, one))
        (omega (arith, one, e)) l (omega (arith, l)))
    ∙ sym (
        append_pad_bytes-append (append_pad_byte hash 0x80) (zeros z)
          (be_bytes (hash.total_bytes * 8 % u64_mod) 8))

length-padded :
    (bytes : List ℕ) → length (padded bytes) ≡ length bytes + (9 + zero_count (length bytes))
length-padded bytes =
    let field = be_bytes (length bytes % u64_mod * 8 % u64_mod) 8 in
    omega (
      arith,
      length-append bytes (0x80 ∷ zeros (zero_count (length bytes)) ++ field),
      length-append (zeros (zero_count (length bytes))) field,
      length-zeros (zero_count (length bytes)),
      length-be_bytes (length bytes % u64_mod * 8 % u64_mod) 8,
    )

-- What is absorbed in the end is the padded message.
state-absorb_tail :
    (bytes : List ℕ)
    → (absorb_tail (update fresh bytes)).state ≡ (append_pad_bytes fresh (padded bytes)).state
state-absorb_tail bytes =
    let size = length bytes in
    let tail = 0x80 ∷ zeros (zero_count size) ++ be_bytes (size % u64_mod * 8 % u64_mod) 8 in
    let ready : IsReady fresh = omega arith in
    let fed = append_pad_bytes fresh bytes in
    let fed_size = length-pending-append_pad_bytes fresh bytes ready in
    let total : (0 + size) % u64_mod ≡ size % u64_mod = omega arith in
    ap (λ (s : Sha256). (absorb_tail s).state)
      (update-append_pad_bytes fresh bytes ready ∙ ap (λ n. with_total n fed) total)
    ∙ ap (λ (s : Sha256). s.state)
        (absorb_tail-append_pad_bytes (with_total (size % u64_mod) fed) (zero_count size)
            (append_pad_bytes-IsReady fresh bytes ready) (omega (arith, fed_size)) (omega arith)
          ∙ append_pad_bytes-with_total (size % u64_mod) fed tail)
    ∙ ap (λ (s : Sha256). s.state) (sym (append_pad_bytes-append fresh bytes tail))

-- The digest of a message is what compressing the padded message block by block gives, and the
-- padded message is a whole number of blocks.
pub sha256-padded :
    (bytes : List ℕ)
    → (sha256 bytes
        ≡ digest_of
            (compress_blocks (length (padded bytes) / block_bytes) initial_state (padded bytes)))
      × (length (padded bytes) % block_bytes ≡ 0)
unfolding sha256 finish
sha256-padded bytes =
    let whole : length (padded bytes) % block_bytes ≡ 0 = omega (arith, length-padded bytes) in
    (
      ap digest_of (
          state-absorb_tail bytes
          ∙ state-append_pad_bytes (length (padded bytes) / block_bytes) fresh (padded bytes)
              (omega arith) (omega (arith, whole))),
      whole,
    )
