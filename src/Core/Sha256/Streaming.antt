-- ===== src/Core/Sha256/Streaming.antt =====
-- `update` absorbs a message byte by byte, in whatever pieces it comes.
use data_recovery.Prelude.{
  ℕ, zero, suc, ◌+◌, ◌-◌, ◌%◌, ◌≤◌, ◌<◌, ◌≡◌, refl, sym, ap, ◌∙◌, List, [], ◌∷◌, ◌++◌, true, false,
  ◌==◌, length, take, drop, arith, Bool-cases, inl, inr, length-append, length-take, length-drop,
  take-append_rest,
}
use mathlib.Core.List.{append_assoc}
use data_recovery.Core.SafeArith.{u64_mod}
use data_recovery.Core.Sha256Block.{compress_block}
use data_recovery.Core.Sha256.{
  Sha256, block_bytes, absorb_if_whole, taken, fill_pending, update_loop, update, append_pad_byte,
  append_pad_bytes,
}

-- Less than a block is pending.
abbrev pub IsReady : Sha256 → Type 0
IsReady hash = length hash.pending < block_bytes

pub length-append_one : (xs : List ℕ) (x : ℕ) → length (xs ++ (x ∷ [])) ≡ length xs + 1
length-append_one xs x = length-append xs (x ∷ [])

-- A byte that does not fill the block, and one that does.
pub append_pad_byte_part :
    (hash : Sha256) (x : ℕ)
    → length hash.pending + 1 < block_bytes
    → append_pad_byte hash x ≡ record hash { pending = hash.pending ++ (x ∷ []) }
unfolding append_pad_byte absorb_if_whole
append_pad_byte_part hash x h =
    let size = length-append_one hash.pending x in
    let part : (length (hash.pending ++ (x ∷ [])) == block_bytes) ≡ false = ground (arith, size) in
    rw part

pub append_pad_byte_whole :
    (hash : Sha256) (x : ℕ)
    → length hash.pending + 1 ≡ block_bytes
    → append_pad_byte hash x
      ≡ record hash { state = compress_block hash.state (hash.pending ++ (x ∷ [])); pending = [] }
unfolding append_pad_byte absorb_if_whole
append_pad_byte_whole hash x h =
    let size = length-append_one hash.pending x in
    let whole : (length (hash.pending ++ (x ∷ [])) == block_bytes) ≡ true =
      ground (arith, size, h) in
    rw whole

pub length-pending-append_pad_byte :
    (hash : Sha256) (x : ℕ)
    → IsReady hash
    → length (append_pad_byte hash x).pending ≡ (length hash.pending + 1) % block_bytes
length-pending-append_pad_byte hash x h =
    elim (Bool-cases (length hash.pending + 1 == block_bytes)) [
      | inl whole ↦
          let e : length hash.pending + 1 ≡ block_bytes = ground (arith, whole) in
          ap (λ (s : Sha256). length s.pending) (append_pad_byte_whole hash x e) ∙ omega (arith, e)
      | inr part ↦
          let lt : length hash.pending + 1 < block_bytes = ground (arith, part, h) in
          ap (λ (s : Sha256). length s.pending) (append_pad_byte_part hash x lt)
          ∙ omega (arith, length-append_one hash.pending x, lt)
    ]

pub length-pending-append_pad_bytes :
    (hash : Sha256) (xs : List ℕ)
    → IsReady hash
    → length (append_pad_bytes hash xs).pending ≡ (length hash.pending + length xs) % block_bytes
unfolding append_pad_bytes
length-pending-append_pad_bytes hash [] h = omega (arith, h)
length-pending-append_pad_bytes hash (x ∷ xs) h =
    let one = length-pending-append_pad_byte hash x h in
    let rest = length-pending-append_pad_bytes (append_pad_byte hash x) xs (omega (arith, one)) in
    omega (arith, one, rest)

pub append_pad_bytes-IsReady :
    (hash : Sha256) (xs : List ℕ) → IsReady hash → IsReady (append_pad_bytes hash xs)
append_pad_bytes-IsReady hash xs h = omega (arith, length-pending-append_pad_bytes hash xs h)

pub append_pad_bytes-append :
    (hash : Sha256) (xs ys : List ℕ)
    → append_pad_bytes hash (xs ++ ys) ≡ append_pad_bytes (append_pad_bytes hash xs) ys
unfolding append_pad_bytes
append_pad_bytes-append hash [] ys = refl
append_pad_bytes-append hash (x ∷ xs) ys = append_pad_bytes-append (append_pad_byte hash x) xs ys

-- Bytes up to the end of the block, absorbed at once.
absorb_if_whole-append :
    (hash : Sha256) (x : ℕ) (xs : List ℕ)
    → length hash.pending + suc (length xs) ≤ block_bytes
    → absorb_if_whole (record hash { pending = hash.pending ++ (x ∷ xs) })
      ≡ append_pad_bytes hash (x ∷ xs)
unfolding append_pad_bytes append_pad_byte
absorb_if_whole-append hash x [] h = refl
absorb_if_whole-append hash x (y ∷ xs) h =
    let longer : Sha256 = record hash { pending = hash.pending ++ (x ∷ []) } in
    let rest =
      absorb_if_whole-append longer y xs (omega (arith, h, length-append_one hash.pending x)) in
    ap (λ (p : List ℕ). absorb_if_whole (record hash { pending = p }))
      (sym (append_assoc hash.pending (x ∷ []) (y ∷ xs)))
    ∙ rest
    ∙ ap (λ (s : Sha256). append_pad_bytes s (y ∷ xs))
        (sym (append_pad_byte_part hash x (omega (arith, h))))

-- The round of `update`'s loop.
fill_pending-absorb :
    (hash : Sha256) (b : ℕ) (rest : List ℕ)
    → IsReady hash
    → absorb_if_whole (fill_pending hash (b ∷ rest))
      ≡ append_pad_bytes hash (take (taken hash (b ∷ rest)) (b ∷ rest))
unfolding fill_pending
fill_pending-absorb hash b rest h =
    let few : (n : ℕ) × (taken hash (b ∷ rest) ≡ suc n)
        × (length hash.pending + suc n ≤ block_bytes) =
      (
        taken hash (b ∷ rest) - 1,
        (unfold taken in omega (arith, h)),
        (unfold taken in omega (arith, h)),
      ) in
    let n = few.0 in
    ap (λ k. absorb_if_whole (record hash { pending = hash.pending ++ take k (b ∷ rest) })) few.1
    ∙ absorb_if_whole-append hash b (take n rest) (omega (arith, few.2, length-take n rest))
    ∙ ap (λ k. append_pad_bytes hash (take k (b ∷ rest))) (sym few.1)

update_loop-append_pad_bytes :
    (fuel : ℕ) (hash : Sha256) (bytes : List ℕ)
    → IsReady hash
    → length bytes ≤ fuel
    → update_loop fuel hash bytes ≡ append_pad_bytes hash bytes
unfolding update_loop
update_loop-append_pad_bytes fuel hash [] h enough = unfold append_pad_bytes in refl
update_loop-append_pad_bytes zero hash (b ∷ rest) h enough = absurd (omega arith)
update_loop-append_pad_bytes (suc fuel) hash (b ∷ rest) h enough =
    let n = taken hash (b ∷ rest) in
    let some_taken : 0 < n = unfold taken in omega (arith, h) in
    ap (λ (s : Sha256). update_loop fuel s (drop n (b ∷ rest))) (fill_pending-absorb hash b rest h)
    ∙ update_loop-append_pad_bytes fuel (append_pad_bytes hash (take n (b ∷ rest)))
        (drop n (b ∷ rest)) (append_pad_bytes-IsReady hash (take n (b ∷ rest)) h)
        (omega (arith, length-drop n (b ∷ rest), some_taken, enough))
    ∙ sym (append_pad_bytes-append hash (take n (b ∷ rest)) (drop n (b ∷ rest)))
    ∙ ap (append_pad_bytes hash) (take-append_rest n (b ∷ rest))

abbrev pub with_total : ℕ → Sha256 → Sha256
with_total total hash = record hash { total_bytes = total }

-- The number of bytes does not bear on the rest.
append_pad_byte-with_total :
    (total : ℕ) (hash : Sha256) (x : ℕ)
    → append_pad_byte (with_total total hash) x ≡ with_total total (append_pad_byte hash x)
unfolding append_pad_byte absorb_if_whole
append_pad_byte-with_total total hash x =
    elim (Bool-cases (length (hash.pending ++ (x ∷ [])) == block_bytes)) [
      | inl whole ↦ rw whole
      | inr part ↦ rw part
    ]

pub append_pad_bytes-with_total :
    (total : ℕ) (hash : Sha256) (xs : List ℕ)
    → append_pad_bytes (with_total total hash) xs ≡ with_total total (append_pad_bytes hash xs)
unfolding append_pad_bytes
append_pad_bytes-with_total total hash [] = refl
append_pad_bytes-with_total total hash (x ∷ xs) =
    ap (λ (s : Sha256). append_pad_bytes s xs) (append_pad_byte-with_total total hash x)
    ∙ append_pad_bytes-with_total total (append_pad_byte hash x) xs

pub update-append_pad_bytes :
    (hash : Sha256) (bytes : List ℕ)
    → IsReady hash
    → update hash bytes
      ≡ with_total ((hash.total_bytes + length bytes) % u64_mod) (append_pad_bytes hash bytes)
unfolding update
update-append_pad_bytes hash bytes h =
    update_loop-append_pad_bytes (length bytes)
      (with_total ((hash.total_bytes + length bytes) % u64_mod) hash) bytes h (omega arith)
    ∙ append_pad_bytes-with_total ((hash.total_bytes + length bytes) % u64_mod) hash bytes

-- Feeding two pieces is feeding them joined, while less than a block is pending, as in every state
-- that `update` leaves.
pub update-update :
    (hash : Sha256) (first second : List ℕ)
    → IsReady hash
    → (update (update hash first) second ≡ update hash (first ++ second))
      × IsReady (update hash first)
update-update hash first second h =
    let once = update-append_pad_bytes hash first h in
    let ready : IsReady (update hash first) =
      omega (
        arith,
        ap (λ (s : Sha256). length s.pending) once,
        append_pad_bytes-IsReady hash first h,
      ) in
    let total : ((hash.total_bytes + length first) % u64_mod + length second) % u64_mod
        ≡ (hash.total_bytes + length (first ++ second)) % u64_mod =
      omega (arith, length-append first second) in
    (
      ap (λ (s : Sha256). update s second) once
          ∙ update-append_pad_bytes
              (with_total ((hash.total_bytes + length first) % u64_mod)
                (append_pad_bytes hash first))
              second (append_pad_bytes-IsReady hash first h)
          ∙ ap
              (with_total (((hash.total_bytes + length first) % u64_mod + length second) % u64_mod))
              (append_pad_bytes-with_total ((hash.total_bytes + length first) % u64_mod)
                  (append_pad_bytes hash first) second
                ∙ ap (with_total ((hash.total_bytes + length first) % u64_mod))
                    (sym (append_pad_bytes-append hash first second)))
          ∙ ap (λ n. with_total n (append_pad_bytes hash (first ++ second))) total
          ∙ sym (update-append_pad_bytes hash (first ++ second) h),
      ready,
    )
