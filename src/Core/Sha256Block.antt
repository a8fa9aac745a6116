-- ===== src/Core/Sha256Block.antt =====
-- src/core/Sha256Block.cpp: the compression of one block. Words are 32 bits wide.
use data_recovery.Prelude.{
  ℕ, zero, suc, ◌+◌, ◌-◌, ◌*◌, ◌/◌, ◌%◌, ◌^◌, List, [], ◌∷◌, ◌++◌, length, get_or, take, drop,
}
use Prim.Native.Nat.{bit_and, bit_or, bit_xor}
use data_recovery.Core.SafeArith.{u32_max}
use data_recovery.Core.Bytes.{be_value}

abbrev pub u32_mod : ℕ
u32_mod = 0x1_0000_0000

-- `kRoundConstants`
abbrev pub round_constants : List ℕ
round_constants =
    0x428a_2f98 ∷ 0x7137_4491 ∷ 0xb5c0_fbcf ∷ 0xe9b5_dba5 ∷ 0x3956_c25b ∷ 0x59f1_11f1 ∷ 0x923f_82a4
    ∷ 0xab1c_5ed5 ∷ 0xd807_aa98 ∷ 0x1283_5b01 ∷ 0x2431_85be ∷ 0x550c_7dc3 ∷ 0x72be_5d74
    ∷ 0x80de_b1fe ∷ 0x9bdc_06a7 ∷ 0xc19b_f174 ∷ 0xe49b_69c1 ∷ 0xefbe_4786 ∷ 0x0fc1_9dc6
    ∷ 0x240c_a1cc ∷ 0x2de9_2c6f ∷ 0x4a74_84aa ∷ 0x5cb0_a9dc ∷ 0x76f9_88da ∷ 0x983e_5152
    ∷ 0xa831_c66d ∷ 0xb003_27c8 ∷ 0xbf59_7fc7 ∷ 0xc6e0_0bf3 ∷ 0xd5a7_9147 ∷ 0x06ca_6351
    ∷ 0x1429_2967 ∷ 0x27b7_0a85 ∷ 0x2e1b_2138 ∷ 0x4d2c_6dfc ∷ 0x5338_0d13 ∷ 0x650a_7354
    ∷ 0x766a_0abb ∷ 0x81c2_c92e ∷ 0x9272_2c85 ∷ 0xa2bf_e8a1 ∷ 0xa81a_664b ∷ 0xc24b_8b70
    ∷ 0xc76c_51a3 ∷ 0xd192_e819 ∷ 0xd699_0624 ∷ 0xf40e_3585 ∷ 0x106a_a070 ∷ 0x19a4_c116
    ∷ 0x1e37_6c08 ∷ 0x2748_774c ∷ 0x34b0_bcb5 ∷ 0x391c_0cb3 ∷ 0x4ed8_aa4a ∷ 0x5b9c_ca4f
    ∷ 0x682e_6ff3 ∷ 0x748f_82ee ∷ 0x78a5_636f ∷ 0x84c8_7814 ∷ 0x8cc7_0208 ∷ 0x90be_fffa
    ∷ 0xa450_6ceb ∷ 0xbef9_a3f7 ∷ 0xc671_78f2 ∷ []

-- The eight working variables.
pub record Working : Type 0 where
  pub a : ℕ
  pub b : ℕ
  pub c : ℕ
  pub d : ℕ
  pub e : ℕ
  pub f : ℕ
  pub g : ℕ
  pub h : ℕ

-- `std::rotr`
unfoldable pub rotr : ℕ → ℕ → ℕ
rotr x n = bit_or (x / 2 ^ n) (x * 2 ^ (32 - n) % u32_mod)

unfoldable pub big_sigma0 : ℕ → ℕ
unfolding rotr
big_sigma0 x = bit_xor (bit_xor (rotr x 2) (rotr x 13)) (rotr x 22)

unfoldable pub big_sigma1 : ℕ → ℕ
unfolding rotr
big_sigma1 x = bit_xor (bit_xor (rotr x 6) (rotr x 11)) (rotr x 25)

unfoldable pub small_sigma0 : ℕ → ℕ
unfolding rotr
small_sigma0 x = bit_xor (bit_xor (rotr x 7) (rotr x 18)) (x / 2 ^ 3)

unfoldable pub small_sigma1 : ℕ → ℕ
unfolding rotr
small_sigma1 x = bit_xor (bit_xor (rotr x 17) (rotr x 19)) (x / 2 ^ 10)

-- `wordAt`
unfoldable pub word_at : List ℕ → ℕ → ℕ
word_at block index = be_value (take 4 (drop (index * 4) block))

-- `blockWords`: `left` words from `index` on. Of the schedule's 64 places only those that are
-- filled are listed.
unfoldable pub block_words : List ℕ → ℕ → ℕ → List ℕ
unfolding word_at
block_words block index zero = []
block_words block index (suc left) = word_at block index ∷ block_words block (suc index) left

-- `expand`: `left` further words.
unfoldable pub expand : List ℕ → ℕ → List ℕ
unfolding small_sigma0 small_sigma1
expand schedule zero = schedule
expand schedule (suc left) =
    let at = length schedule in
    let word =
      (small_sigma1 (get_or schedule (at - 2) 0)
        + get_or schedule (at - 7) 0
        + small_sigma0 (get_or schedule (at - 15) 0)
        + get_or schedule (at - 16) 0)
      % u32_mod in
    expand (schedule ++ (word ∷ [])) left

-- `scheduleOf`
unfoldable pub schedule_of : List ℕ → List ℕ
unfolding block_words expand
schedule_of block = expand (block_words block 0 16) 48

-- `round`
unfoldable pub round : Working → ℕ → ℕ → Working
unfolding big_sigma0 big_sigma1
round v constant word =
    let choice = bit_xor (bit_and v.e v.f) (bit_and (u32_max - v.e) v.g) in
    let majority = bit_xor (bit_xor (bit_and v.a v.b) (bit_and v.a v.c)) (bit_and v.b v.c) in
    let first = (v.h + big_sigma1 v.e + choice + constant + word) % u32_mod in
    let second = (big_sigma0 v.a + majority) % u32_mod in
    record {
      a = (first + second) % u32_mod;
      b = v.a;
      c = v.b;
      d = v.c;
      e = (v.d + first) % u32_mod;
      f = v.e;
      g = v.f;
      h = v.g;
    }

-- `workingFrom`
unfoldable pub working_from : List ℕ → Working
working_from state = record {
  a = get_or state 0 0;
  b = get_or state 1 0;
  c = get_or state 2 0;
  d = get_or state 3 0;
  e = get_or state 4 0;
  f = get_or state 5 0;
  g = get_or state 6 0;
  h = get_or state 7 0;
}

-- `compress`: the rounds, one for each constant and word.
unfoldable pub compress : Working → List ℕ → List ℕ → Working
unfolding round
compress current [] schedule = current
compress current (constant ∷ constants) [] = current
compress current (constant ∷ constants) (word ∷ schedule) =
    compress (round current constant word) constants schedule

-- `addInto`
unfoldable pub add_into : List ℕ → Working → List ℕ
add_into state v =
    (get_or state 0 0 + v.a) % u32_mod
    ∷ (get_or state 1 0 + v.b) % u32_mod
    ∷ (get_or state 2 0 + v.c) % u32_mod
    ∷ (get_or state 3 0 + v.d) % u32_mod
    ∷ (get_or state 4 0 + v.e) % u32_mod
    ∷ (get_or state 5 0 + v.f) % u32_mod
    ∷ (get_or state 6 0 + v.g) % u32_mod
    ∷ (get_or state 7 0 + v.h) % u32_mod
    ∷ []

-- `compressSha256Block`
unfoldable pub compress_block : List ℕ → List ℕ → List ℕ
unfolding schedule_of working_from compress add_into
compress_block state block =
    add_into state (compress (working_from state) round_constants (schedule_of block))
