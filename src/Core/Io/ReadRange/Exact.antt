-- ===== src/Core/Io/ReadRange/Exact.antt =====
-- `clamp_read_range`: the clamped request reads the same bytes.
use data_recovery.Prelude.{
  ℕ, ◌+◌, ◌-◌, ◌≤◌, ◌<◌, ◌≡◌, sym, ap, ◌∙◌, List, [], ◌||◌, leb, ◌==◌, min, length, take, slice,
  arith, Bool-cases, inl, inr, drop-all, slice-past, take-nil,
}
use data_recovery.Core.Result.{ok}
use data_recovery.Core.SafeArith.{u64_max}
use data_recovery.Core.Io.ReadRange.{clamp_read_range}

pub slice-empty : (xs : List ℕ) (offset count : ℕ) → length xs ≤ offset → slice xs offset count ≡ []
slice-empty xs offset count h = ap (take count) (drop-all offset xs h) ∙ take-nil count

pub slice-min :
    (xs : List ℕ) (offset count : ℕ)
    → offset ≤ length xs
    → slice xs offset (min count (length xs - offset)) ≡ slice xs offset count
slice-min xs offset count h = elim (Bool-cases (leb count (length xs - offset))) [
  | inl few ↦ ap (λ n. slice xs offset n) (ground (arith, few))
  | inr many ↦
      slice-past xs offset (min count (length xs - offset)) (ground (arith, many))
      ∙ sym (slice-past xs offset count (ground (arith, many)))
]

-- For a request within 64 bits.
pub record IsClamped (xs : List ℕ) (offset count want : ℕ) : Type 0 where
  pub same : slice xs offset want ≡ slice xs offset count
  pub fewer : want ≤ count
  pub inside : 0 < want → offset + want ≤ length xs

pub clamp_read_range-IsClamped :
    (xs : List ℕ) (offset count : ℕ)
    → offset + count ≤ u64_max
    → (want : ℕ) × (clamp_read_range offset count (length xs) ≡ ok want)
      × IsClamped xs offset count want
unfolding clamp_read_range
clamp_read_range-IsClamped xs offset count h =
    elim (Bool-cases (leb (length xs) offset || (count == 0))) [
      | inl none_left ↦ (
        0,
        ground (arith, none_left),
        record {
          same = elim (Bool-cases (leb (length xs) offset)) [
            | inl past ↦ sym (slice-empty xs offset count (ground (arith, past)))
            | inr short ↦
                (let nothing : 0 ≡ count = ground (arith, none_left, short) in
                  ap (λ n. slice xs offset n) nothing)
          ];
          fewer = omega arith;
          inside = λ h'. absurd (omega (arith, h'));
        },
      )
      | inr some_left ↦ (
        min count (length xs - offset),
        ground (arith, some_left),
        record {
          same = slice-min xs offset count (ground (arith, some_left));
          fewer = omega arith;
          inside = λ h'. ground (arith, h');
        },
      )
    ]
