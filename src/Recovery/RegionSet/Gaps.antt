-- ===== src/Recovery/RegionSet/Gaps.antt =====
-- `gaps` and `claimed_bytes`: the complement of the claimed bytes, and how many bytes each side
-- holds.
use data_recovery.Prelude.{
  ℕ, suc, ◌+◌, ◌-◌, ◌%◌, ◌≤◌, ◌<◌, ◌≡◌, refl, sym, ◌∙◌, min, max, List, [], ◌∷◌, ◌++◌, Bool, true,
  false, not, ◌&&◌, ◌||◌, ltb, leb, inl, inr, if◌then◌else◌, arith, Bool-cases,
}
use mathlib.Core.List.{append-nil, append_assoc}
use native.Mathlib.Decide.{dec_lt}
use data_recovery.Core.SafeArith.{u64_max, u64_mod}
use data_recovery.Fs.Types.{ScanRegion, within}
use data_recovery.Recovery.RegionSet.{
  Span, Regions, Complement, take_up_to, gaps_loop, gaps, claimed_bytes, claimed_bytes_from,
}
use data_recovery.Recovery.RegionSet.Fused.{claims, FusedFrom, IsFused, FusedFrom-mono}

-- Whether some region of the list holds the byte `x`.
unfoldable pub covers : List ScanRegion → ℕ → Bool
covers [] x = false
covers (g ∷ gs) x = within g.offset (g.offset + g.length_bytes) x || covers gs x

-- The regions are in order from `lo` on, none is empty, and none touches the next.
abbrev pub ApartFrom : ℕ → List ScanRegion → Type 0
ApartFrom lo [] = Unit
ApartFrom lo (g ∷ gs) =
    (lo ≤ g.offset) × (0 < g.length_bytes) × ApartFrom (suc (g.offset + g.length_bytes)) gs

unfoldable pub total_length : List ScanRegion → ℕ
total_length [] = 0
total_length (g ∷ gs) = g.length_bytes + total_length gs

claims-after : (lo x : ℕ) (rs : Regions) → FusedFrom lo rs → x < lo → claims rs x ≡ false
unfolding claims
claims-after lo x [] f h = refl
claims-after lo x (r ∷ rs) f h = ground (arith, claims-after (suc r.finish) x rs f.2)

pub covers-append :
    (gs hs : List ScanRegion) (x : ℕ) → covers (gs ++ hs) x ≡ (covers gs x || covers hs x)
unfolding covers
covers-append [] hs x = refl
covers-append (g ∷ gs) hs x = ground (arith, covers-append gs hs x)

-- What `take_up_to` emits, and where it leaves the cursor.
piece : ℕ → ℕ → List ScanRegion
piece cursor up_to =
    if leb up_to cursor then [] else record { offset = cursor; length_bytes = up_to - cursor } ∷ []

gaps_found-take_up_to :
    (c : Complement) (up_to : ℕ)
    → (take_up_to c up_to).gaps_found ≡ c.gaps_found ++ piece c.cursor up_to
unfolding take_up_to piece
gaps_found-take_up_to c up_to = elim (Bool-cases (leb up_to c.cursor)) [
  | inl past ↦ rw past (sym (append-nil c.gaps_found))
  | inr short ↦ rw short
]

cursor-take_up_to : (c : Complement) (up_to : ℕ) → (take_up_to c up_to).cursor ≡ max c.cursor up_to
unfolding take_up_to
cursor-take_up_to c up_to = ground arith

covers-piece : (cursor up_to x : ℕ) → covers (piece cursor up_to) x ≡ (leb cursor x && ltb x up_to)
unfolding piece covers
covers-piece cursor up_to x = ground arith

abbrev next_cursor : ℕ → ℕ → Span → ℕ
next_cursor cursor size r = max (max cursor (min r.start size)) (min r.finish size)

-- What is still emitted by a walk that stands at `cursor`.
rest_of_gaps : ℕ → Regions → ℕ → List ScanRegion
rest_of_gaps cursor [] size = piece cursor size
rest_of_gaps cursor (r ∷ rs) size =
    piece cursor (min r.start size) ++ rest_of_gaps (next_cursor cursor size r) rs size

gaps_loop-rest_of_gaps :
    (size : ℕ) (rs : Regions) (c : Complement)
    → (take_up_to (gaps_loop size rs c) size).gaps_found
      ≡ c.gaps_found ++ rest_of_gaps c.cursor rs size
unfolding gaps_loop rest_of_gaps
gaps_loop-rest_of_gaps size [] c = gaps_found-take_up_to c size
gaps_loop-rest_of_gaps size (r ∷ rs) c =
    gaps_loop-rest_of_gaps size rs _
    ∙ rw (gaps_found-take_up_to c (min r.start size), cursor-take_up_to c (min r.start size))
        (append_assoc c.gaps_found _ _)

gaps-rest_of_gaps : (rs : Regions) (size : ℕ) → gaps rs size ≡ rest_of_gaps 0 rs size
unfolding gaps
gaps-rest_of_gaps rs size = gaps_loop-rest_of_gaps size rs (record { gaps_found = []; cursor = 0 })

next_cursor-le :
    (cursor size start finish : ℕ)
    → cursor ≤ start
    → start < finish
    → cursor ≤ size
    → (max (max cursor (min start size)) (min finish size) ≤ suc finish)
      × (max (max cursor (min start size)) (min finish size) ≤ size)
      × (max (max cursor (min start size)) (min finish size) ≡ min finish size)
next_cursor-le cursor size start finish a b c = omega arith

-- One step of the complement, on plain tests.
complement_step :
    (cursor size start finish x : ℕ) (later : Bool)
    → cursor ≤ start
    → start < finish
    → (x ≤ finish → later ≡ false)
    → ((leb cursor x && ltb x (min start size))
        || (leb (min finish size) x && (ltb x size && not later)))
      ≡ (leb cursor x && (ltb x size && not (within start finish x || later)))
complement_step cursor size start finish x true a b l = ground (arith, l)
complement_step cursor size start finish x false a b l = ground arith

-- What the walk has still to emit is the complement from the cursor on.
covers-rest_of_gaps :
    (size x : ℕ) (rs : Regions) (cursor : ℕ)
    → FusedFrom cursor rs
    → cursor ≤ size
    → covers (rest_of_gaps cursor rs size) x ≡ (leb cursor x && (ltb x size && not (claims rs x)))
unfolding rest_of_gaps claims
covers-rest_of_gaps size x [] cursor f h = covers-piece cursor size x ∙ ground arith
covers-rest_of_gaps size x (r ∷ rs) cursor f h =
    let (clear, inside, e) = next_cursor-le cursor size r.start r.finish f.0 f.1 h in
    rw (covers-append, covers-piece)
      (rw (covers-rest_of_gaps size x rs _ (FusedFrom-mono (suc r.finish) _ rs clear f.2) inside) (
        rw e (
          complement_step cursor size r.start r.finish x (claims rs x) f.0 f.1
            (λ l. claims-after (suc r.finish) x rs f.2 (omega arith)))))

-- A byte lies in a gap of the device exactly if it lies on the device and is not claimed.
pub covers-gaps :
    (rs : Regions) (size x : ℕ)
    → IsFused rs
    → covers (gaps rs size) x ≡ (ltb x size && not (claims rs x))
covers-gaps rs size x f =
    rw gaps-rest_of_gaps (covers-rest_of_gaps size x rs 0 f (omega arith) ∙ ground arith)

ApartFrom-mono : (lo lo' : ℕ) (gs : List ScanRegion) → lo' ≤ lo → ApartFrom lo gs → ApartFrom lo' gs
ApartFrom-mono lo lo' [] h a = tt
ApartFrom-mono lo lo' (g ∷ gs) h a = (omega arith, a.1, a.2)

ApartFrom-piece :
    (cursor up_to : ℕ) (gs : List ScanRegion)
    → ApartFrom (suc (max cursor up_to)) gs
    → ApartFrom cursor (piece cursor up_to ++ gs)
ApartFrom-piece cursor up_to gs a = elim (Bool-cases (leb up_to cursor)) [
  | inl past ↦ unfold piece in rw past (ApartFrom-mono _ cursor gs (omega arith) a)
  | inr short ↦
      unfold piece in rw short (omega arith, ground arith, ApartFrom-mono _ _ gs (ground arith) a)
]

-- Nothing is emitted past the end of the device.
rest_of_gaps_past :
    (size : ℕ) (rs : Regions) (cursor : ℕ) → size ≤ cursor → rest_of_gaps cursor rs size ≡ []
unfolding rest_of_gaps piece
rest_of_gaps_past size [] cursor h = ground arith
rest_of_gaps_past size (r ∷ rs) cursor h =
    rw (rest_of_gaps_past size rs (next_cursor cursor size r) (omega arith)) (ground arith)

ApartFrom-rest_of_gaps :
    (size : ℕ) (rs : Regions) (cursor : ℕ)
    → FusedFrom cursor rs
    → cursor ≤ size
    → ApartFrom cursor (rest_of_gaps cursor rs size)
unfolding rest_of_gaps
ApartFrom-rest_of_gaps size [] cursor f h = unfold piece in ground arith
ApartFrom-rest_of_gaps size (r ∷ rs) cursor f h =
    let (clear, inside, e) = next_cursor-le cursor size r.start r.finish f.0 f.1 h in
    ApartFrom-piece cursor (min r.start size) _ (elim (dec_lt r.start size) [
      | yes short ↦ ApartFrom-mono (next_cursor cursor size r) _ _ (omega arith) (
          ApartFrom-rest_of_gaps size rs (next_cursor cursor size r)
            (FusedFrom-mono (suc r.finish) _ rs clear f.2) inside)
      | no past ↦ rw (rest_of_gaps_past size rs (next_cursor cursor size r) (omega arith)) tt
    ])

-- The gaps are listed in order, none is empty, and none touches the next.
pub gaps-ApartFrom : (rs : Regions) (size : ℕ) → IsFused rs → ApartFrom 0 (gaps rs size)
gaps-ApartFrom rs size f = rw gaps-rest_of_gaps (ApartFrom-rest_of_gaps size rs 0 f (omega arith))

total_length-append :
    (gs hs : List ScanRegion) → total_length (gs ++ hs) ≡ total_length gs + total_length hs
unfolding total_length
total_length-append [] hs = omega arith
total_length-append (g ∷ gs) hs = omega (arith, total_length-append gs hs)

total_length-piece : (cursor up_to : ℕ) → total_length (piece cursor up_to) ≡ up_to - cursor
unfolding total_length piece
total_length-piece cursor up_to = ground arith

-- The sum of the claimed lengths, in plain arithmetic.
span_bytes : Regions → ℕ
span_bytes [] = 0
span_bytes (r ∷ rs) = r.finish - r.start + span_bytes rs

-- The pairs all end by `size`.
abbrev pub EndBy : ℕ → Regions → Type 0
EndBy size [] = Unit
EndBy size (r ∷ rs) = (r.finish ≤ size) × EndBy size rs

total_length-rest_of_gaps :
    (size : ℕ) (rs : Regions) (cursor : ℕ)
    → FusedFrom cursor rs
    → EndBy size rs
    → cursor ≤ size
    → total_length (rest_of_gaps cursor rs size) + span_bytes rs ≡ size - cursor
unfolding rest_of_gaps span_bytes
total_length-rest_of_gaps size [] cursor f b h = omega (arith, total_length-piece cursor size)
total_length-rest_of_gaps size (r ∷ rs) cursor f b h =
    let (clear, inside, e) = next_cursor-le cursor size r.start r.finish f.0 f.1 h in
    omega (
      arith,
      total_length-append (piece cursor (min r.start size))
          (rest_of_gaps (next_cursor cursor size r) rs size),
      total_length-piece cursor (min r.start size),
      total_length-rest_of_gaps size rs (next_cursor cursor size r)
          (FusedFrom-mono (suc r.finish) _ rs clear f.2) b.1 inside,
    )

claimed_bytes_from-span_bytes :
    (size : ℕ) (rs : Regions) (cursor sum : ℕ)
    → FusedFrom cursor rs
    → EndBy size rs
    → size ≤ u64_max
    → sum ≤ cursor
    → (claimed_bytes_from sum rs ≡ sum + span_bytes rs)
unfolding claimed_bytes_from span_bytes
claimed_bytes_from-span_bytes size [] cursor sum f b h k = omega arith
claimed_bytes_from-span_bytes size (r ∷ rs) cursor sum f b h k =
    let e : (sum + (r.finish + u64_mod - r.start) % u64_mod) % u64_mod
        ≡ sum + (r.finish - r.start) =
      omega arith in
    rw e (
      omega (
        arith,
        claimed_bytes_from-span_bytes size rs (suc r.finish) (sum + (r.finish - r.start)) f.2 b.1 h
            (omega arith),
      ))

-- On a device that holds all the claimed ranges, the bytes of the gaps and the claimed bytes add up
-- to the size of the device; the 64-bit sum of the claimed bytes does not wrap.
pub total_length-gaps :
    (rs : Regions) (size : ℕ)
    → IsFused rs
    → EndBy size rs
    → size ≤ u64_max
    → total_length (gaps rs size) + claimed_bytes rs ≡ size
unfolding claimed_bytes
total_length-gaps rs size f b h = rw gaps-rest_of_gaps (
    omega (
      arith,
      total_length-rest_of_gaps size rs 0 f b (omega arith),
      claimed_bytes_from-span_bytes size rs 0 0 f b h (omega arith),
    ))
