-- ===== src/Core/Crc32/Xor.antt =====
-- Exclusive or on natural numbers, digit by digit.
use Prim.Native.Nat.{bit_and, bit_xor, bit_xor-bitwise, bit_and-bitwise, digits, differ}
use data_recovery.Prelude.{
  ℕ, zero, suc, ◌+◌, ◌*◌, ◌/◌, ◌%◌, ◌^◌, ◌<◌, ◌≤◌, ◌≡◌, refl, sym, ap, ap₂, ◌∙◌, arith, min,
}
use native.Mathlib.Nat.{pow-suc}

-- More fuel than digits changes nothing.
digits_enough :
    (rest : ℕ → ℕ) (on_digit : ℕ → ℕ → ℕ) (n m a b : ℕ)
    → a ≤ n
    → a ≤ m
    → digits rest on_digit n a b ≡ digits rest on_digit m a b
digits_enough rest on_digit zero zero a b h k = refl
digits_enough rest on_digit zero (suc m) zero b h k = refl
digits_enough rest on_digit zero (suc m) (suc a) b h k = absurd (omega arith)
digits_enough rest on_digit (suc n) zero zero b h k = refl
digits_enough rest on_digit (suc n) zero (suc a) b h k = absurd (omega arith)
digits_enough rest on_digit (suc n) (suc m) zero b h k = refl
digits_enough rest on_digit (suc n) (suc m) (suc a) b h k =
    rw (digits_enough rest on_digit n m (suc a / 2) (b / 2) (omega arith) (omega arith)) refl

pub zero-xor : (b : ℕ) → bit_xor 0 b ≡ b
zero-xor b = bit_xor-bitwise 0 b

pub zero-and : (b : ℕ) → bit_and 0 b ≡ 0
zero-and b = bit_and-bitwise 0 b

differ-parity : (x y : ℕ) → x < 2 → y < 2 → differ x y ≡ (x + y) % 2
differ-parity zero y h k = omega arith
differ-parity (suc zero) zero h k = refl
differ-parity (suc zero) (suc zero) h k = refl
differ-parity (suc zero) (suc (suc y)) h k = absurd (omega arith)
differ-parity (suc (suc x)) y h k = absurd (omega arith)

-- The lowest digit, and the others.
xor_digits : (a b : ℕ) → bit_xor a b ≡ bit_xor (a / 2) (b / 2) * 2 + (a % 2 + b % 2) % 2
xor_digits zero b = omega (arith, zero-xor b, zero-xor (b / 2))
xor_digits (suc a) b = omega (
  arith,
  bit_xor-bitwise (suc a) b,
  bit_xor-bitwise (suc a / 2) (b / 2),
  digits_enough (λ b. b) differ a (suc a / 2) (suc a / 2) (b / 2) (omega arith) (omega arith),
  differ-parity (suc a % 2) (b % 2) (omega arith) (omega arith),
)

pub xor-half : (a b : ℕ) → bit_xor a b / 2 ≡ bit_xor (a / 2) (b / 2)
xor-half a b = omega (arith, xor_digits a b)

pub xor-parity : (a b : ℕ) → bit_xor a b % 2 ≡ (a + b) % 2
xor-parity a b = omega (arith, xor_digits a b)

xor_comm_below : (n a b : ℕ) → a ≤ n → b ≤ n → bit_xor a b ≡ bit_xor b a
xor_comm_below zero zero zero h k = refl
xor_comm_below zero zero (suc b) h k = absurd (omega arith)
xor_comm_below zero (suc a) b h k = absurd (omega arith)
xor_comm_below (suc n) a b h k = omega (
  arith,
  xor_digits a b,
  xor_digits b a,
  xor_comm_below n (a / 2) (b / 2) (omega arith) (omega arith),
)

pub xor_comm : (a b : ℕ) → bit_xor a b ≡ bit_xor b a
xor_comm a b = xor_comm_below (a + b) a b (omega arith) (omega arith)

pub xor-zero : (a : ℕ) → bit_xor a 0 ≡ a
xor-zero a = xor_comm a 0 ∙ zero-xor a

xor_assoc_below : (n a b c : ℕ) → a ≤ n → b ≤ n → bit_xor (bit_xor a b) c ≡ bit_xor a (bit_xor b c)
xor_assoc_below zero zero zero c h k = rw (zero-xor 0, zero-xor c, zero-xor c) refl
xor_assoc_below zero zero (suc b) c h k = absurd (omega arith)
xor_assoc_below zero (suc a) b c h k = absurd (omega arith)
xor_assoc_below (suc n) a b c h k =
    let rest = xor_assoc_below n (a / 2) (b / 2) (c / 2) (omega arith) (omega arith) in
    omega (
      arith,
      xor_digits (bit_xor a b) c,
      xor_digits a (bit_xor b c),
      xor-parity a b,
      xor-parity b c,
      ap (λ (x : ℕ). bit_xor x (c / 2)) (xor-half a b),
      ap (λ (x : ℕ). bit_xor (a / 2) x) (xor-half b c),
      rest,
    )

pub xor_assoc : (a b c : ℕ) → bit_xor (bit_xor a b) c ≡ bit_xor a (bit_xor b c)
xor_assoc a b c = xor_assoc_below (a + b) a b c (omega arith) (omega arith)

xor_self_below : (n a : ℕ) → a ≤ n → bit_xor a a ≡ 0
xor_self_below zero zero h = refl
xor_self_below zero (suc a) h = absurd (omega arith)
xor_self_below (suc n) a h = omega (arith, xor_digits a a, xor_self_below n (a / 2) (omega arith))

xor_self : (a : ℕ) → bit_xor a a ≡ 0
xor_self a = xor_self_below a a (omega arith)

-- Adding `p` to one side or to both.
pub xor-left : (p x y : ℕ) → bit_xor x (bit_xor p y) ≡ bit_xor p (bit_xor x y)
xor-left p x y =
    sym (xor_assoc x p y) ∙ ap (λ (z : ℕ). bit_xor z y) (xor_comm x p) ∙ xor_assoc p x y

pub xor-both : (p x y : ℕ) → bit_xor (bit_xor p x) (bit_xor p y) ≡ bit_xor x y
xor-both p x y =
    xor_assoc p x (bit_xor p y)
    ∙ ap (bit_xor p) (xor-left p x y)
    ∙ sym (xor_assoc p p (bit_xor x y))
    ∙ ap (λ (z : ℕ). bit_xor z (bit_xor x y)) (xor_self p)
    ∙ zero-xor (bit_xor x y)

-- Disjoint digits are added.
pub xor-fields : (n h l : ℕ) → l < 2 ^ n → bit_xor (h * 2 ^ n) l ≡ h * 2 ^ n + l
xor-fields zero h l k =
    let none_left : l ≡ 0 = omega arith in rw none_left (xor-zero (h * 2 ^ 0) ∙ omega arith)
xor-fields (suc n) h l k =
    let double : h * 2 ^ suc n ≡ 2 * (h * 2 ^ n) =
      omega (arith, ap (λ (t : ℕ). h * t) (pow-suc 2 n)) in
    let half : h * 2 ^ suc n / 2 ≡ h * 2 ^ n = omega (arith, double) in
    omega (
      arith,
      double,
      xor_digits (h * 2 ^ suc n) l,
      ap (λ (t : ℕ). bit_xor t (l / 2)) half,
      xor-fields n h (l / 2) (omega (arith, pow-suc 2 n)),
    )

and_digits : (a b : ℕ) → bit_and a b ≡ bit_and (a / 2) (b / 2) * 2 + min (a % 2) (b % 2)
and_digits zero b = omega (arith, zero-and b, zero-and (b / 2))
and_digits (suc a) b = omega (
  arith,
  bit_and-bitwise (suc a) b,
  bit_and-bitwise (suc a / 2) (b / 2),
  digits_enough (λ b. 0) min a (suc a / 2) (suc a / 2) (b / 2) (omega arith) (omega arith),
)

and-zero_below : (n a : ℕ) → a ≤ n → bit_and a 0 ≡ 0
and-zero_below zero zero h = refl
and-zero_below zero (suc a) h = absurd (omega arith)
and-zero_below (suc n) a h = omega (arith, and_digits a 0, and-zero_below n (a / 2) (omega arith))

-- Four digits of a mask of ones.
and-nibble : (a : ℕ) → bit_and a 0xf ≡ a % 16
and-nibble a = omega (
  arith,
  and_digits a 0xf,
  and_digits (a / 2) 7,
  and_digits (a / 2 / 2) 3,
  and_digits (a / 2 / 2 / 2) 1,
  and-zero_below (a / 2 / 2 / 2 / 2) (a / 2 / 2 / 2 / 2) (omega arith),
)

pub and-byte : (a : ℕ) → bit_and a 0xff ≡ a % 256
and-byte a = omega (
  arith,
  and_digits a 0xff,
  and_digits (a / 2) 0x7f,
  and_digits (a / 2 / 2) 0x3f,
  and_digits (a / 2 / 2 / 2) 0x1f,
  and-nibble (a / 2 / 2 / 2 / 2),
)

xor-quarter : (a b : ℕ) → bit_xor a b / 16 ≡ bit_xor (a / 16) (b / 16)
xor-quarter a b =
    let fourth : (x : ℕ) → x / 2 / 2 / 2 / 2 ≡ x / 16 = λ x. omega arith in
    sym (fourth (bit_xor a b))
    ∙ ap (λ (x : ℕ). x / 2 / 2 / 2) (xor-half a b)
    ∙ ap (λ (x : ℕ). x / 2 / 2) (xor-half (a / 2) (b / 2))
    ∙ ap (λ (x : ℕ). x / 2) (xor-half (a / 2 / 2) (b / 2 / 2))
    ∙ xor-half (a / 2 / 2 / 2) (b / 2 / 2 / 2)
    ∙ ap₂ bit_xor (fourth a) (fourth b)

-- A byte leaves the digits above it alone.
pub xor-above_byte : (a b : ℕ) → b < 256 → bit_xor a b / 256 ≡ a / 256
xor-above_byte a b h =
    let high : a / 16 / 16 ≡ a / 256 = omega arith in
    let none_left : b / 16 / 16 ≡ 0 = omega arith in
    let whole : bit_xor a b / 256 ≡ bit_xor a b / 16 / 16 = omega arith in
    whole
    ∙ ap (λ (x : ℕ). x / 16) (xor-quarter a b)
    ∙ xor-quarter (a / 16) (b / 16)
    ∙ ap₂ bit_xor high none_left
    ∙ xor-zero (a / 256)
