-- ===== src/Bits/Xor.antt =====
-- `^` with a power of two: it sets the bit where it is clear, and clears it where it is set.
use Prim.Native.Nat.{differ, bit_xor-bitwise}
use native.Mathlib.Nat.{pow-suc}
use osc_2026_exercise.Base.{
  ℕ, zero, suc, ◌+◌, ◌*◌, ◌/◌, ◌%◌, ◌^◌, ◌≤◌, ◌<◌, bit_xor, ◌≡◌, refl, ap, ap₂, ◌∙◌, arith,
}
use osc_2026_exercise.Bits.{enough_digits}

xor_digit : (a b : ℕ) → bit_xor a b ≡ bit_xor (a / 2) (b / 2) * 2 + differ (a % 2) (b % 2)
xor_digit zero b = omega (arith, bit_xor-bitwise 0 b, bit_xor-bitwise 0 (b / 2))
xor_digit (suc a) b = omega (
  arith,
  bit_xor-bitwise (suc a) b,
  bit_xor-bitwise (suc a / 2) (b / 2),
  enough_digits (λ y. y) differ a (suc a / 2) (suc a / 2) (b / 2) (omega arith) (omega arith),
)

differ-zero : (a : ℕ) → differ a 0 ≡ a
differ-zero zero = refl
differ-zero (suc a) = refl

xor-zero_below : (n a : ℕ) → a ≤ n → bit_xor a 0 ≡ a
xor-zero_below n zero h = refl
xor-zero_below zero (suc a) h = absurd (omega arith)
xor-zero_below (suc n) (suc a) h =
    let digit : bit_xor (suc a) 0 ≡ bit_xor (suc a / 2) 0 * 2 + differ (suc a % 2) 0 =
      xor_digit (suc a) 0 in
    omega (arith, digit, differ-zero (suc a % 2), xor-zero_below n (suc a / 2) (omega arith))

-- Digits in front of the last one.
xor_append :
    (x y c d : ℕ) → c < 2 → d < 2 → bit_xor (x * 2 + c) (y * 2 + d) ≡ bit_xor x y * 2 + differ c d
xor_append x y c d small small' =
    let e : (x * 2 + c) / 2 ≡ x = omega arith in
    let e' : (y * 2 + d) / 2 ≡ y = omega arith in
    let f : (x * 2 + c) % 2 ≡ c = omega arith in
    let f' : (y * 2 + d) % 2 ≡ d = omega arith in
    xor_digit (x * 2 + c) (y * 2 + d) ∙ rw (e, e', f, f') refl

xor-double : (x y : ℕ) → bit_xor (x * 2) (y * 2) ≡ bit_xor x y * 2
xor-double x y =
    let e : x * 2 ≡ x * 2 + 0 = omega arith in
    let e' : y * 2 ≡ y * 2 + 0 = omega arith in
    ap₂ bit_xor e e' ∙ xor_append x y 0 0 (omega arith) (omega arith) ∙ omega arith

-- `j * 2 ^ (k + 1)` is any number whose last `k + 1` digits are 0.
pub bit_xor_sets : (k j : ℕ) → bit_xor (j * 2 ^ suc k) (2 ^ k) ≡ j * 2 ^ suc k + 2 ^ k
bit_xor_sets zero j =
    let e : j * 2 ≡ j * 2 + 0 = omega arith in
    let digit : bit_xor (j * 2 + 0) 1 ≡ bit_xor j 0 * 2 + 1 =
      xor_append j 0 0 1 (omega arith) (omega arith) in
    ap (λ t. bit_xor t 1) e ∙ omega (arith, digit, xor-zero_below j j (omega arith))
bit_xor_sets (suc k) j =
    let e : j * 2 ^ suc (suc k) ≡ j * 2 ^ suc k * 2 = grind (arith, pow-suc 2 (suc k)) in
    let e' : 2 ^ suc k ≡ 2 ^ k * 2 = pow-suc 2 k in
    ap₂ bit_xor e e' ∙ xor-double (j * 2 ^ suc k) (2 ^ k) ∙ omega (arith, bit_xor_sets k j, e, e')

pub bit_xor_clears : (k j : ℕ) → bit_xor (j * 2 ^ suc k + 2 ^ k) (2 ^ k) ≡ j * 2 ^ suc k
bit_xor_clears zero j =
    let digit : bit_xor (j * 2 + 1) 1 ≡ bit_xor j 0 * 2 + 0 =
      xor_append j 0 1 1 (omega arith) (omega arith) in
    omega (arith, digit, xor-zero_below j j (omega arith))
bit_xor_clears (suc k) j =
    let e : j * 2 ^ suc (suc k) ≡ j * 2 ^ suc k * 2 = grind (arith, pow-suc 2 (suc k)) in
    let e' : 2 ^ suc k ≡ 2 ^ k * 2 = pow-suc 2 k in
    let sum : j * 2 ^ suc (suc k) + 2 ^ suc k ≡ (j * 2 ^ suc k + 2 ^ k) * 2 =
      omega (arith, e, e') in
    ap₂ bit_xor sum e'
    ∙ xor-double (j * 2 ^ suc k + 2 ^ k) (2 ^ k)
    ∙ omega (arith, bit_xor_clears k j, e)
