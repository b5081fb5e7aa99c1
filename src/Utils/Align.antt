-- ===== src/Utils/Align.antt =====
-- `align` of ex22/main.c, ex41/utils.c and ex62/utils.c, and `align_up` of ex21/main.c: the
-- expression `(n + byte - 1) & ~(byte - 1)` at the width of its operands.
use osc_2026_exercise.Base.{
  ℕ, ◌+◌, ◌-◌, ◌*◌, ◌/◌, ◌%◌, ◌^◌, ◌<◌, ◌≤◌, ◌≡◌, refl, ap, bit_and, arith,
}
use osc_2026_exercise.Bits.{
  bit_and_high, sign_extended, sign_extended_small, two_pow_add, two_pow_pos,
}
use native.Mathlib.Nat.{div-add-mod, mod-eq_of_lt, mod-lt, div-lt_iff_lt-mul, pow-le-pow_right}

-- In words of `w` bits `~(byte - 1)` is `2 ^ w - byte`.
abbrev pub mask_align : ℕ → ℕ → ℕ → ℕ
mask_align w n byte = bit_and ((n + byte - 1) % 2 ^ w) (2 ^ w - byte)

-- `unsigned long` and `int byte`, which is extended with its sign.
unfoldable pub align : ℕ → ℕ → ℕ
align n byte = mask_align 64 n (sign_extended byte)

-- `unsigned long` twice.
unfoldable pub kernel_align : ℕ → ℕ → ℕ
kernel_align n byte = mask_align 64 n byte

-- `int` twice.
unfoldable pub align_int : ℕ → ℕ → ℕ
align_int n byte = mask_align 32 n byte

-- A pointer as a number of 64 bits.
unfoldable pub align_up : ℕ → ℕ → ℕ
align_up ptr byte = mask_align 64 ptr byte

-- The least multiple of `b` from `n` on.
abbrev pub round_up : ℕ → ℕ → ℕ
round_up b n = (n + b - 1) / b * b

-- The bounds of `round_up`.
pub round_up_bounds : (b n : ℕ) → 0 < b → (n ≤ round_up b n) × (round_up b n < n + b)
round_up_bounds b n pos = ground (arith, div-add-mod (n + b - 1) b, mod-lt (n + b - 1) pos)

module _ (w j k n : ℕ) (width : j + k ≡ w) (fits : n + 2 ^ k ≤ 2 ^ w) where
  width_product : 2 ^ w ≡ 2 ^ j * 2 ^ k
  width_product = rw (← width) (two_pow_add j k)

  mask_as_product : (2 ^ j - 1) * 2 ^ k ≡ 2 ^ w - 2 ^ k
  mask_as_product =
      let one_more : 2 ^ j - 1 + 1 ≡ 2 ^ j = omega (arith, two_pow_pos j) in
      omega (arith, width_product, ap (λ (t : ℕ). t * 2 ^ k) one_more)

  quotient_fits : (n + 2 ^ k - 1) / 2 ^ k < 2 ^ j
  quotient_fits =
      (div-lt_iff_lt-mul (two_pow_pos k)).1 (omega (arith, width_product, two_pow_pos k))

  -- Below the top of the word the mask rounds up.
  pub mask_align_lem : mask_align w n (2 ^ k) ≡ round_up (2 ^ k) n
  mask_align_lem =
      let fits' : n + 2 ^ k - 1 < 2 ^ w = omega (arith, two_pow_pos k) in
      rw (mod-eq_of_lt fits', ← mask_as_product, bit_and_high j k (n + 2 ^ k - 1))
        (rw (mod-eq_of_lt quotient_fits))

-- For a power of two below 2 ^ 31, and a number that far below the end of a 64-bit word, `align` of ex22,
-- `align` of ex41 and `align_up` of ex21 return the least multiple of it that is not below the
-- number: a multiple of it, from the number on, by less than the power.
pub align-least :
    (k n : ℕ)
    → k ≤ 30
    → n + 2 ^ k ≤ 2 ^ 64
    → (q : ℕ) × (align n (2 ^ k) ≡ q * 2 ^ k)
      × (kernel_align n (2 ^ k) ≡ q * 2 ^ k)
      × (align_up n (2 ^ k) ≡ q * 2 ^ k)
      × (n ≤ q * 2 ^ k)
      × (q * 2 ^ k < n + 2 ^ k)
unfolding align kernel_align align_up
align-least k n hk fits =
    let e = mask_align_lem 64 (64 - k) k n (omega arith) fits in
    let (above, near) = round_up_bounds (2 ^ k) n (two_pow_pos k) in
    let small : 2 ^ k < 2 ^ 31 =
      omega (arith, pow-le-pow_right {n = 2} (omega arith) {i = k} {j = 30} hk) in
    ((n + 2 ^ k - 1) / 2 ^ k, rw (sign_extended_small (2 ^ k) small) e, e, e, above, near)

-- The same of the `int` version of ex62, where the sum fits 32 bits.
pub align_int-least :
    (k n : ℕ)
    → k ≤ 31
    → n + 2 ^ k ≤ 2 ^ 32
    → (q : ℕ) × (align_int n (2 ^ k) ≡ q * 2 ^ k) × (n ≤ q * 2 ^ k) × (q * 2 ^ k < n + 2 ^ k)
unfolding align_int
align_int-least k n hk fits =
    let (above, near) = round_up_bounds (2 ^ k) n (two_pow_pos k) in
    ((n + 2 ^ k - 1) / 2 ^ k, mask_align_lem 32 (32 - k) k n (omega arith) fits, above, near)

-- At 4, as the archive readers call them.
pub align_four : (n : ℕ) → n + 4 ≤ 2 ^ 64 → align n 4 ≡ (n + 3) / 4 * 4
unfolding align
align_four n fits = omega (arith, mask_align_lem 64 62 2 n refl fits)

pub kernel_align_four : (n : ℕ) → n + 4 ≤ 2 ^ 64 → kernel_align n 4 ≡ (n + 3) / 4 * 4
unfolding kernel_align
kernel_align_four n fits = omega (arith, mask_align_lem 64 62 2 n refl fits)

pub align_up_four : (n : ℕ) → n + 4 ≤ 2 ^ 64 → align_up n 4 ≡ (n + 3) / 4 * 4
unfolding align_up
align_up_four n fits = omega (arith, mask_align_lem 64 62 2 n refl fits)
