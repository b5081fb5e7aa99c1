-- ===== src/Bits.antt =====
-- `&` and `|` on words as arithmetic, at every width: a mask of low bits is a remainder, a mask
-- of high bits drops the remainder, and `|` of fields that do not overlap is a sum.
pub mod Xor
use Prim.Native.Nat.{digits, min, max, bit_and-bitwise, bit_or-bitwise}
use native.Mathlib.Nat.{
  pow-suc, one-le-pow, mul-add-div_right, mul-add-mod_self_right, div-eq_of_lt, mod-eq_of_lt,
  div-add-mod,
}
use osc_2026_exercise.Base.{
  ℕ, zero, suc, ◌+◌, ◌-◌, ◌*◌, ◌/◌, ◌%◌, ◌^◌, ◌≤◌, ◌<◌, bit_and, bit_or, ◌≡◌, refl, ap, sym, ◌∙◌,
  arith,
}

-- More fuel than digits changes nothing.
module _ (z : ℕ → ℕ) (f : ℕ → ℕ → ℕ) where
  pub enough_digits : (n m a b : ℕ) → a ≤ n → a ≤ m → digits z f n a b ≡ digits z f m a b
  enough_digits zero zero a b p q = refl
  enough_digits zero (suc m) zero b p q = refl
  enough_digits zero (suc m) (suc a) b p q = absurd (omega arith)
  enough_digits (suc n) zero zero b p q = refl
  enough_digits (suc n) zero (suc a) b p q = absurd (omega arith)
  enough_digits (suc n) (suc m) zero b p q = refl
  enough_digits (suc n) (suc m) (suc a) b p q =
      omega (arith, enough_digits n m (suc a / 2) (b / 2) (omega arith) (omega arith))

and_digit : (a b : ℕ) → bit_and a b ≡ bit_and (a / 2) (b / 2) * 2 + min (a % 2) (b % 2)
and_digit zero b = omega (arith, bit_and-bitwise 0 b, bit_and-bitwise 0 (b / 2))
and_digit (suc a) b = omega (
  arith,
  bit_and-bitwise (suc a) b,
  bit_and-bitwise (suc a / 2) (b / 2),
  enough_digits (λ y. zero) min a (suc a / 2) (suc a / 2) (b / 2) (omega arith) (omega arith),
)

or_digit : (a b : ℕ) → bit_or a b ≡ bit_or (a / 2) (b / 2) * 2 + max (a % 2) (b % 2)
or_digit zero b = omega (arith, bit_or-bitwise 0 b, bit_or-bitwise 0 (b / 2))
or_digit (suc a) b = omega (
  arith,
  bit_or-bitwise (suc a) b,
  bit_or-bitwise (suc a / 2) (b / 2),
  enough_digits (λ y. y) max a (suc a / 2) (suc a / 2) (b / 2) (omega arith) (omega arith),
)

-- With nothing on the right; `n` bounds the number of digits.
and-zero_below : (n a : ℕ) → a ≤ n → bit_and a 0 ≡ 0
and-zero_below n zero h = refl
and-zero_below zero (suc a) h = absurd (omega arith)
and-zero_below (suc n) (suc a) h =
    omega (arith, and_digit (suc a) 0, and-zero_below n (suc a / 2) (omega arith))

or-zero_below : (n a : ℕ) → a ≤ n → bit_or a 0 ≡ a
or-zero_below n zero h = refl
or-zero_below zero (suc a) h = absurd (omega arith)
or-zero_below (suc n) (suc a) h =
    omega (arith, or_digit (suc a) 0, or-zero_below n (suc a / 2) (omega arith))

pub bit_and-zero : (a : ℕ) → bit_and a 0 ≡ 0
bit_and-zero a = and-zero_below a a (omega arith)

pub bit_or-zero : (a : ℕ) → bit_or a 0 ≡ a
bit_or-zero a = or-zero_below a a (omega arith)

pub two_pow_pos : (k : ℕ) → 0 < 2 ^ k
two_pow_pos k = one-le-pow k 2 (omega arith)

pub pow_double : (k : ℕ) → 2 ^ suc k ≡ 2 * 2 ^ k
pow_double k = omega (arith, pow-suc 2 k)

-- The weight of one more hexadecimal digit.
pub two_pow_four_suc : (k : ℕ) → 2 ^ (4 * suc k) ≡ 16 * 2 ^ (4 * k)
two_pow_four_suc k =
    let e : 4 * suc k ≡ suc (suc (suc (suc (4 * k)))) = omega arith in
    rw e (
      omega (
        arith,
        pow_double (4 * k),
        pow_double (suc (4 * k)),
        pow_double (suc (suc (4 * k))),
        pow_double (suc (suc (suc (4 * k)))),
      ))

scale_double : (m k : ℕ) → m * 2 ^ suc k ≡ 2 * (m * 2 ^ k)
scale_double m k = omega (arith, ap (λ (t : ℕ). m * t) (pow_double k))

and-low_fields : (k q r : ℕ) → r < 2 ^ k → bit_and (q * 2 ^ k + r) (2 ^ k - 1) ≡ r
and-low_fields zero q r fits = omega (arith, bit_and-zero (q * 1 + r))
and-low_fields (suc k) q r fits = ground (
  arith,
  scale_double q k,
  pow_double k,
  and_digit (q * 2 ^ suc k + r) (2 ^ suc k - 1),
  and-low_fields k q (r / 2) (omega (arith, pow_double k)),
)

-- `x & (2 ^ k - 1)`: the remainder.
pub bit_and_low : (k x : ℕ) → bit_and x (2 ^ k - 1) ≡ x % 2 ^ k
bit_and_low k x = ground (arith, two_pow_pos k, and-low_fields k (x / 2 ^ k) (x % 2 ^ k))

-- The mask's low zeros drop the low digits.
and_shifted : (k q r m : ℕ) → r < 2 ^ k → bit_and (q * 2 ^ k + r) (m * 2 ^ k) ≡ bit_and q m * 2 ^ k
and_shifted zero q r m fits =
    let e : q * 1 + r ≡ q = omega arith in
    let e' : m * 1 ≡ m = omega arith in ground (arith, ap (λ t. bit_and t (m * 1)) e)
and_shifted (suc k) q r m fits = ground (
  arith,
  scale_double q k,
  scale_double m k,
  scale_double (bit_and q m) k,
  and_digit (q * 2 ^ suc k + r) (m * 2 ^ suc k),
  and_shifted k q (r / 2) m (omega (arith, pow_double k)),
)

-- `x & ~(2 ^ k - 1)` in words of `j + k` bits: the low `k` bits and all above the word are cleared.
pub bit_and_high : (j k x : ℕ) → bit_and x ((2 ^ j - 1) * 2 ^ k) ≡ x / 2 ^ k % 2 ^ j * 2 ^ k
bit_and_high j k x = ground (
  arith,
  two_pow_pos k,
  and_shifted k (x / 2 ^ k) (x % 2 ^ k) (2 ^ j - 1),
  bit_and_low j (x / 2 ^ k),
)

-- `(q << k) | r` where `r` has `k` bits.
pub bit_or_fields : (k q r : ℕ) → r < 2 ^ k → bit_or (q * 2 ^ k) r ≡ q * 2 ^ k + r
bit_or_fields zero q r fits = ground (arith, bit_or-zero q)
bit_or_fields (suc k) q r fits = ground (
  arith,
  scale_double q k,
  or_digit (q * 2 ^ suc k) r,
  bit_or_fields k q (r / 2) (omega (arith, pow_double k)),
)

pub two_pow_add : (j k : ℕ) → 2 ^ (j + k) ≡ 2 ^ j * 2 ^ k
two_pow_add j zero = let e : j + 0 ≡ j = omega arith in rw e (omega arith)
two_pow_add j (suc k) =
    let e : j + suc k ≡ suc (j + k) = omega arith in
    rw e (omega (arith, pow_double (j + k), two_pow_add j k, scale_double (2 ^ j) k))

set_one :
    (k q b r : ℕ)
    → b < 2
    → r < 2 ^ k
    → bit_or ((q * 2 + b) * 2 ^ k + r) (2 ^ k) ≡ (q * 2 + 1) * 2 ^ k + r
set_one zero q b r bit fits =
    omega (arith, or_digit ((q * 2 + b) * 1 + r) 1, bit_or-zero (((q * 2 + b) * 1 + r) / 2))
set_one (suc k) q b r bit fits = ground (
  arith,
  pow_double k,
  scale_double (q * 2 + b) k,
  scale_double (q * 2 + 1) k,
  or_digit ((q * 2 + b) * 2 ^ suc k + r) (2 ^ suc k),
  set_one k q b (r / 2) bit (omega (arith, pow_double k)),
)

-- The two fields of a number of that form.
fields : (p q r : ℕ) → r < p → ((q * p + r) / p ≡ q) × ((q * p + r) % p ≡ r)
fields p q r fits =
    let pos : 0 < p = omega arith in
    (
      mul-add-div_right pos q r ∙ omega (arith, div-eq_of_lt fits),
      mul-add-mod_self_right q p r ∙ mod-eq_of_lt fits,
    )

-- `w` is `v` with the bit `k` set.
abbrev pub SetBit : ℕ → ℕ → ℕ → Type 0
SetBit k v w = (w / 2 ^ k % 2 ≡ 1) × (w % 2 ^ k ≡ v % 2 ^ k) × (w / 2 ^ k / 2 ≡ v / 2 ^ k / 2)

-- `v | (1 << k)`
pub bit_or-SetBit : (k v : ℕ) → SetBit k v (bit_or v (2 ^ k))
bit_or-SetBit k v =
    let p = 2 ^ k in
    let small : v % p < p = ground (arith, two_pow_pos k) in
    let e : (v / p / 2 * 2 + v / p % 2) * p + v % p ≡ v =
      (let top : v / p / 2 * 2 + v / p % 2 ≡ v / p = omega arith in
        rw top (omega (arith, div-add-mod v p))) in
    let set =
      ap (λ (t : ℕ). bit_or t p) (sym e)
      ∙ set_one k (v / p / 2) (v / p % 2) (v % p) (omega arith) small in
    let (high, low) = fields p (v / p / 2 * 2 + 1) (v % p) small in
    rw (set, high, low) (omega arith, refl, omega arith)

-- An `int` in a word of 64 bits: sign-extended from 32 bits.
abbrev pub sign_extended : ℕ → ℕ
sign_extended n = (n % 2 ^ 32 + (2 ^ 64 - 2 ^ 32) * (n % 2 ^ 32 / 2 ^ 31)) % 2 ^ 64

pub sign_extended_small : (n : ℕ) → n < 2 ^ 31 → sign_extended n ≡ n
sign_extended_small n small = omega arith

and_fields :
    (k q r m s : ℕ)
    → r < 2 ^ k
    → s < 2 ^ k
    → bit_and (q * 2 ^ k + r) (m * 2 ^ k + s) ≡ bit_and q m * 2 ^ k + bit_and r s
and_fields zero q r m s p p' =
    let none : r ≡ 0 = omega arith in
    let none' : s ≡ 0 = omega arith in
    let e : q * 1 + 0 ≡ q = omega arith in
    let e' : m * 1 + 0 ≡ m = omega arith in rw (none, none', e, e') (omega (arith, bit_and-zero 0))
and_fields (suc k) q r m s p p' = ground (
  arith,
  scale_double q k,
  scale_double m k,
  scale_double (bit_and q m) k,
  and_digit (q * 2 ^ suc k + r) (m * 2 ^ suc k + s),
  and_digit r s,
  and_fields k q (r / 2) m (s / 2) (omega (arith, pow_double k)) (omega (arith, pow_double k)),
)

-- `x & ~(1 << 8)` in a word of 64 bits.
pub bit_and_clear_eight :
    (x : ℕ) → x < 2 ^ 64 → bit_and x (2 ^ 64 - 1 - 2 ^ 8) + x / 2 ^ 8 % 2 * 2 ^ 8 ≡ x
bit_and_clear_eight x small =
    let e : x / 2 ^ 9 * 2 ^ 9 + x % 2 ^ 9 ≡ x = omega arith in
    let split : bit_and x (2 ^ 64 - 1 - 2 ^ 8)
        ≡ bit_and (x / 2 ^ 9) (2 ^ 55 - 1) * 2 ^ 9 + bit_and (x % 2 ^ 9) (2 ^ 8 - 1) =
      ap (λ (t : ℕ). bit_and t (2 ^ 64 - 1 - 2 ^ 8)) (sym e)
      ∙ and_fields 9 (x / 2 ^ 9) (x % 2 ^ 9) (2 ^ 55 - 1) (2 ^ 8 - 1) (omega arith) (omega arith) in
    omega (arith, split, bit_and_low 55 (x / 2 ^ 9), bit_and_low 8 (x % 2 ^ 9))
