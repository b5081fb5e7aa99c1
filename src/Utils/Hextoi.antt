-- ===== src/Utils/Hextoi.antt =====
-- `hextoi` of ex22/main.c, which runs where `char` is signed, and of ex41/utils.c and ex62/utils.c,
-- which run where it is not. An `int` is its pattern of 32 bits; `n` counts the rounds left.
use mathlib.Core.Path.{◌∙◌}
use osc_2026_exercise.Base.{
  ℕ, zero, suc, ◌+◌, ◌-◌, ◌*◌, ◌/◌, ◌%◌, ◌^◌, ◌<◌, ◌≤◌, ◌≡◌, refl, ap, subst, List, [], ◌∷◌, ◌++◌,
  if◌then◌else◌, arith, length, Bool, ◌&&◌, leb, ltb, length-append,
}
use osc_2026_exercise.Bits.{two_pow_four_suc}
use osc_2026_exercise.Memory.{Memory, Holds}

-- `*s >= 'A'` and `*s >= '0'` for a signed `char`: a byte from 128 on is negative.
abbrev at_least : ℕ → ℕ → Bool
at_least c low = leb low c && ltb c 128

-- `r << 4`, and what is added for the byte `c`.
abbrev add_digit : ℕ → ℕ → ℕ
add_digit r c =
    if at_least c b'A'
    then (r * 16 % 2 ^ 32 + c - b'A' + 10) % 2 ^ 32
    else if at_least c b'0'
    then (r * 16 % 2 ^ 32 + c - b'0') % 2 ^ 32
    else r * 16 % 2 ^ 32

-- A byte below '0' adds nothing, and `s` stays where it is.
hextoi_loop : Memory → ℕ → ℕ → ℕ → ℕ
hextoi_loop m zero s r = r
hextoi_loop m (suc n) s r =
    hextoi_loop m n (if at_least (m s) b'0' then s + 1 else s) (add_digit r (m s))

unfoldable pub hextoi : Memory → ℕ → ℕ → ℕ
unfolding hextoi_loop
hextoi m s n = hextoi_loop m n s 0

-- In ex41 and ex62 the test `*s >= 0` always holds, so a byte below '0' is subtracted from.
abbrev kernel_digit : ℕ → ℕ → ℕ
kernel_digit r c =
    if leb b'A' c
    then (r * 16 % 2 ^ 32 + c - b'A' + 10) % 2 ^ 32
    else (r * 16 % 2 ^ 32 + 2 ^ 32 + c - b'0') % 2 ^ 32

kernel_hextoi_loop : Memory → ℕ → ℕ → ℕ → ℕ
kernel_hextoi_loop m zero s r = r
kernel_hextoi_loop m (suc n) s r = kernel_hextoi_loop m n (s + 1) (kernel_digit r (m s))

unfoldable pub kernel_hextoi : Memory → ℕ → ℕ → ℕ
unfolding kernel_hextoi_loop
kernel_hextoi m s n = kernel_hextoi_loop m n s 0

-- A numeral of `k` digits, with upper-case letters, as a cpio header holds.
abbrev pub upper_digit : ℕ → ℕ
upper_digit d = if ltb d 10 then d + b'0' else d + 55

unfoldable pub hex_field : ℕ → ℕ → List ℕ
hex_field zero v = []
hex_field (suc k) v = hex_field k (v / 16) ++ upper_digit (v % 16) ∷ []

pub length-hex_field : (k v : ℕ) → length (hex_field k v) ≡ k
unfolding hex_field
length-hex_field zero v = refl
length-hex_field (suc k) v = omega (
  arith,
  length-append (hex_field k (v / 16)) (upper_digit (v % 16) ∷ []),
  length-hex_field k (v / 16),
)

-- Reading a list of bytes instead of memory.
read_digits : (ℕ → ℕ → ℕ) → ℕ → List ℕ → ℕ
read_digits add r [] = r
read_digits add r (c ∷ cs) = read_digits add (add r c) cs

read_digits-append :
    (add : ℕ → ℕ → ℕ) (r : ℕ) (cs : List ℕ) (c : ℕ)
    → read_digits add r (cs ++ c ∷ []) ≡ add (read_digits add r cs) c
unfolding read_digits
read_digits-append add r [] c = refl
read_digits-append add r (d ∷ cs) c = read_digits-append add (add r d) cs c

abbrev AreDigits : List ℕ → Type 0
AreDigits [] = Unit
AreDigits (c ∷ cs) = (b'0' ≤ c) × (c < 128) × AreDigits cs

AreDigits-append :
    (cs : List ℕ) (c : ℕ) → AreDigits cs → b'0' ≤ c → c < 128 → AreDigits (cs ++ c ∷ [])
AreDigits-append [] c h lo hi = (lo, hi, tt)
AreDigits-append (d ∷ cs) c h lo hi = (h.0, h.1, AreDigits-append cs c h.2 lo hi)

hex_field-AreDigits : (k v : ℕ) → AreDigits (hex_field k v)
unfolding hex_field
hex_field-AreDigits zero v = tt
hex_field-AreDigits (suc k) v =
    AreDigits-append (hex_field k (v / 16)) (upper_digit (v % 16)) (hex_field-AreDigits k (v / 16))
      (ground arith) (ground arith)

hextoi_loop-Holds :
    (m : Memory) (cs : List ℕ) (s r : ℕ)
    → Holds m s cs
    → AreDigits cs
    → hextoi_loop m (length cs) s r ≡ read_digits add_digit r cs
unfolding hextoi_loop read_digits
hextoi_loop-Holds m [] s r h d = refl
hextoi_loop-Holds m (c ∷ cs) s r h d =
    ground (arith, hextoi_loop-Holds m cs (s + 1) (add_digit r c) h.1 d.2)

kernel_hextoi_loop-Holds :
    (m : Memory) (cs : List ℕ) (s r : ℕ)
    → Holds m s cs
    → kernel_hextoi_loop m (length cs) s r ≡ read_digits kernel_digit r cs
unfolding kernel_hextoi_loop read_digits
kernel_hextoi_loop-Holds m [] s r h = refl
kernel_hextoi_loop-Holds m (c ∷ cs) s r h =
    ap (λ d. kernel_hextoi_loop m (length cs) (s + 1) (kernel_digit r d)) h.0
    ∙ kernel_hextoi_loop-Holds m cs (s + 1) (kernel_digit r c) h.1

add_digit-upper : (r d : ℕ) → r < 2 ^ 28 → d < 16 → add_digit r (upper_digit d) ≡ r * 16 + d
add_digit-upper r d hr hd = ground arith

kernel_digit-upper : (r d : ℕ) → r < 2 ^ 28 → d < 16 → kernel_digit r (upper_digit d) ≡ r * 16 + d
kernel_digit-upper r d hr hd = ground arith

-- Both readings of a digit agree on the digits of a number that fits.
module _ (add : ℕ → ℕ → ℕ)
    (add_upper : (r d : ℕ) → r < 2 ^ 28 → d < 16 → add r (upper_digit d) ≡ r * 16 + d) where
  read_digits-field :
      (k v : ℕ) → v < 2 ^ (4 * k) → v < 2 ^ 32 → read_digits add 0 (hex_field k v) ≡ v
  unfolding hex_field read_digits
  read_digits-field zero v h w = omega arith
  read_digits-field (suc k) v h w =
      let fits : v / 16 < 2 ^ (4 * k) = omega (arith, two_pow_four_suc k) in
      read_digits-append add 0 (hex_field k (v / 16)) (upper_digit (v % 16))
      ∙ ap (λ r. add r (upper_digit (v % 16))) (read_digits-field k (v / 16) fits (omega arith))
      ∙ omega (arith, add_upper (v / 16) (v % 16) (omega arith) (omega arith))

-- Eight digits at `s`, with upper-case letters, that write a 32-bit number are read as that
-- number, by the hosted `hextoi` and by that of the kernels.
pub hextoi-hex_field :
    (m : Memory) (s v : ℕ)
    → v < 2 ^ 32
    → Holds m s (hex_field 8 v)
    → (hextoi m s 8 ≡ v) × (kernel_hextoi m s 8 ≡ v)
unfolding hextoi kernel_hextoi
hextoi-hex_field m s v fits h =
    let e : length (hex_field 8 v) ≡ 8 = length-hex_field 8 v in
    (
      subst (λ n. hextoi_loop m n s 0 ≡ v) e
          (hextoi_loop-Holds m (hex_field 8 v) s 0 h (hex_field-AreDigits 8 v)
            ∙ read_digits-field add_digit add_digit-upper 8 v (omega arith) fits),
      subst (λ n. kernel_hextoi_loop m n s 0 ≡ v) e
          (kernel_hextoi_loop-Holds m (hex_field 8 v) s 0 h
            ∙ read_digits-field kernel_digit kernel_digit-upper 8 v (omega arith) fits),
    )
