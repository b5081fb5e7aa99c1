-- ===== src/Utils/Block.antt =====
-- `memcmp`, `memcpy` and `memset` of ex62/utils.c (ex41/utils.c and ex52/utils.c hold copies of
-- the first two) and `strncmp` of ex52/utils.c. The count `n` is not negative; each loop recurs
-- on the rounds left. A `char` is unsigned there.
use osc_2026_exercise.Base.{
  ℕ, zero, suc, ◌+◌, ◌%◌, ◌<◌, ◌≤◌, ◌≡◌, ◌≢◌, ◌⊎◌, ◌↔◌, refl, ap, if◌then◌else◌, ◌==◌, arith, inl,
  inr, Bool-cases, ◌&&◌, not, true, false, ◌∙◌, sym, ==_iff,
}
use osc_2026_exercise.Base.Int.{ℤ, pos, sub_ℕ}
use osc_2026_exercise.Memory.{Memory, store}

copy_loop : Memory → ℕ → ℕ → ℕ → Memory
copy_loop m zero d s = m
copy_loop m (suc n) d s = copy_loop (store m d (m s)) n (d + 1) (s + 1)

-- The memory afterwards, and `dst`, which is returned.
pub memcpy : Memory → ℕ → ℕ → ℕ → Memory × ℕ
unfolding copy_loop
memcpy m dst src n = (copy_loop m n dst src, dst)

set_loop : Memory → ℕ → ℕ → ℕ → Memory
set_loop m zero p c = m
set_loop m (suc n) p c = set_loop (store m p (c % 256)) n (p + 1) c

pub memset : Memory → ℕ → ℕ → ℕ → Memory × ℕ
unfolding set_loop
memset m s c n = (set_loop m n s c, s)

unfoldable pub memcmp : Memory → ℕ → ℕ → ℕ → ℤ
memcmp m a b zero = pos 0
memcmp m a b (suc n) =
    let rest = memcmp m (a + 1) (b + 1) n in if m a == m b then rest else sub_ℕ (m a) (m b)

unfoldable pub strncmp : Memory → ℕ → ℕ → ℕ → ℤ
strncmp m s1 s2 zero = pos 0
strncmp m s1 s2 (suc n) =
    let rest = strncmp m (s1 + 1) (s2 + 1) n in
    if not (m s1 == 0) && (m s1 == m s2) then rest else sub_ℕ (m s1) (m s2)

-- Neither loop writes outside its range.
copy_loop-outside :
    (n : ℕ) (m : Memory) (d s q : ℕ) → (q < d) ⊎ (d + n ≤ q) → copy_loop m n d s q ≡ m q
unfolding copy_loop
copy_loop-outside zero m d s q h = refl
copy_loop-outside (suc n) m d s q h =
    copy_loop-outside n (store m d (m s)) (d + 1) (s + 1) q (ground arith) ∙ ground arith

copy_loop-inside :
    (n : ℕ) (m : Memory) (d s i q : ℕ)
    → (d ≤ s) ⊎ (s + n ≤ d)
    → i < n
    → q ≡ d + i
    → copy_loop m n d s q ≡ m (s + i)
unfolding copy_loop
copy_loop-inside zero m d s i q apart h e = absurd (omega arith)
copy_loop-inside (suc n) m d s zero q apart h e =
    let here : q ≡ d = omega arith in
    let at : s + 0 ≡ s = omega arith in
    rw (here, at)
      (copy_loop-outside n (store m d (m s)) (d + 1) (s + 1) d (inl (omega arith)) ∙ ground arith)
copy_loop-inside (suc n) m d s (suc i) q apart h e =
    let at : s + suc i ≡ s + 1 + i = omega arith in
    rw at (
      copy_loop-inside n (store m d (m s)) (d + 1) (s + 1) i q (omega arith) (omega arith)
        (omega arith)
      ∙ ground arith)

-- Where the destination does not start inside the source, `memcpy` leaves there the bytes that
-- stood at the source before the call, changes no other byte and returns the destination.
pub memcpy_lem :
    (m : Memory) (dst src n : ℕ)
    → (dst ≤ src) ⊎ (src + n ≤ dst)
    → ((i : ℕ) → i < n → (memcpy m dst src n).0 (dst + i) ≡ m (src + i))
      × ((q : ℕ) → (q < dst) ⊎ (dst + n ≤ q) → (memcpy m dst src n).0 q ≡ m q)
      × ((memcpy m dst src n).1 ≡ dst)
unfolding memcpy
memcpy_lem m dst src n apart = (
  λ i h. copy_loop-inside n m dst src i (dst + i) apart h refl,
  λ q h. copy_loop-outside n m dst src q h,
  refl,
)

set_loop-outside :
    (n : ℕ) (m : Memory) (p c q : ℕ) → (q < p) ⊎ (p + n ≤ q) → set_loop m n p c q ≡ m q
unfolding set_loop
set_loop-outside zero m p c q h = refl
set_loop-outside (suc n) m p c q h =
    set_loop-outside n (store m p (c % 256)) (p + 1) c q (ground arith) ∙ ground arith

set_loop-inside :
    (n : ℕ) (m : Memory) (p c q : ℕ) → p ≤ q → q < p + n → set_loop m n p c q ≡ c % 256
unfolding set_loop
set_loop-inside zero m p c q lo hi = absurd (omega arith)
set_loop-inside (suc n) m p c q lo hi = elim (Bool-cases (p == q)) [
  | inl same ↦
      let e : q ≡ p = ground arith in
      rw e (set_loop-outside n (store m p (c % 256)) (p + 1) c p (inl (omega arith)) ∙ ground arith)
  | inr other ↦ set_loop-inside n (store m p (c % 256)) (p + 1) c q (ground arith) (omega arith)
]

-- `memset` stores the low byte of `c` in the `n` bytes from `s` on, changes no other byte and
-- returns `s`.
pub memset_lem :
    (m : Memory) (s c n : ℕ)
    → ((q : ℕ) → s ≤ q → q < s + n → (memset m s c n).0 q ≡ c % 256)
      × ((q : ℕ) → (q < s) ⊎ (s + n ≤ q) → (memset m s c n).0 q ≡ m q)
      × ((memset m s c n).1 ≡ s)
unfolding memset
memset_lem m s c n =
    (λ q lo hi. set_loop-inside n m s c q lo hi, λ q h. set_loop-outside n m s c q h, refl)

byte-zero : (m : Memory) (a : ℕ) → m (a + 0) ≡ m a
byte-zero m a = ap m (omega arith)

byte-suc : (m : Memory) (a j : ℕ) → m (a + suc j) ≡ m (a + 1 + j)
byte-suc m a j = ap m (omega arith)

abbrev pub Agree : Memory → ℕ → ℕ → ℕ → Type 0
Agree m a b n = (j : ℕ) → j < n → m (a + j) ≡ m (b + j)

Agree-head : (m : Memory) (a b n : ℕ) → Agree m a b (suc n) → m a ≡ m b
Agree-head m a b n same = sym (byte-zero m a) ∙ same 0 (omega arith) ∙ byte-zero m b

Agree-tail : (m : Memory) (a b n : ℕ) → Agree m a b (suc n) → Agree m (a + 1) (b + 1) n
Agree-tail m a b n same j h = sym (byte-suc m a j) ∙ same (suc j) (omega arith) ∙ byte-suc m b j

-- If `i` is the first place below `n` where the ranges differ, `memcmp` is the difference there.
pub memcmp-first :
    (m : Memory) (a b n i : ℕ)
    → i < n
    → Agree m a b i
    → m (a + i) ≢ m (b + i)
    → memcmp m a b n ≡ sub_ℕ (m (a + i)) (m (b + i))
unfolding memcmp
memcmp-first m a b zero i h same differ = absurd (omega arith)
memcmp-first m a b (suc n) zero h same differ =
    let e : m (a + 0) ≡ m a = byte-zero m a in
    let e' : m (b + 0) ≡ m b = byte-zero m b in ground arith
memcmp-first m a b (suc n) (suc i) h same differ =
    let head : m a ≡ m b = Agree-head m a b i same in
    let e : (m a == m b) ≡ true = (==_iff _ _).1 head in
    rw (e, byte-suc m a i, byte-suc m b i)
      (memcmp-first m (a + 1) (b + 1) n i (omega arith) (Agree-tail m a b i same)
        λ d. differ (byte-suc m a i ∙ d ∙ sym (byte-suc m b i)))

memcmp-Agree : (m : Memory) (a b n : ℕ) → Agree m a b n → memcmp m a b n ≡ pos 0
unfolding memcmp
memcmp-Agree m a b zero same = refl
memcmp-Agree m a b (suc n) same =
    let e : (m a == m b) ≡ true = (==_iff _ _).1 (Agree-head m a b n same) in
    rw e (memcmp-Agree m (a + 1) (b + 1) n (Agree-tail m a b n same))

Agree-memcmp : (m : Memory) (a b n : ℕ) → memcmp m a b n ≡ pos 0 → Agree m a b n
unfolding memcmp
Agree-memcmp m a b zero h j below = absurd (omega arith)
Agree-memcmp m a b (suc n) h zero below = byte-zero m a ∙ ground arith ∙ sym (byte-zero m b)
Agree-memcmp m a b (suc n) h (suc j) below =
    byte-suc m a j
    ∙ Agree-memcmp m (a + 1) (b + 1) n (ground arith) j (omega arith)
    ∙ sym (byte-suc m b j)

-- `memcmp` is zero exactly when the `n` bytes at `a` and at `b` agree.
pub memcmp-zero_iff : (m : Memory) (a b n : ℕ) → (memcmp m a b n ≡ pos 0) ↔ Agree m a b n
memcmp-zero_iff m a b n = (Agree-memcmp m a b n, memcmp-Agree m a b n)

-- Two strings agree in their first `n` bytes: byte for byte, up to a NUL in the first.
abbrev pub StringsAgree : Memory → ℕ → ℕ → ℕ → Type 0
StringsAgree m s1 s2 n =
    (j : ℕ) → j < n → ((i : ℕ) → i < j → m (s1 + i) ≢ 0) → m (s1 + j) ≡ m (s2 + j)

strncmp-StringsAgree :
    (m : Memory) (s1 s2 n : ℕ) → StringsAgree m s1 s2 n → strncmp m s1 s2 n ≡ pos 0
unfolding strncmp
strncmp-StringsAgree m s1 s2 zero same = refl
strncmp-StringsAgree m s1 s2 (suc n) same =
    let head : m s1 ≡ m s2 =
      sym (byte-zero m s1) ∙ same 0 (omega arith) (λ i h. absurd (omega arith)) ∙ byte-zero m s2 in
    elim (Bool-cases (m s1 == 0)) [
      | inl ends ↦ ground arith
      | inr goes ↦
          let e : (m s1 == m s2) ≡ true = (==_iff _ _).1 head in
          rw (goes, e)
            (strncmp-StringsAgree m (s1 + 1) (s2 + 1) n λ j h before.
              sym (byte-suc m s1 j)
              ∙ same (suc j) (omega arith) (earlier goes j before)
              ∙ byte-suc m s2 j)
    ]
  where
    earlier :
        (m s1 == 0) ≡ false
        → (j : ℕ) → ((i : ℕ) → i < j → m (s1 + 1 + i) ≢ 0)
        → (i : ℕ) → i < suc j
        → m (s1 + i) ≢ 0
    earlier goes j before zero h z = let e : m s1 ≡ 0 = sym (byte-zero m s1) ∙ z in ground arith
    earlier goes j before (suc i) h z = before i (omega arith) (sym (byte-suc m s1 i) ∙ z)

StringsAgree-strncmp :
    (m : Memory) (s1 s2 n : ℕ) → strncmp m s1 s2 n ≡ pos 0 → StringsAgree m s1 s2 n
unfolding strncmp
StringsAgree-strncmp m s1 s2 zero h j below before = absurd (omega arith)
StringsAgree-strncmp m s1 s2 (suc n) h zero below before =
    byte-zero m s1 ∙ ground arith ∙ sym (byte-zero m s2)
StringsAgree-strncmp m s1 s2 (suc n) h (suc j) below before =
    let goes : m s1 ≢ 0 = λ z. before 0 (omega arith) (byte-zero m s1 ∙ z) in
    byte-suc m s1 j
    ∙ StringsAgree-strncmp m (s1 + 1) (s2 + 1) n (ground arith) j (omega arith)
        (λ i b z. before (suc i) (omega arith) (byte-suc m s1 i ∙ z))
    ∙ sym (byte-suc m s2 j)

-- `strncmp` is zero exactly when the strings agree in their first `n` bytes, up to a NUL.
pub strncmp-zero_iff :
    (m : Memory) (s1 s2 n : ℕ) → (strncmp m s1 s2 n ≡ pos 0) ↔ StringsAgree m s1 s2 n
strncmp-zero_iff m s1 s2 n = (StringsAgree-strncmp m s1 s2 n, strncmp-StringsAgree m s1 s2 n)
