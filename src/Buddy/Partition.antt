-- ===== src/Buddy/Partition.antt =====
-- Blocks of 2 ^ order pages at multiples of their size that cover a range of pages without an
-- overlap, and the two ways to change them: to split a block and to merge a pair.
use native.Mathlib.Nat.{
  two-pow-succ, add-mul, mul_assoc, suc-mul, mul-le-mul_right, lt_of_mul-lt-mul_right,
}
use osc_2026_exercise.Base.{
  ℕ, zero, suc, ◌+◌, ◌-◌, ◌*◌, ◌^◌, ◌<◌, ◌≤◌, ◌≡◌, ◌≢◌, ◌⊎◌, inl, inr, refl, sym, ap, ◌∙◌, arith,
  leb, ◌==◌, Bool-cases, subst,
}

-- `B q o`: the pages from `q` to `q + 2 ^ o` are a block.
abbrev pub Blocks : Type 1
Blocks = ℕ → ℕ → Type 0

abbrev pub In : ℕ → ℕ → ℕ → Type 0
In x q o = (q ≤ x) × (x < q + 2 ^ o)

pub record IsPartition (n : ℕ) (B : Blocks) : Type 0 where
  pub aligned : (q o : ℕ) → B q o → (j : ℕ) × (q ≡ j * 2 ^ o)
  pub bounded : (q o : ℕ) → B q o → q + 2 ^ o ≤ n
  pub disjoint : (x q o p k : ℕ) → B q o → B p k → In x q o → In x p k → (q ≡ p) × (o ≡ k)
  pub covered : (x : ℕ) → x < n → (q : ℕ) × (o : ℕ) × B q o × In x q o

-- The same blocks under another name.
pub IsPartition-same :
    (n : ℕ) (B B' : Blocks)
    → ((q o : ℕ) → B q o → B' q o)
    → ((q o : ℕ) → B' q o → B q o)
    → IsPartition n B
    → IsPartition n B'
IsPartition-same n B B' to back h = record {
  aligned = λ q o b. h.aligned q o (back q o b);
  bounded = λ q o b. h.bounded q o (back q o b);
  disjoint = λ x q o p k b c. h.disjoint x q o p k (back q o b) (back p k c);
  covered = λ x small. let (q, o, b, inside) = h.covered x small in (q, o, to q o b, inside);
}

pub pow-pos : (o : ℕ) → 0 < 2 ^ o
pow-pos zero = omega arith
pow-pos (suc o) = omega (arith, two-pow-succ o, pow-pos o)

pub head_In : (q o : ℕ) → In q q o
head_In q o = omega (arith, pow-pos o)

pub double_power : (j k : ℕ) → j * 2 ^ suc k ≡ 2 * j * 2 ^ k
double_power j k = grind (arith, two-pow-succ k)

-- A power of two as a multiple of a smaller one.
pub pow_multiple : (o d : ℕ) → 2 ^ (o + d) ≡ 2 ^ d * 2 ^ o
pow_multiple o zero = let e : o + 0 ≡ o = omega arith in rw e (omega arith)
pow_multiple o (suc d) =
    let e : o + suc d ≡ suc (o + d) = omega arith in
    let grown : 2 ^ suc d * 2 ^ o ≡ 2 ^ d * 2 ^ o + 2 ^ d * 2 ^ o =
      ap (λ t. t * 2 ^ o) (two-pow-succ d) ∙ add-mul (2 ^ d) (2 ^ d) (2 ^ o) in
    rw e (omega (arith, two-pow-succ (o + d), pow_multiple o d, grown))

-- A multiple of a larger power is one of a smaller power.
pub coarser : (o k q : ℕ) → o ≤ k → (j : ℕ) → q ≡ j * 2 ^ k → (i : ℕ) × (q ≡ i * 2 ^ o)
coarser o k q small j e =
    let d : o + (k - o) ≡ k = omega arith in
    (
      j * 2 ^ (k - o),
      e
          ∙ ap (λ t. j * 2 ^ t) (sym d)
          ∙ ap (λ t. j * t) (pow_multiple o (k - o))
          ∙ sym (mul_assoc j (2 ^ (k - o)) (2 ^ o)),
    )

pub floor_le : (a b w y : ℕ) → a * w ≤ y → y < b * w + w → a * w ≤ b * w
floor_le a b w y low high =
    let e : suc b * w ≡ b * w + w = suc-mul b w in
    mul-le-mul_right w
      ((let s : a < suc b = lt_of_mul-lt-mul_right w (omega (arith, e)) in omega arith))

-- Two multiples of a power in a block of that size are the same.
pub floor_same : (a b w y : ℕ) → y ≡ a * w → b * w ≤ y → y < b * w + w → y ≡ b * w
floor_same a b w y e low high =
    omega (arith, floor_le a b w y (omega arith) high, floor_le b a w y low (omega arith))

module _ (n : ℕ) (B : Blocks) (h : IsPartition n B) where
  pub same_size : (q o k : ℕ) → B q o → B q k → o ≡ k
  same_size q o k b c =
      (h.disjoint q q o q k b c (omega (arith, pow-pos o)) (omega (arith, pow-pos k))).1

  module _ (p k : ℕ) (whole : B p (suc k)) where
    abbrev pub Half : Blocks
    Half q o = (o ≡ k) × (q ≡ p ⊎ q ≡ p + 2 ^ k)

    abbrev pub SplitAt : Blocks
    SplitAt q o = (B q o × (q ≢ p)) ⊎ Half q o

    Half-In : (x q o : ℕ) → Half q o → In x q o → In x p (suc k)
    Half-In x q o (e, at) inside =
        let same : 2 ^ o ≡ 2 ^ k = ap (λ t. 2 ^ t) e in ground (arith, two-pow-succ k)

    half-disjoint : (x q o r l : ℕ) → Half q o → Half r l → In x q o → In x r l → (q ≡ r) × (o ≡ l)
    half-disjoint x q o r l (e, at) (f, at') i j =
        let same : 2 ^ o ≡ 2 ^ k = ap (λ t. 2 ^ t) e in
        let same' : 2 ^ l ≡ 2 ^ k = ap (λ t. 2 ^ t) f in (ground arith, omega arith)

    split-disjoint :
        (x q o r l : ℕ) → SplitAt q o → SplitAt r l → In x q o → In x r l → (q ≡ r) × (o ≡ l)
    split-disjoint x q o r l (inl (b, other)) (inl (c, other')) i j = h.disjoint x q o r l b c i j
    split-disjoint x q o r l (inl (b, other)) (inr half) i j =
        absurd (other (h.disjoint x q o p (suc k) b whole i (Half-In x r l half j)).0)
    split-disjoint x q o r l (inr half) (inl (c, other)) i j =
        absurd (other (h.disjoint x r l p (suc k) c whole j (Half-In x q o half i)).0)
    split-disjoint x q o r l (inr half) (inr half') i j = half-disjoint x q o r l half half' i j

    split-aligned : (q o : ℕ) → SplitAt q o → (j : ℕ) × (q ≡ j * 2 ^ o)
    split-aligned q o (inl (b, other)) = h.aligned q o b
    split-aligned q o (inr (e, at)) =
        let (j, multiple) = h.aligned p (suc k) whole in
        let double : j * 2 ^ suc k ≡ 2 * j * 2 ^ k = double_power j k in
        let next : suc (2 * j) * 2 ^ k ≡ 2 * j * 2 ^ k + 2 ^ k = suc-mul (2 * j) (2 ^ k) in
        rw e (elim at [ inl low ↦ (2 * j, omega arith) | inr high ↦ (suc (2 * j), omega arith) ])

    split-bounded : (q o : ℕ) → SplitAt q o → q + 2 ^ o ≤ n
    split-bounded q o (inl (b, other)) = h.bounded q o b
    split-bounded q o (inr (e, at)) =
        let same : 2 ^ o ≡ 2 ^ k = ap (λ t. 2 ^ t) e in
        ground (arith, h.bounded p (suc k) whole, two-pow-succ k)

    split-covered : (x : ℕ) → x < n → (q : ℕ) × (o : ℕ) × SplitAt q o × In x q o
    split-covered x small =
        let (q, o, b, inside) = h.covered x small in
        elim (Bool-cases (q == p)) [
          | inl same ↦
              let e : q ≡ p = ground arith in
              let size : o ≡ suc k = same_size p o (suc k) (subst (λ t. B t o) e b) whole in
              let power : 2 ^ o ≡ 2 ^ k + 2 ^ k = ap (λ t. 2 ^ t) size ∙ two-pow-succ k in
              elim (Bool-cases (leb (p + 2 ^ k) x)) [
                | inl high ↦ (p + 2 ^ k, k, inr (refl, inr refl), ground arith)
                | inr low ↦ (p, k, inr (refl, inl refl), ground arith)
              ]
          | inr other ↦ (q, o, inl (b, ground arith), inside)
        ]

    pub IsPartition-split : IsPartition n SplitAt
    IsPartition-split = record {
      aligned = split-aligned;
      bounded = split-bounded;
      disjoint = split-disjoint;
      covered = split-covered;
    }
