-- ===== src/Buddy/Pair.antt =====
-- The two halves of a larger block: to merge them, and where the second one is.
use native.Mathlib.Nat.{two-pow-succ, suc-mul, add-mul, mul-le-mul_right, lt_of_mul-lt-mul_right}
use osc_2026_exercise.Base.{
  ℕ, suc, ◌+◌, ◌*◌, ◌^◌, ◌<◌, ◌≤◌, ◌≡◌, ◌≢◌, ◌⊎◌, inl, inr, refl, sym, ap, ◌∙◌, arith, leb,
  Bool-cases, subst, ltb, ◌&&◌, false,
}
use osc_2026_exercise.Buddy.Partition.{
  Blocks, In, IsPartition, pow-pos, head_In, coarser, floor_le, floor_same, same_size,
}

module _ (n : ℕ) (B : Blocks) (h : IsPartition n B) (p k j : ℕ) (low : B p k)
    (high : B (p + 2 ^ k) k) (pair : p ≡ j * 2 ^ suc k) where
  abbrev pub MergeAt : Blocks
  MergeAt q o = (B q o × (q ≢ p) × (q ≢ p + 2 ^ k)) ⊎ ((o ≡ suc k) × (q ≡ p))

  -- A page of both halves is in no other block.
  apart : (x q o : ℕ) → B q o → In x q o → In x p (suc k) → (q ≡ p) ⊎ (q ≡ p + 2 ^ k)
  apart x q o b i inside = elim (Bool-cases (leb (p + 2 ^ k) x)) [
    | inl right ↦ inr (h.disjoint x q o (p + 2 ^ k) k b high i (ground (arith, two-pow-succ k))).0
    | inr left ↦ inl (h.disjoint x q o p k b low i (ground (arith, two-pow-succ k))).0
  ]

  whole_In : (x q o : ℕ) → o ≡ suc k → q ≡ p → In x q o → In x p (suc k)
  whole_In x q o e at inside = let same : 2 ^ o ≡ 2 ^ suc k = ap (λ t. 2 ^ t) e in omega arith

  merge-disjoint :
      (x q o r l : ℕ) → MergeAt q o → MergeAt r l → In x q o → In x r l → (q ≡ r) × (o ≡ l)
  merge-disjoint x q o r l (inl (b, u, v)) (inl (c, u', v')) i i' = h.disjoint x q o r l b c i i'
  merge-disjoint x q o r l (inl (b, u, v)) (inr (e, at)) i i' =
      elim (apart x q o b i (whole_In x r l e at i')) [
        | inl t ↦ absurd (u t)
        | inr t ↦ absurd (v t)
      ]
  merge-disjoint x q o r l (inr (e, at)) (inl (c, u, v)) i i' =
      elim (apart x r l c i' (whole_In x q o e at i)) [
        | inl t ↦ absurd (u t)
        | inr t ↦ absurd (v t)
      ]
  merge-disjoint x q o r l (inr (e, at)) (inr (e', at')) i i' = (omega arith, omega arith)

  merge-aligned : (q o : ℕ) → MergeAt q o → (i : ℕ) × (q ≡ i * 2 ^ o)
  merge-aligned q o (inl (b, u, v)) = h.aligned q o b
  merge-aligned q o (inr (e, at)) = rw e (j, at ∙ pair)

  merge-bounded : (q o : ℕ) → MergeAt q o → q + 2 ^ o ≤ n
  merge-bounded q o (inl (b, u, v)) = h.bounded q o b
  merge-bounded q o (inr (e, at)) =
      let same : 2 ^ o ≡ 2 ^ suc k = ap (λ t. 2 ^ t) e in
      omega (arith, h.bounded (p + 2 ^ k) k high, two-pow-succ k)

  outside_half :
      (r x q o : ℕ)
      → B r k
      → (leb p x && ltb x (p + 2 ^ suc k)) ≡ false
      → q ≡ r
      → B q o
      → In x q o
      → (p ≤ r) × (r + 2 ^ k ≤ p + 2 ^ suc k)
      → ⊥
  outside_half r x q o half outside e b i inside =
      let size : o ≡ k = same_size n B h r o k (subst (λ t. B t o) e b) half in
      let power : 2 ^ o ≡ 2 ^ k = ap (λ t. 2 ^ t) size in ground arith

  merge-covered : (x : ℕ) → x < n → (q : ℕ) × (o : ℕ) × MergeAt q o × In x q o
  merge-covered x small = elim (Bool-cases (leb p x && ltb x (p + 2 ^ suc k))) [
    | inl inside ↦ (p, suc k, inr (refl, refl), ground arith)
    | inr outside ↦
        let (q, o, b, i) = h.covered x small in
        (
          q,
          o,
          inl (
            b,
            (λ t. outside_half p x q o low outside t b i (omega (arith, pow-pos k))),
            (λ t.
                outside_half (p + 2 ^ k) x q o high outside t b i (omega (arith, two-pow-succ k))),
          ),
          i,
        )
  ]

  pub IsPartition-merge : IsPartition n MergeAt
  IsPartition-merge = record {
    aligned = merge-aligned;
    bounded = merge-bounded;
    disjoint = merge-disjoint;
    covered = merge-covered;
  }

-- Two pages `p` and `r` of the halves of a pair, where `p` heads a block that is one half.
module _ (n : ℕ) (B : Blocks) (h : IsPartition n B) (p r k j : ℕ) (block : B p k)
    (in_pair : In p (j * 2 ^ suc k) (suc k)) (in_pair' : In r (j * 2 ^ suc k) (suc k)) where
  -- The block that `r` is in is not larger: it would contain `p`.
  pub not_larger : (q o : ℕ) → B q o → In r q o → suc k ≤ o → o ≡ k
  not_larger q o b inside larger =
      let w = 2 ^ suc k in
      let (a, e) = h.aligned q o b in
      let (c, e') = coarser (suc k) o q larger a e in
      let (c', e'') = coarser (suc k) o (2 ^ o) larger 1 (omega arith) in
      let low : c * w ≤ j * w = floor_le c j w r (omega arith) (omega arith) in
      let sum : (c + c') * w ≡ c * w + c' * w = add-mul c c' w in
      let less : j < c + c' = lt_of_mul-lt-mul_right w (omega (arith, sum)) in
      let above : suc j * w ≤ (c + c') * w = mul-le-mul_right w (omega arith) in
      let next : suc j * w ≡ j * w + w = suc-mul j w in
      (h.disjoint p q o p k b block (omega arith) (head_In p k)).1

-- Where a page `r`, one of the two halves of the pair that `p` is in, is labelled with the order
-- of `p`, it is the head of a block.
module _ (n : ℕ) (B : Blocks) (h : IsPartition n B) (order : ℕ → ℕ)
    (labels : (q o : ℕ) → B q o → order q ≡ o) (p r k j i : ℕ) (block : B p k) (small : r < n)
    (in_pair : In p (j * 2 ^ suc k) (suc k)) (in_pair' : In r (j * 2 ^ suc k) (suc k))
    (multiple : r ≡ i * 2 ^ k) (other : r ≢ p) (same : order r ≡ k) where
  pub buddy-block : B r k
  buddy-block =
      let (q, o, b, inside) = h.covered r small in
      elim (Bool-cases (leb (suc k) o)) [
        | inl larger ↦ absurd (
            let e = not_larger n B h p r k j block in_pair in_pair' q o b inside (ground arith) in
            ground arith)
        | inr smaller ↦
            let (a, e) = h.aligned q o b in
            let (i', e') = coarser o k r (ground arith) i multiple in
            let at : q ≡ r =
              omega (arith, floor_same i' a (2 ^ o) r e' (omega arith) (omega arith)) in
            let size : o ≡ k = sym (labels q o b) ∙ ap order at ∙ same in
            subst (λ t. B r t) size (subst (λ t. B t o) at b)
      ]
