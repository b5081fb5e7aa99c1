-- ===== src/Buddy/Drained.antt =====
-- An allocator with nothing in use, whose free blocks are merged as far as they go.
use osc_2026_exercise.Base.{
  ℕ, zero, suc, ◌+◌, ◌*◌, ◌^◌, ◌<◌, ◌≤◌, ◌≡◌, inl, inr, refl, ap, arith, ◌==◌, leb, Bool-cases,
  subst,
}
use native.Mathlib.Nat.{two-pow-succ, suc-mul}
use osc_2026_exercise.Buddy.{Buddy, max_order, get_buddy}
use osc_2026_exercise.Buddy.Partition.{pow-pos, coarser, floor_same}
use osc_2026_exercise.Buddy.Pair.{not_larger}
use osc_2026_exercise.Buddy.State.{Free, Block, IsBuddy}
use osc_2026_exercise.Buddy.Merge.{IsPair, get_buddy-IsPair, pair_fits}
use osc_2026_exercise.Buddy.Coalesced.{IsCoalesced}

module _ (n c : ℕ) (s : Buddy) (whole : n ≡ c * 2 ^ max_order) (h : IsBuddy n s)
    (coalesced : IsCoalesced s) (idle : (q : ℕ) → s.refcount q ≡ 0) where
  pub block-Free : (q o : ℕ) → Block s q o → Free s q o
  block-Free q o (inl free) = free
  block-Free q o (inr used) = absurd (used.0 (idle q))

  not_both :
      (j p b k : ℕ) → k < max_order → IsPair (j * 2 ^ suc k) p b k → Free s p k → Free s b k → ⊥
  not_both j p b k small (inl (u, v)) low high =
      coalesced j k small (subst (λ q. Free s q k) u low) (subst (λ q. Free s q k) v high)
  not_both j p b k small (inr (u, v)) high low =
      coalesced j k small (subst (λ q. Free s q k) u low) (subst (λ q. Free s q k) v high)

  -- The buddy of a smallest block would be free.
  no_smallest :
      (k : ℕ) → k < max_order → ((q o : ℕ) → Free s q o → k ≤ o) → (p : ℕ) → Free s p k → ⊥
  no_smallest k small above p free =
      let (i, multiple) = h.partition.aligned p k (inl free) in
      let (j, pair) = get_buddy-IsPair p k i multiple in
      let b = get_buddy p k in
      let pow = pow-pos k in
      let grown = two-pow-succ k in
      let bounded = h.partition.bounded p k (inl free) in
      let fits = pair_fits n c k j whole small (ground arith) in
      let (q, o, block, inside) = h.partition.covered b (ground arith) in
      let free' = block-Free q o block in
      let larger = above q o free' in
      let (a, at_pair) = coarser k (suc k) (j * 2 ^ suc k) (omega arith) j refl in
      let next : suc a * 2 ^ k ≡ a * 2 ^ k + 2 ^ k = suc-mul a (2 ^ k) in
      elim (Bool-cases (leb (suc k) o)) [
        | inl bigger ↦ absurd (
            let e =
              not_larger n (Block s) h.partition p b k j (inl free) (ground arith) (ground arith) q
                o block inside (ground arith) in
            ground arith)
        | inr same ↦
            let size : o ≡ k = ground arith in
            let free_k : Free s q k = subst (λ l. Free s q l) size free' in
            let (d, at) = h.partition.aligned q k (inl free_k) in
            let power : 2 ^ o ≡ 2 ^ k = ap (λ t. 2 ^ t) size in
            let (e, at_b) : (e : ℕ) × (b ≡ e * 2 ^ k) = elim pair [
              | inl (u, v) ↦ (suc a, omega arith)
              | inr (u, v) ↦ (a, omega arith)
            ] in
            let here : q ≡ b =
              omega (arith, floor_same e d (2 ^ k) b at_b (omega arith) (omega arith)) in
            not_both j p b k small pair free (subst (λ r. Free s r k) here free_k)
      ]

  order_bound : (k : ℕ) → k ≤ max_order → (q o : ℕ) → Free s q o → k ≤ o
  order_bound zero small q o free = omega arith
  order_bound (suc k) small q o free =
      let above = order_bound k (omega arith) in
      elim (Bool-cases (k == o)) [
        | inl same ↦
            let e : o ≡ k = ground arith in
            absurd (no_smallest k small above q (subst (λ l. Free s q l) e free))
        | inr other ↦ let low = above q o free in ground arith
      ]

  pub drained : (q o : ℕ) → Free s q o → o ≡ max_order
  drained q o free =
      let high = h.orders q o (inl free) in
      let low = order_bound max_order (omega arith) q o free in omega arith
