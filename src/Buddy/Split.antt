-- ===== src/Buddy/Split.antt =====
-- A round of the splitting loop: of a chunk the upper half becomes a free block.
use osc_2026_exercise.Base.{
  ℕ, suc, ◌+◌, ◌^◌, ◌≡◌, ◌≢◌, inl, inr, refl, sym, ◌∙◌, arith, ◌==◌, Bool-cases, subst, false, ◌∷◌,
}
use osc_2026_exercise.Bits.Xor.{bit_xor_sets}
use osc_2026_exercise.Sched.Ring.{has, Distinct}
use osc_2026_exercise.Buddy.{Buddy, push, label, get_buddy}
use native.Mathlib.Nat.{two-pow-succ}
use osc_2026_exercise.Buddy.Partition.{
  IsPartition-same, SplitAt, IsPartition-split, pow-pos, head_In,
}
use osc_2026_exercise.Buddy.State.{
  Free, Used, Block, WithChunk, HasChunk, Agree, Agree-Block, Block-Agree, Keeps,
}
use osc_2026_exercise.Buddy.Chunk.{
  put_same, put_other, no_Block, agree-Labelled, agree_orders, agree-Keeps,
}
use osc_2026_exercise.Buddy.Ops.{put_all, has-put}

module _ (n p k b : ℕ) (t : Buddy) (h : HasChunk n p (suc k) t) (buddy : b ≡ p + 2 ^ k) where
  abbrev pub halved : Buddy
  halved = push k b (label b k 0 t)

  pub halved-Agree : Agree b b t halved
  halved-Agree q u v = (
    put_other t.order b k q u,
    put_other t.refcount b 0 q u,
    λ o. has-put t.free_area k (b ∷ t.free_area k) q o (ground arith),
  )

  pub apart : p ≢ b
  apart e = absurd (omega (arith, pow-pos k))

  -- The upper half was inside the chunk.
  pub no_upper : (o : ℕ) → Block t b o → ⊥
  no_upper o block =
      let e =
        h.partition.disjoint b b o p (suc k) (inl block) (inr (refl, refl)) (head_In b o)
          (omega (arith, two-pow-succ k, pow-pos k)) in
      omega (arith, e.0, pow-pos k)

  pub upper_absent : (o : ℕ) → has b (t.free_area o) ≡ false
  upper_absent o = elim (Bool-cases (has b (t.free_area o))) [
    | inl listed ↦ absurd (no_upper o (inl listed))
    | inr absent ↦ absent
  ]

  upper_free : Free halved b k
  upper_free = rw (put_same t.free_area k (b ∷ t.free_area k)) (ground arith)

  upper_idle : halved.refcount b ≡ 0
  upper_idle = put_same t.refcount b 0

  pub upper_only : (o : ℕ) → Block halved b o → o ≡ k
  upper_only o (inl free) = elim (Bool-cases (k == o)) [
    | inl same ↦ ground arith
    | inr other ↦ absurd (no_upper o (inl (rw other at free)))
  ]
  upper_only o (inr used) = absurd (used.0 upper_idle)

  lower_idle : halved.refcount p ≡ 0
  lower_idle = (halved-Agree p apart apart).1 ∙ h.idle

  pub lower_absent : (o : ℕ) → has p (halved.free_area o) ≡ false
  lower_absent o = (halved-Agree p apart apart).2 o ∙ h.absent o

  split_to :
      (q o : ℕ)
      → SplitAt n (WithChunk t p (suc k)) h.partition p k (inr (refl, refl)) q o
      → WithChunk halved p k q o
  split_to q o (inl (inl block, other)) =
      let new : q ≢ b = λ e. no_upper o (subst (λ r. Block t r o) e block) in
      inl (Agree-Block b b t halved halved-Agree q o new new block)
  split_to q o (inl (inr (e, at), other)) = absurd (other at)
  split_to q o (inr (e, inl low)) = inr (e, low)
  split_to q o (inr (e, inr high)) =
      let at : q ≡ b = omega arith in inl (inl (rw (e, at) upper_free))

  split_back :
      (q o : ℕ)
      → WithChunk halved p k q o
      → SplitAt n (WithChunk t p (suc k)) h.partition p k (inr (refl, refl)) q o
  split_back q o (inl block) = elim (Bool-cases (q == b)) [
    | inl same ↦
        let e : q ≡ b = ground arith in
        inr (upper_only o (subst (λ r. Block halved r o) e block), inr (omega arith))
    | inr other ↦
        let low : q ≢ p = λ e.
          no_Block halved p o lower_idle (lower_absent o) (subst (λ r. Block halved r o) e block) in
        inl
          (inl (Block-Agree b b t halved halved-Agree q o (ground arith) (ground arith) block), low)
  ]
  split_back q o (inr (e, at)) = inr (e, inl at)

  pub halved-HasChunk : HasChunk n p k halved
  halved-HasChunk =
      let fits = h.order_fits in
      record {
        partition =
            IsPartition-same n _ (WithChunk halved p k) split_to split_back
              (IsPartition-split n (WithChunk t p (suc k)) h.partition p k (inr (refl, refl)));
        idle = lower_idle;
        absent = lower_absent;
        labelled =
            agree-Labelled n b k t halved halved-Agree h.labelled
              (λ o free. (put_same t.order b k ∙ sym (upper_only o (inl free)), upper_idle));
        orders =
            agree_orders n b k t halved halved-Agree h.orders
              (λ o block. let e = upper_only o block in omega arith);
        order_fits = omega arith;
        distinct =
            put_all t.free_area k (b ∷ t.free_area k) Distinct h.distinct
              (upper_absent k, h.distinct k);
      }

  pub halved-Keeps : Keeps p t halved
  halved-Keeps q o other = elim (Bool-cases (q == b)) [
    | inl same ↦
        let e : q ≡ b = ground arith in
        (
          (λ used. absurd (no_upper o (inr (subst (λ r. Used t r o) e used)))),
          (λ used. absurd ((subst (λ r. Used halved r o) e used).0 upper_idle)),
        )
    | inr new ↦ agree-Keeps n b k t halved halved-Agree q o (ground arith)
  ]

-- The buddy of the lower half is the upper one.
pub chunk_buddy : (n p k : ℕ) (t : Buddy) → HasChunk n p (suc k) t → get_buddy p k ≡ p + 2 ^ k
unfolding get_buddy
chunk_buddy n p k t h =
    let (j, e) = h.partition.aligned p (suc k) (inr (refl, refl)) in rw e (bit_xor_sets k j)
