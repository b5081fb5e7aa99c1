-- ===== src/Buddy/Reserved.antt =====
-- The steps of `memory_reserve` on the partition.
use osc_2026_exercise.Base.{
  ℕ, suc, ◌+◌, ◌^◌, ◌≡◌, ◌≢◌, inl, inr, refl, ap, ◌∙◌, arith, ◌==◌, Bool-cases, subst, false,
}
use osc_2026_exercise.Sched.{put}
use osc_2026_exercise.Sched.Ring.{has, Distinct}
use osc_2026_exercise.Buddy.{Buddy, push, remove, get_buddy}
use osc_2026_exercise.Buddy.Partition.{IsPartition-same}
use osc_2026_exercise.Buddy.State.{
  Free, Block, WithChunk, IsBuddy, HasChunk, Agree, Agree-Block, Block-Agree, Keeps, Keeps-trans,
  has-remove_self, has-remove_ne, remove-Distinct,
}
use osc_2026_exercise.Buddy.Chunk.{
  put_same, put_other, no_Block, take-IsPartition, agree-Labelled, agree_orders, agree-Keeps,
}
use osc_2026_exercise.Buddy.Ops.{
  put_all, has-put, elsewhere, use-IsBuddy, use-Keeps, push-IsBuddy, push-Keeps,
}
use osc_2026_exercise.Buddy.Split.{
  halved, halved-HasChunk, halved-Keeps, chunk_buddy, no_upper, apart,
}
use osc_2026_exercise.Buddy.Reserve.{removed, reserve, halve}

-- A free block that is taken out of the middle of its list.
module _ (n p k : ℕ) (s : Buddy) (free : Free s p k) (h : IsBuddy n s) where
  pub removed-Agree : Agree p p s (removed k p s)
  removed-Agree q u v = (
    refl,
    refl,
    λ o. has-put s.free_area k (remove p (s.free_area k)) q o (has-remove_ne p q (s.free_area k) u),
  )

  removed_absent : (o : ℕ) → has p ((removed k p s).free_area o) ≡ false
  removed_absent o = elim (Bool-cases (k == o)) [
    | inl same ↦ rw same (has-remove_self p (s.free_area k))
    | inr other ↦ rw other (elsewhere s p k o h.labelled free (ground arith))
  ]

  removed-HasChunk : HasChunk n p k (removed k p s)
  removed-HasChunk =
      let idle : s.refcount p ≡ 0 = (h.labelled p k free).1 in
      record {
        partition =
            take-IsPartition n p k s (removed k p s) removed-Agree h.partition (inl free) idle
              removed_absent;
        idle = idle;
        absent = removed_absent;
        labelled = agree-Labelled n p k s (removed k p s) removed-Agree h.labelled (λ o listed.
            absurd (no_Block (removed k p s) p o idle (removed_absent o) (inl listed)));
        orders =
            agree_orders n p k s (removed k p s) removed-Agree h.orders
              (λ o b. absurd (no_Block (removed k p s) p o idle (removed_absent o) b));
        order_fits = h.orders p k (inl free);
        distinct =
            put_all s.free_area k (remove p (s.free_area k)) Distinct h.distinct
              (remove-Distinct p (s.free_area k) (h.distinct k));
      }

  removed-Keeps : Keeps p s (removed k p s)
  removed-Keeps = agree-Keeps n p k s (removed k p s) removed-Agree

  pub reserve-IsBuddy : IsBuddy n (reserve k p s)
  reserve-IsBuddy = use-IsBuddy n p k (removed k p s) removed-HasChunk

  pub reserve-Keeps : Keeps p s (reserve k p s)
  reserve-Keeps =
      Keeps-trans p s (removed k p s) (reserve k p s) removed-Keeps
        (use-Keeps n p k (removed k p s) removed-HasChunk)

-- The order that a chunk is labelled with does not matter.
abbrev relabelled : ℕ → ℕ → Buddy → Buddy
relabelled p v t = record t { order = put t.order p v }

module _ (n p k v : ℕ) (t : Buddy) (h : HasChunk n p k t) where
  relabelled-Agree : Agree p p t (relabelled p v t)
  relabelled-Agree q u w = (put_other t.order p v q u, refl, λ o. refl)

  relabelled-HasChunk : HasChunk n p k (relabelled p v t)
  relabelled-HasChunk =
      let t' = relabelled p v t in
      record {
        partition =
            IsPartition-same n (WithChunk t p k) (WithChunk t' p k)
              (λ q o b. elim b [
                | inl b' ↦
                    let other : q ≢ p =
                      λ e. no_Block t p o h.idle (h.absent o) (subst (λ r. Block t r o) e b') in
                    inl (Agree-Block p p t t' relabelled-Agree q o other other b')
                | inr new ↦ inr new
              ])
              (λ q o b. elim b [
                | inl b' ↦
                    let other : q ≢ p =
                      λ e. no_Block t' p o h.idle (h.absent o) (subst (λ r. Block t' r o) e b') in
                    inl (Block-Agree p p t t' relabelled-Agree q o other other b')
                | inr new ↦ inr new
              ])
              h.partition;
        idle = h.idle;
        absent = h.absent;
        labelled =
            agree-Labelled n p k t t' relabelled-Agree h.labelled
              (λ o listed. absurd (no_Block t p o h.idle (h.absent o) (inl listed)));
        orders =
            agree_orders n p k t t' relabelled-Agree h.orders
              (λ o b. absurd (no_Block t' p o h.idle (h.absent o) b));
        order_fits = h.order_fits;
        distinct = h.distinct;
      }

put_idle : (f : ℕ → ℕ) (b : ℕ) → f b ≡ 0 → put f b 0 ≡ f
put_idle f b e = let at : (q : ℕ) → put f b 0 q ≡ f q = λ q. ground arith in λ i q. at q i

module _ (n p i : ℕ) (s : Buddy) (free : Free s p (suc i)) (h : IsBuddy n s) where
  abbrev cut : Buddy
  cut = relabelled p i (removed (suc i) p s)

  abbrev buddy : ℕ
  buddy = get_buddy p i

  cut-HasChunk : HasChunk n p (suc i) cut
  cut-HasChunk =
      relabelled-HasChunk n p (suc i) i (removed (suc i) p s)
        (removed-HasChunk n p (suc i) s free h)

  pub at_half : buddy ≡ p + 2 ^ i
  at_half = chunk_buddy n p i cut cut-HasChunk

  abbrev halves : Buddy
  halves = halved n p i buddy cut cut-HasChunk at_half

  buddy_idle : cut.refcount buddy ≡ 0
  buddy_idle = elim (Bool-cases (cut.refcount buddy == 0)) [
    | inl idle ↦ ground arith
    | inr used ↦
        absurd (
          no_upper n p i buddy cut cut-HasChunk at_half (cut.order buddy)
            (inr (ground arith, refl)))
  ]

  -- The code leaves the count of the buddy as it is, which is 0.
  halve_lem : push i p halves ≡ halve i p s
  unfolding halve
  halve_lem =
      ap
        (λ r. push i p (
          push i buddy
            (record (removed (suc i) p s) { order = put (put s.order p i) buddy i; refcount = r })))
        (put_idle s.refcount buddy buddy_idle)

  low_order : halves.order p ≡ i
  low_order =
      put_other (put s.order p i) buddy i p (apart n p i buddy cut cut-HasChunk at_half)
      ∙ put_same s.order p i

  halves-HasChunk : HasChunk n p i halves
  halves-HasChunk = halved-HasChunk n p i buddy cut cut-HasChunk at_half

  pub halve-IsBuddy : IsBuddy n (halve i p s)
  halve-IsBuddy = subst (IsBuddy n) halve_lem (push-IsBuddy n p i halves halves-HasChunk low_order)

  pub halve-Keeps : Keeps p s (halve i p s)
  halve-Keeps = subst (Keeps p s) halve_lem (
      Keeps-trans p s (removed (suc i) p s) (push i p halves) (removed-Keeps n p (suc i) s free h) (
        Keeps-trans p (removed (suc i) p s) cut (push i p halves)
          (agree-Keeps n p (suc i) (removed (suc i) p s) cut (
            relabelled-Agree n p (suc i) i (removed (suc i) p s)
              (removed-HasChunk n p (suc i) s free h)))
          (Keeps-trans p cut halves (push i p halves)
            (halved-Keeps n p i buddy cut cut-HasChunk at_half)
            (push-Keeps n p i halves halves-HasChunk low_order))))

  -- The lower half is not in use either.
  pub halve_idle : (halve i p s).refcount p ≡ 0
  unfolding halve
  halve_idle = (h.labelled p (suc i) free).1
