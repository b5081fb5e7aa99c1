-- ===== src/Buddy/Ops.antt =====
-- The operations on one page: `pop_front`, the labels, `push_front`.
use osc_2026_exercise.Base.{
  ℕ, ◌≡◌, ◌≢◌, inl, inr, refl, sym, ap, ◌∙◌, arith, ◌==◌, Bool-cases, subst, false, List, ◌∷◌,
}
use osc_2026_exercise.Sched.{put}
use osc_2026_exercise.Sched.Ring.{has, Distinct}
use osc_2026_exercise.Buddy.{Buddy, push, pop, pop_front, label}
use osc_2026_exercise.Buddy.State.{Free, Block, Labelled, IsBuddy, HasChunk, Agree, Keeps}
use osc_2026_exercise.Buddy.Chunk.{
  put_same, put_other, no_Block, take-IsPartition, fill-IsPartition, agree-Labelled, agree_orders,
  agree-Keeps,
}

-- A property of every list, where the list of one order changes.
pub put_all :
    (f : ℕ → List ℕ) (k : ℕ) (xs : List ℕ) (P : List ℕ → Type 0)
    → ((o : ℕ) → P (f o))
    → P xs
    → (o : ℕ) → P (put f k xs o)
put_all f k xs P h at o = elim (Bool-cases (k == o)) [
  | inl same ↦ rw same at
  | inr other ↦ rw other (h o)
]

-- Membership of a page that the change does not concern.
pub has-put :
    (f : ℕ → List ℕ) (k : ℕ) (xs : List ℕ) (q o : ℕ)
    → has q xs ≡ has q (f k)
    → has q (put f k xs o) ≡ has q (f o)
has-put f k xs q o e = elim (Bool-cases (k == o)) [
  | inl same ↦ let at : k ≡ o = ground arith in rw same (e ∙ ap (λ t. has q (f t)) at)
  | inr other ↦ rw other refl
]

-- A labelled page is in no list of another order.
pub elsewhere :
    (s : Buddy) (p k o : ℕ) → Labelled s → Free s p k → o ≢ k → has p (s.free_area o) ≡ false
elsewhere s p k o h free other = elim (Bool-cases (has p (s.free_area o))) [
  | inl listed ↦ absurd (other (sym (h p o listed).0 ∙ (h p k free).0))
  | inr absent ↦ absent
]

module _ (n p k : ℕ) (s : Buddy) (rest : List ℕ) (first : s.free_area k ≡ p ∷ rest)
    (h : IsBuddy n s) where
  pop-Agree : Agree p p s (pop k s)
  pop-Agree q u v = (
    refl,
    refl,
    λ o. has-put s.free_area k (pop_front (s.free_area k)) q o (rw first (ground arith)),
  )

  pop_free : Free s p k
  pop_free = rw first (ground arith)

  pop_absent : (o : ℕ) → has p ((pop k s).free_area o) ≡ false
  pop_absent o = elim (Bool-cases (k == o)) [
    | inl same ↦ rw (same, first) (subst Distinct first (h.distinct k)).0
    | inr other ↦ rw other (elsewhere s p k o h.labelled pop_free (ground arith))
  ]

  pub pop-HasChunk : HasChunk n p k (pop k s)
  pop-HasChunk =
      let idle : s.refcount p ≡ 0 = (h.labelled p k pop_free).1 in
      record {
        partition =
            take-IsPartition n p k s (pop k s) pop-Agree h.partition (inl pop_free) idle pop_absent;
        idle = idle;
        absent = pop_absent;
        labelled =
            agree-Labelled n p k s (pop k s) pop-Agree h.labelled
              (λ o free. absurd (no_Block (pop k s) p o idle (pop_absent o) (inl free)));
        orders =
            agree_orders n p k s (pop k s) pop-Agree h.orders
              (λ o b. absurd (no_Block (pop k s) p o idle (pop_absent o) b));
        order_fits = h.orders p k (inl pop_free);
        distinct =
            put_all s.free_area k (pop_front (s.free_area k)) Distinct h.distinct
              (rw first (subst Distinct first (h.distinct k)).1);
      }

  pub pop-Keeps : Keeps p s (pop k s)
  pop-Keeps = agree-Keeps n p k s (pop k s) pop-Agree

module _ (n p k : ℕ) (t : Buddy) (h : HasChunk n p k t) where
  use_Agree : Agree p p t (label p k 1 t)
  use_Agree q u v = (put_other t.order p k q u, put_other t.refcount p 1 q u, λ o. refl)

  use_Block : Block (label p k 1 t) p k
  use_Block = inr ((λ e. let c = put_same t.refcount p 1 in omega arith), put_same t.order p k)

  use_only : (o : ℕ) → Block (label p k 1 t) p o → o ≡ k
  use_only o (inl free) = absurd (no_Block t p o h.idle (h.absent o) (inl free))
  use_only o (inr (used, size)) = sym size ∙ put_same t.order p k

  -- A chunk that is given out.
  pub use-IsBuddy : IsBuddy n (label p k 1 t)
  use-IsBuddy = record {
    partition = fill-IsPartition n p k t (label p k 1 t) use_Agree h use_Block use_only;
    labelled =
        agree-Labelled n p k t (label p k 1 t) use_Agree h.labelled
          (λ o free. absurd (no_Block t p o h.idle (h.absent o) (inl free)));
    orders =
        agree_orders n p k t (label p k 1 t) use_Agree h.orders
          (λ o b. let e = use_only o b in omega (arith, h.order_fits));
    distinct = h.distinct;
  }

  pub use-Keeps : Keeps p t (label p k 1 t)
  use-Keeps = agree-Keeps n p k t (label p k 1 t) use_Agree

module _ (n p k : ℕ) (t : Buddy) (h : HasChunk n p k t) (labelled : t.order p ≡ k) where
  push-Agree : Agree p p t (push k p t)
  push-Agree q u v = (refl, refl, λ o. has-put t.free_area k (p ∷ t.free_area k) q o (ground arith))

  push_free : Free (push k p t) p k
  push_free = rw (put_same t.free_area k (p ∷ t.free_area k)) (ground arith)

  push_only : (o : ℕ) → Block (push k p t) p o → o ≡ k
  push_only o (inl free) = elim (Bool-cases (k == o)) [
    | inl same ↦ ground arith
    | inr other ↦ absurd (no_Block t p o h.idle (h.absent o) (inl (rw other at free)))
  ]
  push_only o (inr used) = absurd (used.0 h.idle)

  -- A chunk that becomes a free block.
  pub push-IsBuddy : IsBuddy n (push k p t)
  push-IsBuddy = record {
    partition = fill-IsPartition n p k t (push k p t) push-Agree h (inl push_free) push_only;
    labelled =
        agree-Labelled n p k t (push k p t) push-Agree h.labelled
          (λ o free. (labelled ∙ sym (push_only o (inl free)), h.idle));
    orders =
        agree_orders n p k t (push k p t) push-Agree h.orders
          (λ o b. let e = push_only o b in omega (arith, h.order_fits));
    distinct =
        put_all t.free_area k (p ∷ t.free_area k) Distinct h.distinct (h.absent k, h.distinct k);
  }

  pub push-Keeps : Keeps p t (push k p t)
  push-Keeps = agree-Keeps n p k t (push k p t) push-Agree

abbrev pub released : ℕ → Buddy → Buddy
released p s = record s { refcount = put s.refcount p 0 }

module _ (n p : ℕ) (s : Buddy) (used : s.refcount p ≢ 0) (h : IsBuddy n s) where
  release-Agree : Agree p p s (released p s)
  release-Agree q u v = (refl, put_other s.refcount p 0 q u, λ o. refl)

  release_absent : (o : ℕ) → has p (s.free_area o) ≡ false
  release_absent o = elim (Bool-cases (has p (s.free_area o))) [
    | inl listed ↦ absurd (used (h.labelled p o listed).1)
    | inr absent ↦ absent
  ]

  -- A block in use becomes a chunk.
  pub release-HasChunk : HasChunk n p (s.order p) (released p s)
  release-HasChunk =
      let idle : (released p s).refcount p ≡ 0 = put_same s.refcount p 0 in
      record {
        partition =
            take-IsPartition n p (s.order p) s (released p s) release-Agree h.partition
              (inr (used, refl)) idle release_absent;
        idle = idle;
        absent = release_absent;
        labelled =
            agree-Labelled n p (s.order p) s (released p s) release-Agree h.labelled
              (λ o free. absurd (no_Block (released p s) p o idle (release_absent o) (inl free)));
        orders =
            agree_orders n p (s.order p) s (released p s) release-Agree h.orders
              (λ o b. absurd (no_Block (released p s) p o idle (release_absent o) b));
        order_fits = h.orders p (s.order p) (inr (used, refl));
        distinct = h.distinct;
      }

  pub release-Keeps : Keeps p s (released p s)
  release-Keeps = agree-Keeps n p (s.order p) s (released p s) release-Agree
