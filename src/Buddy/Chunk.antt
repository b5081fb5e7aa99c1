-- ===== src/Buddy/Chunk.antt =====
-- One page at a time: to take a block out of the partition as a chunk, and to put a chunk back as a
-- free block or as one in use.
use osc_2026_exercise.Base.{ℕ, ◌≤◌, ◌≡◌, ◌≢◌, inl, inr, arith, ◌==◌, Bool-cases, subst, false}
use osc_2026_exercise.Sched.{put}
use osc_2026_exercise.Sched.Ring.{has}
use osc_2026_exercise.Buddy.{Buddy, max_order}
use osc_2026_exercise.Buddy.Partition.{IsPartition, IsPartition-same, same_size}
use osc_2026_exercise.Buddy.State.{
  Free, Block, WithChunk, Labelled, HasChunk, Agree, Agree-Block, Block-Agree, Agree-Labelled,
  Keeps,
}

pub put_same : {A : Type 0} (f : ℕ → A) (p : ℕ) (v : A) → put f p v p ≡ v
put_same f p v = ground arith

pub put_other : {A : Type 0} (f : ℕ → A) (p : ℕ) (v : A) (q : ℕ) → q ≢ p → put f p v q ≡ f q
put_other f p v q other = ground arith

-- An idle page that is in no list heads no block.
pub no_Block :
    (s : Buddy) (p o : ℕ) → s.refcount p ≡ 0 → has p (s.free_area o) ≡ false → Block s p o → ⊥
no_Block s p o idle absent (inl free) = ground arith
no_Block s p o idle absent (inr used) = used.0 idle

module _ (n p k : ℕ) (t t' : Buddy) (agree : Agree p p t t') where
  pub take-IsPartition :
      IsPartition n (Block t)
      → Block t p k
      → t'.refcount p ≡ 0
      → ((o : ℕ) → has p (t'.free_area o) ≡ false)
      → IsPartition n (WithChunk t' p k)
  take-IsPartition h block idle absent =
      IsPartition-same n (Block t) (WithChunk t' p k)
        (λ q o b. elim (Bool-cases (q == p)) [
          | inl same ↦
              let e : q ≡ p = ground arith in
              inr (same_size n (Block t) h p o k (subst (λ r. Block t r o) e b) block, e)
          | inr other ↦ inl (Agree-Block p p t t' agree q o (ground arith) (ground arith) b)
        ])
        (λ q o b. elim b [
          | inl b' ↦
              let other : q ≢ p =
                λ e. no_Block t' p o idle (absent o) (subst (λ r. Block t' r o) e b') in
              Block-Agree p p t t' agree q o other other b'
          | inr (e, at) ↦ rw (e, at) block
        ])
        h

  pub fill-IsPartition :
      HasChunk n p k t → Block t' p k → ((o : ℕ) → Block t' p o → o ≡ k) → IsPartition n (Block t')
  fill-IsPartition h block only =
      IsPartition-same n (WithChunk t p k) (Block t')
        (λ q o b. elim b [
          | inl b' ↦
              let other : q ≢ p =
                λ e. no_Block t p o h.idle (h.absent o) (subst (λ r. Block t r o) e b') in
              Agree-Block p p t t' agree q o other other b'
          | inr (e, at) ↦ rw (e, at) block
        ])
        (λ q o b. elim (Bool-cases (q == p)) [
          | inl same ↦
              let e : q ≡ p = ground arith in inr (only o (subst (λ r. Block t' r o) e b), e)
          | inr other ↦ inl (Block-Agree p p t t' agree q o (ground arith) (ground arith) b)
        ])
        h.partition

  -- The laws that speak of one block, where they hold of `p`.
  pub agree-Labelled :
      Labelled t → ((o : ℕ) → Free t' p o → (t'.order p ≡ o) × (t'.refcount p ≡ 0)) → Labelled t'
  agree-Labelled h at q o free = elim (Bool-cases (q == p)) [
    | inl same ↦ let e : q ≡ p = ground arith in rw e (at o (subst (λ r. Free t' r o) e free))
    | inr other ↦ Agree-Labelled p p t t' agree q o (ground arith) (ground arith) h free
  ]

  pub agree_orders :
      ((q o : ℕ) → Block t q o → o ≤ max_order)
      → ((o : ℕ) → Block t' p o → o ≤ max_order)
      → (q o : ℕ) → Block t' q o
      → o ≤ max_order
  agree_orders h at q o b = elim (Bool-cases (q == p)) [
    | inl same ↦ let e : q ≡ p = ground arith in at o (subst (λ r. Block t' r o) e b)
    | inr other ↦ h q o (Block-Agree p p t t' agree q o (ground arith) (ground arith) b)
  ]

  pub agree-Keeps : Keeps p t t'
  agree-Keeps q o other =
      let (e, f, g) = agree q other other in
      ((λ (u, v). (omega arith, omega arith)), (λ (u, v). (omega arith, omega arith)))
