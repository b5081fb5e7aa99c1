-- ===== src/Buddy/Merge.antt =====
-- A round of the merging loop: a chunk takes up its buddy, a free block of the same order.
use osc_2026_exercise.Base.{
  ℕ, suc, ◌+◌, ◌*◌, ◌/◌, ◌%◌, ◌^◌, ◌<◌, ◌≤◌, ◌≡◌, ◌≢◌, ◌⊎◌, inl, inr, refl, sym, ap, ◌∙◌, arith,
  ◌==◌, Bool-cases, subst, false,
}
use native.Mathlib.Nat.{two-pow-succ, suc-mul, mul-le-mul_right, lt_of_mul-lt-mul_right}
use osc_2026_exercise.Bits.Xor.{bit_xor_sets, bit_xor_clears}
use osc_2026_exercise.Sched.{put}
use osc_2026_exercise.Sched.Ring.{has, Distinct}
use osc_2026_exercise.Buddy.{Buddy, max_order, remove, get_buddy}
use osc_2026_exercise.Buddy.Partition.{Blocks, IsPartition-same, pow-pos, coarser, double_power}
use osc_2026_exercise.Buddy.Pair.{MergeAt, IsPartition-merge, buddy-block}
use osc_2026_exercise.Buddy.State.{
  Free, Block, WithChunk, Labelled, HasChunk, Agree, Agree-Block, Block-Agree, Agree-Labelled,
  has-remove_self, has-remove_ne, remove-Distinct,
}
use osc_2026_exercise.Buddy.Chunk.{put_other, no_Block}
use osc_2026_exercise.Buddy.Ops.{put_all, has-put, elsewhere}

-- `base` is the first page of the pair of blocks of order `k` that `p` and `b` head.
abbrev pub IsPair : (base p b k : ℕ) → Type 0
IsPair base p b k = ((p ≡ base) × (b ≡ base + 2 ^ k)) ⊎ ((b ≡ base) × (p ≡ base + 2 ^ k))

-- The block and its buddy are the two halves of a block of the next order.
pub get_buddy-IsPair :
    (p k i : ℕ) → p ≡ i * 2 ^ k → (j : ℕ) × IsPair (j * 2 ^ suc k) p (get_buddy p k) k
unfolding get_buddy
get_buddy-IsPair p k i e =
    let j = i / 2 in
    let double : j * 2 ^ suc k ≡ 2 * j * 2 ^ k = double_power j k in
    let next : suc (2 * j) * 2 ^ k ≡ 2 * j * 2 ^ k + 2 ^ k = suc-mul (2 * j) (2 ^ k) in
    elim (Bool-cases (i % 2 == 0)) [
      | inl even ↦
          let half : i ≡ 2 * j = ground arith in
          let at : p ≡ j * 2 ^ suc k = e ∙ ap (λ t. t * 2 ^ k) half ∙ sym double in
          (j, inl (at, rw at (bit_xor_sets k j)))
      | inr odd ↦
          let half : i ≡ suc (2 * j) = ground arith in
          let at : p ≡ j * 2 ^ suc k + 2 ^ k =
            e ∙ ap (λ t. t * 2 ^ k) half ∙ omega (arith, next, double) in
          (j, inr (rw at (bit_xor_clears k j), at))
    ]

-- A pair lies within the pages if one of its halves does.
pub pair_fits :
    (n c k j : ℕ)
    → n ≡ c * 2 ^ max_order
    → k < max_order
    → j * 2 ^ suc k < n
    → j * 2 ^ suc k + 2 ^ suc k ≤ n
pair_fits n c k j whole small inside =
    let (d, e) = coarser (suc k) max_order n small c whole in
    let w = 2 ^ suc k in
    let less : j < d = lt_of_mul-lt-mul_right w (omega arith) in
    omega (arith, mul-le-mul_right w less, suc-mul j w, e)

module _ (n c p k b : ℕ) (t : Buddy) (whole : n ≡ c * 2 ^ max_order) (h : HasChunk n p k t)
    (labelled : t.order p ≡ k) (small : k < max_order) (same : t.order b ≡ k)
    (idle : t.refcount b ≡ 0) (j : ℕ) (pair : IsPair (j * 2 ^ suc k) p b k) where
  -- The labels of the blocks and of the chunk.
  chunk_labels : (q o : ℕ) → WithChunk t p k q o → t.order q ≡ o
  chunk_labels q o (inl (inl free)) = (h.labelled q o free).0
  chunk_labels q o (inl (inr used)) = used.1
  chunk_labels q o (inr (e, at)) = rw (e, at) labelled

  apart : b ≢ p
  apart e = absurd (ground (arith, pow-pos k))

  buddy_free : Free t b k
  buddy_free =
      let chunk_fits = h.partition.bounded p k (inr (refl, refl)) in
      let fits = pair_fits n c k j whole small (ground (arith, pow-pos k)) in
      let (i, multiple) = coarser k (suc k) (j * 2 ^ suc k) (omega arith) j refl in
      let next : suc i * 2 ^ k ≡ i * 2 ^ k + 2 ^ k = suc-mul i (2 ^ k) in
      let at : (a : ℕ) × (b ≡ a * 2 ^ k) = elim pair [
        | inl (u, v) ↦ (suc i, omega arith)
        | inr (u, v) ↦ (i, omega arith)
      ] in
      elim (buddy-block n (WithChunk t p k) h.partition t.order chunk_labels p b k j at.0
        (inr (refl, refl)) (ground (arith, two-pow-succ k, pow-pos k))
        (ground (arith, two-pow-succ k, pow-pos k)) (ground (arith, two-pow-succ k, pow-pos k)) at.1
        apart same) [
          | inl (inl free) ↦ free
          | inl (inr used) ↦ absurd (used.0 idle)
          | inr (e, at) ↦ absurd (apart at)
        ]

  abbrev pub merged : Buddy
  merged = record t {
    order = put t.order (j * 2 ^ suc k) (suc k);
    free_area = put t.free_area k (remove b (t.free_area k));
  }

  pub merged-Agree : Agree p b t merged
  merged-Agree q u v = (
    put_other t.order (j * 2 ^ suc k) (suc k) q (ground arith),
    refl,
    λ o. has-put t.free_area k (remove b (t.free_area k)) q o (has-remove_ne b q (t.free_area k) v),
  )

  chunk_absent : (o : ℕ) → has p (merged.free_area o) ≡ false
  chunk_absent o =
      has-put t.free_area k (remove b (t.free_area k)) p o
        (has-remove_ne b p (t.free_area k) (λ e. apart (sym e)))
      ∙ h.absent o

  buddy_absent : (o : ℕ) → has b (merged.free_area o) ≡ false
  buddy_absent o = elim (Bool-cases (k == o)) [
    | inl same_order ↦ rw same_order (has-remove_self b (t.free_area k))
    | inr other ↦ rw other (elsewhere t b k o h.labelled buddy_free (ground arith))
  ]

  -- The chunk and its buddy head no block afterwards.
  neither : (q o : ℕ) → Block merged q o → (q ≢ p) × (q ≢ b)
  neither q o block = (
    λ e. no_Block merged p o h.idle (chunk_absent o) (subst (λ r. Block merged r o) e block),
    λ e. no_Block merged b o idle (buddy_absent o) (subst (λ r. Block merged r o) e block),
  )

  merged_labels : Labelled merged
  merged_labels q o free =
      let (u, v) = neither q o (inl free) in
      Agree-Labelled p b t merged merged-Agree q o u v h.labelled free

  merged_orders : (q o : ℕ) → Block merged q o → o ≤ max_order
  merged_orders q o block =
      let (u, v) = neither q o block in
      h.orders q o (Block-Agree p b t merged merged-Agree q o u v block)

  low_block : WithChunk t p k (j * 2 ^ suc k) k
  low_block = elim pair [
    | inl (u, v) ↦ inr (refl, sym u)
    | inr (u, v) ↦ inl (inl (subst (λ r. Free t r k) u buddy_free))
  ]

  high_block : WithChunk t p k (j * 2 ^ suc k + 2 ^ k) k
  high_block = elim pair [
    | inl (u, v) ↦ inl (inl (subst (λ r. Free t r k) v buddy_free))
    | inr (u, v) ↦ inr (refl, sym v)
  ]

  abbrev Merges : Blocks
  Merges = MergeAt n (WithChunk t p k) h.partition (j * 2 ^ suc k) k j low_block high_block refl

  merge_to : (q o : ℕ) → Merges q o → WithChunk merged (j * 2 ^ suc k) (suc k) q o
  merge_to q o (inl (inl block, u, v)) =
      inl (Agree-Block p b t merged merged-Agree q o (ground arith) (ground arith) block)
  merge_to q o (inl (inr (e, at), u, v)) = absurd (ground arith)
  merge_to q o (inr new) = inr new

  merge_back : (q o : ℕ) → WithChunk merged (j * 2 ^ suc k) (suc k) q o → Merges q o
  merge_back q o (inl block) =
      let (u, v) = neither q o block in
      inl (inl (Block-Agree p b t merged merged-Agree q o u v block), ground arith, ground arith)
  merge_back q o (inr new) = inr new

  pub merged-HasChunk : HasChunk n (j * 2 ^ suc k) (suc k) merged
  merged-HasChunk = record {
    partition = IsPartition-same n Merges _ merge_to merge_back (
        IsPartition-merge n (WithChunk t p k) h.partition (j * 2 ^ suc k) k j low_block high_block
          refl);
    idle = elim pair [ inl (u, v) ↦ rw (sym u) h.idle | inr (u, v) ↦ rw (sym u) idle ];
    absent = λ o. elim pair [
      | inl (u, v) ↦ ap (λ q. has q (merged.free_area o)) (sym u) ∙ chunk_absent o
      | inr (u, v) ↦ ap (λ q. has q (merged.free_area o)) (sym u) ∙ buddy_absent o
    ];
    labelled = merged_labels;
    orders = merged_orders;
    order_fits = small;
    distinct =
        put_all t.free_area k (remove b (t.free_area k)) Distinct h.distinct
          (remove-Distinct b (t.free_area k) (h.distinct k));
  }
