-- ===== src/Buddy/Free.antt =====
-- `free_pages` keeps the partition, and takes the block out of use.
use osc_2026_exercise.Base.{
  ℕ, zero, suc, ◌+◌, ◌*◌, ◌^◌, ◌<◌, ◌≤◌, ◌≡◌, ◌≢◌, inl, inr, refl, sym, ap, ◌∙◌, arith, ◌==◌,
  Bool-cases, subst, ltb, ◌&&◌, false, true, if◌then◌else◌, Option, some,
}
use osc_2026_exercise.Buddy.{Buddy, max_order, push, get_buddy, merge_loop, free_pages}
use osc_2026_exercise.Buddy.Partition.{pow-pos}
use osc_2026_exercise.Buddy.State.{Used, IsBuddy, HasChunk, Keeps}
use osc_2026_exercise.Buddy.Chunk.{put_same}
use osc_2026_exercise.Buddy.Ops.{push-IsBuddy, released, release-HasChunk, release-Keeps}
use osc_2026_exercise.Buddy.Coalesced.{IsCoalesced, push-IsCoalesced, remove-IsCoalesced}
use osc_2026_exercise.Buddy.Merge.{IsPair, get_buddy-IsPair, merged, merged-HasChunk, merged-Agree}

-- The same blocks are in use.
abbrev pub UsedSame : Buddy → Buddy → Type 0
UsedSame t t' = (q o : ℕ) → (Used t q o → Used t' q o) × (Used t' q o → Used t q o)

UsedSame-trans : (s t u : Buddy) → UsedSame s t → UsedSame t u → UsedSame s u
UsedSame-trans s t u h k q o =
    let (a, b) = h q o in let (c, d) = k q o in ((λ x. c (a x)), (λ x. b (d x)))

module _ (n c p : ℕ) (t : Buddy) (whole : n ≡ c * 2 ^ max_order) (h : HasChunk n p (t.order p) t)
    (small : t.order p < max_order) (same : t.order (get_buddy p (t.order p)) ≡ t.order p)
    (idle : t.refcount (get_buddy p (t.order p)) ≡ 0) (j : ℕ)
    (pair : IsPair (j * 2 ^ suc (t.order p)) p (get_buddy p (t.order p)) (t.order p)) where
  abbrev after : Buddy
  after = merged n c p (t.order p) (get_buddy p (t.order p)) t whole h refl small same idle j pair

  after-UsedSame : UsedSame t after
  after-UsedSame q o = (
    λ (used, size).
        let (e, f, g) =
          merged-Agree n c p (t.order p) (get_buddy p (t.order p)) t whole h refl small same idle j
            pair q (λ at. used (ap t.refcount at ∙ h.idle))
            (λ at. used (ap t.refcount at ∙ idle)) in
        (used, e ∙ size),
    λ (used, size).
        let (e, f, g) =
          merged-Agree n c p (t.order p) (get_buddy p (t.order p)) t whole h refl small same idle j
            pair q (λ at. used (ap t.refcount at ∙ h.idle))
            (λ at. used (ap t.refcount at ∙ idle)) in
        (used, sym e ∙ size),
  )

  -- The first page of the pair, as the code finds it.
  low_lem :
      (if ltb (get_buddy p (t.order p)) p then get_buddy p (t.order p) else p)
      ≡ j * 2 ^ suc (t.order p)
  low_lem = ground (arith, pair, pow-pos (t.order p))

  order_lem : t.order (j * 2 ^ suc (t.order p)) ≡ t.order p
  order_lem = elim pair [ inl (u, v) ↦ ap t.order (sym u) | inr (u, v) ↦ ap t.order (sym u) ∙ same ]

  -- A round of the loop that merges.
  round_lem :
      (fuel : ℕ) → merge_loop (suc fuel) p t ≡ merge_loop fuel (j * 2 ^ suc (t.order p)) after
  unfolding merge_loop
  round_lem fuel =
      let merges : (ltb (t.order p) max_order
            && (t.order (get_buddy p (t.order p)) == t.order p)
            && (t.refcount (get_buddy p (t.order p)) == 0))
          ≡ true =
        ground arith in
      rw (merges, low_lem, order_lem) refl

merge_loop-IsBuddy :
    (n c fuel p : ℕ) (t : Buddy)
    → n ≡ c * 2 ^ max_order
    → HasChunk n p (t.order p) t
    → suc max_order ≤ fuel + t.order p
    → (t' : Buddy) × (merge_loop fuel p t ≡ some t')
      × IsBuddy n t'
      × UsedSame t t'
      × (IsCoalesced t → IsCoalesced t')
unfolding merge_loop
merge_loop-IsBuddy n c zero p t whole h enough = absurd (let fits = h.order_fits in omega arith)
merge_loop-IsBuddy n c (suc fuel) p t whole h enough =
    elim (Bool-cases (
      ltb (t.order p) max_order
      && (t.order (get_buddy p (t.order p)) == t.order p)
      && (t.refcount (get_buddy p (t.order p)) == 0))) [
        | inr stop ↦ (
          push (t.order p) p t,
          rw stop refl,
          push-IsBuddy n p (t.order p) t h refl,
          (λ q o. ((λ x. x), (λ x. x))),
          push-IsCoalesced n p (t.order p) t h (λ small same idle. ground arith),
        )
        | inl merges ↦
            let small : t.order p < max_order = ground arith in
            let same : t.order (get_buddy p (t.order p)) ≡ t.order p = ground arith in
            let idle : t.refcount (get_buddy p (t.order p)) ≡ 0 = ground arith in
            let (i, multiple) = h.partition.aligned p (t.order p) (inr (refl, refl)) in
            let (j, pair) = get_buddy-IsPair p (t.order p) i multiple in
            let next = after n c p t whole h small same idle j pair in
            let order : next.order (j * 2 ^ suc (t.order p)) ≡ suc (t.order p) =
              put_same t.order (j * 2 ^ suc (t.order p)) (suc (t.order p)) in
            let chunk =
              merged-HasChunk n c p (t.order p) (get_buddy p (t.order p)) t whole h refl small same
                idle j pair in
            let (t', ran, is, kept, coalesced) =
              merge_loop-IsBuddy n c fuel (j * 2 ^ suc (t.order p)) next whole
                (subst (λ k. HasChunk n (j * 2 ^ suc (t.order p)) k next) (sym order) chunk)
                (omega arith) in
            (
              t',
              round_lem n c p t whole h small same idle j pair fuel ∙ ran,
              is,
              UsedSame-trans t next t' (after-UsedSame n c p t whole h small same idle j pair) kept,
              λ before.
                  coalesced
                    (remove-IsCoalesced (get_buddy p (t.order p)) (t.order p) t next.order before),
            )
      ]

-- What a caller of `free_pages` gets: the block is not in use any more, the others stay in use.
abbrev pub Frees : (n p : ℕ) → Buddy → Option Buddy → Type 0
Frees n p s o =
    (s' : Buddy) × (o ≡ some s')
    × IsBuddy n s'
    × (s'.refcount p ≡ 0)
    × Keeps p s s'
    × (IsCoalesced s → IsCoalesced s')

-- On a state whose free blocks and blocks in use are a partition of the `n` pages, `n` a multiple of
-- the largest block, and for a page that heads a block in use: the merging loop of `free_pages`
-- ends within its 11 rounds, the result is again a partition, the block is not in use any more,
-- and the other blocks in use are the same. Where no two free blocks were the halves of a larger
-- one, none are afterwards.
pub free_pages-Frees :
    (n c p : ℕ) (s : Buddy)
    → n ≡ c * 2 ^ max_order
    → IsBuddy n s
    → s.refcount p ≢ 0
    → Frees n p s (free_pages (some p) s)
unfolding free_pages
free_pages-Frees n c p s whole h used =
    let (s', ran, is, kept, coalesced) =
      merge_loop-IsBuddy n c (suc max_order) p (released p s) whole (release-HasChunk n p s used h)
        (omega arith) in
    let in_use : (s.refcount p == 0) ≡ false = ground arith in
    let idle : s'.refcount p ≡ 0 = elim (Bool-cases (s'.refcount p == 0)) [
      | inl zero_count ↦ ground arith
      | inr other ↦
          absurd (((kept p (s'.order p)).1 (ground arith, refl)).0 (put_same s.refcount p 0))
    ] in
    (
      s',
      rw in_use ran,
      is,
      idle,
      λ q o other.
          let (a, b) = release-Keeps n p s used h q o other in
          let (a', b') = kept q o in ((λ x. a' (a x)), (λ x. b (b' x))),
      coalesced,
    )
