-- ===== src/Buddy/Range.antt =====
-- `memory_reserve` on a range of pages.
use osc_2026_exercise.Base.{
  ℕ, suc, ◌+◌, ◌^◌, ◌<◌, ◌≤◌, ◌≡◌, ◌⊎◌, inl, inr, sym, ap, ◌∙◌, arith, ◌==◌, Bool-cases, ltb,
  Option, some,
}
use osc_2026_exercise.Buddy.{Buddy}
use osc_2026_exercise.Buddy.Partition.{In}
use osc_2026_exercise.Buddy.State.{Free, Used, IsBuddy}
use osc_2026_exercise.Buddy.Chunk.{put_same}
use osc_2026_exercise.Buddy.Reserve.{Outcome, returned, reserve, halve}
use osc_2026_exercise.Buddy.Reserved.{reserve-Keeps, halve-Keeps, halve_idle}

-- Every page from `a` up to `b` is in a block in use.
abbrev pub AllUsed : Buddy → (a b : ℕ) → Type 0
AllUsed s a b = (x : ℕ) → a ≤ x → x < b → (q : ℕ) × (o : ℕ) × Used s q o × In x q o

-- What was in use still is, and a block in use that was not lies in the range.
abbrev pub Grows : (first end : ℕ) → Buddy → Buddy → Type 0
Grows first end s s' =
    (q o : ℕ)
    → (Used s q o → Used s' q o)
      × (Used s' q o → Used s q o ⊎ ((first ≤ q) × (q + 2 ^ o ≤ end + 1)))

Grows-trans :
    (first end : ℕ) (s t u : Buddy)
    → Grows first end s t
    → Grows first end t u
    → Grows first end s u
Grows-trans first end s t u g g' q o =
    let (a, b) = g q o in
    let (a', b') = g' q o in
    ((λ x. a' (a x)), λ x. elim (b' x) [ inl old ↦ b old | inr new ↦ inr new ])

pub AllUsed-Grows :
    (first end : ℕ) (s t : Buddy) (a b : ℕ) → Grows first end s t → AllUsed s a b → AllUsed t a b
AllUsed-Grows first end s t a b g all x low high =
    let (q, o, used, inside) = all x low high in (q, o, (g q o).0 used, inside)

-- What the function does: it returns, with the range reserved.
abbrev pub Reserves : (n first end : ℕ) → Buddy → Option Outcome → Type 0
Reserves n first end s o =
    (s' : Buddy) × (o ≡ some (returned s'))
    × IsBuddy n s'
    × AllUsed s' first (end + 1)
    × Grows first end s s'

pub Reserves-trans :
    (n first end : ℕ) (s t : Buddy) (o : Option Outcome)
    → Grows first end s t
    → Reserves n first end t o
    → Reserves n first end s o
Reserves-trans n first end s t o g (u, e, is, all, g') =
    (u, e, is, all, Grows-trans first end s t u g g')

module _ (n first end : ℕ) (words : n < 2 ^ 32) where
  -- A block of the range that becomes in use.
  module _ (k p : ℕ) (s : Buddy) (free : Free s p k) (h : IsBuddy n s) where
    idle : s.refcount p ≡ 0
    idle = (h.labelled p k free).1

    pub whole-Grows : first ≤ p → p + 2 ^ k ≤ end + 1 → Grows first end s (reserve k p s)
    whole-Grows low high q o = elim (Bool-cases (q == p)) [
      | inl same ↦
          let e : q ≡ p = ground arith in
          (
            (λ used. absurd (used.0 (ap s.refcount e ∙ idle))),
            (λ used.
                let size : o ≡ k = sym used.1 ∙ ap (reserve k p s).order e ∙ put_same s.order p k in
                let power : 2 ^ o ≡ 2 ^ k = ap (λ t. 2 ^ t) size in inr (omega arith, omega arith)),
          )
      | inr other ↦
          let (a, b) = reserve-Keeps n p k s free h q o (ground arith) in (a, λ used. inl (b used))
    ]

    pub whole-AllUsed :
        first ≤ p
        → p + 2 ^ k ≤ end + 1
        → AllUsed s first p
        → AllUsed (reserve k p s) first (p + 2 ^ k)
    whole-AllUsed low high all x above under = elim (Bool-cases (ltb x p)) [
      | inl before ↦
          AllUsed-Grows first end s (reserve k p s) first p (whole-Grows low high) all x above
            (ground arith)
      | inr here ↦ (
        p,
        k,
        ((λ e. let one = put_same s.refcount p 1 in omega arith), put_same s.order p k),
        (ground arith, under),
      )
    ]

  pub halve-Grows :
      (i p : ℕ) (s : Buddy) → Free s p (suc i) → IsBuddy n s → Grows first end s (halve i p s)
  halve-Grows i p s free h q o = elim (Bool-cases (q == p)) [
    | inl same ↦
        let e : q ≡ p = ground arith in
        (
          (λ used. absurd (used.0 (ap s.refcount e ∙ (h.labelled p (suc i) free).1))),
          (λ used. absurd (used.0 (ap (halve i p s).refcount e ∙ halve_idle n p i s free h))),
        )
    | inr other ↦
        let (a, b) = halve-Keeps n p i s free h q o (ground arith) in (a, λ used. inl (b used))
  ]
