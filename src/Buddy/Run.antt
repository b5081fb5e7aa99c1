-- ===== src/Buddy/Run.antt =====
-- The calls that `main` of ex31/main.cpp makes: three blocks that are given out and taken back.
use osc_2026_exercise.Base.{
  ◌<◌, ◌^◌, ℕ, ◌*◌, ◌^◌, ◌≡◌, ◌≢◌, ◌⊎◌, inl, inr, refl, sym, ap, ◌∙◌, arith, ◌==◌, Bool-cases, List,
  [], ◌∷◌, Option, none, some,
}
use osc_2026_exercise.Buddy.{Buddy, max_order, alloc_pages, free_pages, run, dump}
use osc_2026_exercise.Buddy.State.{Free, Used, IsBuddy}
use osc_2026_exercise.Buddy.Coalesced.{IsCoalesced}
use osc_2026_exercise.Buddy.Alloc.{alloc_pages-Allocates}
use osc_2026_exercise.Buddy.Free.{free_pages-Frees}
use osc_2026_exercise.Buddy.Drained.{drained}

-- The state of the allocator, and which pages may head blocks in use.
record InUse (n : ℕ) (P : ℕ → Type 0) (s : Buddy) : Type 0 where
  is_buddy : IsBuddy n s
  coalesced : IsCoalesced s
  only : (q o : ℕ) → Used s q o → P q

-- What is in use after a call of `alloc_pages`.
abbrev With : Option ℕ → (ℕ → Type 0) → ℕ → Type 0
With p P q = (p ≡ some q) ⊎ P q

alloc-InUse :
    (n order : ℕ) (P : ℕ → Type 0) (s : Buddy)
    → order < 2 ^ 31
    → InUse n P s
    → (p : Option ℕ) × (s' : Buddy) × (alloc_pages order s ≡ some (p, s')) × InUse n (With p P) s'
alloc-InUse n order P s is_int h = elim (alloc_pages-Allocates n order s is_int h.is_buddy) [
  | inl (none_left, empty) ↦ (
    none,
    s,
    none_left,
    record {
      is_buddy = h.is_buddy;
      coalesced = h.coalesced;
      only = λ q o used. inr (h.only q o used);
    },
  )
  | inr (p, s', ran, is, used, idle, kept, coalesced) ↦ (
    some p,
    s',
    ran,
    record {
      is_buddy = is;
      coalesced = coalesced h.coalesced;
      only = λ q o used'. elim (Bool-cases (q == p)) [
        | inl same ↦ let e : p ≡ q = ground arith in inl (ap (λ x. some x) e)
        | inr other ↦ inr (h.only q o ((kept q o (ground arith)).1 used'))
      ];
    },
  )
]

free-InUse :
    (n c : ℕ) (p : Option ℕ) (P R : ℕ → Type 0) (s : Buddy)
    → n ≡ c * 2 ^ max_order
    → InUse n P s
    → ((q : ℕ) → P q → With p R q)
    → (s' : Buddy) × (free_pages p s ≡ some s') × InUse n R s'
unfolding free_pages
free-InUse n c none P R s whole h rest = (
  s,
  refl,
  record {
    is_buddy = h.is_buddy;
    coalesced = h.coalesced;
    only = λ q o used. elim (rest q (h.only q o used)) [ inl at ↦ cc | inr other ↦ other ];
  },
)
free-InUse n c (some p) P R s whole h rest = elim (Bool-cases (s.refcount p == 0)) [
  | inl idle ↦ (
    s,
    rw idle refl,
    record {
      is_buddy = h.is_buddy;
      coalesced = h.coalesced;
      only = λ q o used. elim (rest q (h.only q o used)) [
        | inl at ↦ let e : p ≡ q = cc in absurd (used.0 (ap s.refcount (sym e) ∙ ground arith))
        | inr other ↦ other
      ];
    },
  )
  | inr used ↦
      let (s', ran, is, done, kept, coalesced) =
        free_pages-Frees n c p s whole h.is_buddy (ground arith) in
      (
        s',
        ran,
        record {
          is_buddy = is;
          coalesced = coalesced h.coalesced;
          only = λ q o used'.
              let other : q ≢ p = λ e. used'.0 (ap s'.refcount e ∙ done) in
              elim (rest q (h.only q o ((kept q o other).1 used'))) [
                | inl at ↦ let e : q ≡ p = cc in absurd (other e)
                | inr left ↦ left
              ];
        },
      )
]

InUse-none : (n : ℕ) (s : Buddy) → InUse n (λ q. ⊥) s → (q : ℕ) → s.refcount q ≡ 0
InUse-none n s h q = elim (Bool-cases (s.refcount q == 0)) [
  | inl no_count ↦ ground arith
  | inr count ↦ absurd (h.only q (s.order q) (ground arith, refl))
]

run-calls :
    (s s1 s2 s3 s4 s5 s6 : Buddy) (p1 p2 p3 : Option ℕ)
    → alloc_pages 1 s ≡ some (p1, s1)
    → alloc_pages 1 s1 ≡ some (p2, s2)
    → alloc_pages 1 s2 ≡ some (p3, s3)
    → free_pages p1 s3 ≡ some s4
    → free_pages p2 s4 ≡ some s5
    → free_pages p3 s5 ≡ some s6
    → run s
      ≡ some
          (s6, dump max_order s1 ∷ dump max_order s2 ∷ dump max_order s3 ∷ dump max_order s6 ∷ [])
unfolding run
run-calls s s1 s2 s3 s4 s5 s6 p1 p2 p3 e1 e2 e3 e4 e5 e6 = rw (e1, e2, e3, e4, e5, e6) refl

-- From a state whose free blocks and blocks in use are a partition of the `n` pages, `n` a multiple of
-- the largest block, where no two free blocks are the halves of a larger one and nothing is in
-- use: the six calls of `main` return, whether or not they find blocks, and in the end nothing is in
-- use and every free block is one of the largest order, as `main` has set them up.
pub run-drained :
    (n c : ℕ) (s : Buddy)
    → n ≡ c * 2 ^ max_order
    → IsBuddy n s
    → IsCoalesced s
    → ((q : ℕ) → s.refcount q ≡ 0)
    → (s' : Buddy) × (dumps : List (List ℕ)) × (run s ≡ some (s', dumps))
      × ((q : ℕ) → s'.refcount q ≡ 0)
      × ((q o : ℕ) → Free s' q o → o ≡ max_order)
run-drained n c s whole h before idle =
    let h0 : InUse n (λ q. ⊥) s = record {
      is_buddy = h;
      coalesced = before;
      only = λ q o used. used.0 (idle q);
    } in
    let (p1, s1, ran1, h1) = alloc-InUse n 1 (λ q. ⊥) s (omega arith) h0 in
    let (p2, s2, ran2, h2) = alloc-InUse n 1 (With p1 (λ q. ⊥)) s1 (omega arith) h1 in
    let (p3, s3, ran3, h3) = alloc-InUse n 1 (With p2 (With p1 (λ q. ⊥))) s2 (omega arith) h2 in
    let (s4, ran4, h4) =
      free-InUse n c p1 (With p3 (With p2 (With p1 (λ q. ⊥)))) (With p3 (With p2 (λ q. ⊥))) s3 whole
        h3
        (λ q among. elim among [
          | inl third ↦ inr (inl third)
          | inr others ↦ elim others [
            | inl second ↦ inr (inr (inl second))
            | inr first ↦ elim first [ inl at ↦ inl at | inr none_left ↦ absurd none_left ]
          ]
        ]) in
    let (s5, ran5, h5) =
      free-InUse n c p2 (With p3 (With p2 (λ q. ⊥))) (With p3 (λ q. ⊥)) s4 whole h4 (λ q among.
        elim among [
          | inl third ↦ inr (inl third)
          | inr others ↦ elim others [ inl at ↦ inl at | inr none_left ↦ absurd none_left ]
        ]) in
    let (s6, ran6, h6) =
      free-InUse n c p3 (With p3 (λ q. ⊥)) (λ q. ⊥) s5 whole h5 (λ q among. among) in
    let unused = InUse-none n s6 h6 in
    (
      s6,
      dump max_order s1 ∷ dump max_order s2 ∷ dump max_order s3 ∷ dump max_order s6 ∷ [],
      run-calls s s1 s2 s3 s4 s5 s6 p1 p2 p3 ran1 ran2 ran3 ran4 ran5 ran6,
      unused,
      drained n c s6 whole h6.is_buddy h6.coalesced unused,
    )
