-- ===== src/Buddy/Boot.antt =====
-- The start of `main`: every block of the largest order is free.
use osc_2026_exercise.Base.{
  ℕ, zero, suc, ◌+◌, ◌*◌, ◌/◌, ◌%◌, ◌^◌, ◌<◌, ◌≡◌, ◌||◌, inl, inr, refl, sym, ap, ◌∙◌, arith, ◌==◌,
  Bool-cases, subst, false, true, List, [], ◌∷◌, ◌++◌,
}
use osc_2026_exercise.Sched.{put}
use osc_2026_exercise.Sched.Ring.{has, Distinct, has-append, append-Distinct}
use osc_2026_exercise.Buddy.{Buddy, max_order, num_pages, init_loop, boot, cleared}
use osc_2026_exercise.Buddy.State.{Free, Block, IsBuddy}

-- After `i` rounds.
record IsInit (i : ℕ) (s : Buddy) : Type 0 where
  only :
      (q o : ℕ) → Free s q o → (o ≡ max_order) × (q % 2 ^ max_order ≡ 0) × (q / 2 ^ max_order < i)
  listed : (j : ℕ) → j < i → Free s (j * 2 ^ max_order) max_order
  unused : (q : ℕ) → s.refcount q ≡ 0
  labelled : (j : ℕ) → j < i → s.order (j * 2 ^ max_order) ≡ max_order
  distinct : (o : ℕ) → Distinct (s.free_area o)

has-snoc : (q y : ℕ) (xs : List ℕ) → has q (xs ++ y ∷ []) ≡ (has q xs || (y == q))
has-snoc q y xs = has-append q xs (y ∷ []) ∙ ground arith

snoc-Distinct : (y : ℕ) (xs : List ℕ) → Distinct xs → has y xs ≡ false → Distinct (xs ++ y ∷ [])
snoc-Distinct y xs h new = append-Distinct xs (y ∷ []) h (refl, tt) (λ q i. ground arith)

cleared-IsInit : IsInit 0 cleared
cleared-IsInit = record {
  only = λ q o free. absurd (ground arith);
  listed = λ j small. absurd (omega arith);
  unused = λ q. refl;
  labelled = λ j small. absurd (omega arith);
  distinct = λ o. tt;
}

module _ (i : ℕ) (s : Buddy) (h : IsInit i s) where
  abbrev page : ℕ
  page = i * 2 ^ max_order

  abbrev next : Buddy
  next = record s {
    order = put s.order page max_order;
    free_area = put s.free_area max_order (s.free_area max_order ++ page ∷ []);
  }

  new_page : has page (s.free_area max_order) ≡ false
  new_page = elim (Bool-cases (has page (s.free_area max_order))) [
    | inl old ↦ absurd (let (e, f, g) = h.only page max_order old in omega arith)
    | inr new ↦ new
  ]

  next-only :
      (q o : ℕ)
      → Free next q o
      → (o ≡ max_order) × (q % 2 ^ max_order ≡ 0) × (q / 2 ^ max_order < suc i)
  next-only q o free = elim (Bool-cases (max_order == o)) [
    | inl same ↦
        let split : (has q (s.free_area max_order) || (page == q)) ≡ true =
          sym (has-snoc q page (s.free_area max_order)) ∙ (rw same at free) in
        elim (Bool-cases (has q (s.free_area max_order))) [
          | inl old ↦ let (e, f, g) = h.only q max_order old in (ground arith, f, omega arith)
          | inr other ↦
              let e : i * 1024 ≡ q = ground arith in (ground arith, omega arith, omega arith)
        ]
    | inr other ↦
        let old : has q (s.free_area o) ≡ true = rw other at free in
        let (e, f, g) = h.only q o old in (e, f, omega arith)
  ]

  next-IsInit : IsInit (suc i) next
  next-IsInit = record {
    only = next-only;
    listed = λ j small.
        has-snoc (j * 2 ^ max_order) page (s.free_area max_order) ∙ elim (Bool-cases (j == i)) [
          | inl same ↦ ground arith
          | inr other ↦ let old = h.listed j (ground arith) in ground (arith, old)
        ];
    unused = h.unused;
    labelled = λ j small. elim (Bool-cases (j == i)) [
      | inl same ↦ ground arith
      | inr other ↦ let old = h.labelled j (ground arith) in ground (arith, old)
    ];
    distinct = λ o. elim (Bool-cases (max_order == o)) [
      | inl same ↦
          rw same (snoc-Distinct page (s.free_area max_order) (h.distinct max_order) new_page)
      | inr other ↦ rw other (h.distinct o)
    ];
  }

init_loop-IsInit : (n i : ℕ) (s : Buddy) → IsInit i s → IsInit (i + n) (init_loop n i s)
unfolding init_loop
init_loop-IsInit zero i s h = let e : i + 0 ≡ i = omega arith in rw e h
init_loop-IsInit (suc n) i s h =
    let e : i + suc n ≡ suc i + n = omega arith in
    rw e (init_loop-IsInit n (suc i) (next i s h) (next-IsInit i s h))

IsInit-IsBuddy : (i : ℕ) (s : Buddy) → IsInit i s → IsBuddy (i * 2 ^ max_order) s
IsInit-IsBuddy i s h =
    let whole : (q o : ℕ)
        → Block s q o
        → (o ≡ max_order) × (q % 2 ^ max_order ≡ 0) × (q / 2 ^ max_order < i) =
      λ q o block. elim block [
        | inl free ↦ h.only q o free
        | inr (used, size) ↦ absurd (used (h.unused q))
      ] in
    record {
      partition = record {
        aligned =
            λ q o block. let (e, f, g) = whole q o block in rw e (q / 2 ^ max_order, omega arith);
        bounded = λ q o block. let (e, f, g) = whole q o block in rw e (omega arith);
        disjoint = λ x q o p k b c (l, u) (l', u').
            let (e, f, g) = whole q o b in
            let (e', f', g') = whole p k c in
            let size : 2 ^ o ≡ 1024 = ap (λ t. 2 ^ t) e in
            let size' : 2 ^ k ≡ 1024 = ap (λ t. 2 ^ t) e' in (omega arith, omega arith);
        covered = λ x small.
            (x / 1024 * 1024, max_order, inl (h.listed (x / 1024) (omega arith)), omega arith);
      };
      labelled = λ q o free.
          let (e, f, g) = h.only q o free in
          let at : q / 1024 * 1024 ≡ q = omega arith in
          (ap s.order (sym at) ∙ h.labelled (q / 1024) g ∙ sym e, h.unused q);
      orders = λ q o block. let (e, f, g) = whole q o block in omega arith;
      distinct = h.distinct;
    }

pub init_loop-IsBuddy : (n : ℕ) → IsBuddy (n * 2 ^ max_order) (init_loop n 0 cleared)
init_loop-IsBuddy n =
    let e : 0 + n ≡ n = omega arith in
    IsInit-IsBuddy n (init_loop n 0 cleared) (
      subst (λ i. IsInit i (init_loop n 0 cleared)) e (init_loop-IsInit n 0 cleared cleared-IsInit))

-- The blocks that `main` puts into the list of the largest order are a partition of the 0x280000
-- pages, and none is in use.
pub boot-IsBuddy : IsBuddy num_pages boot × ((q : ℕ) → boot.refcount q ≡ 0)
unfolding boot
boot-IsBuddy =
    let h = init_loop-IsInit 2560 0 cleared cleared-IsInit in (IsInit-IsBuddy 2560 boot h, h.unused)

-- Its free blocks.
pub boot-Free :
    ((q o : ℕ) → Free boot q o → o ≡ max_order)
    × ((j : ℕ) → j < 2560 → Free boot (j * 2 ^ max_order) max_order)
unfolding boot
boot-Free =
    let h = init_loop-IsInit 2560 0 cleared cleared-IsInit in
    ((λ q o free. (h.only q o free).0), h.listed)
