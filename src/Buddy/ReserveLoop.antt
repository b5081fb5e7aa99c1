-- ===== src/Buddy/ReserveLoop.antt =====
-- The loop of `memory_reserve`, with its fuel.
use osc_2026_exercise.Base.{
  ℕ, zero, suc, ◌+◌, ◌-◌, ◌*◌, ◌/◌, ◌%◌, ◌^◌, ◌<◌, ◌≤◌, ◌≡◌, ◌≢◌, inl, inr, refl, sym, ap, ◌∙◌,
  arith, leb, ◌==◌, ◌||◌, Bool-cases, subst, ltb, ◌&&◌, if◌then◌else◌, false, true, some,
}
use osc_2026_exercise.Sched.Ring.{has}
use osc_2026_exercise.Buddy.{Buddy, max_order, num_pages, boot}
use osc_2026_exercise.Buddy.Partition.{pow-pos}
use osc_2026_exercise.Buddy.State.{Free, Used, IsBuddy}
use osc_2026_exercise.Buddy.Boot.{boot-IsBuddy, boot-Free}
use osc_2026_exercise.Buddy.Reserve.{
  page_size, next_order, returned, go_on, reserve, halve, below, reserve_loop, memory_reserve,
}
use osc_2026_exercise.Buddy.Reserved.{reserve-IsBuddy, halve-IsBuddy}
use osc_2026_exercise.Buddy.Ahead.{Ahead, next-Ahead, halve-Ahead}
use osc_2026_exercise.Buddy.Range.{
  AllUsed, Reserves, Reserves-trans, whole-Grows, whole-AllUsed, halve-Grows, AllUsed-Grows,
}

module _ (n first end : ℕ) (words : n < 2 ^ 32) (room : end < n) where
  -- What is left to do decreases in each round.
  abbrev Enough : (fuel order start : ℕ) → Type 0
  Enough fuel order start = (end + 1 - start) * 11 + order < fuel

  -- The result for every call with less fuel.
  abbrev AtFuel : ℕ → Type 0
  AtFuel fuel =
      (order start : ℕ) (s : Buddy)
      → IsBuddy n s
      → order ≤ max_order
      → first ≤ start
      → start ≤ end
      → AllUsed s first start
      → Ahead order start s
      → Enough fuel order start
      → Reserves n first end s (reserve_loop fuel order start end s)

  module _ (fuel order start : ℕ) (s : Buddy) (h : IsBuddy n s) (small : order ≤ max_order)
      (low : first ≤ start) (high : start ≤ end) (all : AllUsed s first start)
      (ahead : Ahead order start s) (enough : Enough (suc fuel) order start)
      (loop : AtFuel fuel) where
    -- The chunk at `start` lies in the range.
    whole_case :
        Free s start order
        → start + 2 ^ order ≤ end + 1
        → start + 2 ^ order < 2 ^ 32
        → Reserves n first end s (
            if ltb end ((start + 2 ^ order) % 2 ^ 32)
            then some (returned (reserve order start s))
            else go_on (next_order ((start + 2 ^ order) % 2 ^ 32)) (λ order'.
              reserve_loop fuel order' ((start + 2 ^ order) % 2 ^ 32) end (reserve order start s)))
    whole_case free fits word =
        let next : (start + 2 ^ order) % 2 ^ 32 ≡ start + 2 ^ order = omega arith in
        let is = reserve-IsBuddy n start order s free h in
        let grown = whole-Grows n first end words order start s free h low fits in
        let done = whole-AllUsed n first end words order start s free h low fits all in
        rw next (elim (Bool-cases (ltb end (start + 2 ^ order))) [
          | inl last ↦
              let e : start + 2 ^ order ≡ end + 1 = ground arith in
              rw last (
                reserve order start s,
                refl,
                is,
                subst (AllUsed (reserve order start s) first) e done,
                grown,
              )
          | inr more ↦
              let inside : start + 2 ^ order ≤ end = ground arith in
              let (k, found, fits', ahead') =
                next-Ahead n order start s free h ahead (omega arith) in
              rw (more, found)
                (Reserves-trans n first end s (reserve order start s) _ grown (
                  loop k (start + 2 ^ order) (reserve order start s) is fits' (omega arith) inside
                    done ahead' (omega (arith, pow-pos order))))
        ])

    -- The chunk that `start` is in lies in the range in part.
    halve_case :
        (i p : ℕ)
        → order ≡ suc i
        → p ≡ start - start % 2 ^ suc i
        → Free s p (suc i)
        → Reserves n first end s (reserve_loop fuel i start end (halve i p s))
    halve_case i p e at free =
        let grown = halve-Grows n first end words i p s free h in
        let ahead' : Ahead i start (halve i p s) =
          subst (λ r. Ahead i start (halve i r s)) (sym at)
            (halve-Ahead n i start s h (subst (λ k. Ahead k start s) e ahead)) in
        Reserves-trans n first end s (halve i p s) _ grown (
          loop i start (halve i p s) (halve-IsBuddy n p i s free h) (omega arith) low high
            (AllUsed-Grows first end s (halve i p s) first start grown all) ahead' (omega arith))

    whole_at :
        (p : ℕ)
        → p ≡ start
        → Free s p order
        → p + 2 ^ order ≤ end + 1
        → p + 2 ^ order < 2 ^ 32
        → Reserves n first end s (
            if ltb end ((p + 2 ^ order) % 2 ^ 32)
            then some (returned (reserve order p s))
            else go_on (next_order ((p + 2 ^ order) % 2 ^ 32)) (λ order'.
              reserve_loop fuel order' ((p + 2 ^ order) % 2 ^ 32) end (reserve order p s)))
    whole_at p at free fits word =
        rw at (whole_case (rw at at free) (rw at at fits) (rw at at word))

    part_at :
        (p o : ℕ)
        → order ≡ o
        → p ≡ start - start % 2 ^ o
        → Free s p o
        → o ≢ 0
        → Reserves n first end s (
            below o (λ i.
              if ltb end start
              then some (returned (halve i p s))
              else reserve_loop fuel i start end (halve i p s)))
    part_at p zero e at free positive = absurd (positive refl)
    part_at p (suc i) e at free positive =
        let more : ltb end start ≡ false = ground arith in rw more (halve_case i p e at free)

    -- At the order 0 the chunk is the page at `start`, which lies in the range.
    part_positive :
        ((start - start % 2 ^ order == start)
            && leb (start - start % 2 ^ order + 2 ^ order - 1) end)
          ≡ false
        → order ≢ 0
    part_positive part e =
        let one : 2 ^ order ≡ 1 = ap (λ t. 2 ^ t) e in
        let rest : start % 2 ^ order ≡ 0 = ap (λ t. start % t) one ∙ omega arith in ground arith

    -- A round of the loop.
    round : Reserves n first end s (reserve_loop (suc fuel) order start end s)
    unfolding reserve_loop
    round =
        let head = start - start % 2 ^ order in
        elim (Bool-cases (has head (s.free_area order))) [
          | inr absent ↦ absurd (let here = ahead.here in ground arith)
          | inl found ↦
              let bound = h.partition.bounded head order (inl found) in
              let word : (head + 2 ^ order - 1) % 2 ^ 32 ≡ head + 2 ^ order - 1 = omega arith in
              elim (Bool-cases ((head == start) && leb (head + 2 ^ order - 1) end)) [
                | inl full ↦
                    let at : head ≡ start = ground arith in
                    rw (found, word, full) (whole_at head at found (ground arith) (omega arith))
                | inr part ↦
                    let cond : (ltb head start || ltb end (head + 2 ^ order - 1)) ≡ true =
                      ground arith in
                    rw (found, word, part, cond)
                      (part_at head order refl refl found (part_positive part))
              ]
        ]

  reserve_loop-Reserves : (fuel : ℕ) → AtFuel fuel
  reserve_loop-Reserves zero order start s h small low high all ahead enough = absurd (omega arith)
  reserve_loop-Reserves (suc fuel) order start s h small low high all ahead enough =
      round fuel order start s h small low high all ahead enough (reserve_loop-Reserves fuel)

boot-Ahead : (start : ℕ) → start < num_pages → Ahead max_order start boot
boot-Ahead start small = record {
  used_below = λ q o used. absurd (used.0 (boot-IsBuddy.1 q));
  upper = λ q k listed less after. absurd (let e = boot-Free.0 q k listed in omega arith);
  here =
      let at : start - start % 1024 ≡ start / 1024 * 1024 = omega arith in
      rw at (boot-Free.1 (start / 1024) (omega arith));
}

range_lem :
    (fuel base size : ℕ) (s : Buddy)
    → 0 < size
    → base + size ≤ num_pages * page_size
    → memory_reserve fuel base size s
      ≡ reserve_loop fuel max_order (base / page_size) ((base + size - 1) / page_size) s
unfolding memory_reserve
range_lem fuel base size s some_bytes small =
    let first : base / page_size % 2 ^ 32 ≡ base / page_size = omega arith in
    let end : (base + size + 2 ^ 64 - 1) % 2 ^ 64 / page_size % 2 ^ 32
        ≡ (base + size - 1) / page_size =
      omega arith in
    rw (first, end) refl

-- From the state that `mm_init` builds, for a range that is not empty and lies within the pages, with
-- fuel for 11 rounds a page and 11 more: `memory_reserve` returns, it does not exit. The state is again
-- a partition of the pages, in which every page of the range is in a block in use and every block
-- in use lies in the range.
pub memory_reserve-Reserves :
    (fuel base size : ℕ)
    → 0 < size
    → base + size ≤ num_pages * page_size
    → ((base + size - 1) / page_size + 1 - base / page_size) * 11 + 11 ≤ fuel
    → (s : Buddy) × (memory_reserve fuel base size boot ≡ some (returned s))
      × IsBuddy num_pages s
      × AllUsed s (base / page_size) ((base + size - 1) / page_size + 1)
      × ((q o : ℕ)
          → Used s q o
          → (base / page_size ≤ q) × (q + 2 ^ o ≤ (base + size - 1) / page_size + 1))
memory_reserve-Reserves fuel base size some_bytes small enough =
    let (s, ran, is, all, grown) =
      reserve_loop-Reserves num_pages (base / page_size) ((base + size - 1) / page_size)
        (omega arith) (omega arith) fuel max_order (base / page_size) boot boot-IsBuddy.0
        (omega arith) (omega arith) (omega arith) (λ x low high. absurd (omega arith))
        (boot-Ahead (base / page_size) (omega arith)) (omega arith) in
    (
      s,
      range_lem fuel base size boot some_bytes small ∙ ran,
      is,
      all,
      λ q o used. elim ((grown q o).1 used) [
        | inl old ↦ absurd (old.0 (boot-IsBuddy.1 q))
        | inr new ↦ new
      ],
    )
