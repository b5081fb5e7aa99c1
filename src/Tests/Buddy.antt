-- ===== src/Tests/Buddy.antt =====
-- The page allocator on three of its largest blocks.
use osc_2026_exercise.Base.{
  ℕ, ◌+◌, ◌^◌, ◌≤◌, ◌<◌, arith, ◌≡◌, refl, List, [], ◌∷◌, Option, some, none,
}
use osc_2026_exercise.Buddy.{
  Buddy, num_pages, init_loop, cleared, boot, alloc_pages, free_pages, run, search, split_loop,
  split, take, merge_loop, get_buddy, dump,
}
use osc_2026_exercise.Buddy.{label, pop}
use osc_2026_exercise.Buddy.Partition.{In}
use osc_2026_exercise.Buddy.State.{Free, Used, IsBuddy}
use osc_2026_exercise.Buddy.Ops.{use-IsBuddy, pop-HasChunk}
use osc_2026_exercise.Buddy.Alloc.{Allocates, alloc_pages-Allocates}
use osc_2026_exercise.Buddy.Free.{Frees, free_pages-Frees}
use osc_2026_exercise.Buddy.Coalesced.{IsCoalesced}
use osc_2026_exercise.Buddy.Boot.{boot-IsBuddy, init_loop-IsBuddy}
use osc_2026_exercise.Buddy.Run.{run-drained}
use osc_2026_exercise.Buddy.Serve.{Request, alloc, free, call, calls, calls-apart, calls-drained}
use osc_2026_exercise.Buddy.Reserve.{
  Outcome, exited, returned, memory_reserve, reserve_loop, next_order, find_order, halve,
}
use osc_2026_exercise.Buddy.Range.{AllUsed}
use osc_2026_exercise.Buddy.ReserveLoop.{memory_reserve-Reserves}

abbrev small : Buddy
small = init_loop 3 0 cleared

dumps : Option (Buddy × List (List ℕ)) → List (List ℕ)
dumps none = []
dumps (some (s, d)) = d

-- The output that ex31/README.md expects, of three blocks instead of 2560.
prints :
    dumps (run small)
    ≡ (2 ∷ 1 ∷ 1 ∷ 1 ∷ 1 ∷ 1 ∷ 1 ∷ 1 ∷ 1 ∷ 1 ∷ 0 ∷ [])
      ∷ (2 ∷ 1 ∷ 1 ∷ 1 ∷ 1 ∷ 1 ∷ 1 ∷ 1 ∷ 1 ∷ 0 ∷ 0 ∷ [])
      ∷ (2 ∷ 1 ∷ 1 ∷ 1 ∷ 1 ∷ 1 ∷ 1 ∷ 1 ∷ 0 ∷ 1 ∷ 0 ∷ [])
      ∷ (3 ∷ 0 ∷ 0 ∷ 0 ∷ 0 ∷ 0 ∷ 0 ∷ 0 ∷ 0 ∷ 0 ∷ 0 ∷ [])
      ∷ []
unfolding dumps run alloc_pages free_pages init_loop search split_loop split take merge_loop
    get_buddy dump
prints = refl

-- After one call of `alloc_pages(1)` from the start of `main`.
alloc_pages-Allocates_example : Allocates num_pages 1 boot (alloc_pages 1 boot)
alloc_pages-Allocates_example = alloc_pages-Allocates num_pages 1 boot (omega arith) boot-IsBuddy.0

-- Two blocks, of which the first is in use.
abbrev two : Buddy
two = init_loop 2 0 cleared

abbrev one_used : Buddy
one_used = label 0 10 1 (pop 10 two)

one_used-IsBuddy : IsBuddy 2048 one_used
unfolding init_loop
one_used-IsBuddy =
    use-IsBuddy 2048 0 10 (pop 10 two)
      (pop-HasChunk 2048 0 10 two (1024 ∷ []) refl (init_loop-IsBuddy 2))

free_pages-Frees_example : Frees 2048 0 one_used (free_pages (some 0) one_used)
free_pages-Frees_example = free_pages-Frees 2048 2 0 one_used refl one_used-IsBuddy (omega arith)

abbrev requests : List Request
requests = alloc 1 ∷ alloc 3 ∷ free (some 0) ∷ free (some 7) ∷ []

calls-apart_example :
    (s : Buddy) × (calls requests boot ≡ some s)
    × ((x p k q o : ℕ) → Used s p k → Used s q o → In x p k → In x q o → (p ≡ q) × (k ≡ o))
    × ((p k : ℕ) → Used s p k → p + 2 ^ k ≤ num_pages)
    × IsCoalesced s
calls-apart_example = calls-apart requests (omega arith)

dumped : Option Outcome → List ℕ
dumped none = []
dumped (some exited) = []
dumped (some (returned s)) = dump 10 s

-- The end of the output that ex32/README.md expects, with 12 blocks for the last part of the range.
reserved :
    dumped (memory_reserve 200 0 0x2a69510 (init_loop 12 0 cleared))
    ≡ 1 ∷ 0 ∷ 1 ∷ 1 ∷ 0 ∷ 0 ∷ 1 ∷ 0 ∷ 1 ∷ 1 ∷ 0 ∷ []
unfolding dumped memory_reserve reserve_loop next_order find_order halve init_loop get_buddy dump
reserved = refl

again : Option Outcome → Option Outcome
again none = none
again (some exited) = none
again (some (returned s)) = memory_reserve 40 0x1000 0x1000 s

-- A second range in the same block of the largest order ends the program.
second_exits : again (memory_reserve 40 0 0x1000 (init_loop 1 0 cleared)) ≡ some exited
unfolding again memory_reserve reserve_loop next_order find_order halve init_loop get_buddy
second_exits = refl

memory_reserve-Reserves_example :
    (s : Buddy) × (memory_reserve 40 0x1800 0x1000 boot ≡ some (returned s))
    × IsBuddy num_pages s
    × AllUsed s 1 3
    × ((q o : ℕ) → Used s q o → (1 ≤ q) × (q + 2 ^ o ≤ 3))
memory_reserve-Reserves_example =
    memory_reserve-Reserves 40 0x1800 0x1000 (omega arith) (omega arith) (omega arith)

two-IsCoalesced : IsCoalesced two
unfolding init_loop
two-IsCoalesced j k fits low high = ground arith

-- A block of four pages is split off and given back.
there_and_back : List Request
there_and_back = alloc 2 ∷ free (some 0) ∷ []

state_of : Option Buddy → Buddy
state_of none = cleared
state_of (some s) = s

abbrev back : Buddy
back = state_of (calls there_and_back two)

back_lem : calls there_and_back two ≡ some back
unfolding there_and_back state_of calls call alloc_pages free_pages init_loop search split_loop
    split take merge_loop get_buddy
back_lem = refl

back_idle : (q : ℕ) → back.refcount q ≡ 0
unfolding there_and_back state_of calls call alloc_pages free_pages init_loop search split_loop
    split take merge_loop get_buddy
back_idle q = ground arith

calls-drained_example :
    ((q o : ℕ) → Free back q o → o ≡ 10)
    × ((x : ℕ) → x < 2048 → (q : ℕ) × Free back q 10 × In x q 10)
calls-drained_example =
    calls-drained 2048 2 there_and_back two back refl (init_loop-IsBuddy 2) two-IsCoalesced back_lem
      back_idle

two_idle : (q : ℕ) → two.refcount q ≡ 0
unfolding init_loop
two_idle q = refl

run-drained_example :
    (s : Buddy) × (d : List (List ℕ)) × (run two ≡ some (s, d))
    × ((q : ℕ) → s.refcount q ≡ 0)
    × ((q o : ℕ) → Free s q o → o ≡ 10)
run-drained_example = run-drained 2048 2 two refl (init_loop-IsBuddy 2) two-IsCoalesced two_idle
