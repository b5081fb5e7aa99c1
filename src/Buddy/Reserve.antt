-- ===== src/Buddy/Reserve.antt =====
-- `memory_reserve` of ex32/main.cpp, over the state of ex31: `struct page`, `mem_map`, `free_area`
-- and `get_buddy` are the same there.
use osc_2026_exercise.Base.{
  ℕ, zero, suc, ◌+◌, ◌-◌, ◌/◌, ◌%◌, ◌^◌, Option, none, some, ltb, leb, ◌==◌, ◌&&◌, ◌||◌,
  if◌then◌else◌,
}
use osc_2026_exercise.Sched.{put}
use osc_2026_exercise.Sched.Ring.{has}
use osc_2026_exercise.Buddy.{Buddy, max_order, push, remove, label, get_buddy, boot}

abbrev pub page_size : ℕ
page_size = 2 ^ 12

-- The search for the order at an offset, from the order `rounds - 1` down; `none` is the exit.
unfoldable pub find_order : (rounds offset base : ℕ) → Option ℕ
find_order zero offset base = none
find_order (suc i) offset base =
    let rest = find_order i offset (if ltb (base + 2 ^ i) offset then base + 2 ^ i else base) in
    if offset == base + 2 ^ i then some i else rest

unfoldable pub next_order : (start_pfn : ℕ) → Option ℕ
unfolding find_order
next_order start_pfn =
    let offset = start_pfn % 2 ^ max_order in
    if offset == 0 then some max_order else find_order max_order offset 0

-- The program ends by exit(0), or the function returns.
pub data Outcome : Type 0 where
  exited : Outcome
  returned : Buddy → Outcome

-- The order found, or the exit.
abbrev pub go_on : Option ℕ → (ℕ → Option Outcome) → Option Outcome
go_on none f = some exited
go_on (some order) f = f order

-- `free_area[order].remove(page)`
abbrev pub removed : (order page : ℕ) → Buddy → Buddy
removed order page s = record s {
  free_area = put s.free_area order (remove page (s.free_area order));
}

-- A block that lies within the range: it is in use from now on.
abbrev pub reserve : (order page : ℕ) → Buddy → Buddy
reserve order page s = removed order page (label page order 1 s)

-- A block that lies within it in part: its halves, of the order `i`, go into their list.
unfoldable pub halve : (i page : ℕ) → Buddy → Buddy
halve i page s =
    let cut = removed (suc i) page s in
    let buddy = get_buddy page i in
    push i page (push i buddy (record cut { order = put (put s.order page i) buddy i }))

-- The order below; the code has none below 0.
abbrev pub below : {A : Type 0} → ℕ → (ℕ → Option A) → Option A
below zero f = none
below (suc i) f = f i

-- `while(1)` on fuel; `none` is the end of the fuel, or a list of the order -1.
unfoldable pub reserve_loop : (fuel : ℕ) → (order start_pfn end_pfn : ℕ) → Buddy → Option Outcome
reserve_loop zero order start_pfn end_pfn s = none
reserve_loop (suc n) order start_pfn end_pfn s =
    let head = start_pfn - start_pfn % 2 ^ order in
    let last = (head + 2 ^ order - 1) % 2 ^ 32 in
    let next = (head + 2 ^ order) % 2 ^ 32 in
    let whole = reserve order head s in
    let onward = go_on (next_order next) (λ order'. reserve_loop n order' next end_pfn whole) in
    let again = reserve_loop n order start_pfn end_pfn s in
    let partial = below order (λ i.
      if ltb end_pfn start_pfn
      then some (returned (halve i head s))
      else reserve_loop n i start_pfn end_pfn (halve i head s)) in
    if has head (s.free_area order)
    then (if (head == start_pfn) && leb last end_pfn
        then (if ltb end_pfn next then some (returned whole) else onward)
        else if ltb head start_pfn || ltb end_pfn last
        then partial
        else if ltb end_pfn start_pfn
        then some (returned s)
        else again)
    else if ltb end_pfn start_pfn
    then some (returned s)
    else some exited

unfoldable pub memory_reserve : (fuel : ℕ) → (base size : ℕ) → Buddy → Option Outcome
memory_reserve fuel base size s =
    reserve_loop fuel max_order (base / page_size % 2 ^ 32)
      ((base + size + 2 ^ 64 - 1) % 2 ^ 64 / page_size % 2 ^ 32) s

-- `mm_init`, without the prints.
unfoldable pub mm_init : (fuel : ℕ) → Option Outcome
mm_init fuel = memory_reserve fuel 0 0x82a69510 boot
