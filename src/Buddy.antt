-- ===== src/Buddy.antt =====
-- The page allocator of ex31/main.cpp. A `struct page*` is the index of the page in `mem_map`, a
-- list of pages is a list of indices, and `none` is what the code does not define: the front of an
-- empty list.
pub mod Partition
pub mod Pair
pub mod State
pub mod Chunk
pub mod Ops
pub mod Split
pub mod Merge
pub mod Coalesced
pub mod Alloc
pub mod Free
pub mod Boot
pub mod Drained
pub mod Serve
pub mod Run
pub mod Reserve
pub mod Reserved
pub mod Range
pub mod Ahead
pub mod ReserveLoop
use osc_2026_exercise.Base.{
  ℕ, zero, suc, ◌+◌, ◌-◌, ◌*◌, ◌^◌, ◌%◌, ◌/◌, bit_xor, Option, none, some, List, [], ◌∷◌, ◌++◌,
  Bool, true, false, ltb, ◌==◌, ◌&&◌, if◌then◌else◌, length,
}
use osc_2026_exercise.Sched.{put}
use osc_2026_exercise.Paging.{◌>>=◌}

abbrev pub num_pages : ℕ
num_pages = 0x280000

abbrev pub max_order : ℕ
max_order = 10

-- `mem_map`, a map for each field of `struct page`, and `free_area`.
pub record Buddy : Type 0 where
  pub order : ℕ → ℕ
  pub refcount : ℕ → ℕ
  pub free_area : ℕ → List ℕ

unfoldable pub get_buddy : (page order : ℕ) → ℕ
get_buddy page order = bit_xor page (2 ^ order)

abbrev pub front : List ℕ → Option ℕ
front [] = none
front (x ∷ xs) = some x

abbrev pub pop_front : List ℕ → List ℕ
pop_front [] = []
pop_front (x ∷ xs) = xs

abbrev pub remove : ℕ → List ℕ → List ℕ
remove p [] = []
remove p (x ∷ xs) = let rest = remove p xs in if x == p then rest else x ∷ rest

-- `free_area[order].push_front(page)`
abbrev pub push : ℕ → ℕ → Buddy → Buddy
push order page s = record s { free_area = put s.free_area order (page ∷ s.free_area order) }

abbrev pub pop : ℕ → Buddy → Buddy
pop order s = record s { free_area = put s.free_area order (pop_front (s.free_area order)) }

abbrev pub label : (page order refcount : ℕ) → Buddy → Buddy
label page order refcount s = record s {
  order = put s.order page order;
  refcount = put s.refcount page refcount;
}

-- One round of `while (tmp_i > order)`, from `tmp_i = i + 1` to `tmp_i = i`.
unfoldable pub split : ℕ → Buddy → Option Buddy
split i s = front (s.free_area (suc i)) >>= λ page.
    let buddy = get_buddy page i in
    some (push i page (push i buddy (label buddy i 0 (pop (suc i) s))))

-- The rounds from `tmp_i = order + d` down to `order`.
unfoldable pub split_loop : (order d : ℕ) → Buddy → Option Buddy
split_loop order zero s = some s
split_loop order (suc d) s = split (order + d) s >>= λ s'. split_loop order d s'

unfoldable pub take : ℕ → Buddy → Option (Option ℕ × Buddy)
take order s =
    front (s.free_area order) >>= λ page. some (some page, pop order (label page order 1 s))

-- The rounds of the search that are left, from `i = order + d` on.
unfoldable pub search : (order d rounds : ℕ) → Buddy → Option (Option ℕ × Buddy)
search order d zero s = some (none, s)
search order d (suc n) s =
    let rest = search order (suc d) n s in
    if ltb 0 (length (s.free_area (order + d)))
    then (split_loop order d s >>= λ s'. take order s')
    else rest

-- `int i = order` is negative from 2 ^ 31 on, and then no index of `free_area`.
unfoldable pub alloc_pages : ℕ → Buddy → Option (Option ℕ × Buddy)
alloc_pages order s =
    let found = search order 0 (suc max_order - order) s in
    if ltb order (2 ^ 31) then found else none

-- `while (page->order < MAX_ORDER)` on fuel, and the push behind it.
unfoldable pub merge_loop : ℕ → ℕ → Buddy → Option Buddy
merge_loop zero page s = none
merge_loop (suc n) page s =
    let k = s.order page in
    let buddy = get_buddy page k in
    let removed = record s { free_area = put s.free_area k (remove buddy (s.free_area k)) } in
    let low = if ltb buddy page then buddy else page in
    let rest = merge_loop n low (record removed { order = put s.order low (suc (s.order low)) }) in
    if ltb k max_order && (s.order buddy == k) && (s.refcount buddy == 0)
    then rest
    else some (push k page s)

-- A null pointer is `none`; another one is to an element of `mem_map`.
unfoldable pub free_pages : Option ℕ → Buddy → Option Buddy
free_pages none s = some s
free_pages (some page) s =
    let freed = merge_loop (suc max_order) page (record s { refcount = put s.refcount page 0 }) in
    if s.refcount page == 0 then some s else freed

-- The loop of `main`, for `n` blocks from the `i`-th on.
unfoldable pub init_loop : (n i : ℕ) → Buddy → Buddy
init_loop zero i s = s
init_loop (suc n) i s =
    let page = i * 2 ^ max_order in
    init_loop n (suc i) (record s {
      order = put s.order page max_order;
      free_area = put s.free_area max_order (s.free_area max_order ++ page ∷ []);
    })

-- After the two `resize`.
abbrev pub cleared : Buddy
cleared = record { order = λ p. 0; refcount = λ p. 0; free_area = λ i. [] }

unfoldable pub boot : Buddy
boot = init_loop (num_pages / 2 ^ max_order) 0 cleared

-- `dump` from the order `i` down: the lengths of the lists.
unfoldable pub dump : ℕ → Buddy → List ℕ
dump zero s = length (s.free_area 0) ∷ []
dump (suc i) s = length (s.free_area (suc i)) ∷ dump i s

-- `main` from the state that its loop leaves: the pages and the state after the three calls of
-- `alloc_pages(1)`, then the last state, with what `dump` prints after each call and at the end.
unfoldable pub run : Buddy → Option (Buddy × List (List ℕ))
run s = alloc_pages 1 s >>= λ (p1, s1). alloc_pages 1 s1 >>= λ (p2, s2).
    alloc_pages 1 s2 >>= λ (p3, s3). free_pages p1 s3 >>= λ s4. free_pages p2 s4 >>= λ s5.
    free_pages p3 s5 >>= λ s6.
    some (s6, dump max_order s1 ∷ dump max_order s2 ∷ dump max_order s3 ∷ dump max_order s6 ∷ [])
