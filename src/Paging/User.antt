-- ===== src/Paging/User.antt =====
-- `pagewalk` and `map_pages` of ex62/main.c. The kernel runs in the upper half, where `setup_vm`
-- maps the lowest ten GiB of physical memory; an access to an address that is not mapped there
-- traps, which is `none`.
use osc_2026_exercise.Base.{
  ℕ, zero, suc, ◌+◌, ◌-◌, ◌*◌, ◌/◌, ◌%◌, ◌^◌, Bool, ◌&&◌, Option, none, some, bit_and, bit_or, ltb,
  leb, ◌==◌, if◌then◌else◌,
}
use osc_2026_exercise.Sched.{put}
use osc_2026_exercise.Utils.Alloc.{alloc_page}
use osc_2026_exercise.Paging.{page_size, ◌>>=◌}

abbrev pub page_offset : ℕ
page_offset = 0xffffffc000000000

-- `NUM_PAGES / (PGD_SIZE / PAGE_SIZE)` entries of 1 GiB.
abbrev pub linear_map : ℕ
linear_map = 0x280000 / (2 ^ 30 / page_size) * 2 ^ 30

abbrev pub virt_to_phys : ℕ → ℕ
virt_to_phys x = (x + (2 ^ 64 - page_offset)) % 2 ^ 64

abbrev pub is_mapped : ℕ → Bool
is_mapped a = leb page_offset a && ltb a (page_offset + linear_map)

pub record Machine : Type 0 where
  pub word : ℕ → ℕ
  pub curr : ℕ

abbrev pub load : Machine → ℕ → Option ℕ
load m a = if is_mapped a then some (m.word (virt_to_phys a)) else none

abbrev pub store_word : ℕ → ℕ → Machine → Option Machine
store_word a v m =
    if is_mapped a then some (record m { word = put m.word (virt_to_phys a) v }) else none

-- `memset(page, 0, 0x1000)`
abbrev pub clear_page : ℕ → Machine → Option Machine
clear_page page m =
    if is_mapped page && is_mapped (page + 0xfff)
    then some (record m {
      word = λ q.
          if leb (virt_to_phys page) q && ltb q (virt_to_phys page + 0x1000) then 0 else m.word q;
    })
    else none

-- `&page_table[idx]`
abbrev pub entry_address : ℕ → ℕ → ℕ
entry_address page_table idx = (page_table + 8 * idx) % 2 ^ 64

-- The branch without a table: the new one, and the state.
unfoldable pub add_table : ℕ → Machine → Option (ℕ × Machine)
add_table at m =
    let (page, curr') = alloc_page m.curr in
    clear_page page (record m { curr = curr' }) >>= λ m1.
    store_word at (bit_or (virt_to_phys page / 2 ^ 12 * 2 ^ 10 % 2 ^ 64) 1) m1 >>= λ m2.
    some (page, m2)

-- One round of the loop of `pagewalk`.
unfoldable pub descend : (vpn level page_table : ℕ) → Machine → Option (ℕ × Machine)
unfolding add_table
descend vpn level page_table m =
    let at = entry_address page_table (bit_and (vpn / 2 ^ (level * 9)) 0x1ff) in
    load m at >>= λ entry.
    if bit_and entry 1 == 0 then add_table at m else some (entry / 2 ^ 10 * 2 ^ 12 % 2 ^ 64, m)

-- The rounds from `level` down to 1.
unfoldable pub descend_loop : (vpn level page_table : ℕ) → Machine → Option (ℕ × Machine)
unfolding descend
descend_loop vpn zero page_table m = some (page_table, m)
descend_loop vpn (suc level) page_table m =
    descend vpn (suc level) page_table m >>= λ t. descend_loop vpn level t.0 t.1

-- `pgd` is the address of the root table.
unfoldable pub pagewalk : (pgd va pa prot : ℕ) → Machine → Option Machine
unfolding descend_loop
pagewalk pgd va pa prot m = descend_loop (va / 2 ^ 12) 2 pgd m >>= λ t.
    store_word (entry_address t.0 (bit_and (va / 2 ^ 12) 0x1ff))
      (bit_or (pa / 2 ^ 12 * 2 ^ 10 % 2 ^ 64) prot) t.1

-- The rounds of the loop from `i` on, `k` of them.
unfoldable pub map_loop : (pgd va pa prot k i : ℕ) → Machine → Option Machine
unfolding pagewalk
map_loop pgd va pa prot zero i m = some m
map_loop pgd va pa prot (suc k) i m =
    pagewalk pgd ((va + i) % 2 ^ 64) ((pa + i) % 2 ^ 64) prot m
    >>= map_loop pgd va pa prot k (i + page_size)

-- `i` runs through the multiples of the page size below `size`.
unfoldable pub map_pages : (pgd va size pa prot : ℕ) → Machine → Option Machine
unfolding map_loop
map_pages pgd va size pa prot m = map_loop pgd va pa prot ((size + (page_size - 1)) / page_size) 0 m
