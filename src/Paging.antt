-- ===== src/Paging.antt =====
-- Page tables of ex61/main.c and ex62/main.c. Memory is a map from physical addresses to words of
-- 64 bits; a page table is the physical address of its page.
pub mod User
pub mod Access
pub mod Present
pub mod Maps
pub mod Pages
pub mod Setup
pub mod Boot
pub mod BootMap
pub mod Drop
use osc_2026_exercise.Base.{
  ℕ, zero, suc, ◌+◌, ◌*◌, ◌/◌, ◌%◌, ◌^◌, Bool, ◌&&◌, ◌||◌, Option, none, some, ◌==◌, if◌then◌else◌,
}

-- A trap ends the run.
infixl 5 ◌>>=◌
abbrev pub ◌>>=◌ : {A B : Type 0} → Option A → (A → Option B) → Option B
none >>= f = none
some a >>= f = f a

abbrev pub page_size : ℕ
page_size = 2 ^ 12

-- The index of a virtual address in a table of a level.
abbrev pub vpn : ℕ → ℕ → ℕ
vpn va level = va / 2 ^ (12 + 9 * level) % 512

-- The translation that the hardware makes in mode Sv39, from a table of `level` on: the physical
-- address and the ten flags of the entry, or nothing for a page fault. The flags are V, R, W and
-- X from bit 0 on; an entry with R or X is a leaf, and one of a higher level must be aligned.
unfoldable pub walk : (ℕ → ℕ) → ℕ → ℕ → ℕ → Option (ℕ × ℕ)
walk word zero table va =
    let entry = word (table + 8 * vpn va 0) in
    if entry % 2 == 0
    then none
    else if (entry / 2 % 2 == 0) && (entry / 8 % 2 == 0)
    then none
    else some (entry / 2 ^ 10 % 2 ^ 44 * 2 ^ 12 + va % 2 ^ 12, entry % 2 ^ 10)
walk word (suc level) table va =
    let entry = word (table + 8 * vpn va (suc level)) in
    let next = walk word level (entry / 2 ^ 10 % 2 ^ 44 * 2 ^ 12) va in
    if entry % 2 == 0
    then none
    else if (entry / 2 % 2 == 0) && (entry / 8 % 2 == 0)
    then next
    else if entry / 2 ^ 10 % 2 ^ (9 * suc level) == 0
    then some (entry / 2 ^ 10 % 2 ^ 44 * 2 ^ 12 + va % 2 ^ (12 + 9 * suc level), entry % 2 ^ 10)
    else none

abbrev pub sv39 : (ℕ → ℕ) → ℕ → ℕ → Option (ℕ × ℕ)
sv39 word root va = walk word 2 root va
