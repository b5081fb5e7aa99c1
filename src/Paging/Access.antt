-- ===== src/Paging/Access.antt =====
-- What the accesses of ex62/main.c do to tables that lie in the mapped part of the upper half.
use osc_2026_exercise.Base.{
  ℕ, ◌+◌, ◌*◌, ◌/◌, ◌%◌, ◌^◌, ◌≤◌, ◌<◌, ◌≡◌, refl, ap, ◌∙◌, some, none, bit_and, bit_or, leb, ltb,
  if◌then◌else◌, arith, true, false, ◌&&◌,
}
use osc_2026_exercise.Bits.{bit_and_low, bit_or_fields}
use osc_2026_exercise.Sched.{put}
use osc_2026_exercise.Utils.Alloc.{alloc_page, alloc_page_lem}
use osc_2026_exercise.Paging.{vpn}
use osc_2026_exercise.Paging.User.{
  Machine, page_offset, linear_map, virt_to_phys, is_mapped, load, store_word, clear_page,
  entry_address, add_table,
}

pub index_two : (va : ℕ) → bit_and (va / 2 ^ 12 / 2 ^ (2 * 9)) 0x1ff ≡ vpn va 2
index_two va = omega (arith, bit_and_low 9 (va / 2 ^ 12 / 2 ^ 18))

pub index_one : (va : ℕ) → bit_and (va / 2 ^ 12 / 2 ^ (1 * 9)) 0x1ff ≡ vpn va 1
index_one va = omega (arith, bit_and_low 9 (va / 2 ^ 12 / 2 ^ 9))

pub index_zero : (va : ℕ) → bit_and (va / 2 ^ 12) 0x1ff ≡ vpn va 0
index_zero va = omega (arith, bit_and_low 9 (va / 2 ^ 12))

-- A page in the mapped part, at the physical address `page`.
abbrev pub IsLinear : ℕ → ℕ → Type 0
IsLinear page a = (a ≡ page_offset + page) × (page + 0x1000 ≤ linear_map)

module _ (page a idx : ℕ) (linear : IsLinear page a) (small : idx < 512) where
  pub entry_address-is_mapped : is_mapped (entry_address a idx) ≡ true
  entry_address-is_mapped = ground (arith, linear.0, linear.1)

  pub virt_to_phys-entry_address : virt_to_phys (entry_address a idx) ≡ page + 8 * idx
  virt_to_phys-entry_address = omega (arith, linear.0, linear.1)

  pub load_lem : (m : Machine) → load m (entry_address a idx) ≡ some (m.word (page + 8 * idx))
  load_lem m =
      rw entry_address-is_mapped (ap (λ (q : ℕ). some (m.word q)) virt_to_phys-entry_address)

  pub store_word_lem :
      (v : ℕ) (m : Machine)
      → store_word (entry_address a idx) v m
        ≡ some (record m { word = put m.word (page + 8 * idx) v })
  store_word_lem v m =
      rw entry_address-is_mapped
        (ap (λ (q : ℕ). some (record m { word = put m.word q v })) virt_to_phys-entry_address)

-- An address that is no address of the kernel.
pub load_low : (m : Machine) (a : ℕ) → a < page_offset → load m a ≡ none
load_low m a low = let e : is_mapped a ≡ false = ground arith in rw e refl

pub bit_zero : (x : ℕ) → bit_and x 1 ≡ x % 2
bit_zero x = bit_and_low 1 x

-- The words with a page of zeros at `page`.
abbrev pub cleared : (ℕ → ℕ) → ℕ → ℕ → ℕ
cleared word page q = if leb page q && ltb q (page + 0x1000) then 0 else word q

-- The next page that `alloc_page` gives, where it has reached `c` in physical memory.
abbrev pub next_page : ℕ → ℕ
next_page c = (c + 0xfff) / 0x1000 * 0x1000

-- An entry that points to a table.
abbrev pub pointer_entry : ℕ → ℕ
pointer_entry page = page / 2 ^ 12 * 2 ^ 10 + 1

clear_page_lem :
    (page a : ℕ) (m : Machine)
    → IsLinear page a
    → clear_page a m ≡ some (record m { word = cleared m.word page })
clear_page_lem page a m (at, room) =
    let low : is_mapped a ≡ true = ground arith in
    let high : is_mapped (a + 0xfff) ≡ true = ground arith in
    let e : virt_to_phys a ≡ page = omega arith in
    rw (low, high) (ap (λ (q : ℕ). some (record m { word = cleared m.word q })) e)

module _ (table a idx c : ℕ) (linear : IsLinear table a) (small : idx < 512)
    (room : c + 0x2000 ≤ linear_map) (m : Machine) (reached : m.curr ≡ page_offset + c) where
  -- The new table is the next page, all zero, and the entry points to it.
  pub add_table_lem :
      add_table (entry_address a idx) m
      ≡ some (
        page_offset + next_page c,
        record {
          word = put (cleared m.word (next_page c)) (table + 8 * idx) (pointer_entry (next_page c));
          curr = page_offset + next_page c + 0x1000;
        },
      )
  unfolding add_table
  add_table_lem =
      let p = next_page c in
      let (start, next) = alloc_page_lem m.curr (omega (arith, reached)) in
      let page_eq : (alloc_page m.curr).0 ≡ page_offset + p = omega (arith, start, reached) in
      let curr_eq : (alloc_page m.curr).1 ≡ page_offset + p + 0x1000 =
        omega (arith, next, page_eq) in
      let m0 : Machine = record { word = m.word; curr = page_offset + p + 0x1000 } in
      let m1 : Machine = record m0 { word = cleared m.word p } in
      let phys : virt_to_phys (page_offset + p) ≡ p = omega arith in
      let entry : bit_or (virt_to_phys (page_offset + p) / 2 ^ 12 * 2 ^ 10 % 2 ^ 64) 1
          ≡ pointer_entry p =
        ap (λ (t : ℕ). bit_or t 1) (omega (arith, phys))
        ∙ bit_or_fields 10 (p / 2 ^ 12) 1 (omega arith) in
      rw
        (
          page_eq,
          curr_eq,
          clear_page_lem p (page_offset + p) m0 (refl, omega arith),
          entry,
          store_word_lem table a idx linear small (pointer_entry p) m1,
        )
        refl
