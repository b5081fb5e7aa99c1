-- ===== src/Paging/Present.antt =====
-- `pagewalk` of ex62/main.c where a table is present already.
use osc_2026_exercise.Base.{
  ℕ, ◌+◌, ◌*◌, ◌/◌, ◌%◌, ◌^◌, ◌<◌, ◌≡◌, refl, some, none, bit_and, ◌==◌, arith, false,
}
use osc_2026_exercise.Paging.{vpn}
use osc_2026_exercise.Paging.User.{Machine, load, entry_address, descend, descend_loop, pagewalk}
use osc_2026_exercise.Paging.Access.{IsLinear, index_two, index_one, load_lem, load_low, bit_zero}

descend-present :
    (root pgd va : ℕ) (m : Machine)
    → IsLinear root pgd
    → m.word (root + 8 * vpn va 2) % 2 ≡ 1
    → descend (va / 2 ^ 12) 2 pgd m
      ≡ some (m.word (root + 8 * vpn va 2) / 2 ^ 10 * 2 ^ 12 % 2 ^ 64, m)
unfolding descend
descend-present root pgd va m linear valid =
    let entry = m.word (root + 8 * vpn va 2) in
    let present : (bit_and entry 1 == 0) ≡ false = ground (arith, bit_zero entry) in
    rw (index_two va, load_lem root pgd (vpn va 2) linear (omega arith) m, present) refl

descend-low : (va table : ℕ) (m : Machine) → table < 2 ^ 57 → descend (va / 2 ^ 12) 1 table m ≡ none
unfolding descend
descend-low va table m low =
    let e : load m (entry_address table (vpn va 1)) ≡ none =
      load_low m (entry_address table (vpn va 1)) (omega arith) in
    rw (index_one va, e) refl

-- Where the root table has a valid entry for an address already, whose reserved bits are
-- clear, `pagewalk` traps whatever page is to be mapped: it takes the physical address of the
-- next table for a pointer, and the kernel has no mapping there.
pub pagewalk-present :
    (root pgd va pa prot : ℕ) (m : Machine)
    → IsLinear root pgd
    → m.word (root + 8 * vpn va 2) % 2 ≡ 1
    → m.word (root + 8 * vpn va 2) < 2 ^ 54
    → pagewalk pgd va pa prot m ≡ none
unfolding pagewalk descend_loop
pagewalk-present root pgd va pa prot m linear valid small =
    let entry = m.word (root + 8 * vpn va 2) in
    rw
      (
        descend-present root pgd va m linear valid,
        descend-low va (entry / 2 ^ 10 * 2 ^ 12 % 2 ^ 64) m (omega arith),
      )
      refl
