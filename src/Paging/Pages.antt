-- ===== src/Paging/Pages.antt =====
-- `map_pages` of ex62/main.c: one page and several.
use osc_2026_exercise.Base.{
  ℕ, suc, ◌+◌, ◌-◌, ◌*◌, ◌/◌, ◌%◌, ◌^◌, ◌≤◌, ◌<◌, ◌≡◌, refl, ap, ◌∙◌, none, arith,
}
use osc_2026_exercise.Paging.{vpn, page_size}
use osc_2026_exercise.Paging.User.{Machine, page_offset, linear_map, pagewalk, map_loop, map_pages}
use osc_2026_exercise.Paging.Access.{IsLinear, next_page, pointer_entry}
use osc_2026_exercise.Paging.Maps.{mapped_word, pagewalk_lem}
use osc_2026_exercise.Paging.Present.{pagewalk-present}

module _ (root pgd c va size pa prot : ℕ) (m : Machine) (linear : IsLinear root pgd)
    (reached : m.curr ≡ page_offset + c) (below : root + 0x1000 ≤ c)
    (room : c + 0x3000 ≤ linear_map) (address : va < 2 ^ 39) (physical : pa < 2 ^ 56)
    (flags : prot < 2 ^ 10) (absent : m.word (root + 8 * vpn va 2) % 2 ≡ 0) where
  root_entry :
      mapped_word m.word root (next_page c) va pa prot (root + 8 * vpn va 2)
      ≡ pointer_entry (next_page c)
  root_entry = ground arith

  -- A request that fits in one page is one `pagewalk`.
  pub map_pages-one :
      0 < size → size ≤ page_size → map_pages pgd va size pa prot m ≡ pagewalk pgd va pa prot m
  unfolding map_pages map_loop
  map_pages-one some_bytes fits =
      let once : (size + (page_size - 1)) / page_size ≡ 1 = omega arith in
      let v : (va + 0) % 2 ^ 64 ≡ va = omega arith in
      let p : (pa + 0) % 2 ^ 64 ≡ pa = omega arith in
      let word' = mapped_word m.word root (next_page c) va pa prot in
      let done =
        pagewalk_lem root pgd c va pa prot m linear reached below room physical flags absent in
      rw (once, v, p, done) refl

  -- A request for more than a page in a part of the address space that has no tables yet traps,
  -- where its second page lies in the same GiB as its first: `map_pages` maps the first page, and
  -- then takes the physical address of the table it made for a pointer.
  pub map_pages-traps :
      page_size < size
      → size < 2 ^ 31
      → vpn (va + page_size) 2 ≡ vpn va 2
      → map_pages pgd va size pa prot m ≡ none
  unfolding map_pages map_loop
  map_pages-traps more int same =
      let rounds = (size + (page_size - 1)) / page_size in
      let twice : rounds ≡ suc (suc (rounds - 2)) = omega arith in
      let v : (va + 0) % 2 ^ 64 ≡ va = omega arith in
      let p : (pa + 0) % 2 ^ 64 ≡ pa = omega arith in
      let v' : (va + (0 + page_size)) % 2 ^ 64 ≡ va + page_size = omega arith in
      let done =
        pagewalk_lem root pgd c va pa prot m linear reached below room physical flags absent in
      let m1 : Machine = record {
        word = mapped_word m.word root (next_page c) va pa prot;
        curr = page_offset + next_page c + 0x2000;
      } in
      let entry : m1.word (root + 8 * vpn (va + page_size) 2) ≡ pointer_entry (next_page c) =
        ap (λ (t : ℕ). m1.word (root + 8 * t)) same ∙ root_entry in
      let trap =
        pagewalk-present root pgd (va + page_size) ((pa + (0 + page_size)) % 2 ^ 64) prot m1 linear
          (omega (arith, entry)) (omega (arith, entry)) in
      rw (twice, v, p, done, v', trap) refl
