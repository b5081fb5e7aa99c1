-- ===== src/Paging/Maps.antt =====
-- `pagewalk` of ex62/main.c where no table is present: the hardware then finds the page.
use osc_2026_exercise.Base.{
  ℕ, ◌-◌, ◌⊎◌, inl, inr, ◌+◌, ◌*◌, ◌/◌, ◌%◌, ◌^◌, ◌≤◌, ◌<◌, ◌≡◌, ◌≢◌, refl, ap, ◌∙◌, some, bit_and,
  bit_or, ◌==◌, arith, true, false,
}
use osc_2026_exercise.Bits.{bit_or_fields}
use osc_2026_exercise.Sched.{put}
use osc_2026_exercise.Paging.{vpn, walk, sv39}
use osc_2026_exercise.Paging.User.{
  Machine, page_offset, linear_map, descend, descend_loop, pagewalk,
}
use osc_2026_exercise.Paging.Access.{
  IsLinear, index_two, index_one, index_zero, load_lem, store_word_lem, bit_zero, cleared,
  next_page, pointer_entry, add_table_lem,
}

-- A round without a table.
descend-absent :
    (table a c va level idx : ℕ) (m : Machine)
    → IsLinear table a
    → idx < 512
    → c + 0x2000 ≤ linear_map
    → m.curr ≡ page_offset + c
    → bit_and (va / 2 ^ 12 / 2 ^ (level * 9)) 0x1ff ≡ idx
    → m.word (table + 8 * idx) % 2 ≡ 0
    → descend (va / 2 ^ 12) level a m
      ≡ some (
        page_offset + next_page c,
        record {
          word = put (cleared m.word (next_page c)) (table + 8 * idx) (pointer_entry (next_page c));
          curr = page_offset + next_page c + 0x1000;
        },
      )
unfolding descend
descend-absent table a c va level idx m linear small room reached index absent =
    let entry = m.word (table + 8 * idx) in
    let e : (bit_and entry 1 == 0) ≡ true = ground (arith, bit_zero entry) in
    rw (index, load_lem table a idx linear small m, e)
      (add_table_lem table a idx c linear small room m reached)

-- The last entry.
abbrev pub leaf_entry : ℕ → ℕ → ℕ
leaf_entry pa prot = pa / 2 ^ 12 * 2 ^ 10 + prot

-- The memory with the two new tables at `first` and behind it.
abbrev pub mapped_word : (word : ℕ → ℕ) (root first va pa prot : ℕ) → ℕ → ℕ
mapped_word word root first va pa prot =
    let second = first + 0x1000 in
    put
      (put (cleared (put (cleared word first) (root + 8 * vpn va 2) (pointer_entry first)) second)
        (first + 8 * vpn va 1) (pointer_entry second))
      (second + 8 * vpn va 0) (leaf_entry pa prot)

module _ (root pgd c va pa prot : ℕ) (m : Machine) (linear : IsLinear root pgd)
    (reached : m.curr ≡ page_offset + c) (below : root + 0x1000 ≤ c)
    (room : c + 0x3000 ≤ linear_map) (physical : pa < 2 ^ 56) (flags : prot < 2 ^ 10)
    (absent : m.word (root + 8 * vpn va 2) % 2 ≡ 0) where
  pub pagewalk_lem :
      pagewalk pgd va pa prot m
      ≡ some (record {
        word = mapped_word m.word root (next_page c) va pa prot;
        curr = page_offset + next_page c + 0x2000;
      })
  unfolding pagewalk descend_loop
  pagewalk_lem =
      let p1 = next_page c in
      let w1 : ℕ → ℕ = put (cleared m.word p1) (root + 8 * vpn va 2) (pointer_entry p1) in
      let m1 : Machine = record { word = w1; curr = page_offset + p1 + 0x1000 } in
      let none1 : w1 (p1 + 8 * vpn va 1) % 2 ≡ 0 = ground arith in
      let p2 : next_page (p1 + 0x1000) ≡ p1 + 0x1000 = omega arith in
      let step2 =
        descend-absent root pgd c va 2 (vpn va 2) m linear (omega arith) (omega arith) reached
          (index_two va) absent in
      let step1 =
        descend-absent p1 (page_offset + p1) (p1 + 0x1000) va 1 (vpn va 1) m1 (refl, omega arith)
          (omega arith) (omega arith) (omega arith) (index_one va) none1 in
      let leaf : bit_or (pa / 2 ^ 12 * 2 ^ 10 % 2 ^ 64) prot ≡ leaf_entry pa prot =
        ap (λ (t : ℕ). bit_or t prot) (omega arith) ∙ bit_or_fields 10 (pa / 2 ^ 12) prot flags in
      let second = p1 + 0x1000 in
      let w2 : ℕ → ℕ = put (cleared w1 second) (p1 + 8 * vpn va 1) (pointer_entry second) in
      let m2 : Machine = record { word = w2; curr = page_offset + second + 0x1000 } in
      rw (step2, step1, index_zero va, leaf, p2)
        (store_word_lem second (page_offset + second) (vpn va 0) (refl, omega arith) (omega arith)
            (leaf_entry pa prot) m2
          ∙ ap (λ (t : ℕ). some (record { word = mapped_word m.word root p1 va pa prot; curr = t }))
              (omega arith))

-- The walk through two tables to a leaf, by the entries that it meets.
walk_through :
    (word : ℕ → ℕ) (root first second va page flags : ℕ)
    → word (root + 8 * vpn va 2) ≡ pointer_entry first
    → word (first + 8 * vpn va 1) ≡ pointer_entry second
    → word (second + 8 * vpn va 0) ≡ leaf_entry page flags
    → first % 2 ^ 12 ≡ 0
    → first < 2 ^ 56
    → second % 2 ^ 12 ≡ 0
    → second < 2 ^ 56
    → page % 2 ^ 12 ≡ 0
    → page < 2 ^ 56
    → flags < 2 ^ 10
    → flags % 2 ≡ 1
    → flags / 2 % 2 ≡ 1
    → sv39 word root va ≡ some (page + va % 2 ^ 12, flags)
unfolding walk
walk_through word root first second va page flags e2 e1 e0 a1 b1 a2 b2 a0 b0 f v r =
    let to_first : pointer_entry first / 2 ^ 10 % 2 ^ 44 * 2 ^ 12 ≡ first = omega arith in
    let to_second : pointer_entry second / 2 ^ 10 % 2 ^ 44 * 2 ^ 12 ≡ second = omega arith in
    let to_page : leaf_entry page flags / 2 ^ 10 % 2 ^ 44 * 2 ^ 12 ≡ page = omega arith in
    let is_flags : leaf_entry page flags % 2 ^ 10 ≡ flags = omega arith in
    let valid : (leaf_entry page flags % 2 == 0) ≡ false = ground arith in
    let readable : (leaf_entry page flags / 2 % 2 == 0) ≡ false = ground arith in
    let v1 : (pointer_entry first % 2 == 0) ≡ false = ground arith in
    let r1 : (pointer_entry first / 2 % 2 == 0) ≡ true = ground arith in
    let x1 : (pointer_entry first / 8 % 2 == 0) ≡ true = ground arith in
    let v2 : (pointer_entry second % 2 == 0) ≡ false = ground arith in
    let r2 : (pointer_entry second / 2 % 2 == 0) ≡ true = ground arith in
    let x2 : (pointer_entry second / 8 % 2 == 0) ≡ true = ground arith in
    rw (e2, to_first, v1, r1, x1, e1, to_second, v2, r2, x2, e0, valid, readable, to_page, is_flags)
      refl

module _ (root pgd c va pa prot : ℕ) (m : Machine) (linear : IsLinear root pgd)
    (reached : m.curr ≡ page_offset + c) (below : root + 0x1000 ≤ c)
    (room : c + 0x3000 ≤ linear_map) (aligned : va % 2 ^ 12 ≡ 0) (page_aligned : pa % 2 ^ 12 ≡ 0)
    (physical : pa < 2 ^ 56) (flags : prot < 2 ^ 10) (valid : prot % 2 ≡ 1)
    (readable : prot / 2 % 2 ≡ 1) (absent : m.word (root + 8 * vpn va 2) % 2 ≡ 0) where
  abbrev w : ℕ → ℕ
  w = mapped_word m.word root (next_page c) va pa prot

  first_entry : w (root + 8 * vpn va 2) ≡ pointer_entry (next_page c)
  first_entry = ground arith

  second_entry : w (next_page c + 8 * vpn va 1) ≡ pointer_entry (next_page c + 0x1000)
  second_entry = ground arith

  third_entry : w (next_page c + 0x1000 + 8 * vpn va 0) ≡ leaf_entry pa prot
  third_entry = ground arith

  -- In any words that still have the new tables and the entry of the root table.
  pub walks_later :
      (w' : ℕ → ℕ)
      → ((q : ℕ) → c ≤ q → q < next_page c + 0x2000 → w' q ≡ w q)
      → w' (root + 8 * vpn va 2) ≡ w (root + 8 * vpn va 2)
      → (i : ℕ) → i < 2 ^ 12
      → sv39 w' root (va + i) ≡ some (pa + i, prot)
  walks_later w' kept kept_root i small =
      let p = next_page c in
      let at2 : vpn (va + i) 2 ≡ vpn va 2 = omega arith in
      let at1 : vpn (va + i) 1 ≡ vpn va 1 = omega arith in
      let at0 : vpn (va + i) 0 ≡ vpn va 0 = omega arith in
      walk_through w' root p (p + 0x1000) (va + i) pa prot
        (ap (λ (t : ℕ). w' (root + 8 * t)) at2 ∙ kept_root ∙ first_entry)
        (ap (λ (t : ℕ). w' (p + 8 * t)) at1
          ∙ kept (p + 8 * vpn va 1) (omega arith) (omega arith)
          ∙ second_entry)
        (ap (λ (t : ℕ). w' (p + 0x1000 + 8 * t)) at0
          ∙ kept (p + 0x1000 + 8 * vpn va 0) (omega arith) (omega arith)
          ∙ third_entry)
        (omega arith) (omega arith) (omega arith) (omega arith) page_aligned physical flags valid
        readable
      ∙ ap (λ (t : ℕ). some (pa + t, prot)) (omega arith)

  -- Where the root table lies in the mapped part of memory, below what the allocator gives, and
  -- has no entry for an aligned address that the hardware accepts (the bits from 38 on are
  -- equal), `pagewalk` for an aligned page with flags of a readable entry ends without a trap,
  -- takes two pages from the allocator, and leaves tables in which the hardware finds every byte
  -- of the page with these flags. Outside the two new tables no word changes, before or behind
  -- them, but the entry of the root table.
  pub pagewalk-maps :
      (va < 2 ^ 38) ⊎ ((2 ^ 64 - 2 ^ 38 ≤ va) × (va < 2 ^ 64))
      → (m' : Machine) × (pagewalk pgd va pa prot m ≡ some m')
        × ((i : ℕ) → i < 2 ^ 12 → sv39 m'.word root (va + i) ≡ some (pa + i, prot))
        × ((q : ℕ)
            → (q < next_page c) ⊎ (next_page c + 0x2000 ≤ q)
            → q ≢ root + 8 * vpn va 2
            → m'.word q ≡ m.word q)
        × (m'.curr ≡ page_offset + next_page c + 0x2000)
  pagewalk-maps canonical = (
    record {
      word = mapped_word m.word root (next_page c) va pa prot;
      curr = page_offset + next_page c + 0x2000;
    },
    pagewalk_lem root pgd c va pa prot m linear reached below room physical flags absent,
    walks_later w (λ q lo hi. refl) refl,
    λ q outside other. elim outside [ inl before ↦ ground arith | inr behind ↦ ground arith ],
    refl,
  )
