-- ===== src/Paging/Boot.antt =====
-- `setup_vm` and `drop_identity_map` of ex61/main.c. Paging is off while the tables are written:
-- `pgd` and `pmd` are physical addresses, the table `k` of `pmd` being at `pmd + 0x1000 * k`.
use osc_2026_exercise.Base.{
  ℕ, zero, suc, ◌+◌, ◌-◌, ◌*◌, ◌/◌, ◌%◌, ◌^◌, ◌≤◌, ◌<◌, ◌≡◌, refl, ap, ◌∙◌, bit_and, bit_or, ltb,
  ◌==◌, if◌then◌else◌, arith, Bool-cases, ==_iff, inl, inr, ◌≢◌, ◌⊎◌,
}
use osc_2026_exercise.Bits.{bit_or_fields, bit_and_low}
use osc_2026_exercise.Sched.{put}
use osc_2026_exercise.Paging.User.{page_offset}
use osc_2026_exercise.Paging.Setup.{prot_kernel}

-- V and G.
abbrev pub prot_non_leaf : ℕ
prot_non_leaf = 1 + 32

abbrev pub make_pte : ℕ → ℕ → ℕ
make_pte pa flags = bit_or (pa / 2 ^ 12 * 2 ^ 10 % 2 ^ 64) flags

abbrev pub make_satp : ℕ → ℕ
make_satp pgd = bit_or (8 * 2 ^ 60) (pgd / 2 ^ 12)

-- `&pmd[k]`, and the indices `(a >> PGD_SHIFT) & 0x1ff` and `(a >> PMD_SHIFT) & 0x1ff`.
abbrev pub table : ℕ → ℕ → ℕ
table pmd k = pmd + 0x1000 * k

abbrev pub pgd_index : ℕ → ℕ
pgd_index a = bit_and (a / 2 ^ 30) 0x1ff

abbrev pub pmd_index : ℕ → ℕ
pmd_index a = bit_and (a / 2 ^ 21) 0x1ff

-- The loop of `setup_vm` with `k` rounds left.
unfoldable pub fill_loop : (pmd k va pa : ℕ) → (ℕ → ℕ) → ℕ → ℕ
fill_loop pmd zero va pa word = word
fill_loop pmd (suc k) va pa word =
    let word1 = put word (table pmd 1 + 8 * pmd_index va) (make_pte pa prot_kernel) in
    let word2 = put word1 (table pmd 0 + 8 * pmd_index pa) (make_pte pa prot_kernel) in
    fill_loop pmd k ((va + 2 ^ 21) % 2 ^ 64) ((pa + 2 ^ 21) % 2 ^ 64) word2

-- `start` is `&_start`. The tables, and the value for `satp`.
unfoldable pub setup_boot : (pgd pmd start : ℕ) → (ℕ → ℕ) → (ℕ → ℕ) × ℕ
setup_boot pgd pmd start word =
    let uart_phy : ℕ = 0x10000000 in
    let uart_vir : ℕ = 0xffffffc010000000 in
    let pa = bit_and start (2 ^ 64 - 2 ^ 21) in
    let va = (pa + page_offset) % 2 ^ 64 in
    let word1 = put word (pgd + 8 * pgd_index va) (make_pte (table pmd 1) prot_non_leaf) in
    let word2 = put word1 (pgd + 8 * pgd_index pa) (make_pte (table pmd 0) prot_non_leaf) in
    let word3 = fill_loop pmd 512 va pa word2 in
    let word4 = put word3 (pgd + 8 * pgd_index uart_vir) (make_pte (table pmd 2) prot_non_leaf) in
    let word5 =
      put word4 (table pmd 2 + 8 * pmd_index uart_vir)
        (make_pte (bit_and uart_phy (2 ^ 64 - 2 ^ 21)) prot_kernel) in
    (word5, make_satp pgd)

-- The loop of `drop_identity_map` from `i` on, with `k` rounds left.
unfoldable pub drop_loop : (pgd k i : ℕ) → (ℕ → ℕ) → ℕ → ℕ
drop_loop pgd zero i word = word
drop_loop pgd (suc k) i word = drop_loop pgd k (i + 1) (put word (pgd + 8 * i) 0)

unfoldable pub drop_identity_map : ℕ → (ℕ → ℕ) → ℕ → ℕ
unfolding drop_loop
drop_identity_map pgd word = drop_loop pgd 0x100 0 word

-- How many rounds after the one for `a` the table's entry `j` is written.
abbrev pub distance : ℕ → ℕ → ℕ
distance j a = (j + 512 - a / 2 ^ 21 % 512) % 512

abbrev pub leaf : ℕ → ℕ
leaf pa = pa / 2 ^ 12 * 2 ^ 10 + prot_kernel

make_pte_lem : (pa : ℕ) → pa < 2 ^ 56 → make_pte pa prot_kernel ≡ leaf pa
make_pte_lem pa small =
    ap (λ (t : ℕ). bit_or t prot_kernel) (omega arith)
    ∙ bit_or_fields 10 (pa / 2 ^ 12) prot_kernel (omega arith)

-- From one round to the next.
distance_next :
    (j a : ℕ)
    → j < 512
    → (j ≡ a / 2 ^ 21 % 512 → (distance j a ≡ 0) × (distance j (a + 2 ^ 21) ≡ 511))
      × (j ≢ a / 2 ^ 21 % 512 → (distance j a ≢ 0) × (distance j (a + 2 ^ 21) ≡ distance j a - 1))
distance_next j a small =
    (λ e. (omega (arith, e), omega (arith, e)), λ ne. (omega (arith, ne), omega (arith, ne)))

-- A word that one round writes, and the later ones where the distance says so.
round_lem :
    (j a k pa old new : ℕ)
    → j < 512
    → k < 512
    → (j ≡ a / 2 ^ 21 % 512 → new ≡ leaf pa)
    → (j ≢ a / 2 ^ 21 % 512 → new ≡ old)
    → (if ltb (distance j (a + 2 ^ 21)) k
        then leaf (pa + 2 ^ 21 + distance j (a + 2 ^ 21) * 2 ^ 21)
        else new)
      ≡ (if ltb (distance j a) (suc k) then leaf (pa + distance j a * 2 ^ 21) else old)
round_lem j a k pa old new small rounds here elsewhere = elim (Bool-cases (j == a / 2 ^ 21 % 512)) [
  | inl same ↦
      let e : j ≡ a / 2 ^ 21 % 512 = (==_iff j (a / 2 ^ 21 % 512)).0 same in
      let (now, far) = (distance_next j a small).0 e in let written = here e in ground arith
  | inr other ↦
      let ne : j ≢ a / 2 ^ 21 % 512 = ground arith in
      let (more, near) = (distance_next j a small).1 ne in let kept = elsewhere ne in ground arith
]

module _ (pmd : ℕ) where
  -- What a round writes, and the round with its words.
  abbrev round_words : (va pa : ℕ) → (ℕ → ℕ) → ℕ → ℕ
  round_words va pa word =
      put (put word (table pmd 1 + 8 * (va / 2 ^ 21 % 512)) (leaf pa))
        (table pmd 0 + 8 * (pa / 2 ^ 21 % 512)) (leaf pa)

  round_eq :
      (k va pa : ℕ) (word : ℕ → ℕ)
      → va + 2 ^ 21 < 2 ^ 64
      → pa + 2 ^ 21 < 2 ^ 56
      → fill_loop pmd (suc k) va pa word
        ≡ fill_loop pmd k (va + 2 ^ 21) (pa + 2 ^ 21) (round_words va pa word)
  unfolding fill_loop
  round_eq k va pa word room phys =
      let v : (va + 2 ^ 21) % 2 ^ 64 ≡ va + 2 ^ 21 = omega arith in
      let p : (pa + 2 ^ 21) % 2 ^ 64 ≡ pa + 2 ^ 21 = omega arith in
      rw
        (
          v,
          p,
          bit_and_low 9 (va / 2 ^ 21),
          bit_and_low 9 (pa / 2 ^ 21),
          make_pte_lem pa (omega arith),
        )
        refl

  pub fill_loop-high :
      (k j va pa : ℕ) (word : ℕ → ℕ)
      → k ≤ 512
      → j < 512
      → va + k * 2 ^ 21 < 2 ^ 64
      → pa + k * 2 ^ 21 < 2 ^ 56
      → fill_loop pmd k va pa word (table pmd 1 + 8 * j) ≡ (
          if ltb (distance j va) k
          then leaf (pa + distance j va * 2 ^ 21)
          else word (table pmd 1 + 8 * j))
  unfolding fill_loop
  fill_loop-high zero j va pa word h small room phys = ground arith
  fill_loop-high (suc k) j va pa word h small room phys =
      let word2 = round_words va pa word in
      let step =
        round_lem j va k pa (word (table pmd 1 + 8 * j)) (word2 (table pmd 1 + 8 * j)) small
          (omega arith) (λ e. ground (arith, e)) (λ ne. ground (arith, ne)) in
      rw (round_eq k va pa word (omega arith) (omega arith)) (
        fill_loop-high k j (va + 2 ^ 21) (pa + 2 ^ 21) word2 (omega arith) small (omega arith)
          (omega arith)
        ∙ step)

  pub fill_loop-low :
      (k j va pa : ℕ) (word : ℕ → ℕ)
      → k ≤ 512
      → j < 512
      → va + k * 2 ^ 21 < 2 ^ 64
      → pa + k * 2 ^ 21 < 2 ^ 56
      → fill_loop pmd k va pa word (table pmd 0 + 8 * j) ≡ (
          if ltb (distance j pa) k
          then leaf (pa + distance j pa * 2 ^ 21)
          else word (table pmd 0 + 8 * j))
  unfolding fill_loop
  fill_loop-low zero j va pa word h small room phys = ground arith
  fill_loop-low (suc k) j va pa word h small room phys =
      let word2 = round_words va pa word in
      let step =
        round_lem j pa k pa (word (table pmd 0 + 8 * j)) (word2 (table pmd 0 + 8 * j)) small
          (omega arith) (λ e. ground (arith, e)) (λ ne. ground (arith, ne)) in
      rw (round_eq k va pa word (omega arith) (omega arith)) (
        fill_loop-low k j (va + 2 ^ 21) (pa + 2 ^ 21) word2 (omega arith) small (omega arith)
          (omega arith)
        ∙ step)

  pub fill_loop-outside :
      (k va pa q : ℕ) (word : ℕ → ℕ)
      → (q < pmd) ⊎ (pmd + 0x2000 ≤ q)
      → va + k * 2 ^ 21 < 2 ^ 64
      → pa + k * 2 ^ 21 < 2 ^ 56
      → fill_loop pmd k va pa word q ≡ word q
  unfolding fill_loop
  fill_loop-outside zero va pa q word apart room phys = refl
  fill_loop-outside (suc k) va pa q word apart room phys =
      rw (round_eq k va pa word (omega arith) (omega arith)) (
        fill_loop-outside k (va + 2 ^ 21) (pa + 2 ^ 21) q (round_words va pa word) apart
          (omega arith) (omega arith)
        ∙ ground arith)
