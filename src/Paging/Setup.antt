-- ===== src/Paging/Setup.antt =====
-- `setup_vm` of ex62/main.c: the map of the lowest ten GiB of memory in the upper half.
use osc_2026_exercise.Base.{
  ℕ, zero, suc, ◌+◌, ◌-◌, ◌*◌, ◌/◌, ◌%◌, ◌^◌, ◌≤◌, ◌<◌, ◌≡◌, refl, ap, ◌∙◌, some, none, bit_or,
  ◌==◌, ◌&&◌, if◌then◌else◌, ltb, leb, arith, true, false, Bool-cases, inl, inr, ◌⊎◌,
}
use osc_2026_exercise.Bits.{bit_or_fields}
use osc_2026_exercise.Sched.{put}
use osc_2026_exercise.Paging.{vpn, walk, sv39, page_size}
use osc_2026_exercise.Paging.User.{page_offset, linear_map, virt_to_phys, is_mapped}
use osc_2026_exercise.Paging.Access.{cleared}

-- V, R, W, X, G, A and D.
abbrev pub prot_kernel : ℕ
prot_kernel = 1 + 2 + 4 + 8 + 32 + 64 + 128

-- The rounds of the loop from `i` on, `k` of them; paging is still off, and `root` is the
-- address of `pgd`.
unfoldable pub setup_loop : (root k i : ℕ) → (ℕ → ℕ) → ℕ → ℕ
setup_loop root zero i word = word
setup_loop root (suc k) i word = setup_loop root k (i + 1) (
    put word (root + 8 * (256 + i))
      (bit_or (i * (2 ^ 30 / page_size) * 2 ^ 10 % 2 ^ 64) prot_kernel))

-- The tables, and the value for `satp`.
unfoldable pub setup_vm : ℕ → (ℕ → ℕ) → (ℕ → ℕ) × ℕ
unfolding setup_loop
setup_vm root word = (
  setup_loop root (0x280000 / (2 ^ 30 / page_size)) 0 (cleared word root),
  bit_or (8 * 2 ^ 60) (root / 2 ^ 12),
)

setup_loop_lem :
    (root k i j : ℕ) (word : ℕ → ℕ)
    → i + k < 2 ^ 30
    → setup_loop root k i word (root + 8 * j) ≡ (
        if leb (256 + i) j && ltb j (256 + i + k)
        then (j - 256) * 2 ^ 28 + prot_kernel
        else word (root + 8 * j))
unfolding setup_loop
setup_loop_lem root zero i j word small = ground arith
setup_loop_lem root (suc k) i j word small =
    let entry : bit_or (i * (2 ^ 30 / page_size) * 2 ^ 10 % 2 ^ 64) prot_kernel
        ≡ i * 2 ^ 28 + prot_kernel =
      ap (λ (t : ℕ). bit_or t prot_kernel) (omega arith)
      ∙ bit_or_fields 10 (i * 2 ^ 18) prot_kernel (omega arith)
      ∙ omega arith in
    let rest =
      setup_loop_lem root k (i + 1) j
        (put word (root + 8 * (256 + i))
          (bit_or (i * (2 ^ 30 / page_size) * 2 ^ 10 % 2 ^ 64) prot_kernel))
        (omega arith) in
    ground (arith, entry, rest)

-- The entries of the root table.
root_entry :
    (root j : ℕ) (word : ℕ → ℕ)
    → j < 512
    → (setup_vm root word).0 (root + 8 * j)
      ≡ (if leb 256 j && ltb j 266 then (j - 256) * 2 ^ 28 + prot_kernel else 0)
unfolding setup_vm
root_entry root j word small =
    setup_loop_lem root 10 0 j (cleared word root) (omega arith) ∙ ground arith

satp_lem :
    (root : ℕ) (word : ℕ → ℕ) → root < 2 ^ 56 → (setup_vm root word).1 ≡ 8 * 2 ^ 60 + root / 2 ^ 12
unfolding setup_vm
satp_lem root word small = bit_or_fields 60 8 (root / 2 ^ 12) (omega arith)

-- In the tables that `setup_vm` makes in a page of memory, and for every address that the
-- hardware accepts (below 2 ^ 38, or in the upper half), the hardware finds the physical address
-- `virt_to_phys` with the flags of the kernel if the address lies within ten GiB of the
-- start of the upper half, and a page fault otherwise. `satp` names the root table and the mode.
pub setup_vm-sv39 :
    (root a : ℕ) (word : ℕ → ℕ)
    → root % 2 ^ 12 ≡ 0
    → root < 2 ^ 56
    → (a < 2 ^ 38) ⊎ ((page_offset ≤ a) × (a < 2 ^ 64))
    → (sv39 (setup_vm root word).0 root a
        ≡ (if is_mapped a then some (virt_to_phys a, prot_kernel) else none))
      × ((setup_vm root word).1 ≡ 8 * 2 ^ 60 + root / 2 ^ 12)
unfolding walk
setup_vm-sv39 root a word aligned small canonical = (
  elim (Bool-cases (is_mapped a)) [
    | inl inside ↦
        let low : page_offset ≤ a = ground arith in
        let high : a < page_offset + linear_map = ground arith in
        let index : vpn a 2 ≡ 256 + (a - page_offset) / 2 ^ 30 = omega arith in
        let entry : (setup_vm root word).0 (root + 8 * vpn a 2)
            ≡ (a - page_offset) / 2 ^ 30 * 2 ^ 28 + prot_kernel =
          root_entry root (vpn a 2) word (omega arith) ∙ ground arith in
        let q = (a - page_offset) / 2 ^ 30 in
        let v : ((q * 2 ^ 28 + prot_kernel) % 2 == 0) ≡ false = ground arith in
        let r : ((q * 2 ^ 28 + prot_kernel) / 2 % 2 == 0) ≡ false = ground arith in
        let al : ((q * 2 ^ 28 + prot_kernel) / 2 ^ 10 % 2 ^ 18 == 0) ≡ true = ground arith in
        let p : (q * 2 ^ 28 + prot_kernel) / 2 ^ 10 % 2 ^ 44 * 2 ^ 12 + a % 2 ^ 30
            ≡ virt_to_phys a =
          omega arith in
        let f : (q * 2 ^ 28 + prot_kernel) % 2 ^ 10 ≡ prot_kernel = omega arith in
        rw (inside, entry, v, r, al, p, f) refl
    | inr outside ↦
        let entry : (setup_vm root word).0 (root + 8 * vpn a 2) ≡ 0 =
          root_entry root (vpn a 2) word (omega arith) ∙ ground arith in
        rw (outside, entry) refl
  ],
  satp_lem root word small,
)
