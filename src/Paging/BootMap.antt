-- ===== src/Paging/BootMap.antt =====
-- What the hardware finds in the tables of ex61/main.c.
use osc_2026_exercise.Base.{
  ℕ, ◌+◌, ◌-◌, ◌*◌, ◌/◌, ◌%◌, ◌^◌, ◌≤◌, ◌<◌, ◌≡◌, refl, ap, ◌∙◌, bit_and, bit_or, ltb, ◌==◌,
  if◌then◌else◌, arith, ◌⊎◌, some, true, false,
}
use osc_2026_exercise.Bits.{bit_or_fields, bit_and_low, bit_and_high}
use osc_2026_exercise.Sched.{put}
use osc_2026_exercise.Paging.{vpn, walk, sv39}
use osc_2026_exercise.Paging.User.{page_offset}
use osc_2026_exercise.Paging.Setup.{prot_kernel}
use osc_2026_exercise.Paging.Boot.{
  table, leaf, distance, prot_non_leaf, make_pte, fill_loop, setup_boot, fill_loop-high,
  fill_loop-low, fill_loop-outside,
}

-- An entry that points to a table.
abbrev pub pointer : ℕ → ℕ
pointer t = t / 2 ^ 12 * 2 ^ 10 + prot_non_leaf

pointer_lem : (t : ℕ) → t < 2 ^ 56 → make_pte t prot_non_leaf ≡ pointer t
pointer_lem t small =
    ap (λ (e : ℕ). bit_or e prot_non_leaf) (omega arith)
    ∙ bit_or_fields 10 (t / 2 ^ 12) prot_non_leaf (omega arith)

-- The walk through one table to a leaf of 2 MiB.
pub walk_super :
    (word : ℕ → ℕ) (root t va page : ℕ)
    → word (root + 8 * vpn va 2) ≡ pointer t
    → word (t + 8 * vpn va 1) ≡ leaf page
    → t % 2 ^ 12 ≡ 0
    → t < 2 ^ 56
    → page % 2 ^ 21 ≡ 0
    → page < 2 ^ 56
    → sv39 word root va ≡ some (page + va % 2 ^ 21, prot_kernel)
unfolding walk
walk_super word root t va page e2 e1 a1 b1 a0 b0 =
    let to_table : pointer t / 2 ^ 10 % 2 ^ 44 * 2 ^ 12 ≡ t = omega arith in
    let v2 : (pointer t % 2 == 0) ≡ false = ground arith in
    let r2 : (pointer t / 2 % 2 == 0) ≡ true = ground arith in
    let x2 : (pointer t / 8 % 2 == 0) ≡ true = ground arith in
    let v1 : (leaf page % 2 == 0) ≡ false = ground arith in
    let r1 : (leaf page / 2 % 2 == 0) ≡ false = ground arith in
    let al : (leaf page / 2 ^ 10 % 2 ^ 9 == 0) ≡ true = ground arith in
    let to_page : leaf page / 2 ^ 10 % 2 ^ 44 * 2 ^ 12 ≡ page = omega arith in
    let is_flags : leaf page % 2 ^ 10 ≡ prot_kernel = omega arith in
    rw (e2, to_table, v2, r2, x2, e1, v1, r1, al, to_page, is_flags) refl

-- Where the kernel starts, rounded down to 2 MiB.
abbrev pub super_page : ℕ → ℕ
super_page start = start / 2 ^ 21 * 2 ^ 21

-- The page that the entry `j` of both tables of 2 MiB pages points to.
abbrev pub page_at : ℕ → ℕ → ℕ
page_at start j = super_page start + (j + 512 - start / 2 ^ 21 % 512) % 512 * 2 ^ 21

-- Where an address of the kernel's GiB is mapped to: what lies below the kernel goes to the next
-- GiB, since the loop has gone round its table by then.
abbrev pub image : ℕ → ℕ → ℕ
image start x = if ltb x (super_page start) then x + 2 ^ 30 else x

module _ (pgd pmd start : ℕ) (word : ℕ → ℕ) (pgd_aligned : pgd % 2 ^ 12 ≡ 0)
    (pmd_aligned : pmd % 2 ^ 12 ≡ 0) (apart : (pgd + 0x1000 ≤ pmd) ⊎ (pmd + 0x4000 ≤ pgd))
    (pgd_small : pgd < 2 ^ 55) (pmd_small : pmd < 2 ^ 55) (above : 2 ^ 30 ≤ start)
    (below : start < 2 ^ 32) where
  -- The words as they are written.
  abbrev pub boot_word : ℕ → ℕ
  boot_word =
      let b = super_page start in
      let word1 = put word (pgd + 8 * ((b + page_offset) / 2 ^ 30 % 512)) (pointer (table pmd 1)) in
      let word2 = put word1 (pgd + 8 * (b / 2 ^ 30 % 512)) (pointer (table pmd 0)) in
      let word3 = fill_loop pmd 512 (b + page_offset) b word2 in
      put (put word3 (pgd + 8 * 256) (pointer (table pmd 2))) (table pmd 2 + 8 * 128)
        (leaf 0x10000000)

  pub boot_word_lem : (setup_boot pgd pmd start word).0 ≡ boot_word
  unfolding setup_boot
  boot_word_lem =
      let b = super_page start in
      let mask : bit_and start (2 ^ 64 - 2 ^ 21) ≡ b = bit_and_high 43 21 start ∙ omega arith in
      let wrap : (b + page_offset) % 2 ^ 64 ≡ b + page_offset = omega arith in
      rw
        (
          mask,
          wrap,
          bit_and_low 9 ((b + page_offset) / 2 ^ 30),
          bit_and_low 9 (b / 2 ^ 30),
          pointer_lem (table pmd 1) (omega arith),
          pointer_lem (table pmd 0) (omega arith),
          pointer_lem (table pmd 2) (omega arith),
        )
        refl

  abbrev root_word : ℕ → ℕ
  root_word =
      let b = super_page start in
      put (put word (pgd + 8 * ((b + page_offset) / 2 ^ 30 % 512)) (pointer (table pmd 1)))
        (pgd + 8 * (b / 2 ^ 30 % 512)) (pointer (table pmd 0))

  -- The root table: the loop does not write there.
  root_kept :
      (i : ℕ)
      → i < 512
      → fill_loop pmd 512
          (super_page start + page_offset)
          (super_page start)
          root_word
          (pgd + 8 * i)
        ≡ root_word (pgd + 8 * i)
  root_kept i small =
      fill_loop-outside pmd 512 (super_page start + page_offset) (super_page start) (pgd + 8 * i)
        root_word (ground arith) (omega arith) (omega arith)

  pub high_root : boot_word (pgd + 8 * (256 + start / 2 ^ 30)) ≡ pointer (table pmd 1)
  high_root = let kept = root_kept (256 + start / 2 ^ 30) (omega arith) in ground (arith, kept)

  low_root : boot_word (pgd + 8 * (start / 2 ^ 30)) ≡ pointer (table pmd 0)
  low_root = let kept = root_kept (start / 2 ^ 30) (omega arith) in ground (arith, kept)

  pub uart_root : boot_word (pgd + 8 * 256) ≡ pointer (table pmd 2)
  uart_root = ground arith

  pub uart_leaf : boot_word (table pmd 2 + 8 * 128) ≡ leaf 0x10000000
  uart_leaf = ground arith

  pub high_leaf : (j : ℕ) → j < 512 → boot_word (table pmd 1 + 8 * j) ≡ leaf (page_at start j)
  high_leaf j small =
      let written =
        fill_loop-high pmd 512 j (super_page start + page_offset) (super_page start) root_word
          (omega arith) small (omega arith) (omega arith) in
      let d : distance j (super_page start + page_offset) ≡ (j + 512 - start / 2 ^ 21 % 512) % 512 =
        omega arith in
      ground (arith, written, d)

  low_leaf : (j : ℕ) → j < 512 → boot_word (table pmd 0 + 8 * j) ≡ leaf (page_at start j)
  low_leaf j small =
      let written =
        fill_loop-low pmd 512 j (super_page start + page_offset) (super_page start) root_word
          (omega arith) small (omega arith) (omega arith) in
      let d : distance j (super_page start) ≡ (j + 512 - start / 2 ^ 21 % 512) % 512 =
        omega arith in
      ground (arith, written, d)

  pub image_lem :
      (x : ℕ)
      → x / 2 ^ 30 ≡ start / 2 ^ 30
      → page_at start (x / 2 ^ 21 % 512) + x % 2 ^ 21 ≡ image start x
  image_lem x same = ground (arith, same)

  walks_by :
      (t va page : ℕ)
      → boot_word (pgd + 8 * vpn va 2) ≡ pointer t
      → boot_word (t + 8 * vpn va 1) ≡ leaf page
      → t % 2 ^ 12 ≡ 0
      → t < 2 ^ 56
      → page % 2 ^ 21 ≡ 0
      → page < 2 ^ 56
      → sv39 (setup_boot pgd pmd start word).0 pgd va ≡ some (page + va % 2 ^ 21, prot_kernel)
  walks_by t va page e2 e1 a1 b1 a0 b0 =
      rw boot_word_lem (walk_super boot_word pgd t va page e2 e1 a1 b1 a0 b0)

  -- With tables that are pages apart from each other, and a kernel that starts in the second to
  -- the fourth GiB of memory: the hardware translates each address of the kernel's GiB, and
  -- the address `page_offset` above it, to the same physical address. From the 2 MiB page of
  -- the kernel on that is the address itself; below that page it is the address one GiB on.
  -- The 2 MiB of the serial line are found in the upper half.
  pub setup_boot-sv39 :
      let w = (setup_boot pgd pmd start word).0 in
      ((x : ℕ)
        → x / 2 ^ 30 ≡ start / 2 ^ 30
        → (sv39 w pgd x ≡ some (image start x, prot_kernel))
          × (sv39 w pgd (x + page_offset) ≡ some (image start x, prot_kernel)))
      × ((y : ℕ)
          → y < 2 ^ 21
          → sv39 w pgd (0xffffffc010000000 + y) ≡ some (0x10000000 + y, prot_kernel))
  setup_boot-sv39 = (
    λ x same.
        let j = x / 2 ^ 21 % 512 in
        let i2 : vpn x 2 ≡ start / 2 ^ 30 = omega (arith, same) in
        let h2 : vpn (x + page_offset) 2 ≡ 256 + start / 2 ^ 30 = omega (arith, same) in
        let h1 : vpn (x + page_offset) 1 ≡ j = omega arith in
        let off : (x + page_offset) % 2 ^ 21 ≡ x % 2 ^ 21 = omega arith in
        (
          walks_by (table pmd 0) x (page_at start j)
                (ap (λ (t : ℕ). boot_word (pgd + 8 * t)) i2 ∙ low_root) (low_leaf j (omega arith))
                (omega arith) (omega arith) (omega arith) (omega arith)
              ∙ ap (λ (t : ℕ). some (t, prot_kernel)) (image_lem x same),
          walks_by (table pmd 1) (x + page_offset) (page_at start j)
                (ap (λ (t : ℕ). boot_word (pgd + 8 * t)) h2 ∙ high_root)
                (ap (λ (t : ℕ). boot_word (table pmd 1 + 8 * t)) h1 ∙ high_leaf j (omega arith))
                (omega arith) (omega arith) (omega arith) (omega arith)
              ∙ ap (λ (t : ℕ). some (t, prot_kernel))
                  (ap (λ (t : ℕ). page_at start j + t) off ∙ image_lem x same),
        ),
    λ y small.
        let u2 : vpn (0xffffffc010000000 + y) 2 ≡ 256 = omega arith in
        let u1 : vpn (0xffffffc010000000 + y) 1 ≡ 128 = omega arith in
        walks_by (table pmd 2) (0xffffffc010000000 + y) 0x10000000
          (ap (λ (t : ℕ). boot_word (pgd + 8 * t)) u2 ∙ uart_root)
          (ap (λ (t : ℕ). boot_word (table pmd 2 + 8 * t)) u1 ∙ uart_leaf) (omega arith)
          (omega arith) (omega arith) (omega arith)
        ∙ ap (λ (t : ℕ). some (t, prot_kernel)) (omega arith),
  )
