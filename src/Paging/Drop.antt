-- ===== src/Paging/Drop.antt =====
-- `drop_identity_map` of ex61/main.c: the lower half of the address space is given up.
use osc_2026_exercise.Base.{
  ℕ, zero, suc, ◌+◌, ◌*◌, ◌/◌, ◌%◌, ◌^◌, ◌≤◌, ◌<◌, ◌≡◌, refl, ap, ◌∙◌, ltb, leb, ◌&&◌,
  if◌then◌else◌, arith, ◌⊎◌, some, none,
}
use osc_2026_exercise.Sched.{put}
use osc_2026_exercise.Paging.{vpn, walk, sv39}
use osc_2026_exercise.Paging.User.{page_offset}
use osc_2026_exercise.Paging.Setup.{prot_kernel}
use osc_2026_exercise.Paging.Boot.{table, leaf, setup_boot, drop_loop, drop_identity_map}
use osc_2026_exercise.Paging.BootMap.{
  image, page_at, pointer, walk_super, boot_word, boot_word_lem, high_root, uart_root, uart_leaf,
  high_leaf, image_lem,
}

drop_loop-inside :
    (pgd k i j : ℕ) (word : ℕ → ℕ)
    → drop_loop pgd k i word (pgd + 8 * j)
      ≡ (if leb i j && ltb j (i + k) then 0 else word (pgd + 8 * j))
unfolding drop_loop
drop_loop-inside pgd zero i j word = ground arith
drop_loop-inside pgd (suc k) i j word =
    let rest = drop_loop-inside pgd k (i + 1) j (put word (pgd + 8 * i) 0) in ground (arith, rest)

drop_loop-outside :
    (pgd k i q : ℕ) (word : ℕ → ℕ)
    → (q < pgd) ⊎ (pgd + 8 * (i + k) ≤ q)
    → drop_loop pgd k i word q ≡ word q
unfolding drop_loop
drop_loop-outside pgd zero i q word apart = refl
drop_loop-outside pgd (suc k) i q word apart =
    drop_loop-outside pgd k (i + 1) q (put word (pgd + 8 * i) 0) (ground arith) ∙ ground arith

module _ (pgd : ℕ) (word : ℕ → ℕ) where
  low_zero : (j : ℕ) → j < 256 → drop_identity_map pgd word (pgd + 8 * j) ≡ 0
  unfolding drop_identity_map
  low_zero j small = drop_loop-inside pgd 256 0 j word ∙ ground arith

  kept : (q : ℕ) → (q < pgd) ⊎ (pgd + 0x800 ≤ q) → drop_identity_map pgd word q ≡ word q
  unfolding drop_identity_map
  kept q apart = drop_loop-outside pgd 256 0 q word (ground arith)

  low_faults : (a : ℕ) → a < 2 ^ 38 → sv39 (drop_identity_map pgd word) pgd a ≡ none
  unfolding walk
  low_faults a low =
      let e : drop_identity_map pgd word (pgd + 8 * vpn a 2) ≡ 0 =
        low_zero (vpn a 2) (omega arith) in
      rw e refl

module _ (pgd pmd start : ℕ) (word : ℕ → ℕ) (pgd_aligned : pgd % 2 ^ 12 ≡ 0)
    (pmd_aligned : pmd % 2 ^ 12 ≡ 0) (apart : (pgd + 0x1000 ≤ pmd) ⊎ (pmd + 0x4000 ≤ pgd))
    (pgd_small : pgd < 2 ^ 55) (pmd_small : pmd < 2 ^ 55) (above : 2 ^ 30 ≤ start)
    (below : start < 2 ^ 32) where
  abbrev dropped : ℕ → ℕ
  dropped =
      drop_identity_map pgd
        (boot_word pgd pmd start word pgd_aligned pmd_aligned apart pgd_small pmd_small above below)

  -- An entry that is kept, and the walk over two of them.
  walks_kept :
      (i t va page : ℕ)
      → 256 ≤ i
      → vpn va 2 ≡ i
      → boot_word pgd pmd start word pgd_aligned pmd_aligned apart pgd_small pmd_small above below
          (pgd + 8 * i)
        ≡ pointer t
      → boot_word pgd pmd start word pgd_aligned pmd_aligned apart pgd_small pmd_small above below
          (t + 8 * vpn va 1)
        ≡ leaf page
      → t % 2 ^ 12 ≡ 0
      → (pmd ≤ t) × (t + 0x1000 ≤ pmd + 0x4000)
      → page % 2 ^ 21 ≡ 0
      → page < 2 ^ 56
      → sv39 dropped pgd va ≡ some (page + va % 2 ^ 21, prot_kernel)
  walks_kept i t va page high index e2 e1 a1 place a0 b0 =
      let w =
        boot_word pgd pmd start word pgd_aligned pmd_aligned apart pgd_small pmd_small above
          below in
      walk_super dropped pgd t va page
        (ap (λ (v : ℕ). dropped (pgd + 8 * v)) index ∙ kept pgd w (pgd + 8 * i) (ground arith) ∙ e2)
        (kept pgd w (t + 8 * vpn va 1) (ground arith) ∙ e1) a1 (omega arith) a0 b0

  -- After `setup_vm` and `drop_identity_map`, with the tables and the kernel placed as for
  -- `setup_vm`: every address below 2 ^ 38 gives a page fault, and in the upper half the
  -- kernel's GiB and the serial line are found where `setup_vm` put them.
  pub drop_identity_map-sv39 :
      let w = drop_identity_map pgd (setup_boot pgd pmd start word).0 in
      ((a : ℕ) → a < 2 ^ 38 → sv39 w pgd a ≡ none)
      × ((x : ℕ)
          → x / 2 ^ 30 ≡ start / 2 ^ 30
          → sv39 w pgd (x + page_offset) ≡ some (image start x, prot_kernel))
      × ((y : ℕ)
          → y < 2 ^ 21
          → sv39 w pgd (0xffffffc010000000 + y) ≡ some (0x10000000 + y, prot_kernel))
  drop_identity_map-sv39 =
      rw
        (boot_word_lem pgd pmd start word pgd_aligned pmd_aligned apart pgd_small pmd_small above
          below)
        (
          low_faults pgd (
              boot_word pgd pmd start word pgd_aligned pmd_aligned apart pgd_small pmd_small above
                below),
          λ x same.
              let j = x / 2 ^ 21 % 512 in
              let h2 : vpn (x + page_offset) 2 ≡ 256 + start / 2 ^ 30 = omega (arith, same) in
              let h1 : vpn (x + page_offset) 1 ≡ j = omega arith in
              let off : (x + page_offset) % 2 ^ 21 ≡ x % 2 ^ 21 = omega arith in
              walks_kept (256 + start / 2 ^ 30) (table pmd 1) (x + page_offset) (page_at start j)
                (omega arith) h2
                (high_root pgd pmd start word pgd_aligned pmd_aligned apart pgd_small pmd_small
                  above below)
                (ap
                    (λ (t : ℕ).
                      boot_word pgd pmd start word pgd_aligned pmd_aligned apart pgd_small pmd_small
                        above below (table pmd 1 + 8 * t))
                    h1
                  ∙ high_leaf pgd pmd start word pgd_aligned pmd_aligned apart pgd_small pmd_small
                      above below j (omega arith))
                (omega arith) (omega arith) (omega arith) (omega arith)
              ∙ ap (λ (t : ℕ). some (t, prot_kernel))
                  (ap (λ (t : ℕ). page_at start j + t) off
                    ∙ image_lem pgd pmd start word pgd_aligned pmd_aligned apart pgd_small pmd_small
                        above below x same),
          λ y small.
              let u2 : vpn (0xffffffc010000000 + y) 2 ≡ 256 = omega arith in
              let u1 : vpn (0xffffffc010000000 + y) 1 ≡ 128 = omega arith in
              walks_kept 256 (table pmd 2) (0xffffffc010000000 + y) 0x10000000 (omega arith) u2
                (uart_root pgd pmd start word pgd_aligned pmd_aligned apart pgd_small pmd_small
                  above below)
                (ap
                    (λ (t : ℕ).
                      boot_word pgd pmd start word pgd_aligned pmd_aligned apart pgd_small pmd_small
                        above below (table pmd 2 + 8 * t))
                    u1
                  ∙ uart_leaf pgd pmd start word pgd_aligned pmd_aligned apart pgd_small pmd_small
                      above below)
                (omega arith) (omega arith) (omega arith) (omega arith)
              ∙ ap (λ (t : ℕ). some (t, prot_kernel)) (omega arith),
        )
