-- ===== src/Tests/Boot.antt =====
-- The tables of ex61 for a kernel at 0x80200000.
use osc_2026_exercise.Base.{ℕ, ◌+◌, ◌/◌, ◌^◌, ◌<◌, ◌≡◌, refl, some, none, inl, arith}
use osc_2026_exercise.Paging.{sv39}
use osc_2026_exercise.Paging.User.{page_offset}
use osc_2026_exercise.Paging.Setup.{prot_kernel}
use osc_2026_exercise.Paging.Boot.{setup_boot, drop_identity_map}
use osc_2026_exercise.Paging.BootMap.{image, setup_boot-sv39}
use osc_2026_exercise.Paging.Drop.{drop_identity_map-sv39}

abbrev pgd : ℕ
pgd = 0x80201000

abbrev pmd : ℕ
pmd = 0x80202000

abbrev start : ℕ
start = 0x80200000

-- Below the kernel in its GiB the identity map is none.
image_below : image start 0x80000000 ≡ 0xc0000000
image_below = refl

setup_boot-sv39_example :
    let w = (setup_boot pgd pmd start (λ q. 0)).0 in
    ((x : ℕ)
      → x / 2 ^ 30 ≡ start / 2 ^ 30
      → (sv39 w pgd x ≡ some (image start x, prot_kernel))
        × (sv39 w pgd (x + page_offset) ≡ some (image start x, prot_kernel)))
    × ((y : ℕ)
        → y < 2 ^ 21
        → sv39 w pgd (0xffffffc010000000 + y) ≡ some (0x10000000 + y, prot_kernel))
setup_boot-sv39_example =
    setup_boot-sv39 pgd pmd start (λ q. 0) refl refl (inl (omega arith)) (omega arith) (omega arith)
      (omega arith) (omega arith)

drop_identity_map-sv39_example :
    let w = drop_identity_map pgd (setup_boot pgd pmd start (λ q. 0)).0 in
    ((a : ℕ) → a < 2 ^ 38 → sv39 w pgd a ≡ none)
    × ((x : ℕ)
        → x / 2 ^ 30 ≡ start / 2 ^ 30
        → sv39 w pgd (x + page_offset) ≡ some (image start x, prot_kernel))
    × ((y : ℕ)
        → y < 2 ^ 21
        → sv39 w pgd (0xffffffc010000000 + y) ≡ some (0x10000000 + y, prot_kernel))
drop_identity_map-sv39_example =
    drop_identity_map-sv39 pgd pmd start (λ q. 0) refl refl (inl (omega arith)) (omega arith)
      (omega arith) (omega arith) (omega arith)
