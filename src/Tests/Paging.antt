-- ===== src/Tests/Paging.antt =====
-- The page tables of ex62 at concrete addresses.
use osc_2026_exercise.Base.{
  ◌⊎◌, inl, ◌≤◌, ℕ, ◌+◌, ◌*◌, ◌/◌, ◌^◌, ◌<◌, ◌≡◌, ◌≢◌, refl, some, none, inr, arith,
}
use osc_2026_exercise.Paging.{sv39, vpn}
use osc_2026_exercise.Paging.User.{Machine, page_offset, pagewalk, map_pages, virt_to_phys}
use osc_2026_exercise.Paging.Access.{next_page}
use osc_2026_exercise.Paging.Maps.{pagewalk-maps}
use osc_2026_exercise.Paging.Pages.{map_pages-traps}
use osc_2026_exercise.Paging.Setup.{setup_vm, prot_kernel, setup_vm-sv39}

abbrev root : ℕ
root = 0x80300000

abbrev end : ℕ
end = 0x80301234

-- V, R, X, U, A and D.
abbrev user_rx : ℕ
user_rx = 1 + 2 + 8 + 16 + 64 + 128

abbrev fresh : Machine
fresh = record { word = λ q. 0; curr = page_offset + end }

pagewalk-maps_example :
    (m' : Machine) × (pagewalk (page_offset + root) 0 0x80400000 user_rx fresh ≡ some m')
    × ((i : ℕ) → i < 2 ^ 12 → sv39 m'.word root (0 + i) ≡ some (0x80400000 + i, user_rx))
    × ((q : ℕ)
        → (q < next_page end) ⊎ (next_page end + 0x2000 ≤ q)
        → q ≢ root + 8 * vpn 0 2
        → m'.word q ≡ 0)
    × (m'.curr ≡ page_offset + next_page end + 0x2000)
pagewalk-maps_example =
    pagewalk-maps root (page_offset + root) end 0 0x80400000 user_rx fresh (refl, omega arith) refl
      (omega arith) (omega arith) refl refl (omega arith) (omega arith) refl refl refl
      (inl (omega arith))

map_pages-traps_example : map_pages (page_offset + root) 0 0x1001 0x80400000 user_rx fresh ≡ none
map_pages-traps_example =
    map_pages-traps root (page_offset + root) end 0 0x1001 0x80400000 user_rx fresh
      (refl, omega arith) refl (omega arith) (omega arith) (omega arith) (omega arith) (omega arith)
      refl (omega arith) (omega arith) refl

setup_vm-sv39_example :
    (sv39 (setup_vm root (λ q. q)).0 root (page_offset + 0x80200123)
      ≡ some (virt_to_phys (page_offset + 0x80200123), prot_kernel))
    × ((setup_vm root (λ q. q)).1 ≡ 8 * 2 ^ 60 + root / 2 ^ 12)
setup_vm-sv39_example =
    setup_vm-sv39 root (page_offset + 0x80200123) (λ q. q) refl (omega arith)
      (inr (omega arith, omega arith))
