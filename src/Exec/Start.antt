-- ===== src/Exec/Start.antt =====
-- The program of ex62/main.c in its address space.
use osc_2026_exercise.Base.{ℕ, ◌+◌, ◌*◌, ◌%◌, ◌^◌, ◌<◌, ◌≤◌, ◌≡◌, refl, some, arith, ap, ◌∙◌, sym}
use osc_2026_exercise.Bits.{sign_extended_small}
use osc_2026_exercise.Memory.{Memory}
use osc_2026_exercise.Utils.Alloc.{alloc_page, alloc_page_lem}
use osc_2026_exercise.Utils.Block.{memcpy}
use osc_2026_exercise.Paging.{page_size, vpn, sv39}
use osc_2026_exercise.Paging.User.{Machine, virt_to_phys, map_pages, page_offset, linear_map}
use osc_2026_exercise.Paging.Access.{IsLinear, next_page}
use osc_2026_exercise.Paging.Maps.{mapped_word, pagewalk_lem, walks_later}
use osc_2026_exercise.Paging.Pages.{map_pages-one}
use osc_2026_exercise.Exec.{Found}
use osc_2026_exercise.Exec.Ex41.{to_user}
use osc_2026_exercise.Exec.Ex62.{User, prot_user_rx, prot_user_rw, stack_page, start_program}

alloc_fst :
    (c : ℕ) → c + 0x2000 ≤ linear_map → (alloc_page (page_offset + c)).0 ≡ page_offset + next_page c
alloc_fst c room =
    let (start, next) = alloc_page_lem (page_offset + c) (omega arith) in omega (arith, start)

alloc_snd :
    (c : ℕ)
    → c + 0x2000 ≤ linear_map
    → (alloc_page (page_offset + c)).1 ≡ page_offset + (next_page c + 0x1000)
alloc_snd c room =
    let (start, next) = alloc_page_lem (page_offset + c) (omega arith) in omega (arith, start, next)

-- `map_pages` for one page where no table is.
map_one :
    (root pgd c va size pa prot : ℕ) (word : ℕ → ℕ)
    → IsLinear root pgd
    → root + 0x1000 ≤ c
    → c + 0x3000 ≤ linear_map
    → va < 2 ^ 39
    → pa < 2 ^ 56
    → prot < 2 ^ 10
    → word (root + 8 * vpn va 2) % 2 ≡ 0
    → 0 < size
    → size ≤ page_size
    → map_pages pgd va size pa prot (record { word = word; curr = page_offset + c })
      ≡ some (record {
        word = mapped_word word root (next_page c) va pa prot;
        curr = page_offset + (next_page c + 0x2000);
      })
map_one root pgd c va size pa prot word linear below room address physical flags absent some_bytes
      fits =
    let k : Machine = record { word = word; curr = page_offset + c } in
    map_pages-one root pgd c va size pa prot k linear refl below room address physical flags absent
      some_bytes fits
    ∙ pagewalk_lem root pgd c va pa prot k linear refl below room physical flags absent
    ∙ ap
        (λ (t : ℕ).
          some (record { word = mapped_word word root (next_page c) va pa prot; curr = t }))
        (omega arith)

module _ (root pgd c sp sstatus : ℕ) (word : ℕ → ℕ) (m : Memory) (f : Found)
    (linear : IsLinear root pgd) (below : root + 0x1000 ≤ c) (room : c + 0x9000 ≤ linear_map)
    (free_low : word (root + 8 * 0) % 2 ≡ 0) (free_high : word (root + 8 * 255) % 2 ≡ 0)
    (some_bytes : 0 < f.file_bytes) (one_page : f.file_bytes ≤ page_size)
    (head : f.head_bytes < 2 ^ 31) where
  -- The pages in the order in which the allocator gives them: that of the program, two tables,
  -- that of the stack, two tables.
  abbrev pub program : ℕ
  program = next_page c

  abbrev pub word1 : ℕ → ℕ
  word1 = mapped_word word root (next_page (program + 0x1000)) 0x0 program prot_user_rx

  abbrev pub c2 : ℕ
  c2 = next_page (program + 0x1000) + 0x2000

  abbrev pub word2 : ℕ → ℕ
  word2 =
      mapped_word word1 root (next_page (next_page c2 + 0x1000)) stack_page (next_page c2)
        prot_user_rw

  abbrev pub bytes : Memory
  bytes = (memcpy m (page_offset + program) (f.at + f.head_bytes) f.file_bytes).0

  abbrev pub started : User
  started = record {
    sepc = 0x0;
    sscratch = sp;
    sp = 0x4000000000;
    sstatus = to_user sstatus;
    bytes = bytes;
    machine = record {
      word = word2;
      curr = page_offset + (next_page (next_page c2 + 0x1000) + 0x2000);
    };
  }

  still_free : word1 (root + 8 * vpn stack_page 2) % 2 ≡ 0
  still_free = ground (arith, free_high)

  pub start_program_eq :
      start_program pgd sp sstatus f m (record { word = word; curr = page_offset + c })
      ≡ some started
  unfolding start_program
  start_program_eq =
      let phys : virt_to_phys (page_offset + program) ≡ program = omega arith in
      let phys2 : virt_to_phys (page_offset + next_page c2) ≡ next_page c2 = omega arith in
      rw
        (
          alloc_fst c (omega arith),
          alloc_snd c (omega arith),
          sign_extended_small f.file_bytes (omega arith),
          sign_extended_small f.head_bytes head,
          phys,
          map_one root pgd (program + 0x1000) 0x0 f.file_bytes program prot_user_rx word linear
              (omega arith) (omega arith) (omega arith) (omega arith) (omega arith) free_low
              some_bytes one_page,
          alloc_fst c2 (omega arith),
          alloc_snd c2 (omega arith),
          phys2,
          map_one root pgd (next_page c2 + 0x1000) stack_page page_size (next_page c2) prot_user_rw
              word1 linear (omega arith) (omega arith) (omega arith) (omega arith) (omega arith)
              still_free (omega arith) (omega arith),
        )
        refl

  pub program_mapped :
      (i : ℕ) → i < f.file_bytes → sv39 word2 root i ≡ some (program + i, prot_user_rx)
  program_mapped i small =
      let first : 0 + i ≡ i = omega arith in
      ap (λ (t : ℕ). sv39 word2 root t) (sym first)
      ∙ walks_later root pgd (program + 0x1000) 0x0 program prot_user_rx
          (record { word = word; curr = page_offset + (program + 0x1000) }) linear refl
          (omega arith) (omega arith) refl (omega arith) (omega arith) (omega arith) refl refl
          free_low word2 (λ q lo hi. ground arith) (ground arith) i (omega arith)

  pub stack_mapped :
      (i : ℕ)
      → i < 2 ^ 12
      → sv39 word2 root (stack_page + i) ≡ some (next_page c2 + i, prot_user_rw)
  stack_mapped i small =
      walks_later root pgd (next_page c2 + 0x1000) stack_page (next_page c2) prot_user_rw
        (record { word = word1; curr = page_offset + (next_page c2 + 0x1000) }) linear refl
        (omega arith) (omega arith) refl (omega arith) (omega arith) (omega arith) refl refl
        still_free word2 (λ q lo hi. refl) refl i small
