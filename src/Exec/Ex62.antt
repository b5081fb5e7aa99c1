-- ===== src/Exec/Ex62.antt =====
-- `exec` of ex62/main.c, which copies the program to a page of its own and maps it for the user.
-- The bytes are those that the kernel sees at its addresses; the words of the page tables are a
-- map of their own, since the pages that the allocator gives are apart.
use osc_2026_exercise.Base.{ℕ, ◌+◌, ◌%◌, ◌^◌, ◌≡◌, refl, Option, none, some, arith}
use osc_2026_exercise.Bits.{sign_extended}
use osc_2026_exercise.Memory.{Memory}
use osc_2026_exercise.Utils.Align.{align_int, mask_align_lem}
use osc_2026_exercise.Utils.Alloc.{alloc_page}
use osc_2026_exercise.Utils.Block.{memcpy}
use osc_2026_exercise.Cpio.{cpio_size}
use osc_2026_exercise.Paging.{◌>>=◌, page_size}
use osc_2026_exercise.Paging.User.{Machine, virt_to_phys, map_pages}
use osc_2026_exercise.Exec.{Found, search}
use osc_2026_exercise.Exec.Ex41.{to_user}
use osc_2026_exercise.Exec.Search.{HeadSize, DataSize}

unfoldable pub head_size : ℕ → ℕ
head_size n = align_int ((cpio_size + n) % 2 ^ 32) 4

unfoldable pub data_size : ℕ → ℕ
data_size n = align_int n 4

pub head_size-HeadSize : HeadSize head_size
unfolding head_size align_int
head_size-HeadSize n small =
    let fits : (cpio_size + n) % 2 ^ 32 ≡ cpio_size + n = omega arith in
    rw fits (omega (arith, mask_align_lem 32 30 2 (cpio_size + n) refl (omega arith)))

pub data_size-DataSize : DataSize data_size
unfolding data_size align_int
data_size-DataSize n small = omega (arith, mask_align_lem 32 30 2 n refl (omega arith))

-- V, U, A and D with R and X, or with R and W.
abbrev pub prot_user_base : ℕ
prot_user_base = 1 + 16 + 64 + 128

abbrev pub prot_user_rx : ℕ
prot_user_rx = prot_user_base + 2 + 8

abbrev pub prot_user_rw : ℕ
prot_user_rw = prot_user_base + 2 + 4

abbrev pub stack_page : ℕ
stack_page = 0x3ffffff000

-- What `sret` finds: the control registers and the stack pointer, and the memory.
pub record User : Type 0 where
  pub sepc : ℕ
  pub sscratch : ℕ
  pub sp : ℕ
  pub sstatus : ℕ
  pub bytes : Memory
  pub machine : Machine

pub data Outcome : Type 0 where
  failed : Outcome
  user_mode : User → Outcome

-- `sp` and `sstatus` are the kernel's registers at the time; a trap in the kernel is `none`.
module _ (pgd sp sstatus : ℕ) where
  unfoldable pub start_program : Found → Memory → Machine → Option User
  start_program f m k =
      let (program, curr1) = alloc_page k.curr in
      let bytes = (memcpy m program (f.at + sign_extended f.head_bytes) f.file_bytes).0 in
      map_pages pgd 0x0 (sign_extended f.file_bytes) (virt_to_phys program) prot_user_rx
        (record k { curr = curr1 })
      >>= λ k1.
          let (stack, curr2) = alloc_page k1.curr in
          map_pages pgd stack_page page_size (virt_to_phys stack) prot_user_rw
            (record k1 { curr = curr2 })
          >>= λ k2. some (record {
            sepc = 0x0;
            sscratch = sp;
            sp = 0x4000000000;
            sstatus = to_user sstatus;
            bytes = bytes;
            machine = k2;
          })

  unfoldable pub enter : Option (Option Found) → Memory → Machine → Option Outcome
  unfolding start_program
  enter none m k = none
  enter (some none) m k = some failed
  enter (some (some f)) m k = start_program f m k >>= λ u. some (user_mode u)

  unfoldable pub exec : (trailer_at filename rd fuel : ℕ) → Memory → Machine → Option Outcome
  unfolding enter
  exec trailer_at filename rd fuel m k =
      enter (search m head_size data_size trailer_at filename fuel rd) m k
