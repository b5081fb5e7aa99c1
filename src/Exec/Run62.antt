-- ===== src/Exec/Run62.antt =====
-- What the program of ex62/main.c finds when it starts.
use osc_2026_exercise.Base.{
  ℕ, ◌+◌, ◌-◌, ◌*◌, ◌/◌, ◌%◌, ◌^◌, ◌<◌, ◌≤◌, ◌≡◌, ◌⊎◌, refl, List, [], ◌∷◌, ◌++◌, Option, none,
  some, length, arith, ap, ◌∙◌, sym,
}
use osc_2026_exercise.Bits.{bit_and_clear_eight}
use osc_2026_exercise.Memory.{Memory, Holds}
use osc_2026_exercise.Text.{IsString}
use osc_2026_exercise.Cpio.{trailer}
use osc_2026_exercise.Cpio.Archive.{Entry, IsArchive, data_at}
use osc_2026_exercise.Utils.Block.{memcpy, memcpy_lem}
use osc_2026_exercise.Paging.{page_size, sv39}
use osc_2026_exercise.Paging.User.{page_offset, linear_map}
use osc_2026_exercise.Paging.Access.{IsLinear, next_page}
use osc_2026_exercise.Exec.Ex62.{
  User, Outcome, failed, user_mode, prot_user_rx, prot_user_rw, stack_page, enter, exec, head_size,
  data_size, head_size-HeadSize, data_size-DataSize,
}
use osc_2026_exercise.Exec.Search.{
  AreSmall, find_entry, Sound, find_entry-Sound, found, result, search-IsArchive,
}
use osc_2026_exercise.Exec.Start.{start_program_eq, program_mapped, stack_mapped, started}

-- A user program reads the bytes `bs` at `va`, and may execute but not write them.
abbrev pub Reads : (ℕ → ℕ) → ℕ → Memory → ℕ → List ℕ → Type 0
Reads word root bytes va [] = Unit
Reads word root bytes va (b ∷ bs) =
    (pa : ℕ) × (sv39 word root va ≡ some (pa, prot_user_rx))
    × (bytes (page_offset + pa) ≡ b)
    × Reads word root bytes (va + 1) bs

copied-Reads :
    (word : ℕ → ℕ) (root program at n : ℕ) (m m' : Memory)
    → ((i : ℕ) → i < n → sv39 word root i ≡ some (program + i, prot_user_rx))
    → ((i : ℕ) → i < n → m' (page_offset + program + i) ≡ m (at + i))
    → (bs : List ℕ) (i : ℕ) → i + length bs ≤ n
    → Holds m (at + i) bs
    → Reads word root m' i bs
copied-Reads word root program at n m m' mapped same [] i fits h = tt
copied-Reads word root program at n m m' mapped same (b ∷ bs) i fits h =
    let place : page_offset + (program + i) ≡ page_offset + program + i = omega arith in
    let step : at + i + 1 ≡ at + (i + 1) = omega arith in
    (
      program + i,
      mapped i (omega arith),
      ap m' place ∙ same i (omega arith) ∙ h.0,
      copied-Reads word root program at n m m' mapped same bs (i + 1) (omega arith)
          (rw step at h.1),
    )

-- What the user program has: its content at 0, a stack below `sp`, and `sret` goes to user mode.
pub record IsStarted (root sp sstatus : ℕ) (content : List ℕ) (u : User) : Type 0 where
  pub at_zero : u.sepc ≡ 0
  pub top : u.sp ≡ 0x4000000000
  pub kept : u.sscratch ≡ sp
  pub unprivileged : u.sstatus + sstatus / 2 ^ 8 % 2 * 2 ^ 8 ≡ sstatus
  pub has_content : Reads u.machine.word root u.bytes 0 content
  pub has_stack :
      (va : ℕ)
      → stack_page ≤ va
      → va < u.sp
      → (pa : ℕ) × (sv39 u.machine.word root va ≡ some (pa, prot_user_rw))

-- What `exec` does, by what the archive holds.
abbrev pub Runs62 : (root sp sstatus : ℕ) → Option (ℕ × Entry) → Option Outcome → Type 0
Runs62 root sp sstatus none o = o ≡ some failed
Runs62 root sp sstatus (some (a, e)) o =
    (u : User) × (o ≡ some (user_mode u)) × IsStarted root sp sstatus e.content u

-- An entry that fits in one page and does not lie where the program is copied to.
abbrev pub Fits : ℕ → Option (ℕ × Entry) → Type 0
Fits c none = Unit
Fits c (some (a, e)) =
    (0 < length e.content)
    × (length e.content ≤ page_size)
    × (page_offset + next_page c + 0x1000 ≤ data_at a e
        ⊎ data_at a e + length e.content ≤ page_offset + next_page c)

module _ (root pgd c sp sstatus : ℕ) (word : ℕ → ℕ) (m : Memory) (linear : IsLinear root pgd)
    (below : root + 0x1000 ≤ c) (room : c + 0x9000 ≤ linear_map)
    (free_low : word (root + 8 * 0) % 2 ≡ 0) (free_high : word (root + 8 * 255) % 2 ≡ 0)
    (is_word : sstatus < 2 ^ 64) where
  found-IsStarted :
      (a : ℕ) (e : Entry)
      → Sound m (some (a, e))
      → (some_bytes : 0 < length e.content) → (one_page : length e.content ≤ page_size)
      → page_offset + next_page c + 0x1000 ≤ data_at a e
        ⊎ data_at a e + length e.content ≤ page_offset + next_page c
      → (head : data_at a e - a < 2 ^ 31)
      → IsStarted root sp sstatus e.content (
          started root pgd c sp sstatus word m
            (found a e)
            linear
            below
            room
            free_low
            free_high
            some_bytes
            one_page
            head)
  found-IsStarted a e (is, s1, s2) some_bytes one_page apart head =
      let at : a + (data_at a e - a) ≡ data_at a e = omega arith in
      let apart' : page_offset + next_page c ≤ a + (data_at a e - a)
          ⊎ a + (data_at a e - a) + length e.content ≤ page_offset + next_page c =
        ground (arith, apart, at) in
      let copied =
        memcpy_lem m (page_offset + next_page c) (a + (data_at a e - a)) (length e.content)
          apart' in
      let start : data_at a e + 0 ≡ data_at a e = omega arith in
      record {
        at_zero = refl;
        top = refl;
        kept = refl;
        unprivileged = bit_and_clear_eight sstatus is_word;
        has_content =
            copied-Reads _ root (next_page c) (data_at a e) (length e.content) m
              (memcpy m (page_offset + next_page c) (a + (data_at a e - a)) (length e.content)).0
              (program_mapped root pgd c sp sstatus word m (found a e) linear below room free_low
                free_high some_bytes one_page head)
              (λ i h. copied.0 i h ∙ ap (λ (q : ℕ). m (q + i)) at) e.content 0 (omega arith)
              (rw start is.has_content);
        has_stack = λ va lo hi.
            let place : stack_page + (va - stack_page) ≡ va = omega arith in
            (
              _,
              ap (sv39 _ root) (sym place)
                  ∙ stack_mapped root pgd c sp sstatus word m (found a e) linear below room free_low
                      free_high some_bytes one_page head (va - stack_page) (omega arith),
            );
      }

  enter-Runs62 :
      (o : Option (ℕ × Entry))
      → Sound m o
      → Fits c o
      → Runs62 root sp sstatus o (
          enter pgd sp sstatus (some (result o)) m (record { word = word; curr = page_offset + c }))
  unfolding enter
  enter-Runs62 none sound fits = refl
  enter-Runs62 (some (a, e)) sound (some_bytes, one_page, apart) =
      let (is, s1, s2) = sound in
      let head : data_at a e - a < 2 ^ 31 = omega arith in
      (
        started root pgd c sp sstatus word m (found a e) linear below room free_low free_high
            some_bytes one_page head,
        rw
            (start_program_eq root pgd c sp sstatus word m (found a e) linear below room free_low
              free_high some_bytes one_page head)
            refl,
        found-IsStarted a e sound some_bytes one_page apart head,
      )

  -- On an archive with sizes below 2 ^ 29 and no name that begins with "TRAILER!!!", with fuel for
  -- the entries, a root table whose entries for the first GiB and for the stack are free, the next
  -- page of the allocator behind that table, and room for it in the linear map: `exec` ends. Where
  -- no entry has the name it returns -1. Where the first entry with the name has between 1 and
  -- 4096 bytes, which do not lie in the page that the allocator gives next, it goes to user mode
  -- at 0: there the program reads the bytes of the file, on pages that it may execute and not
  -- write, the page below its stack pointer is mapped for reading and writing, SPP is cleared and
  -- the other bits of `sstatus` are kept.
  pub exec62-Runs :
      (trailer_at filename rd fuel : ℕ) (file : List ℕ) (es : List Entry)
      → Holds m trailer_at (trailer ++ 0 ∷ [])
      → Holds m filename (file ++ 0 ∷ [])
      → IsString file
      → IsArchive m rd es
      → AreSmall es
      → rd % 4 ≡ 0
      → length es < fuel
      → Fits c (find_entry file rd es)
      → Runs62 root sp sstatus (find_entry file rd es) (
          exec pgd sp sstatus trailer_at filename rd fuel m
            (record { word = word; curr = page_offset + c }))
  unfolding exec
  exec62-Runs trailer_at filename rd fuel file es t f str h small aligned enough fits =
      rw
        (search-IsArchive m head_size data_size trailer_at filename head_size-HeadSize
          data_size-DataSize t file es fuel rd f str h small aligned enough)
        (enter-Runs62 (find_entry file rd es) (find_entry-Sound m file es rd h small) fits)
