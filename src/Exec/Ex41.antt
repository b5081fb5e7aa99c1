-- ===== src/Exec/Ex41.antt =====
-- `exec` of ex41/main.c, which runs the program where it lies in the initrd.
use osc_2026_exercise.Base.{
  ℕ, ◌+◌, ◌-◌, ◌*◌, ◌/◌, ◌%◌, ◌^◌, ◌<◌, ◌≡◌, refl, List, [], ◌∷◌, ◌++◌, Option, none, some, length,
  arith, bit_and,
}
use osc_2026_exercise.Bits.{sign_extended, sign_extended_small, bit_and_clear_eight}
use osc_2026_exercise.Memory.{Memory, Holds}
use osc_2026_exercise.Mmio.{Device, Io, Bus, pure, ◌>>=◌, Answers}
use osc_2026_exercise.Text.{IsString}
use osc_2026_exercise.Uart.{uart_lsr, lsr_tdrq}
use osc_2026_exercise.Uart.Ex41.{uart_base}
use osc_2026_exercise.Uart.Puts.{sent}
use osc_2026_exercise.Uart.Report.{Print, puts, hex, report, text, Printable, report_then}
use osc_2026_exercise.Utils.Align.{kernel_align, kernel_align_four}
use osc_2026_exercise.Cpio.{cpio_size, trailer}
use osc_2026_exercise.Cpio.Archive.{Entry, IsEntry, IsArchive, data_at, name_bytes}
use osc_2026_exercise.Exec.{Found, search}
use osc_2026_exercise.Exec.Search.{
  AreSmall, HeadSize, DataSize, find_entry, Sound, find_entry-Sound, found, result,
  search-IsArchive,
}

-- `int headsize` and `int datasize`.
unfoldable pub head_size : ℕ → ℕ
head_size n = kernel_align ((cpio_size + sign_extended n) % 2 ^ 64) 4 % 2 ^ 32

unfoldable pub data_size : ℕ → ℕ
data_size n = kernel_align (sign_extended n) 4 % 2 ^ 32

-- -1, or what `sret` makes of the control registers: user mode at `epc`.
pub data Outcome : Type 0 where
  failed : Outcome
  user_mode : (epc sstatus : ℕ) → Outcome

-- `li t1, 0x100`, `not t1, t1` and `and t0, t0, t1`.
abbrev pub to_user : ℕ → ℕ
to_user sstatus = bit_and sstatus (2 ^ 64 - 1 - 2 ^ 8)

unfoldable pub entry_point : Found → ℕ
entry_point f = kernel_align ((f.at + cpio_size + sign_extended f.name_bytes) % 2 ^ 64) 4

abbrev pub message : (p epc : ℕ) → List Print
message p epc =
    puts (b'p' ∷ b' ' ∷ b'=' ∷ b' ' ∷ [])
    ∷ hex p
    ∷ puts (b'\n' ∷ [])
    ∷ puts (b's' ∷ b'e' ∷ b'p' ∷ b'c' ∷ b' ' ∷ b's' ∷ b'e' ∷ b't' ∷ b' ' ∷ b't' ∷ b'o' ∷ b' ' ∷ [])
    ∷ hex epc
    ∷ puts (b'\n' ∷ [])
    ∷ []

module _ (dev : Device) (rounds sstatus : ℕ) where
  -- The body of the loop where the name matches, and the end of the loop.
  unfoldable pub enter : Option (Option Found) → Io Outcome
  enter none = λ s. none
  enter (some none) = pure failed
  enter (some (some f)) = report dev uart_base rounds (message f.at (entry_point f)) >>= λ _.
      pure (user_mode (entry_point f) (to_user sstatus))

  -- `rd` is the address of the initrd, `trailer_at` that of the constant "TRAILER!!!".
  unfoldable pub exec : Memory → (trailer_at filename rd fuel : ℕ) → Io Outcome
  unfolding enter
  exec m trailer_at filename rd fuel =
      enter (search m head_size data_size trailer_at filename fuel rd)

message-Printable : (p epc : ℕ) → Printable (message p epc)
message-Printable p epc = omega arith

head_size-HeadSize : HeadSize head_size
unfolding head_size
head_size-HeadSize n small =
    rw (sign_extended_small n (omega arith))
      (omega (arith, kernel_align_four ((cpio_size + n) % 2 ^ 64) (omega arith)))

data_size-DataSize : DataSize data_size
unfolding data_size
data_size-DataSize n small =
    rw (sign_extended_small n (omega arith)) (omega (arith, kernel_align_four n (omega arith)))

entry_point_lem :
    (m : Memory) (a : ℕ) (e : Entry)
    → IsEntry m a e
    → name_bytes e < 2 ^ 29
    → entry_point (found a e) ≡ data_at a e
unfolding entry_point
entry_point_lem m a e is small =
    let bound = is.in_memory in
    rw (sign_extended_small (name_bytes e) (omega arith))
      (omega (arith, kernel_align_four ((a + cpio_size + name_bytes e) % 2 ^ 64) (omega arith)))

-- What `exec` does, by what the archive holds.
abbrev pub Runs41 :
    Device → (rounds sstatus : ℕ) → Memory → Option (ℕ × Entry) → Io Outcome → Bus → Type 0
Runs41 dev rounds sstatus m none run s = run s ≡ some (failed, s)
Runs41 dev rounds sstatus m (some (a, e)) run s =
    (r : ℕ) × (run s
      ≡ some (
        user_mode (data_at a e) (to_user sstatus),
        record { reads = r; writes = s.writes ++ sent uart_base (text (message a (data_at a e))) },
      ))
    × Holds m (data_at a e) e.content
    × (to_user sstatus + sstatus / 2 ^ 8 % 2 * 2 ^ 8 ≡ sstatus)

module _ (dev : Device) (rounds sstatus : ℕ)
    (answers : Answers dev rounds (uart_lsr uart_base) lsr_tdrq) (word : sstatus < 2 ^ 64) where
  enter-Runs41 :
      (m : Memory) (o : Option (ℕ × Entry)) (s : Bus)
      → Sound m o
      → Runs41 dev rounds sstatus m o (enter dev rounds sstatus (some (result o))) s
  unfolding enter
  enter-Runs41 m none s sound = refl
  enter-Runs41 m (some (a, e)) s sound =
      let point = entry_point_lem m a e sound.0 sound.1 in
      let (r, ran) =
        report_then dev uart_base rounds answers (message a (data_at a e))
          (user_mode (data_at a e) (to_user sstatus)) s (message-Printable a (data_at a e)) in
      (r, rw point ran, sound.0.has_content, bit_and_clear_eight sstatus word)

  -- On an archive at an address that is a multiple of four, with sizes below 2 ^ 29, no name that
  -- begins with "TRAILER!!!", fuel for the entries, and a device that answers: `exec` ends. Where
  -- no entry has the name it returns -1 and prints nothing; otherwise it prints its messages and
  -- goes to user mode at the content of the first entry that has the name, with the bit SPP of
  -- `sstatus` cleared and the others kept.
  pub exec41-Runs :
      (m : Memory) (trailer_at filename rd fuel : ℕ) (file : List ℕ) (es : List Entry) (s : Bus)
      → Holds m trailer_at (trailer ++ 0 ∷ [])
      → Holds m filename (file ++ 0 ∷ [])
      → IsString file
      → IsArchive m rd es
      → AreSmall es
      → rd % 4 ≡ 0
      → length es < fuel
      → Runs41 dev rounds sstatus m
          (find_entry file rd es)
          (exec dev rounds sstatus m trailer_at filename rd fuel)
          s
  unfolding exec
  exec41-Runs m trailer_at filename rd fuel file es s t f str h small aligned enough =
      rw
        (search-IsArchive m head_size data_size trailer_at filename head_size-HeadSize
          data_size-DataSize t file es fuel rd f str h small aligned enough)
        (enter-Runs41 m (find_entry file rd es) s (find_entry-Sound m file es rd h small))
