-- ===== src/Trap/Ex41.antt =====
-- The handler of ex41/main.c: `struct pt_regs` and `do_trap`, with the entry and exit of
-- ex41/start.S around it.
use osc_2026_exercise.Base.{ℕ, ◌+◌, ◌%◌, ◌^◌, List, [], ◌∷◌}
use osc_2026_exercise.Mmio.{Device, Io, pure, ◌>>=◌}
use osc_2026_exercise.Sched.{put}
use osc_2026_exercise.Uart.Ex41.{uart_base}
use osc_2026_exercise.Uart.Report.{Print, puts, hex, report}
use osc_2026_exercise.Trap.{Hart, slot_address, handle_exception}

-- The fields of `struct pt_regs`, each 8 bytes long, in their order.
pub data PtRegs : Type 0 where
  ra sscratch gp tp t0 t1 t2 s0 s1 a0 a1 a2 a3 a4 a5 a6 a7 s2 s3 s4 s5 s6 s7 s8 s9 s10 s11 t3 t4 t5
        t6 sepc sstatus scause stval :
      PtRegs

abbrev pub place : PtRegs → ℕ
place ra = 0
place sscratch = 1
place gp = 2
place tp = 3
place t0 = 4
place t1 = 5
place t2 = 6
place s0 = 7
place s1 = 8
place a0 = 9
place a1 = 10
place a2 = 11
place a3 = 12
place a4 = 13
place a5 = 14
place a6 = 15
place a7 = 16
place s2 = 17
place s3 = 18
place s4 = 19
place s5 = 20
place s6 = 21
place s7 = 22
place s8 = 23
place s9 = 24
place s10 = 25
place s11 = 26
place t3 = 27
place t4 = 28
place t5 = 29
place t6 = 30
place sepc = 31
place sstatus = 32
place scause = 33
place stval = 34

-- `&regs->f`
abbrev pub field : ℕ → PtRegs → ℕ
field regs f = slot_address regs (place f)

abbrev pub message : ℕ → ℕ → List Print
message at why =
    puts (b's' ∷ b'p' ∷ b'e' ∷ b'c' ∷ b':' ∷ b' ' ∷ [])
    ∷ hex at
    ∷ puts (b',' ∷ b' ' ∷ b's' ∷ b'c' ∷ b'a' ∷ b'u' ∷ b's' ∷ b'e' ∷ b':' ∷ b' ' ∷ [])
    ∷ hex why
    ∷ puts (b'\n' ∷ [])
    ∷ []

module _ (dev : Device) (rounds : ℕ) where
  unfoldable pub do_trap : ℕ → (ℕ → ℕ) → Io (ℕ → ℕ)
  do_trap regs word =
      report dev uart_base rounds (message (word (field regs sepc)) (word (field regs scause)))
      >>= λ _. pure (put word (field regs sepc) ((word (field regs sepc) + 4) % 2 ^ 64))

  -- The whole of a trap, `after_call` and `below` being what `do_trap` leaves in its registers
  -- and below its stack pointer.
  unfoldable pub trap : (after_call below : ℕ → ℕ) → Hart → Io Hart
  trap after_call below = handle_exception after_call below do_trap
