-- ===== src/Trap/Ex62.antt =====
-- The handler of ex62/main.c: `struct pt_regs` and `do_trap`, with the entry and exit of
-- ex62/start.S around it.
use osc_2026_exercise.Base.{ℕ, ◌+◌, ◌%◌, ◌^◌, ◌≡◌, ap₂, ◌∙◌, List, [], ◌∷◌, ◌++◌, some, ◌⊎◌, arith}
use osc_2026_exercise.Mmio.{Device, Io, Bus, pure, ◌>>=◌, Answers}
use osc_2026_exercise.Sched.{put}
use osc_2026_exercise.Uart.{uart_lsr, lsr_tdrq}
use osc_2026_exercise.Uart.Ex62.{uart_base}
use osc_2026_exercise.Uart.Puts.{sent}
use osc_2026_exercise.Uart.Report.{Print, puts, hex, report, text, report_then}
use osc_2026_exercise.Trap.{Hart, slot_address, handle_exception}
use osc_2026_exercise.Trap.Frame.{put-IsFrame}
use osc_2026_exercise.Trap.Transparent.{
  Resumes, FromUser, FromKernel, SameProgram, handle_exception-SameProgram,
}

-- The fields of `struct pt_regs`, each 8 bytes long, in their order.
pub data PtRegs : Type 0 where
  ra sp gp tp t0 t1 t2 s0 s1 a0 a1 a2 a3 a4 a5 a6 a7 s2 s3 s4 s5 s6 s7 s8 s9 s10 s11 t3 t4 t5 t6 epc
        status cause badaddr :
      PtRegs

abbrev pub place : PtRegs → ℕ
place ra = 0
place sp = 1
place gp = 2
place tp = 3
place t0 = 4
place t1 = 5
place t2 = 6
place s0 = 7
place s1 = 8
place a0 = 9
place a1 = 10
place a2 = 11
place a3 = 12
place a4 = 13
place a5 = 14
place a6 = 15
place a7 = 16
place s2 = 17
place s3 = 18
place s4 = 19
place s5 = 20
place s6 = 21
place s7 = 22
place s8 = 23
place s9 = 24
place s10 = 25
place s11 = 26
place t3 = 27
place t4 = 28
place t5 = 29
place t6 = 30
place epc = 31
place status = 32
place cause = 33
place badaddr = 34

-- `&regs->f`
abbrev pub field : ℕ → PtRegs → ℕ
field regs f = slot_address regs (place f)

abbrev pub message : ℕ → ℕ → List Print
message at why =
    puts (b's' ∷ b'e' ∷ b'p' ∷ b'c' ∷ b':' ∷ b' ' ∷ [])
    ∷ hex at
    ∷ puts (b',' ∷ b' ' ∷ b's' ∷ b'c' ∷ b'a' ∷ b'u' ∷ b's' ∷ b'e' ∷ b':' ∷ b' ' ∷ [])
    ∷ hex why
    ∷ puts (b'\n' ∷ [])
    ∷ []

module _ (dev : Device) (rounds : ℕ) where
  unfoldable pub do_trap : ℕ → (ℕ → ℕ) → Io (ℕ → ℕ)
  do_trap regs word =
      report dev uart_base rounds (message (word (field regs epc)) (word (field regs cause)))
      >>= λ _. pure (put word (field regs epc) ((word (field regs epc) + 4) % 2 ^ 64))

  -- The whole of a trap, `after_call` and `below` being what `do_trap` leaves in its registers
  -- and below its stack pointer.
  unfoldable pub trap : (after_call below : ℕ → ℕ) → Hart → Io Hart
  trap after_call below = handle_exception after_call below do_trap

module _ (dev : Device) (rounds : ℕ)
    (answers : Answers dev rounds (uart_lsr uart_base) lsr_tdrq) where
  do_trap-Resumes :
      Resumes
        (do_trap dev rounds)
        (λ epc. (epc + 4) % 2 ^ 64)
        (λ reads at why badaddr. sent uart_base (text (message at why)))
        (λ s at why badaddr r. Unit)
  unfolding do_trap
  do_trap-Resumes base fits word f frame s =
      let e = frame 31 (omega arith) in
      let c = frame 33 (omega arith) in
      let word' = put word (slot_address base 31) ((f 31 + 4) % 2 ^ 64) in
      let (r, ran) =
        report_then dev uart_base rounds answers (message (f 31) (f 33)) word' s (omega arith) in
      (
        word',
        r,
        ap₂
              (λ (at why : ℕ).
                (report dev uart_base rounds (message at why) >>= λ _.
                pure (put word (field base epc) ((at + 4) % 2 ^ 64)))
                  s)
              e c
            ∙ ran,
        put-IsFrame base fits word f 31 ((f 31 + 4) % 2 ^ 64) (omega arith) frame,
        tt,
      )

  -- With a device that answers, a trap of a user program or of the kernel comes to its `sret`;
  -- the handler has printed `sepc` and `scause`, every register of the interrupted program,
  -- `sscratch` and `sstatus` are as they were, and the program goes on 4 bytes behind the
  -- instruction that trapped.
  pub trap62-SameProgram :
      (after_call below : ℕ → ℕ) (h : Hart) (s : Bus)
      → FromUser h ⊎ FromKernel h
      → (h' : Hart) × (r : ℕ) × (trap dev rounds after_call below h s
          ≡ some (
            h',
            record {
              reads = r;
              writes = s.writes ++ sent uart_base (text (message h.sepc h.scause));
            },
          ))
        × SameProgram h h'
        × (h'.pc ≡ (h.sepc + 4) % 2 ^ 64)
  unfolding trap
  trap62-SameProgram after_call below h s from =
      let (h', r, ran, same, at, counted) =
        handle_exception-SameProgram after_call below (do_trap dev rounds)
          (λ epc. (epc + 4) % 2 ^ 64)
          (λ reads at why badaddr. sent uart_base (text (message at why)))
          (λ s at why badaddr r. Unit) do_trap-Resumes h s from in
      (h', r, ran, same, at)
