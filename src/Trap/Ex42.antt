-- ===== src/Trap/Ex42.antt =====
-- The handler of ex42/main.c, which serves an external interrupt, with the entry and exit of
-- ex42/start.S around it.
use osc_2026_exercise.Base.{
  ℕ, ◌+◌, ◌%◌, ◌^◌, Option, none, List, [], ◌∷◌, ◌++◌, some, ◌==◌, if◌then◌else◌,
}
use osc_2026_exercise.Mmio.{Device, Io, Bus, pure, ◌>>=◌, ◌>>◌, read}
use osc_2026_exercise.Uart.Ex42.{uart_base}
use osc_2026_exercise.Uart.Puts.{sent}
use osc_2026_exercise.Uart.Report.{Print, puts, hex, report, text}
use osc_2026_exercise.Plic.{uart_rbr, uart_irq, plic_claim, plic_claim_register, plic_complete}
use osc_2026_exercise.Trap.{Hart, slot_address, handle_exception}

-- The fields of `struct pt_regs`, each 8 bytes long, in their order.
pub data PtRegs : Type 0 where
  ra sscratch gp tp t0 t1 t2 s0 s1 a0 a1 a2 a3 a4 a5 a6 a7 s2 s3 s4 s5 s6 s7 s8 s9 s10 s11 t3 t4 t5
        t6 sepc sstatus scause stval :
      PtRegs

abbrev pub place : PtRegs → ℕ
place ra = 0
place sscratch = 1
place gp = 2
place tp = 3
place t0 = 4
place t1 = 5
place t2 = 6
place s0 = 7
place s1 = 8
place a0 = 9
place a1 = 10
place a2 = 11
place a3 = 12
place a4 = 13
place a5 = 14
place a6 = 15
place a7 = 16
place s2 = 17
place s3 = 18
place s4 = 19
place s5 = 20
place s6 = 21
place s7 = 22
place s8 = 23
place s9 = 24
place s10 = 25
place s11 = 26
place t3 = 27
place t4 = 28
place t5 = 29
place t6 = 30
place sepc = 31
place sstatus = 32
place scause = 33
place stval = 34

-- `&regs->f`
abbrev pub field : ℕ → PtRegs → ℕ
field regs f = slot_address regs (place f)

abbrev pub message : ℕ → ℕ → ℕ → ℕ → List Print
message why at value irq =
    puts (b's' ∷ b'c' ∷ b'a' ∷ b'u' ∷ b's' ∷ b'e' ∷ b':' ∷ b' ' ∷ [])
    ∷ hex why
    ∷ puts (b'\n' ∷ b's' ∷ b'p' ∷ b'e' ∷ b'c' ∷ b':' ∷ b' ' ∷ [])
    ∷ hex at
    ∷ puts (b'\n' ∷ b's' ∷ b't' ∷ b'v' ∷ b'a' ∷ b'l' ∷ b':' ∷ b' ' ∷ [])
    ∷ hex value
    ∷ puts (b'\n' ∷ b'i' ∷ b'r' ∷ b'q' ∷ b':' ∷ b' ' ∷ [])
    ∷ hex irq
    ∷ puts (b'\n' ∷ [])
    ∷ []

module _ (dev : Device) (rounds hart : ℕ) where
  -- Reading the received byte clears the request of the UART.
  unfoldable pub serve_uart : ℕ → (ℕ → ℕ) → ℕ → Io (Unit {0})
  serve_uart regs word irq = read dev uart_rbr >>= λ c.
      report dev uart_base rounds
        (message (word (field regs scause)) (word (field regs sepc)) (word (field regs stval)) irq)

  unfoldable pub do_trap : ℕ → (ℕ → ℕ) → Io (ℕ → ℕ)
  unfolding serve_uart
  do_trap regs word = do
    irq ← plic_claim dev hart
    if irq == uart_irq then serve_uart regs word irq else pure tt
    if irq == 0 then pure tt else plic_complete dev hart irq
    pure word

  unfoldable pub trap : (after_call below : ℕ → ℕ) → Hart → Io Hart
  trap after_call below = handle_exception after_call below do_trap

-- What the handler writes: for an interrupt of the line the message, and for every interrupt
-- its number to the claim register.
abbrev pub served : Device → ℕ → (reads at why value : ℕ) → List (ℕ × ℕ)
served dev hart reads at why value =
    let irq = dev.read reads (plic_claim_register hart) % 2 ^ 32 in
    (if irq == uart_irq then sent uart_base (text (message why at value irq)) else [])
    ++ (if irq == 0 then [] else (plic_claim_register hart, irq) ∷ [])

-- The reads when a run has ended.
abbrev pub reads_after : Option (Unit {0} × Bus) → ℕ
reads_after none = 0
reads_after (some (u, s)) = s.reads

-- How many reads the handler makes: one, and for an interrupt of the line the read of the
-- received byte and those of the message.
abbrev pub looks : Device → (rounds hart : ℕ) → Bus → (at why value : ℕ) → ℕ
looks dev rounds hart s at why value =
    let irq = dev.read s.reads (plic_claim_register hart) % 2 ^ 32 in
    if irq == uart_irq
    then reads_after (
        report dev uart_base rounds (message why at value irq)
          (record s { reads = s.reads + 1 + 1 }))
    else s.reads + 1
