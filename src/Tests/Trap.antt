-- ===== src/Tests/Trap.antt =====
-- The handlers of ex41, ex42 and ex62 on a hart in user mode, and the set-up of ex42, on a device
-- that is always ready and always reads the same.
use osc_2026_exercise.Base.{ℕ, ◌+◌, ◌*◌, ◌≡◌, refl, [], ◌∷◌, ◌++◌, some, arith, ◌==◌, if◌then◌else◌}
use osc_2026_exercise.Bits.{SetBit}
use osc_2026_exercise.Mmio.{Device, Bus}
use osc_2026_exercise.Uart.Ex41 as Console41
use osc_2026_exercise.Uart.Ex42 as Console42
use osc_2026_exercise.Plic.{
  plic_priority, plic_threshold, uart_irq, uart_ier, uart_mcr, Csrs, start_interrupts,
}
use osc_2026_exercise.Plic.Setup.{enable_word, start_interrupts_lem}
use osc_2026_exercise.Trap.{Hart}
use osc_2026_exercise.Trap.Transparent.{FromKernel}
use osc_2026_exercise.Trap.Ex41 as Trap41
use osc_2026_exercise.Trap.Ex42 as Trap42

-- The line status is ready, and the controller reports the interrupt 10.
abbrev ready : Device
ready = record { read = λ n a. if a == 0xc201004 then 10 else 0x2a }

abbrev empty_bus : Bus
empty_bus = record { reads = 0; writes = [] }

-- The registers hold ten times their numbers.
abbrev user_program : Hart
user_program = record {
  x = λ r. 10 * r;
  pc = 0x80200000;
  sscratch = 0x80400000;
  sepc = 0x88200074;
  sstatus = 0x20;
  scause = 8;
  stval = 0;
  word = λ a. a;
}

abbrev kernel_thread : Hart
kernel_thread = record user_program { x = λ r. 0x80300000 + r; sscratch = 0; sstatus = 0x120 }

kernel_thread-FromKernel : FromKernel kernel_thread
kernel_thread-FromKernel = (omega arith, omega arith, refl, omega arith)

start_interrupts_lem_example :
    (c' : Csrs) × (r p e i m : ℕ) × (start_interrupts ready 0
        (record { sstatus = 0; sie = 5 })
        empty_bus
      ≡ some (
        c',
        record {
          reads = r;
          writes =
              []
              ++ (plic_priority uart_irq, p)
                ∷ (enable_word 0, e)
                ∷ (plic_threshold 0, 0)
                ∷ (uart_ier, i)
                ∷ (uart_mcr, m)
                ∷ [];
        },
      ))
    × SetBit 0 0x2a p
    × SetBit 10 0x2a e
    × SetBit 0 0x2a i
    × SetBit 3 0x2a m
    × SetBit 9 5 c'.sie
    × SetBit 1 0 c'.sstatus
start_interrupts_lem_example =
    start_interrupts_lem ready 0 (record { sstatus = 0; sie = 5 }) empty_bus
