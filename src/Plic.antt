-- ===== src/Plic.antt =====
-- The interrupt controller and the interrupts of the serial line, in ex42/main.c. The control
-- registers that are set are kept beside the bus.
pub mod Setup
use osc_2026_exercise.Base.{ℕ, ◌+◌, ◌*◌, ◌/◌, ◌%◌, ◌^◌, bit_and, bit_or}
use osc_2026_exercise.Mmio.{Device, Io, pure, ◌>>=◌, ◌>>◌, read, write}
use osc_2026_exercise.Uart.Ex42.{uart_base}

abbrev pub uart_rbr : ℕ
uart_rbr = uart_base + 0x0

abbrev pub uart_ier : ℕ
uart_ier = uart_base + 0x1

abbrev pub uart_mcr : ℕ
uart_mcr = uart_base + 0x4

abbrev pub uart_irq : ℕ
uart_irq = 0x0a

abbrev pub plic_base : ℕ
plic_base = 0xc000000

abbrev pub plic_priority : ℕ → ℕ
plic_priority irq = plic_base + irq * 4

abbrev pub plic_enable : ℕ → ℕ
plic_enable hart = plic_base + 0x002080 + hart * 0x0100

abbrev pub plic_threshold : ℕ → ℕ
plic_threshold hart = plic_base + 0x201000 + hart * 0x2000

abbrev pub plic_claim_register : ℕ → ℕ
plic_claim_register hart = plic_base + 0x201004 + hart * 0x2000

pub record Csrs : Type 0 where
  pub sstatus : ℕ
  pub sie : ℕ

-- `csrsi sstatus, (1 << 1)`
abbrev pub irq_enable : Csrs → Csrs
irq_enable c = record c { sstatus = bit_or c.sstatus (2 ^ 1) }

-- `csrs sie, t0` with `1 << 9`
abbrev pub enable_external_interrupt : Csrs → Csrs
enable_external_interrupt c = record c { sie = bit_or c.sie (2 ^ 9) }

-- `hart` is `boot_cpu_hartid`.
module _ (dev : Device) (hart : ℕ) where
  -- `*a |= mask` on a register of `width` bits.
  unfoldable pub set_mask : ℕ → ℕ → ℕ → Io (Unit {0})
  set_mask width a mask = do v ← read dev a; write a (bit_or (v % 2 ^ width) mask)

  unfoldable pub uart_init : Io (Unit {0})
  uart_init = set_mask 8 uart_ier (2 ^ 0) >> set_mask 8 uart_mcr (2 ^ 3)

  unfoldable pub plic_init : Csrs → Io Csrs
  plic_init c = do
    set_mask 32 (plic_priority uart_irq) 1
    set_mask 32 (plic_enable hart + uart_irq / 32 * 4) (2 ^ (uart_irq % 32))
    v ← read dev (plic_threshold hart)
    write (plic_threshold hart) (bit_and (v % 2 ^ 32) 0)
    pure (enable_external_interrupt c)

  unfoldable pub plic_claim : Io ℕ
  plic_claim = do v ← read dev (plic_claim_register hart); pure (v % 2 ^ 32)

  unfoldable pub plic_complete : ℕ → Io (Unit {0})
  plic_complete irq = write (plic_claim_register hart) (irq % 2 ^ 32)

  -- The calls of `start_kernel` between its message and its empty loop.
  unfoldable pub start_interrupts : Csrs → Io Csrs
  unfolding plic_init uart_init
  start_interrupts c = plic_init c >>= λ c'. uart_init >> pure (irq_enable c')
