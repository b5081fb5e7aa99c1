-- ===== src/Uart/Ex62.antt =====
-- The console of ex62/uart.c: the driver at the base address of that program.
use osc_2026_exercise.Base.{ℕ, List}
use osc_2026_exercise.Mmio.{Device, Io}
use osc_2026_exercise.Uart

abbrev pub uart_base : ℕ
uart_base = 0xffffffc010000000

module _ (dev : Device) (rounds : ℕ) where
  abbrev pub uart_getc : Io ℕ
  uart_getc = Uart.uart_getc dev uart_base rounds

  abbrev pub uart_putc : ℕ → Io (Unit {0})
  uart_putc = Uart.uart_putc dev uart_base rounds

  abbrev pub uart_puts : List ℕ → Io (Unit {0})
  uart_puts = Uart.uart_puts dev uart_base rounds

  abbrev pub uart_hex : ℕ → Io (Unit {0})
  uart_hex = Uart.uart_hex dev uart_base rounds
