-- ===== src/Uart.antt =====
-- The UART drivers: ex12/uart.c, which ex41, ex51 and ex52 hold unchanged, ex42/uart.c and the
-- copies of ex61 and ex62 at another base address; First is the driver of ex11/main.c.
-- A `char` is a byte, as on RISC-V; a string is the list of its bytes before the NUL.
pub mod Hex
pub mod First
pub mod Report
pub mod Puts
pub mod Ex62
pub mod Ex61
pub mod Ex52
pub mod Ex51
pub mod Ex42
pub mod Ex41
use osc_2026_exercise.Base.{
  ℕ, zero, suc, ◌+◌, ◌*◌, ◌/◌, ◌^◌, Bool, List, [], ◌∷◌, bit_and, ltb, ◌==◌, if◌then◌else◌,
}
use osc_2026_exercise.Mmio.{Device, Io, pure, ◌>>=◌, ◌>>◌, read, write, poll}

abbrev pub lsr_dr : ℕ
lsr_dr = 1

abbrev pub lsr_tdrq : ℕ
lsr_tdrq = 2 ^ 5

abbrev pub uart_rbr : ℕ → ℕ
uart_rbr base = base + 0x0

abbrev pub uart_thr : ℕ → ℕ
uart_thr base = base + 0x0

abbrev pub uart_lsr : ℕ → ℕ
uart_lsr base = base + 0x5

-- `n += n > 9 ? 0x57 : '0'`
abbrev pub hex_char : ℕ → ℕ
hex_char n = if ltb 9 n then n + 0x57 else n + b'0'

-- `base` is `UART_BASE`, and `rounds` bounds each wait for the line status.
module _ (dev : Device) (base rounds : ℕ) where
  -- The wait and the store of `uart_putc`.
  unfoldable pub transmit : ℕ → Io (Unit {0})
  transmit c = poll dev rounds (uart_lsr base) lsr_tdrq >> write (uart_thr base) c

  unfoldable pub uart_getc : Io ℕ
  uart_getc = do
    poll dev rounds (uart_lsr base) lsr_dr
    c ← read dev (uart_rbr base)
    pure (if c == b'\r' then b'\n' else c)

  -- The call `uart_putc('\r')` makes no further call, since `'\r'` is not `'\n'`.
  unfoldable pub uart_putc : ℕ → Io (Unit {0})
  uart_putc c = if c == b'\n' then transmit b'\r' >> transmit c else transmit c

  -- A NUL ends the string.
  unfoldable pub uart_puts : List ℕ → Io (Unit {0})
  uart_puts [] = pure tt
  uart_puts (c ∷ cs) = if c == 0 then pure tt else uart_putc c >> uart_puts cs

  -- The loop of `uart_hex` with `k` rounds left, so at `c = 4 * (k - 1)`.
  pub hex_loop : ℕ → ℕ → Io (Unit {0})
  hex_loop zero h = pure tt
  hex_loop (suc k) h = uart_putc (hex_char (bit_and (h / 2 ^ (4 * k)) 0xf)) >> hex_loop k h

  unfoldable pub uart_hex : ℕ → Io (Unit {0})
  unfolding hex_loop
  uart_hex h = uart_puts (b'0' ∷ b'x' ∷ []) >> hex_loop 16 h
