-- ===== src/Uart/First.antt =====
-- The driver of ex11/main.c: the same registers as ex12/uart.c, but a line feed behind each
-- carriage return, and no change of what is received.
use osc_2026_exercise.Base.{
  ℕ, ◌≡◌, List, [], ◌∷◌, ◌++◌, ◌==◌, if◌then◌else◌, arith, Bool-cases, inl, inr, false,
}
use mathlib.Core.List.{map-append}
use osc_2026_exercise.Mmio.{
  Device, Io, pure, ◌>>◌, read, poll, Answers, Writes, Writes-pure, Writes-then,
}
use osc_2026_exercise.Text.{IsString}
use osc_2026_exercise.Uart.{uart_lsr, uart_rbr, lsr_tdrq, lsr_dr, transmit}
use osc_2026_exercise.Uart.Puts.{sent, transmit-Writes}

abbrev pub first_base : ℕ
first_base = 0x10000000

module _ (dev : Device) (rounds : ℕ) where
  unfoldable pub uart_getc : Io ℕ
  uart_getc = do poll dev rounds (uart_lsr first_base) lsr_dr; read dev (uart_rbr first_base)

  -- The call for `'\n'` makes no further call.
  unfoldable pub uart_putc : ℕ → Io (Unit {0})
  uart_putc c =
      transmit dev first_base rounds c
      >> (if c == b'\r' then transmit dev first_base rounds b'\n' else pure tt)

  -- A NUL ends the string.
  unfoldable pub uart_puts : List ℕ → Io (Unit {0})
  uart_puts [] = pure tt
  uart_puts (c ∷ cs) = if c == 0 then pure tt else uart_putc c >> uart_puts cs

-- What a terminal is sent for a byte, and for a string.
abbrev pub returned_char : ℕ → List ℕ
returned_char c = c ∷ (if c == b'\r' then b'\n' ∷ [] else [])

abbrev pub returned : List ℕ → List ℕ
returned [] = []
returned (c ∷ cs) = returned_char c ++ returned cs

module _ (dev : Device) (rounds : ℕ)
    (answers : Answers dev rounds (uart_lsr first_base) lsr_tdrq) where
  putc-Writes : (c : ℕ) → Writes (uart_putc dev rounds c) (sent first_base (returned_char c))
  unfolding uart_putc
  putc-Writes c =
      Writes-then (transmit dev first_base rounds c)
        (if c == b'\r' then transmit dev first_base rounds b'\n' else pure tt)
        (sent first_base (c ∷ [])) (sent first_base (if c == b'\r' then b'\n' ∷ [] else []))
        (transmit-Writes dev first_base rounds answers c)
        (elim (Bool-cases (c == b'\r')) [
          | inl return ↦ rw return (transmit-Writes dev first_base rounds answers b'\n')
          | inr other ↦ rw other Writes-pure
        ])

  -- If the device reports its transmitter ready within `rounds` status reads from any time on,
  -- `uart_puts` of ex11 ends for every string, and writes its bytes in order to the transmit
  -- register, a line feed behind each carriage return, and nothing else.
  pub puts-Writes :
      (cs : List ℕ) → IsString cs → Writes (uart_puts dev rounds cs) (sent first_base (returned cs))
  unfolding uart_puts
  puts-Writes [] h = Writes-pure
  puts-Writes (c ∷ cs) h =
      let e : (c == 0) ≡ false = ground arith in
      rw (e, map-append)
        (Writes-then (uart_putc dev rounds c) (uart_puts dev rounds cs)
          (sent first_base (returned_char c)) (sent first_base (returned cs)) (putc-Writes c)
          (puts-Writes cs h.1))
