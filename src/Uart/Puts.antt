-- ===== src/Uart/Puts.antt =====
-- What the driver of ex12/uart.c sends, when the device keeps answering.
use osc_2026_exercise.Base.{
  ℕ, ◌+◌, ◌≡◌, List, [], ◌∷◌, ◌++◌, map, ◌==◌, if◌then◌else◌, arith, Bool-cases, inl, inr, false,
}
use mathlib.Core.List.{map-append}
use osc_2026_exercise.Mmio.{
  Device, Answers, Writes, Writes-pure, Writes-then, Writes-write, Writes-poll, write, poll,
}
use osc_2026_exercise.Text.{IsString}
use osc_2026_exercise.Uart.{uart_lsr, lsr_tdrq, transmit, uart_putc, uart_puts}

-- What a terminal is sent for a byte: a carriage return before a line feed.
abbrev pub crlf_char : ℕ → List ℕ
crlf_char c = if c == b'\n' then b'\r' ∷ c ∷ [] else c ∷ []

abbrev pub crlf : List ℕ → List ℕ
crlf [] = []
crlf (c ∷ cs) = crlf_char c ++ crlf cs

-- The bytes as writes of the transmit register.
abbrev pub sent : ℕ → List ℕ → List (ℕ × ℕ)
sent base cs = map (λ c. (base + 0x0, c)) cs

module _ (dev : Device) (base rounds : ℕ)
    (answers : Answers dev rounds (uart_lsr base) lsr_tdrq) where
  pub transmit-Writes : (c : ℕ) → Writes (transmit dev base rounds c) (sent base (c ∷ []))
  unfolding transmit
  transmit-Writes c =
      Writes-then (poll dev rounds (base + 0x5) lsr_tdrq) (write (base + 0x0) c) []
        (sent base (c ∷ [])) (Writes-poll dev rounds (base + 0x5) lsr_tdrq answers)
        (Writes-write (base + 0x0) c)

  -- A line feed goes out behind a carriage return, any other byte as it is.
  pub uart_putc-Writes : (c : ℕ) → Writes (uart_putc dev base rounds c) (sent base (crlf_char c))
  unfolding uart_putc
  uart_putc-Writes c = elim (Bool-cases (c == b'\n')) [
    | inl newline ↦ rw newline (
        Writes-then (transmit dev base rounds b'\r') (transmit dev base rounds c)
          (sent base (b'\r' ∷ [])) (sent base (c ∷ [])) (transmit-Writes b'\r') (transmit-Writes c))
    | inr other ↦ rw other (transmit-Writes c)
  ]

  -- If the device reports its transmitter ready within `rounds` status reads from any time on,
  -- `uart_puts` of a string ends, and writes its bytes in order to the transmit register, each
  -- line feed behind a carriage return, and nothing else.
  pub uart_puts-Writes :
      (cs : List ℕ) → IsString cs → Writes (uart_puts dev base rounds cs) (sent base (crlf cs))
  unfolding uart_puts
  uart_puts-Writes [] h = Writes-pure
  uart_puts-Writes (c ∷ cs) h =
      let e : (c == 0) ≡ false = ground arith in
      rw (e, map-append)
        (Writes-then (uart_putc dev base rounds c) (uart_puts dev base rounds cs)
          (sent base (crlf_char c)) (sent base (crlf cs)) (uart_putc-Writes c)
          (uart_puts-Writes cs h.1))
