-- ===== src/Uart/Report.antt =====
-- A run of calls of `uart_puts` and `uart_hex`, as the handlers of ex41, ex42 and ex62 and the
-- start of ex12 make them, as a list.
use osc_2026_exercise.Base.{ℕ, ◌≡◌, refl, List, [], ◌∷◌, ◌++◌, some}
use mathlib.Core.List.{map-append}
use osc_2026_exercise.Mmio.{
  Device, Io, Bus, pure, ◌>>=◌, ◌>>◌, Answers, Writes, Writes-pure, Writes-then,
}
use osc_2026_exercise.Text.{IsString}
use osc_2026_exercise.Uart.{uart_lsr, lsr_tdrq, uart_puts, uart_hex}
use osc_2026_exercise.Uart.Puts.{sent, crlf, uart_puts-Writes}
use osc_2026_exercise.Uart.Hex.{hex_text, uart_hex-Writes}

pub data Print : Type 0 where
  puts : List ℕ → Print
  hex : ℕ → Print

module _ (dev : Device) (base rounds : ℕ) where
  abbrev pub print : Print → Io (Unit {0})
  print (puts cs) = uart_puts dev base rounds cs
  print (hex h) = uart_hex dev base rounds h

  unfoldable pub report : List Print → Io (Unit {0})
  report [] = pure tt
  report (p ∷ ps) = print p >> report ps

-- What the terminal is sent.
abbrev pub print_text : Print → List ℕ
print_text (puts cs) = crlf cs
print_text (hex h) = b'0' ∷ b'x' ∷ hex_text 16 h

abbrev pub text : List Print → List ℕ
text [] = []
text (p ∷ ps) = print_text p ++ text ps

-- The constants are strings.
abbrev pub Printable : List Print → Type 0
Printable [] = Unit
Printable (puts cs ∷ ps) = IsString cs × Printable ps
Printable (hex h ∷ ps) = Printable ps

module _ (dev : Device) (base rounds : ℕ)
    (answers : Answers dev rounds (uart_lsr base) lsr_tdrq) where
  pub report-Writes :
      (ps : List Print) → Printable ps → Writes (report dev base rounds ps) (sent base (text ps))
  unfolding report
  report-Writes [] h = Writes-pure
  report-Writes (puts cs ∷ ps) h = rw map-append (
      Writes-then (uart_puts dev base rounds cs) (report dev base rounds ps) (sent base (crlf cs))
        (sent base (text ps)) (uart_puts-Writes dev base rounds answers cs h.0)
        (report-Writes ps h.1))
  report-Writes (hex n ∷ ps) h =
      Writes-then (uart_hex dev base rounds n) (report dev base rounds ps)
        (sent base (b'0' ∷ b'x' ∷ hex_text 16 n)) (sent base (text ps))
        (uart_hex-Writes dev base rounds answers n) (report-Writes ps h)

  -- The same with a result behind it.
  pub report_then :
      {A : Type 0} (ps : List Print) (v : A) (s : Bus)
      → Printable ps
      → (r : ℕ) × ((report dev base rounds ps >>= λ _. pure v) s
          ≡ some (v, record { reads = r; writes = s.writes ++ sent base (text ps) }))
  report_then ps v s h = let (r, e) = report-Writes ps h s in (r, rw e refl)
