-- ===== src/Tests/Uart.antt =====
-- The UART drivers on a device that is always ready and always receives the same byte.
use osc_2026_exercise.Base.{ℕ, ◌≡◌, refl, List, [], ◌∷◌, some, length, arith}
use osc_2026_exercise.Mmio.{Device, Bus, Answers, Writes, poll, read}
use osc_2026_exercise.Uart.{uart_lsr, lsr_tdrq, uart_getc, uart_hex}
use osc_2026_exercise.Uart.Puts.{sent}
use osc_2026_exercise.Uart.Hex.{hex_value, IsNumeral, uart_hex_reads_back}

abbrev uart_base : ℕ
uart_base = 0x10000000

abbrev always : Device
always = record { read = λ n a. 0x21 }

abbrev idle_bus : Bus
idle_bus = record { reads = 0; writes = [] }

always-Answers : Answers always 1 (uart_lsr uart_base) lsr_tdrq
always-Answers n = (0, omega arith, omega arith)

gets : uart_getc always uart_base 1 idle_bus ≡ some (0x21, record { reads = 2; writes = [] })
unfolding uart_getc poll read
gets = refl

uart_hex_reads_back_example :
    (cs : List ℕ) × (length cs ≡ 16)
    × IsNumeral cs
    × (hex_value 0 cs ≡ 0xdeadbeef)
    × Writes (uart_hex always uart_base 1 0xdeadbeef) (sent uart_base (b'0' ∷ b'x' ∷ cs))
uart_hex_reads_back_example =
    uart_hex_reads_back always uart_base 1 always-Answers 0xdeadbeef (omega arith)
