-- ===== src/Tests/Sbi.antt =====
-- ex12 with a firmware that answers every call with its number.
use osc_2026_exercise.Base.{ℕ, arith}
use osc_2026_exercise.Mmio.{Device, Answers, Writes}
use osc_2026_exercise.Uart.{uart_lsr, lsr_tdrq}
use osc_2026_exercise.Uart.Puts.{sent}
use osc_2026_exercise.Sbi.{Arguments, start_kernel}
use osc_2026_exercise.Sbi.Start.{banner, start_kernel-Writes}

abbrev numbers : Arguments → ℕ × ℕ
numbers call = (0, call.a6)

abbrev prompt : Device
prompt = record { read = λ n a. 0x20 }

prompt-Answers : Answers prompt 1 (uart_lsr 0x10000000) lsr_tdrq
prompt-Answers n = (0, omega arith, omega arith)

start_kernel-Writes_example :
    Writes (start_kernel numbers prompt 0x10000000 1) (sent 0x10000000 (banner numbers))
start_kernel-Writes_example = start_kernel-Writes numbers prompt 0x10000000 1 prompt-Answers
