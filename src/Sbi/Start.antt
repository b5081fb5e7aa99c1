-- ===== src/Sbi/Start.antt =====
-- What ex12/main.c asks the firmware and prints.
use osc_2026_exercise.Base.{ℕ, List, [], ◌∷◌, ◌++◌, arith}
use osc_2026_exercise.Mmio.{Device, Answers, Writes}
use osc_2026_exercise.Uart.{uart_lsr, lsr_tdrq}
use osc_2026_exercise.Uart.Puts.{sent}
use osc_2026_exercise.Uart.Hex.{hex_text}
use osc_2026_exercise.Uart.Report.{report-Writes}
use osc_2026_exercise.Sbi.{
  Arguments, SbiExtBaseFid, fid_number, get_spec_version, probe_ext, sbi_ext_base,
  sbi_ext_set_timer, sbi_ext_shutdown, sbi_ecall, sbi_get_spec_version, sbi_probe_extension,
  messages, start_kernel,
}

-- A call of the base extension.
abbrev pub base_call : SbiExtBaseFid → ℕ → Arguments
base_call fid arg = record {
  a0 = arg;
  a1 = 0;
  a2 = 0;
  a3 = 0;
  a4 = 0;
  a5 = 0;
  a6 = fid_number fid;
  a7 = sbi_ext_base;
}

-- A line of the terminal: a text and a word of sixteen digits behind it.
abbrev pub word_line : List ℕ → ℕ → List ℕ
word_line cs v = cs ++ (b'0' ∷ b'x' ∷ hex_text 16 v) ++ (b'\r' ∷ b'\n' ∷ [])

-- What the terminal has to show: an empty line, the greeting, the version and the two probes.
abbrev pub banner : (Arguments → ℕ × ℕ) → List ℕ
banner firmware =
    (b'\r' ∷ b'\n' ∷ b'S' ∷ b't' ∷ b'a' ∷ b'r' ∷ b't' ∷ b'i' ∷ b'n' ∷ b'g' ∷ b' ' ∷ b'k' ∷ b'e'
      ∷ b'r' ∷ b'n' ∷ b'e' ∷ b'l' ∷ b' ' ∷ b'.' ∷ b'.' ∷ b'.' ∷ b'\r' ∷ b'\n' ∷ [])
    ++ word_line
        (b'S' ∷ b'B' ∷ b'I' ∷ b' ' ∷ b's' ∷ b'p' ∷ b'e' ∷ b'c' ∷ b'i' ∷ b'f' ∷ b'i' ∷ b'c' ∷ b'a'
          ∷ b't' ∷ b'i' ∷ b'o' ∷ b'n' ∷ b' ' ∷ b'v' ∷ b'e' ∷ b'r' ∷ b's' ∷ b'i' ∷ b'o' ∷ b'n' ∷ b':'
          ∷ b' ' ∷ [])
        (firmware (base_call get_spec_version 0)).1
    ++ word_line
        (b'P' ∷ b'r' ∷ b'o' ∷ b'b' ∷ b'e' ∷ b' ' ∷ b'S' ∷ b'e' ∷ b't' ∷ b' ' ∷ b'T' ∷ b'i' ∷ b'm'
          ∷ b'e' ∷ b'r' ∷ b':' ∷ b' ' ∷ [])
        (firmware (base_call probe_ext sbi_ext_set_timer)).1
    ++ word_line
        (b'P' ∷ b'r' ∷ b'o' ∷ b'b' ∷ b'e' ∷ b' ' ∷ b'S' ∷ b'h' ∷ b'u' ∷ b't' ∷ b'd' ∷ b'o' ∷ b'w'
          ∷ b'n' ∷ b':' ∷ b' ' ∷ b' ' ∷ [])
        (firmware (base_call probe_ext sbi_ext_shutdown)).1

-- With a device that answers, `start_kernel` comes to its loop and has sent the terminal the greeting
-- and three lines, each with the second word of an answer of the firmware in sixteen digits: "SBI
-- specification version: " with that to the call number 0 of the base extension, "Probe Set
-- Timer: " and "Probe Shutdown:  " with those to the call number 3 about the extensions 0 and 8.
pub start_kernel-Writes :
    (firmware : Arguments → ℕ × ℕ) (dev : Device) (base rounds : ℕ)
    → Answers dev rounds (uart_lsr base) lsr_tdrq
    → Writes (start_kernel firmware dev base rounds) (sent base (banner firmware))
unfolding start_kernel sbi_ecall sbi_get_spec_version sbi_probe_extension
start_kernel-Writes firmware dev base rounds answers =
    report-Writes dev base rounds answers (messages firmware) (omega arith)
