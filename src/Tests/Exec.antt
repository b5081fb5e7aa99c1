-- ===== src/Tests/Exec.antt =====
-- `exec` on the small archive of Tests/Cpio.antt. The strings that it compares with are taken
-- from the archive: "b" from the header of the second file, the name of the trailer from its own.
use osc_2026_exercise.Base.{ℕ, ◌+◌, refl, [], ◌∷◌, some, inr, arith}
use osc_2026_exercise.Mmio.{Device, Bus, Answers}
use osc_2026_exercise.Uart.{uart_lsr, lsr_tdrq}
use osc_2026_exercise.Uart.Ex41.{uart_base}
use osc_2026_exercise.Paging.User.{page_offset}
use osc_2026_exercise.Exec.Search.{AreSmall}
use osc_2026_exercise.Exec.Ex41 as Ex41
use osc_2026_exercise.Exec.Ex62 as Ex62
use osc_2026_exercise.Exec.Run62.{Runs62, exec62-Runs}
use osc_2026_exercise.Tests.Cpio.{archive, a_file, b_file, archive-IsArchive}

abbrev prompt : Device
prompt = record { read = λ n a. 0x21 }

prompt-Answers : Answers prompt 1 (uart_lsr uart_base) lsr_tdrq
prompt-Answers n = (0, omega arith, omega arith)

abbrev idle : Bus
idle = record { reads = 0; writes = [] }

abbrev trailer_at : ℕ
trailer_at = 0x1156

abbrev b_name : ℕ
b_name = 0x10e2

both-AreSmall : AreSmall (a_file ∷ b_file ∷ [])
both-AreSmall = (omega arith, omega arith, refl, (omega arith, omega arith, refl, tt))

exec41-Runs_example :
    Ex41.Runs41 prompt 1 0x122 archive
      (some (0x1074, b_file))
      (Ex41.exec prompt 1 0x122 archive trailer_at b_name 0x1000 3)
      idle
exec41-Runs_example =
    Ex41.exec41-Runs prompt 1 0x122 prompt-Answers (omega arith) archive trailer_at b_name 0x1000 3
      (b'b' ∷ []) (a_file ∷ b_file ∷ []) idle (omega arith) (omega arith) (omega arith)
      archive-IsArchive both-AreSmall refl (omega arith)

exec62-Runs_example : Runs62 0x80300000 0x1234 0x122 (some (0x1074, b_file)) (
    Ex62.exec
      (page_offset + 0x80300000)
      0x1234
      0x122
      trailer_at
      b_name
      0x1000
      3
      archive
      (record { word = λ q. 0; curr = page_offset + 0x80301234 }))
exec62-Runs_example =
    exec62-Runs 0x80300000 (page_offset + 0x80300000) 0x80301234 0x1234 0x122 (λ q. 0) archive
      (refl, omega arith) (omega arith) (omega arith) refl refl (omega arith) trailer_at b_name
      0x1000 3 (b'b' ∷ []) (a_file ∷ b_file ∷ []) (omega arith) (omega arith) (omega arith)
      archive-IsArchive both-AreSmall refl (omega arith)
      (omega arith, omega arith, inr (omega arith))
