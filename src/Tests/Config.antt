-- ===== src/Tests/Config.antt =====
-- A device that hands out a directory with one file, "etc/ramfb", and then takes what is written.
use osc_2026_exercise.Base.{
  ℕ, ◌+◌, ◌≤◌, ◌<◌, ◌≡◌, inl, inr, refl, ◌∙◌, arith, List, [], ◌∷◌, ◌++◌, replicate,
}
use osc_2026_exercise.Memory.{Memory, Holds}
use osc_2026_exercise.Fdt.Main.{bswap64}
use osc_2026_exercise.Mmio.{Device, Answers}
use osc_2026_exercise.Uart.{uart_lsr, lsr_tdrq}
use osc_2026_exercise.Uart.Puts.{sent}
use osc_2026_exercise.Uart.Ex52.{uart_base}
use osc_2026_exercise.Video.{word_at, big_endian, store_all, from_option, wait_loop, video_init}
use osc_2026_exercise.Video.Stored.{store_all-outside}
use osc_2026_exercise.Video.Config.{
  ConfigFile, ramfb_name, request, configuration, Spares, Serves, ServesDirectory,
  video_init-ServesDirectory,
}
use osc_2026_exercise.Tests.Utils.{memory_of}

-- The state of the device: what is left to hand out.
dma : (register : ℕ) → List (List ℕ) → Memory → List (List ℕ) × Memory
dma register [] m = ([], store_all m (bswap64 register) (big_endian 4 0))
dma register (bs ∷ left) m =
    let access = bswap64 register in
    (left, store_all (store_all m access (big_endian 4 0)) (word_at m 8 (access + 8)) bs)

-- It is done at once.
stay : List (List ℕ) → Memory → List (List ℕ) × Memory
stay d m = (d, m)

abbrev file_bytes : List ℕ
file_bytes = big_endian 4 28 ++ (big_endian 2 0x29 ++ (0 ∷ 0 ∷ (ramfb_name ++ replicate 47 0)))

abbrev ramfb : ConfigFile
ramfb = record { select = 0x29; name = ramfb_name }

-- What the device writes at 0x400 and behind leaves the structure at 0x200 and the name at 0x300.
abbrev handed : (bs : List ℕ) → (at : ℕ) → Memory → Memory
handed bs at m = store_all (store_all m 0x100 (big_endian 4 0)) at bs

handed-Spares :
    (bs : List ℕ) (at : ℕ) (m : Memory)
    → 0x400 ≤ at
    → Spares dma stay 0x100 1 0x200 0x300 0x400 0x500 m (handed bs at m)
handed-Spares bs at m far q inside =
    store_all-outside bs (store_all m 0x100 (big_endian 4 0)) at q (inl (ground arith))
    ∙ store_all-outside (big_endian 4 0) m 0x100 q (inr (ground arith))

-- The address of a request.
asked_for :
    (m : Memory) (control size address : ℕ)
    → address < 0x10000
    → Holds m 0x100 (request control size address)
    → word_at m 8 0x108 ≡ address
asked_for m control size address small asked = omega (arith, asked)

ramfb-Serves : Serves dma stay 0x100 1 0x200 0x300 0x400 0x500 (file_bytes ∷ []) (ramfb ∷ [])
unfolding dma
ramfb-Serves m asked = (
  [],
  handed file_bytes 0x500 m,
  (0, omega arith, rw (asked_for m 0x2 64 0x500 (omega arith) asked) (refl, refl, refl)),
  record { has_select = refl; has_name = omega arith; is_name = omega arith; is_key = omega arith },
  handed-Spares file_bytes 0x500 m (omega arith),
  tt,
)

ramfb-ServesDirectory :
    ServesDirectory dma stay 0x100 1 0x200 0x300 0x400 0x500
      (big_endian 4 1 ∷ file_bytes ∷ [])
      (ramfb ∷ [])
unfolding dma
ramfb-ServesDirectory m asked = (
  file_bytes ∷ [],
  handed (big_endian 4 1) 0x400 m,
  (0, omega arith, rw (asked_for m 0x19000a 4 0x400 (omega arith) asked) (refl, refl, refl)),
  refl,
  handed-Spares (big_endian 4 1) 0x400 m (omega arith),
  ramfb-Serves,
)

abbrev with_name : Memory
with_name = memory_of 0x300 (ramfb_name ++ 0 ∷ [])

abbrev console : Device
console = record { read = λ n a. 0x20 }

console-Answers : Answers console 1 (uart_lsr uart_base) lsr_tdrq
console-Answers n = (0, omega arith, omega arith)

video_init-ServesDirectory_example :
    (d : List (List ℕ)) × (m : Memory) × (r : ℕ) × (video_init dma stay 0x100 1 console 1 0x200
        0x300 0x400 0x500
        (big_endian 4 1 ∷ file_bytes ∷ [])
        with_name
        (record { reads = 0; writes = [] })
      ≡ from_option
          (wait_loop dma stay 0x100 1 (dma (bswap64 0x100) d m).0 (dma (bswap64 0x100) d m).1)
          (record {
            reads = r;
            writes = sent uart_base (b'f' ∷ b'i' ∷ b'n' ∷ b'd' ∷ b'\r' ∷ b'\n' ∷ []);
          }))
    × Holds m 0x100 (request 0x290018 28 0x200)
    × Holds m 0x200 configuration
video_init-ServesDirectory_example =
    video_init-ServesDirectory dma stay 0x100 1 0x200 0x300 0x400 0x500 (inl (omega arith))
      (inl (omega arith)) console 1 console-Answers (ramfb ∷ []) (big_endian 4 1 ∷ file_bytes ∷ [])
      with_name (record { reads = 0; writes = [] }) ramfb-ServesDirectory (omega arith)
      (inl (omega arith)) (inr (omega arith)) (inr (omega arith))
