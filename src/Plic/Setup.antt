-- ===== src/Plic/Setup.antt =====
-- What the set-up of ex42/main.c leaves in the device and in the control registers.
use osc_2026_exercise.Base.{
  ℕ, zero, suc, ◌+◌, ◌*◌, ◌/◌, ◌%◌, ◌^◌, ◌≡◌, ap, ◌∙◌, List, [], ◌∷◌, ◌++◌, some, bit_or,
}
use mathlib.Core.List.{append_assoc}
use osc_2026_exercise.Bits.{SetBit, bit_or-SetBit, bit_and-zero}
use osc_2026_exercise.Mmio.{Device, Bus, read, write}
use osc_2026_exercise.Plic.{
  uart_ier, uart_mcr, uart_irq, plic_priority, plic_enable, plic_threshold, Csrs, set_mask,
  uart_init, plic_init, start_interrupts,
}

-- The word of the enable bits that has the line's bit.
abbrev pub enable_word : ℕ → ℕ
enable_word hart = plic_enable hart + uart_irq / 32 * 4

-- The number of the read that is so many reads later.
abbrev pub later : ℕ → ℕ → ℕ
later zero n = n
later (suc k) n = later k (n + 1)

five_writes :
    (w : List (ℕ × ℕ)) (a b c d e : ℕ × ℕ)
    → ((((w ++ a ∷ []) ++ b ∷ []) ++ c ∷ []) ++ d ∷ []) ++ e ∷ [] ≡ w ++ a ∷ b ∷ c ∷ d ∷ e ∷ []
five_writes w a b c d e = simp append_assoc

-- The set-up ends on every device, with a write for each of five registers: the priority of
-- the line's interrupt is odd, so not 0, its bit among the enabled ones of the hart and the bits
-- of the UART for received data and for interrupts are set, each in the value that was read,
-- and the threshold is 0. In the control registers the bits for external and for supervisor
-- interrupts are set, and no other bit changes.
pub start_interrupts_lem :
    (dev : Device) (hart : ℕ) (c : Csrs) (s : Bus)
    → (c' : Csrs) × (r p e i m : ℕ) × (start_interrupts dev hart c s
        ≡ some (
          c',
          record {
            reads = r;
            writes =
                s.writes
                ++ (plic_priority uart_irq, p)
                  ∷ (enable_word hart, e)
                  ∷ (plic_threshold hart, 0)
                  ∷ (uart_ier, i)
                  ∷ (uart_mcr, m)
                  ∷ [];
          },
        ))
      × SetBit 0 (dev.read s.reads (plic_priority uart_irq) % 2 ^ 32) p
      × SetBit 10 (dev.read (later 1 s.reads) (enable_word hart) % 2 ^ 32) e
      × SetBit 0 (dev.read (later 3 s.reads) uart_ier % 2 ^ 8) i
      × SetBit 3 (dev.read (later 4 s.reads) uart_mcr % 2 ^ 8) m
      × SetBit 9 c.sie c'.sie
      × SetBit 1 c.sstatus c'.sstatus
unfolding start_interrupts plic_init uart_init set_mask read write
start_interrupts_lem dev hart c s =
    let v1 = dev.read s.reads (plic_priority uart_irq) % 2 ^ 32 in
    let v2 = dev.read (later 1 s.reads) (enable_word hart) % 2 ^ 32 in
    let v3 = dev.read (later 2 s.reads) (plic_threshold hart) % 2 ^ 32 in
    let v4 = dev.read (later 3 s.reads) uart_ier % 2 ^ 8 in
    let v5 = dev.read (later 4 s.reads) uart_mcr % 2 ^ 8 in
    (
      record { sstatus = bit_or c.sstatus (2 ^ 1); sie = bit_or c.sie (2 ^ 9) },
      later 5 s.reads,
      bit_or v1 (2 ^ 0),
      bit_or v2 (2 ^ 10),
      bit_or v4 (2 ^ 0),
      bit_or v5 (2 ^ 3),
      ap
          (λ (l : List (ℕ × ℕ)). some (
            record { sstatus = bit_or c.sstatus (2 ^ 1); sie = bit_or c.sie (2 ^ 9) },
            record { reads = later 5 s.reads; writes = l },
          ))
          (five_writes s.writes _ _ _ _ _
            ∙ ap
                (λ (t : ℕ).
                  s.writes
                  ++ (plic_priority uart_irq, bit_or v1 (2 ^ 0))
                    ∷ (enable_word hart, bit_or v2 (2 ^ 10))
                    ∷ (plic_threshold hart, t)
                    ∷ (uart_ier, bit_or v4 (2 ^ 0))
                    ∷ (uart_mcr, bit_or v5 (2 ^ 3))
                    ∷ [])
                (bit_and-zero v3)),
      bit_or-SetBit 0 v1,
      bit_or-SetBit 10 v2,
      bit_or-SetBit 0 v4,
      bit_or-SetBit 3 v5,
      bit_or-SetBit 9 c.sie,
      bit_or-SetBit 1 c.sstatus,
    )
