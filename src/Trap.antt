-- ===== src/Trap.antt =====
-- The trap entry and exit of ex41/start.S, which ex42, ex51 and ex62 hold unchanged: a hart by its
-- registers, and the words of memory by their address. The C function that is called between
-- entry and exit is a parameter, given by what it does to the words of memory.
pub mod Frame
pub mod Transparent
pub mod Ex41
pub mod Ex42
pub mod Ex62
use osc_2026_exercise.Base.{
  ℕ, ◌+◌, ◌*◌, ◌-◌, ◌%◌, ◌^◌, List, [], ◌∷◌, bit_and, ◌==◌, ltb, if◌then◌else◌,
}
use osc_2026_exercise.Mmio.{Io, pure, ◌>>=◌}
use osc_2026_exercise.Sched.{put}

-- The registers by their numbers.
abbrev pub sp : ℕ
sp = 2

abbrev pub s0 : ℕ
s0 = 8

abbrev pub s1 : ℕ
s1 = 9

abbrev pub s2 : ℕ
s2 = 18

abbrev pub s3 : ℕ
s3 = 19

abbrev pub s4 : ℕ
s4 = 20

abbrev pub a0 : ℕ
a0 = 10

-- `struct pt_regs`, by the fields' places in it.
abbrev pub frame_words : ℕ
frame_words = 35

-- The registers `ra`, `gp`, `tp`, `t0` to `t2`, `s0`, `s1`, `a0` to `a7`, `s2` to `s11`, `t3` to
-- `t6`, each with its place in the frame.
abbrev pub saved_registers : List (ℕ × ℕ)
saved_registers =
    (1, 0)
    ∷ (3, 2)
    ∷ (4, 3)
    ∷ (5, 4)
    ∷ (6, 5)
    ∷ (7, 6)
    ∷ (8, 7)
    ∷ (9, 8)
    ∷ (10, 9)
    ∷ (11, 10)
    ∷ (12, 11)
    ∷ (13, 12)
    ∷ (14, 13)
    ∷ (15, 14)
    ∷ (16, 15)
    ∷ (17, 16)
    ∷ (18, 17)
    ∷ (19, 18)
    ∷ (20, 19)
    ∷ (21, 20)
    ∷ (22, 21)
    ∷ (23, 22)
    ∷ (24, 23)
    ∷ (25, 24)
    ∷ (26, 25)
    ∷ (27, 26)
    ∷ (28, 27)
    ∷ (29, 28)
    ∷ (30, 29)
    ∷ (31, 30)
    ∷ []

-- The second group of stores: what was read from the control registers.
abbrev pub saved_controls : List (ℕ × ℕ)
saved_controls = (s0, 1) ∷ (s1, 31) ∷ (s2, 32) ∷ (s3, 33) ∷ (s4, 34) ∷ []

pub record Hart : Type 0 where
  pub x : ℕ → ℕ
  pub pc : ℕ
  pub sscratch : ℕ
  pub sepc : ℕ
  pub sstatus : ℕ
  pub scause : ℕ
  pub stval : ℕ
  pub word : ℕ → ℕ

-- `8 * slot(base)`
abbrev pub slot_address : ℕ → ℕ → ℕ
slot_address base slot = (base + 8 * slot) % 2 ^ 64

-- A run of `sd r, 8 * slot(base)`.
unfoldable pub sd_all : List (ℕ × ℕ) → ℕ → (ℕ → ℕ) → (ℕ → ℕ) → ℕ → ℕ
sd_all [] base x word = word
sd_all ((r, slot) ∷ rest) base x word = sd_all rest base x (put word (slot_address base slot) (x r))

-- A run of `ld r, 8 * slot(base)`.
unfoldable pub ld_all : List (ℕ × ℕ) → ℕ → (ℕ → ℕ) → (ℕ → ℕ) → ℕ → ℕ
ld_all [] base word x = x
ld_all ((r, slot) ∷ rest) base word x =
    ld_all rest base word (put x r (word (slot_address base slot)))

-- `csrrw sp, sscratch, sp`, and `csrr sp, sscratch` unless the branch is taken.
pub swap_stack : Hart → Hart
swap_stack h =
    let swapped = record h { x = put h.x sp h.sscratch; sscratch = h.x sp } in
    if swapped.x sp == 0 then record swapped { x = put swapped.x sp swapped.sscratch } else swapped

-- From `save_context` to the call, `do_trap` having the frame as its argument.
pub save_context : Hart → Hart
save_context h =
    let lowered = put h.x sp ((h.x sp + 2 ^ 64 - 8 * frame_words) % 2 ^ 64) in
    let word1 = sd_all saved_registers (lowered sp) lowered h.word in
    let x1 =
      put (put (put (put (put lowered s0 h.sscratch) s1 h.sepc) s2 h.sstatus) s3 h.scause) s4
        h.stval in
    let word2 = sd_all saved_controls (x1 sp) x1 word1 in
    record h { x = put x1 a0 (x1 sp); sscratch = 0; word = word2 }

-- From `ret_from_exception` to `sret`, which goes on at `sepc`.
pub ret_from_exception : Hart → Hart
ret_from_exception h =
    let base = h.x sp in
    let status = bit_and (h.word (slot_address base 32)) (2 ^ 8) in
    let above = (base + 8 * frame_words) % 2 ^ 64 in
    let scratch = if status == 0 then above else h.sscratch in
    let x1 = put h.x s0 (if status == 0 then above else status) in
    let x2 = ld_all ((s1, 31) ∷ (s2, 32) ∷ []) base h.word x1 in
    let x3 = ld_all saved_registers base h.word x2 in
    let x4 = ld_all ((sp, 1) ∷ []) base h.word x3 in
    record h { x = x4; pc = x2 s1; sscratch = scratch; sepc = x2 s1; sstatus = x2 s2 }

-- A call of a C function with the argument in `a0`: it leaves its registers and the words below
-- the stack pointer as it likes, but the stack pointer as it was.
module _ (registers : ℕ → ℕ) (below : ℕ → ℕ) (do_trap : ℕ → (ℕ → ℕ) → Io (ℕ → ℕ)) where
  pub call : Hart → Io Hart
  call h = do
    word ← do_trap (h.x a0) h.word
    pure (record h {
      x = put registers sp (h.x sp);
      word = λ a. if ltb a (h.x sp) then below a else word a;
    })

  unfoldable pub handle_exception : Hart → Io Hart
  unfolding call save_context swap_stack ret_from_exception
  handle_exception h = call (save_context (swap_stack h)) >>= λ h'. pure (ret_from_exception h')
