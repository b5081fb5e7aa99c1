-- ===== src/Fdt.antt =====
-- The reader of the device tree blob in ex21/main.c: `fdt_getprop`. The blob is a part of the
-- memory at the address `fdt`; an offset is an `uint32_t`.
pub mod Props
pub mod Offset
pub mod Tree
pub mod Walk
pub mod Names
pub mod Main
pub mod Run
use osc_2026_exercise.Base.{
  ℕ, zero, suc, ◌+◌, ◌-◌, ◌*◌, ◌/◌, ◌%◌, ◌^◌, Option, none, some, List, [], ◌∷◌, Bool, true, false,
  ◌==◌, if◌then◌else◌, length,
}
use osc_2026_exercise.Memory.{Memory}
use osc_2026_exercise.Text.{is_string, c_string}
use osc_2026_exercise.Utils.Align.{align_up}
use osc_2026_exercise.Paging.{◌>>=◌}

abbrev pub fdt_prop : ℕ
fdt_prop = 0x3

-- The fields of `struct fdt_header` that are read.
abbrev pub off_dt_strings : ℕ
off_dt_strings = 12

abbrev pub bswap32 : ℕ → ℕ
bswap32 x =
    x % 2 ^ 8 * 2 ^ 24
    + x / 2 ^ 8 % 2 ^ 8 * 2 ^ 16
    + x / 2 ^ 16 % 2 ^ 8 * 2 ^ 8
    + x / 2 ^ 24 % 2 ^ 8

-- `*(uint32_t*)a`, the low byte first.
abbrev pub load32 : Memory → ℕ → ℕ
load32 m a = m a + m (a + 1) * 2 ^ 8 + m (a + 2) * 2 ^ 16 + m (a + 3) * 2 ^ 24

module _ (m : Memory) (fdt : ℕ) where
  -- The cell at an offset.
  unfoldable pub cell : ℕ → ℕ
  cell off = bswap32 (load32 m ((fdt + off) % 2 ^ 64))

  -- An address, aligned, as an offset.
  unfoldable pub align_off : ℕ → ℕ
  align_off off = (align_up ((fdt + off) % 2 ^ 64) 4 + 2 ^ 64 - fdt) % 2 ^ 64 % 2 ^ 32

  -- The loop on fuel; `some none` is NULL. A value has its address and its length.
  unfoldable pub prop_loop : (name : List ℕ) → (fuel cur_off : ℕ) → Option (Option (ℕ × ℕ))
  unfolding cell align_off
  prop_loop name zero cur_off = none
  prop_loop name (suc n) cur_off =
      let value_len = cell (cur_off + 4) in
      let name_off = cell (cur_off + 8) in
      let rest = prop_loop name n (align_off (cur_off + 0xc + value_len)) in
      if cell cur_off == fdt_prop
      then (if is_string m name (fdt + cell off_dt_strings + name_off)
          then some (some (fdt + cur_off + 0xc, value_len))
          else rest)
      else some none

  -- `limit` bounds the name of the node.
  unfoldable pub fdt_getprop :
      (limit nodeoffset : ℕ) → (name : List ℕ) → (fuel : ℕ) → Option (Option (ℕ × ℕ))
  unfolding align_off prop_loop
  fdt_getprop limit nodeoffset name fuel = c_string m limit (fdt + nodeoffset + 4) >>= λ node_name.
      prop_loop name fuel (align_off (nodeoffset + 4 + length node_name + 1))
