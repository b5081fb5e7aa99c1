-- ===== src/Video.antt =====
-- ex52/video.c: the configuration of the frame buffer by fw_cfg, and the copy of a picture into its
-- middle. The device that carries out a transfer is a parameter: it may change the memory.
pub mod Display
pub mod Cache
pub mod Frames
pub mod Stored
pub mod Config
use osc_2026_exercise.Base.{
  ℕ, zero, suc, ◌+◌, ◌-◌, ◌*◌, ◌/◌, ◌%◌, ◌^◌, Option, none, some, List, [], ◌∷◌, ◌++◌, Bool, true,
  false, ltb, leb, bit_and, bit_or, if◌then◌else◌, map, ◌==◌,
}
use mathlib.Core.Option as Option
use osc_2026_exercise.Memory.{Memory, store}
use osc_2026_exercise.Mmio.{Device, Io, pure, ◌>>=◌}
use osc_2026_exercise.Uart.Ex52.{uart_puts}
use osc_2026_exercise.Fdt.Main.{bswap64}
use osc_2026_exercise.Utils.Block.{memcpy, strncmp}
use osc_2026_exercise.Exec.{count, is_zero}

abbrev pub fb_base : ℕ
fb_base = 0x87000000

abbrev pub fb_width : ℕ
fb_width = 1920

abbrev pub fb_height : ℕ
fb_height = 1080

abbrev pub fb_bpp : ℕ
fb_bpp = 4

abbrev pub xrgb8888 : ℕ
xrgb8888 = 875713112

-- `(total - size) / 2` of two `int`, as an offset modulo 2 ^ 64.
abbrev pub centred : (total size : ℕ) → ℕ
centred total size =
    if leb size total then (total - size) / 2 else (2 ^ 64 - (size - total) / 2) % 2 ^ 64

abbrev pub cache_block_size : ℕ
cache_block_size = 64

-- The lines that `cbo_flush` is called for, on fuel; `none` is the end of the fuel.
unfoldable pub flush_loop : (fuel line end : ℕ) → Option (List ℕ)
flush_loop zero line end = none
flush_loop (suc n) line end =
    let rest = flush_loop n ((line + cache_block_size) % 2 ^ 64) end in
    if ltb line end then Option.map (λ lines. line ∷ lines) rest else some []

unfoldable pub flush_dcache : (fuel addr len : ℕ) → Option (List ℕ)
flush_dcache fuel addr len =
    flush_loop fuel (bit_and addr (2 ^ 64 - cache_block_size)) ((addr + len) % 2 ^ 64)

-- Where a row of the picture goes.
abbrev pub row_address : (width height y : ℕ) → ℕ
row_address width height y =
    (fb_base + fb_bpp * ((centred fb_height height + y) * fb_width + centred fb_width width))
    % 2 ^ 64

-- The rows from `y` on, `rounds` of them; the flushes change no memory.
unfoldable pub display_loop : (rounds y : ℕ) → (bmp_image width height : ℕ) → Memory → Memory
display_loop zero y bmp_image width height m = m
display_loop (suc n) y bmp_image width height m =
    display_loop n (y + 1) bmp_image width height
      (memcpy m (row_address width height y) (bmp_image + 4 * (y * width))
        (count (width * 4 % 2 ^ 32))).0

unfoldable pub video_bmp_display : (bmp_image width height : ℕ) → Memory → Memory
video_bmp_display bmp_image width height m = display_loop (count height) 0 bmp_image width height m

-- The bytes of a word, the high one first, as the byte swaps leave them in memory.
abbrev pub big_endian : (bytes word : ℕ) → List ℕ
big_endian zero word = []
big_endian (suc n) word = word / 2 ^ (8 * n) % 2 ^ 8 ∷ big_endian n word

-- `struct RAMFBCfg`, packed, as `video_init` fills it.
abbrev pub ramfb_cfg : List ℕ
ramfb_cfg =
    big_endian 8 fb_base
    ++ (big_endian 4 xrgb8888
        ++ (big_endian 4 0
            ++ (big_endian 4 fb_width
                ++ (big_endian 4 fb_height ++ big_endian 4 (fb_width * fb_bpp)))))

abbrev pub ctl_error : ℕ
ctl_error = 0x01

abbrev pub ctl_read : ℕ
ctl_read = 0x02

abbrev pub ctl_select : ℕ
ctl_select = 0x08

abbrev pub ctl_write : ℕ
ctl_write = 0x10

abbrev pub file_dir : ℕ
file_dir = 0x19

-- `struct FWCfgDmaAccess` before the byte swaps.
pub record DmaAccess : Type 0 where
  pub control : ℕ
  pub length : ℕ
  pub address : ℕ

-- Its bytes behind them.
abbrev pub access_bytes : DmaAccess → List ℕ
access_bytes a = big_endian 4 a.control ++ (big_endian 4 a.length ++ big_endian 8 a.address)

-- `sizeof(struct FWCfgFile)`
abbrev pub file_size : ℕ
file_size = 64

abbrev pub entry_control : (e ctl : ℕ) → ℕ
entry_control e ctl = bit_or (bit_or (e * 2 ^ 16 % 2 ^ 32) ctl_select) ctl

-- A word of some bytes, the high one first.
abbrev pub word_at : Memory → (bytes a : ℕ) → ℕ
word_at m zero a = 0
word_at m (suc n) a = m a * 2 ^ (8 * n) + word_at m n (a + 1)

abbrev pub store_all : Memory → (a : ℕ) → List ℕ → Memory
store_all m a [] = m
store_all m a (b ∷ bs) = store_all (store m a b) (a + 1) bs

-- `dma` is what the device does when its register is written, `step` what it does between two looks at
-- the control word; `access` is the address of the structure.
module _ {D : Type 0} (dma : (register : ℕ) → D → Memory → D × Memory)
    (step : D → Memory → D × Memory) (access : ℕ) where
  -- `while (bswap32(access.control) & ~FW_CFG_DMA_CTL_ERROR)` on fuel.
  unfoldable pub wait_loop : (fuel : ℕ) → D → Memory → Option (D × Memory)
  wait_loop zero d m = none
  wait_loop (suc n) d m =
      let (d', m') = step d m in
      let rest = wait_loop n d' m' in
      if bit_and (word_at m 4 access) (2 ^ 32 - 1 - ctl_error) == 0 then some (d, m) else rest

  unfoldable pub fw_cfg_dma_transfer : (fuel : ℕ) → DmaAccess → D → Memory → Option (D × Memory)
  unfolding wait_loop
  fw_cfg_dma_transfer fuel a d m =
      let filled = store_all m access (access_bytes a) in
      let (d', m') = dma (bswap64 access) d filled in wait_loop fuel d' m'

-- The number of a file as an `int`; that of no file is -1.
abbrev pub entry_number : Option ℕ → ℕ
entry_number none = 2 ^ 32 - 1
entry_number (some e) = e

-- A call that has a result gives it, and prints nothing.
abbrev pub from_option : {A : Type 0} → Option A → Io A
from_option none = λ s. none
from_option (some a) = pure a

-- `access` is the address that each call gives its structure; `wait` bounds the looks at its control
-- word, `uart` and `rounds` are the console and what bounds its waits.
module _ {D : Type 0} (dma : (register : ℕ) → D → Memory → D × Memory)
    (step : D → Memory → D × Memory) (access wait : ℕ) (uart : Device) (rounds : ℕ) where
  abbrev pub fw_cfg_read_entry : (buf e len : ℕ) → D → Memory → Option (D × Memory)
  fw_cfg_read_entry buf e len =
      fw_cfg_dma_transfer dma step access wait
        (record { control = entry_control e ctl_read; length = len; address = buf })

  abbrev pub fw_cfg_write_entry : (buf e len : ℕ) → D → Memory → Option (D × Memory)
  fw_cfg_write_entry buf e len =
      fw_cfg_dma_transfer dma step access wait
        (record { control = entry_control e ctl_write; length = len; address = buf })

  -- `struct FWCfgFile` is read to `file`: the size, the number, 2 bytes and the name. -1 is `none`.
  unfoldable pub find_loop : (count name file : ℕ) → D → Memory → Io (D × Memory × Option ℕ)
  find_loop zero name file d m = pure (d, m, none)
  find_loop (suc n) name file d m =
      from_option (
        fw_cfg_dma_transfer dma step access wait
          (record { control = ctl_read; length = file_size; address = file }) d m)
      >>= λ (d', m').
          let rest = find_loop n name file d' m' in
          let found = uart_puts uart rounds (b'f' ∷ b'i' ∷ b'n' ∷ b'd' ∷ b'\n' ∷ []) >>= λ _.
          pure (d', m', some (word_at m' 2 (file + 4))) in
          if is_zero (strncmp m' name (file + 8) 56) then found else rest

  unfoldable pub fw_cfg_find_file :
      (name count_at file : ℕ) → D → Memory → Io (D × Memory × Option ℕ)
  unfolding find_loop
  fw_cfg_find_file name count_at file d m =
      from_option (fw_cfg_read_entry count_at file_dir 4 d (store_all m count_at (big_endian 4 0)))
      >>= λ (d', m'). find_loop (word_at m' 4 count_at) name file d' m'

  -- `cfg` is the address of the structure, `name` that of "etc/ramfb".
  unfoldable pub video_init : (cfg name count_at file : ℕ) → D → Memory → Io (D × Memory)
  unfolding fw_cfg_find_file
  video_init cfg name count_at file d m =
      fw_cfg_find_file name count_at file d (store_all m cfg ramfb_cfg) >>= λ (d', m', found).
      from_option (fw_cfg_write_entry cfg (entry_number found) 28 d' m')
