-- ===== src/Fdt/Main.antt =====
-- `main` of ex21/main.c. The file of the blob is read by the C library: what it leaves is an
-- argument. The lines that `main` prints are values; that of `fdt_path_offset` is not among them.
use osc_2026_exercise.Base.{
  ℕ, zero, suc, ◌+◌, ◌-◌, ◌*◌, ◌/◌, ◌%◌, ◌^◌, Option, none, some, List, [], ◌∷◌, ◌==◌, leb,
  if◌then◌else◌,
}
use osc_2026_exercise.Memory.{Memory}
use osc_2026_exercise.Paging.{◌>>=◌}
use osc_2026_exercise.Fdt.{bswap32, load32, fdt_getprop}
use osc_2026_exercise.Fdt.Offset.{fdt_path_offset}

abbrev pub bswap64 : ℕ → ℕ
bswap64 x = bswap32 (x % 2 ^ 32) * 2 ^ 32 + bswap32 (x / 2 ^ 32 % 2 ^ 32)

-- `*(uint64_t*)a`
abbrev pub load64 : Memory → ℕ → ℕ
load64 m a = load32 m a + load32 m (a + 4) * 2 ^ 32

-- What `%.*s` prints: at most `len` bytes, up to a NUL.
abbrev pub shown_text : Memory → (len a : ℕ) → List ℕ
shown_text m zero a = []
shown_text m (suc len) a =
    let rest = shown_text m len (a + 1) in if m a == 0 then [] else m a ∷ rest

-- `offset`, an `int`, as the `uint32_t` that `fdt_getprop` makes of it.
abbrev pub as_offset : Option ℕ → ℕ
as_offset none = 2 ^ 32 - 1
as_offset (some off) = off

pub data Line : Type 0 where
  open_failed read_failed path_failed prop_failed : Line
  compatible : List ℕ → Line
  memory_range : (base size : ℕ) → Line
  initrd_start : ℕ → Line

-- What is printed, and the result of `main`.
abbrev pub Ended : Type 0
Ended = List Line × ℕ

-- What `fopen` and `fread` make of "qemu.dtb".
pub data Loaded : Type 0 where
  no_file short_file : Loaded
  loaded : Memory → (fdt : ℕ) → Loaded

-- "/cpus/cpu@0/interrupt-controller"
abbrev pub controller_path : List ℕ
controller_path =
    b'/' ∷ b'c' ∷ b'p' ∷ b'u' ∷ b's' ∷ b'/' ∷ b'c' ∷ b'p' ∷ b'u' ∷ b'@' ∷ b'0' ∷ b'/' ∷ b'i' ∷ b'n'
    ∷ b't' ∷ b'e' ∷ b'r' ∷ b'r' ∷ b'u' ∷ b'p' ∷ b't' ∷ b'-' ∷ b'c' ∷ b'o' ∷ b'n' ∷ b't' ∷ b'r'
    ∷ b'o' ∷ b'l' ∷ b'l' ∷ b'e' ∷ b'r' ∷ []

abbrev pub memory_path : List ℕ
memory_path = b'/' ∷ b'm' ∷ b'e' ∷ b'm' ∷ b'o' ∷ b'r' ∷ b'y' ∷ []

abbrev pub chosen_path : List ℕ
chosen_path = b'/' ∷ b'c' ∷ b'h' ∷ b'o' ∷ b's' ∷ b'e' ∷ b'n' ∷ []

abbrev pub compatible_name : List ℕ
compatible_name = b'c' ∷ b'o' ∷ b'm' ∷ b'p' ∷ b'a' ∷ b't' ∷ b'i' ∷ b'b' ∷ b'l' ∷ b'e' ∷ []

abbrev pub reg_name : List ℕ
reg_name = b'r' ∷ b'e' ∷ b'g' ∷ []

-- "linux,initrd-start"
abbrev pub initrd_name : List ℕ
initrd_name =
    b'l' ∷ b'i' ∷ b'n' ∷ b'u' ∷ b'x' ∷ b',' ∷ b'i' ∷ b'n' ∷ b'i' ∷ b't' ∷ b'r' ∷ b'd' ∷ b'-' ∷ b's'
    ∷ b't' ∷ b'a' ∷ b'r' ∷ b't' ∷ []

module _ (m : Memory) (fdt limit fuel : ℕ) where
  -- `fdt_getprop` of the node at the offset that `fdt_path_offset` gave.
  unfoldable pub prop_at : (offset : Option ℕ) → (name : List ℕ) → Option (Option (ℕ × ℕ))
  prop_at offset name = fdt_getprop m fdt limit (as_offset offset) name fuel

  -- The memory and the start of the archive: a null pointer is read, `none`.
  unfoldable pub last_lines : Option (List Line)
  unfolding prop_at
  last_lines = do
    memory_offset ← fdt_path_offset m fdt limit memory_path fuel
    memory_prop ← prop_at memory_offset reg_name
    (reg, reg_len) ← memory_prop
    chosen_offset ← fdt_path_offset m fdt limit chosen_path fuel
    chosen_prop ← prop_at chosen_offset initrd_name
    (start, start_len) ← chosen_prop
    some (
        memory_range (bswap64 (load64 m reg)) (bswap64 (load64 m (reg + 8)))
        ∷ initrd_start (bswap64 (load64 m start))
        ∷ [])

  -- The first property; a null pointer is an error there.
  abbrev pub with_prop : Option (ℕ × ℕ) → Option Ended
  with_prop none = some (prop_failed ∷ [], 1)
  with_prop (some (prop, len)) =
      last_lines >>= λ lines. some (compatible (shown_text m len prop) ∷ lines, 0)

  -- An offset that is negative as an `int` is an error.
  unfoldable pub main_loaded : Option Ended
  unfolding prop_at last_lines
  main_loaded = fdt_path_offset m fdt limit controller_path fuel >>= λ offset.
      if leb (2 ^ 31) (as_offset offset)
      then some (path_failed ∷ [], 1)
      else prop_at offset compatible_name >>= with_prop

unfoldable pub main : (limit fuel : ℕ) → Loaded → Option Ended
unfolding main_loaded
main limit fuel no_file = some (open_failed ∷ [], 1)
main limit fuel short_file = some (read_failed ∷ [], 1)
main limit fuel (loaded m fdt) = main_loaded m fdt limit fuel
