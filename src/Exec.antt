-- ===== src/Exec.antt =====
-- `exec` of ex41/main.c and ex62/main.c: the search for a program in the initrd. The two programs
-- compute the padded sizes by an `align` of their own, which is a parameter here.
pub mod Search
pub mod Ex41
pub mod Ex62
pub mod Start
pub mod Run62
use osc_2026_exercise.Base.{
  ℕ, zero, suc, ◌+◌, ◌%◌, ◌^◌, Option, none, some, Bool, true, false, ltb, if◌then◌else◌,
}
use osc_2026_exercise.Base.Int.{ℤ, pos, negsuc}
use osc_2026_exercise.Bits.{sign_extended}
use osc_2026_exercise.Memory.{Memory}
use osc_2026_exercise.Utils.Hextoi.{kernel_hextoi}
use osc_2026_exercise.Utils.Block.{memcmp}
use osc_2026_exercise.Cpio.{offset, namesize, filesize, cpio_size}

abbrev pub is_zero : ℤ → Bool
is_zero (pos zero) = true
is_zero (pos (suc n)) = false
is_zero (negsuc n) = false

-- The rounds of `while (n-- > 0)` for an `int`.
abbrev pub count : ℕ → ℕ
count n = if ltb n (2 ^ 31) then n else 0

-- What the loop has computed at the entry that it found.
pub record Found : Type 0 where
  pub at : ℕ
  pub name_bytes : ℕ
  pub file_bytes : ℕ
  pub head_bytes : ℕ

-- `trailer_at` and `filename` are the addresses of the two strings. The loop runs on fuel, and
-- `some none` is its end by the trailer.
module _ (m : Memory) (head_size data_size : ℕ → ℕ) (trailer_at filename : ℕ) where
  unfoldable pub search : ℕ → ℕ → Option (Option Found)
  search zero p = none
  search (suc fuel) p =
      let name_bytes = kernel_hextoi m (p + offset namesize) 8 in
      let file_bytes = kernel_hextoi m (p + offset filesize) 8 in
      let headsize = head_size name_bytes in
      let datasize = data_size file_bytes in
      let rest = search fuel ((p + sign_extended ((headsize + datasize) % 2 ^ 32)) % 2 ^ 64) in
      if is_zero (memcmp m (p + cpio_size) trailer_at 10)
      then some none
      else if is_zero (memcmp m (p + cpio_size) filename (count name_bytes))
      then some (
          some (record {
            at = p;
            name_bytes = name_bytes;
            file_bytes = file_bytes;
            head_bytes = headsize;
          }))
      else rest
