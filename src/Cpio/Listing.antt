-- ===== src/Cpio/Listing.antt =====
-- `initrd_list` on an archive.
use osc_2026_exercise.Base.{
  ℕ, zero, suc, ◌+◌, ◌<◌, ◌≡◌, List, [], ◌∷◌, map, some, length, arith, true,
}
use osc_2026_exercise.Memory.{Memory}
use osc_2026_exercise.Text.{is_string, is_string-Holds, c_string-Holds}
use osc_2026_exercise.Cpio.{Output, listed, cpio_size, trailer, list_loop, initrd_list}
use osc_2026_exercise.Cpio.Archive.{
  Entry, IsArchive, next_at, namesize_lem, filesize_lem, next_header_lem, trailer_lem,
}

-- Every name fits the buffer of a line.
abbrev pub AreShort : ℕ → List Entry → Type 0
AreShort limit [] = Unit
AreShort limit (e ∷ es) = (length e.name < limit) × AreShort limit es

abbrev pub line : Entry → Output
line e = listed (length e.content) e.name

module _ (m : Memory) (limit : ℕ) where
  list_loop-IsArchive :
      (es : List Entry) (fuel a : ℕ)
      → IsArchive m a es
      → AreShort limit es
      → length es < fuel
      → list_loop m limit fuel a ≡ some (map line es)
  unfolding list_loop
  list_loop-IsArchive es zero a h short enough = absurd (omega arith)
  list_loop-IsArchive [] (suc fuel) a h short enough =
      let e : is_string m trailer (a + cpio_size) ≡ true =
        is_string-Holds m trailer trailer (a + cpio_size) h (omega arith) (omega arith) in
      rw e
  list_loop-IsArchive (e ∷ es) (suc fuel) a (h, hs) short enough = rw (
    trailer_lem m a e h,
    c_string-Holds m e.name limit (a + cpio_size) h.has_name h.is_name short.0,
    namesize_lem m a e h,
    filesize_lem m a e h,
    next_header_lem m a e h,
    list_loop-IsArchive es fuel (next_at a e) hs short.1 (omega arith),
  )

  -- On an archive in memory, with fuel for its entries and a name limit that every name keeps,
  -- `initrd_list` ends and prints a line for each entry in order, with the size of its content
  -- and its name, and nothing else.
  pub initrd_list-IsArchive :
      (es : List Entry) (fuel rd : ℕ)
      → IsArchive m rd es
      → AreShort limit es
      → length es < fuel
      → initrd_list m limit rd fuel ≡ some (map line es)
  unfolding initrd_list
  initrd_list-IsArchive es fuel rd h short enough = list_loop-IsArchive es fuel rd h short enough
