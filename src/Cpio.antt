-- ===== src/Cpio.antt =====
-- The archive readers of ex22/main.c: `initrd_list` and `initrd_cat`. An address is a number of
-- 64 bits; each loop over the archive runs on fuel, and each string that is printed is at most
-- `limit` bytes long with its NUL.
pub mod Archive
pub mod Listing
pub mod Cat
pub mod Main
use mathlib.Core.Option
use osc_2026_exercise.Base.{
  ℕ, zero, suc, ◌+◌, ◌%◌, ◌^◌, Option, none, some, List, [], ◌∷◌, if◌then◌else◌,
}
use osc_2026_exercise.Memory.{Memory}
use osc_2026_exercise.Text.{is_string, c_string}
use osc_2026_exercise.Utils.Align.{align}
use osc_2026_exercise.Utils.Hextoi.{hextoi}

-- The fields of `struct cpio_t`, and where each stands in it.
pub data CpioField : Type 0 where
  magic ino mode uid gid nlink mtime filesize devmajor devminor rdevmajor rdevminor namesize check :
      CpioField

abbrev pub width : CpioField → ℕ
width magic = 6
width _ = 8

abbrev pub offset : CpioField → ℕ
offset magic = 0
offset ino = 6
offset mode = 14
offset uid = 22
offset gid = 30
offset nlink = 38
offset mtime = 46
offset filesize = 54
offset devmajor = 62
offset devminor = 70
offset rdevmajor = 78
offset rdevminor = 86
offset namesize = 94
offset check = 102

-- `sizeof(struct cpio_t)`
abbrev pub cpio_size : ℕ
cpio_size = 110

-- "TRAILER!!!"
abbrev pub trailer : List ℕ
trailer = b'T' ∷ b'R' ∷ b'A' ∷ b'I' ∷ b'L' ∷ b'E' ∷ b'R' ∷ b'!' ∷ b'!' ∷ b'!' ∷ []

-- The calls of `printf`: the line of a listing, the text of a file, and the complaint.
pub data Output : Type 0 where
  listed : ℕ → List ℕ → Output
  shown : List ℕ → Output
  no_such_file : List ℕ → Output

-- `align((unsigned long)cur + sizeof(struct cpio_t) + namesize, 4)`
abbrev pub file_address : ℕ → ℕ → ℕ
file_address cur size = align ((cur + cpio_size + size) % 2 ^ 64) 4

abbrev pub next_header : ℕ → ℕ → ℕ → ℕ
next_header cur name_bytes file_bytes =
    align ((file_address cur name_bytes + file_bytes) % 2 ^ 64) 4

module _ (m : Memory) (limit : ℕ) where
  pub list_loop : ℕ → ℕ → Option (List Output)
  list_loop zero cur = none
  list_loop (suc fuel) cur =
      let name_bytes = hextoi m (cur + offset namesize) 8 in
      let file_bytes = hextoi m (cur + offset filesize) 8 in
      let rest = list_loop fuel (next_header cur name_bytes file_bytes) in
      if is_string m trailer (cur + cpio_size)
      then some []
      else elim (c_string m limit (cur + cpio_size)) [
        | none ↦ none
        | some name ↦ Option.map (λ out. listed file_bytes name ∷ out) rest
      ]

  unfoldable pub initrd_list : ℕ → ℕ → Option (List Output)
  unfolding list_loop
  initrd_list rd fuel = list_loop fuel rd

  pub cat_loop : List ℕ → ℕ → ℕ → Option Output
  cat_loop filename zero cur = none
  cat_loop filename (suc fuel) cur =
      let name_bytes = hextoi m (cur + offset namesize) 8 in
      let file_bytes = hextoi m (cur + offset filesize) 8 in
      let rest = cat_loop filename fuel (next_header cur name_bytes file_bytes) in
      if is_string m trailer (cur + cpio_size)
      then some (no_such_file filename)
      else if is_string m filename (cur + cpio_size)
      then Option.map shown (c_string m limit (file_address cur name_bytes))
      else rest

  unfoldable pub initrd_cat : ℕ → List ℕ → ℕ → Option Output
  unfolding cat_loop
  initrd_cat rd filename fuel = cat_loop filename fuel rd
