-- ===== src/Cpio/Archive.antt =====
-- A cpio archive in memory, as the format describes it: the entries one behind another, each a
-- header with eight-digit fields, the name with its NUL, and the content, name and content padded
-- to four bytes; the record named "TRAILER!!!" ends it.
use osc_2026_exercise.Base.{
  ℕ, ◌+◌, ◌*◌, ◌/◌, ◌^◌, ◌<◌, ◌≤◌, ◌≡◌, List, [], ◌∷◌, ◌++◌, false, length, arith, ◌∙◌,
}
use native.Mathlib.Nat.{mod-eq_of_lt}
use osc_2026_exercise.Memory.{Memory, Holds}
use osc_2026_exercise.Text.{IsString, ◌=s◌, is_string, is_string-Holds}
use osc_2026_exercise.Utils.Align.{align_four}
use osc_2026_exercise.Utils.Hextoi.{hextoi, hex_field, hextoi-hex_field}
use osc_2026_exercise.Cpio.{
  magic, filesize, namesize, offset, cpio_size, trailer, file_address, next_header,
}

pub record Entry : Type 0 where
  pub name : List ℕ
  pub content : List ℕ

abbrev pub name_bytes : Entry → ℕ
name_bytes e = length e.name + 1

-- Where the content of an entry at `a` starts, and where the next entry does.
abbrev pub data_at : ℕ → Entry → ℕ
data_at a e = (a + cpio_size + name_bytes e + 3) / 4 * 4

abbrev pub next_at : ℕ → Entry → ℕ
next_at a e = (data_at a e + length e.content + 3) / 4 * 4

-- "070701"
abbrev pub newc_magic : List ℕ
newc_magic = b'0' ∷ b'7' ∷ b'0' ∷ b'7' ∷ b'0' ∷ b'1' ∷ []

pub record IsEntry (m : Memory) (a : ℕ) (e : Entry) : Type 0 where
  pub has_magic : Holds m (a + offset magic) newc_magic
  pub has_namesize : Holds m (a + offset namesize) (hex_field 8 (name_bytes e))
  pub has_filesize : Holds m (a + offset filesize) (hex_field 8 (length e.content))
  pub has_name : Holds m (a + cpio_size) (e.name ++ 0 ∷ [])
  pub has_content : Holds m (data_at a e) e.content
  pub is_name : IsString e.name
  pub no_trailer : (trailer =s e.name) ≡ false
  pub name_fits : name_bytes e < 2 ^ 32
  pub file_fits : length e.content < 2 ^ 32
  pub in_memory : next_at a e + 4 ≤ 2 ^ 64

abbrev pub IsArchive : Memory → ℕ → List Entry → Type 0
IsArchive m a [] = Holds m (a + cpio_size) (trailer ++ 0 ∷ [])
IsArchive m a (e ∷ es) = IsEntry m a e × IsArchive m (next_at a e) es

-- What the readers compute at an entry.
module _ (m : Memory) (a : ℕ) (e : Entry) (is : IsEntry m a e) where
  pub namesize_lem : hextoi m (a + offset namesize) 8 ≡ name_bytes e
  namesize_lem = (hextoi-hex_field m _ _ is.name_fits is.has_namesize).0

  pub filesize_lem : hextoi m (a + offset filesize) 8 ≡ length e.content
  filesize_lem = (hextoi-hex_field m _ _ is.file_fits is.has_filesize).0

  pub file_address_lem : file_address a (name_bytes e) ≡ data_at a e
  file_address_lem =
      let bound = is.in_memory in
      let small : a + cpio_size + name_bytes e < 2 ^ 64 = omega arith in
      rw (mod-eq_of_lt small) (align_four (a + cpio_size + name_bytes e) (omega arith))

  pub next_header_lem : next_header a (name_bytes e) (length e.content) ≡ next_at a e
  next_header_lem =
      let bound = is.in_memory in
      let small : data_at a e + length e.content < 2 ^ 64 = omega arith in
      rw (file_address_lem, mod-eq_of_lt small)
        (align_four (data_at a e + length e.content) (omega arith))

  pub trailer_lem : is_string m trailer (a + cpio_size) ≡ false
  trailer_lem =
      is_string-Holds m trailer e.name _ is.has_name (omega arith) is.is_name ∙ is.no_trailer
