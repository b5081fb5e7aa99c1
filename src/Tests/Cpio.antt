-- ===== src/Tests/Cpio.antt =====
-- A small archive at 0x1000: the file "a" of four bytes, the file "b" of two, and the trailer.
use osc_2026_exercise.Base.{ℕ, ◌≡◌, refl, List, [], ◌∷◌, ◌++◌, some, arith, replicate}
use osc_2026_exercise.Memory.{Memory}
use osc_2026_exercise.Utils.Hextoi.{hex_field}
use osc_2026_exercise.Cpio.{listed, shown, no_such_file, trailer, initrd_cat}
use osc_2026_exercise.Cpio.Archive.{Entry, IsEntry, IsArchive, newc_magic}
use osc_2026_exercise.Cpio.Cat.{initrd_cat-IsArchive}
use osc_2026_exercise.Cpio.Main.{
  Ended, printed, exit_code, loaded, osc_name, test_name, HasText, main, main-HasText,
}
use osc_2026_exercise.Tests.Utils.{memory_of}

abbrev header : List ℕ → List ℕ → List ℕ
header file_digits name_digits =
    newc_magic
    ++ (replicate 48 b'0'
        ++ (file_digits ++ (replicate 32 b'0' ++ (name_digits ++ replicate 8 b'0'))))

abbrev zeros : List ℕ
zeros = replicate 7 b'0'

abbrev archive_bytes : List ℕ
archive_bytes =
    header (zeros ++ b'4' ∷ []) (zeros ++ b'2' ∷ [])
    ++ (b'a'
        ∷ 0
        ∷ b'h'
        ∷ b'i'
        ∷ b'!'
        ∷ b'\n'
        ∷ (header (zeros ++ b'2' ∷ []) (zeros ++ b'2' ∷ [])
            ++ (b'b'
                ∷ 0
                ∷ b'o'
                ∷ b'k'
                ∷ 0
                ∷ 0
                ∷ (header (zeros ++ b'0' ∷ []) (zeros ++ b'B' ∷ []) ++ (trailer ++ (0 ∷ []))))))

abbrev pub archive : Memory
archive = memory_of 0x1000 archive_bytes

abbrev pub a_file : Entry
a_file = record { name = b'a' ∷ []; content = b'h' ∷ b'i' ∷ b'!' ∷ b'\n' ∷ [] }

abbrev pub b_file : Entry
b_file = record { name = b'b' ∷ []; content = b'o' ∷ b'k' ∷ [] }

a_file-IsEntry : IsEntry archive 0x1000 a_file
unfolding hex_field
a_file-IsEntry = record {
  has_magic = omega arith;
  has_namesize = omega arith;
  has_filesize = omega arith;
  has_name = omega arith;
  has_content = omega arith;
  is_name = omega arith;
  no_trailer = refl;
  name_fits = omega arith;
  file_fits = omega arith;
  in_memory = omega arith;
}

b_file-IsEntry : IsEntry archive 0x1074 b_file
unfolding hex_field
b_file-IsEntry = record {
  has_magic = omega arith;
  has_namesize = omega arith;
  has_filesize = omega arith;
  has_name = omega arith;
  has_content = omega arith;
  is_name = omega arith;
  no_trailer = refl;
  name_fits = omega arith;
  file_fits = omega arith;
  in_memory = omega arith;
}

pub archive-IsArchive : IsArchive archive 0x1000 (a_file ∷ b_file ∷ [])
archive-IsArchive = (a_file-IsEntry, (b_file-IsEntry, omega arith))

initrd_cat-IsArchive_example :
    initrd_cat archive 20 0x1000 (b'c' ∷ []) 3 ≡ some (no_such_file (b'c' ∷ []))
initrd_cat-IsArchive_example =
    initrd_cat-IsArchive archive 20 (b'c' ∷ []) (a_file ∷ b_file ∷ []) 3 0x1000 archive-IsArchive
      (omega arith) (omega arith)

-- An archive with the two files that `main` prints.
abbrev texts : Memory
texts = memory_of 0x1000 (
    (header (zeros ++ b'2' ∷ []) (zeros ++ b'8' ∷ []))
    ++ (b'o'
        ∷ b's'
        ∷ b'c'
        ∷ b'.'
        ∷ b't'
        ∷ b'x'
        ∷ b't'
        ∷ 0
        ∷ 0
        ∷ 0
        ∷ b'h'
        ∷ b'i'
        ∷ 0
        ∷ 0
        ∷ ((header (zeros ++ b'2' ∷ []) (zeros ++ b'9' ∷ []))
            ++ (b't'
                ∷ b'e'
                ∷ b's'
                ∷ b't'
                ∷ b'.'
                ∷ b't'
                ∷ b'x'
                ∷ b't'
                ∷ 0
                ∷ 0
                ∷ b'o'
                ∷ b'k'
                ∷ 0
                ∷ 0
                ∷ (header (zeros ++ b'0' ∷ []) (zeros ++ b'B' ∷ []) ++ (trailer ++ (0 ∷ [])))))))

abbrev osc_file : Entry
osc_file = record { name = osc_name; content = (b'h' ∷ b'i' ∷ []) }

osc_file-IsEntry : IsEntry texts 4096 osc_file
unfolding hex_field
osc_file-IsEntry = record {
  has_magic = omega arith;
  has_namesize = omega arith;
  has_filesize = omega arith;
  has_name = omega arith;
  has_content = omega arith;
  is_name = omega arith;
  no_trailer = refl;
  name_fits = omega arith;
  file_fits = omega arith;
  in_memory = omega arith;
}

abbrev test_file : Entry
test_file = record { name = test_name; content = (b'o' ∷ b'k' ∷ []) }

test_file-IsEntry : IsEntry texts 4220 test_file
unfolding hex_field
test_file-IsEntry = record {
  has_magic = omega arith;
  has_namesize = omega arith;
  has_filesize = omega arith;
  has_name = omega arith;
  has_content = omega arith;
  is_name = omega arith;
  no_trailer = refl;
  name_fits = omega arith;
  file_fits = omega arith;
  in_memory = omega arith;
}

test-HasText : HasText texts 20 0x1000 (osc_file ∷ test_file ∷ []) test_name (b'o' ∷ b'k' ∷ [])
test-HasText = record {
  at = 4340;
  entry = test_file;
  located = refl;
  is_content = refl;
  has_text = omega arith;
  is_text = omega arith;
  text_fits = omega arith;
}

osc-HasText : HasText texts 20 0x1000 (osc_file ∷ test_file ∷ []) osc_name (b'h' ∷ b'i' ∷ [])
osc-HasText = record {
  at = 4216;
  entry = osc_file;
  located = refl;
  is_content = refl;
  has_text = omega arith;
  is_text = omega arith;
  text_fits = omega arith;
}

texts-IsArchive : IsArchive texts 0x1000 (osc_file ∷ test_file ∷ [])
texts-IsArchive = (osc_file-IsEntry, (test_file-IsEntry, omega arith))

main-HasText_example :
    (e : Ended) × (main 20 3 (loaded texts 0x1000) ≡ some e)
    × (e
        ≡ printed (
            listed 2 osc_name
            ∷ listed 2 test_name
            ∷ shown (b'h' ∷ b'i' ∷ [])
            ∷ shown (b'o' ∷ b'k' ∷ [])
            ∷ []))
    × (exit_code e ≡ 0)
main-HasText_example =
    main-HasText texts 20 3 0x1000 (osc_file ∷ test_file ∷ []) (b'h' ∷ b'i' ∷ []) (b'o' ∷ b'k' ∷ [])
      texts-IsArchive (omega arith) (omega arith) osc-HasText test-HasText
