-- ===== src/Cpio/Main.antt =====
-- `main` of ex22/main.c. The C library reads the file of the archive: what it leaves is an argument.
use osc_2026_exercise.Base.{
  ℕ, ◌<◌, ◌≡◌, refl, sym, ap, subst, ◌∙◌, List, [], ◌∷◌, ◌++◌, Option, some, length, map, arith,
}
use osc_2026_exercise.Memory.{Memory, Holds}
use osc_2026_exercise.Text.{IsString}
use osc_2026_exercise.Paging.{◌>>=◌}
use osc_2026_exercise.Cpio.{Output, shown, initrd_list, initrd_cat}
use osc_2026_exercise.Cpio.Archive.{Entry, IsArchive}
use osc_2026_exercise.Cpio.Listing.{AreShort, line, initrd_list-IsArchive}
use osc_2026_exercise.Cpio.Cat.{locate, initrd_cat-shows}

-- What `fopen` and `fread` make of "initramfs.cpio".
pub data Loaded : Type 0 where
  no_file short_file : Loaded
  loaded : Memory → (rd : ℕ) → Loaded

-- How `main` ends: with a message for a file that cannot be read, or with what it has printed.
pub data Ended : Type 0 where
  open_failed read_failed : Ended
  printed : List Output → Ended

abbrev pub exit_code : Ended → ℕ
exit_code (printed out) = 0
exit_code _ = 1

-- "osc.txt" and "test.txt"
abbrev pub osc_name : List ℕ
osc_name = b'o' ∷ b's' ∷ b'c' ∷ b'.' ∷ b't' ∷ b'x' ∷ b't' ∷ []

abbrev pub test_name : List ℕ
test_name = b't' ∷ b'e' ∷ b's' ∷ b't' ∷ b'.' ∷ b't' ∷ b'x' ∷ b't' ∷ []

unfoldable pub main : (limit fuel : ℕ) → Loaded → Option Ended
main limit fuel no_file = some open_failed
main limit fuel short_file = some read_failed
main limit fuel (loaded m rd) = do
  lines ← initrd_list m limit rd fuel
  osc ← initrd_cat m limit rd osc_name fuel
  test ← initrd_cat m limit rd test_name fuel
  some (printed (lines ++ osc ∷ test ∷ []))

-- The first entry with the name holds the text, with a NUL behind it.
pub record HasText (m : Memory) (limit rd : ℕ) (es : List Entry) (filename text : List ℕ)
    : Type 0 where
  pub at : ℕ
  pub entry : Entry
  pub located : locate filename rd es ≡ some (at, entry)
  pub is_content : entry.content ≡ text
  pub has_text : Holds m at (text ++ 0 ∷ [])
  pub is_text : IsString text
  pub text_fits : length text < limit

cat-HasText :
    (m : Memory) (limit fuel rd : ℕ) (es : List Entry) (filename text : List ℕ)
    → IsArchive m rd es
    → length es < fuel
    → IsString filename
    → HasText m limit rd es filename text
    → initrd_cat m limit rd filename fuel ≡ some (shown text)
cat-HasText m limit fuel rd es filename text archive enough str h =
    let e = sym h.is_content in
    initrd_cat-shows m limit filename es fuel rd h.at h.entry archive str enough h.located
      (subst (λ t. Holds m h.at (t ++ 0 ∷ [])) e h.has_text) (subst (λ t. IsString t) e h.is_text)
      (subst (λ t. length t < limit) e h.text_fits)
    ∙ ap (λ t. some (shown t)) h.is_content

osc_name-IsString : IsString osc_name
osc_name-IsString = omega arith

test_name-IsString : IsString test_name
test_name-IsString = omega arith

-- On an archive in memory whose names are shorter than the limit, with fuel for its entries, and where
-- the first entries named "osc.txt" and "test.txt" hold texts with a NUL behind them, shorter than the
-- limit: `main` ends, prints a line for each entry and then the two texts, and returns 0.
pub main-HasText :
    (m : Memory) (limit fuel rd : ℕ) (es : List Entry) (osc test : List ℕ)
    → IsArchive m rd es
    → AreShort limit es
    → length es < fuel
    → HasText m limit rd es osc_name osc
    → HasText m limit rd es test_name test
    → (e : Ended) × (main limit fuel (loaded m rd) ≡ some e)
      × (e ≡ printed (map line es ++ shown osc ∷ shown test ∷ []))
      × (exit_code e ≡ 0)
unfolding main
main-HasText m limit fuel rd es osc test archive short enough h1 h2 = (
  printed (map line es ++ shown osc ∷ shown test ∷ []),
  rw
      (
        initrd_list-IsArchive m limit es fuel rd archive short enough,
        cat-HasText m limit fuel rd es osc_name osc archive enough osc_name-IsString h1,
        cat-HasText m limit fuel rd es test_name test archive enough test_name-IsString h2,
      )
      refl,
  refl,
  refl,
)
