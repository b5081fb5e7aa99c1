-- ===== src/Cpio/Cat.antt =====
-- `initrd_cat` on an archive.
use mathlib.Core.Option
use osc_2026_exercise.Base.{
  ℕ, zero, suc, ◌+◌, ◌%◌, ◌<◌, ◌≡◌, ◌≢◌, List, [], ◌∷◌, ◌++◌, Option, none, some, length, arith,
  true, if◌then◌else◌, Bool-cases, inl, inr, ◌∙◌, ap, sym,
}
use osc_2026_exercise.Memory.{Memory, Holds}
use osc_2026_exercise.Text.{
  IsString, ◌=s◌, =s_refl, is_string, c_string, is_string-Holds, c_string-ends, c_string-Holds,
}
use osc_2026_exercise.Cpio.{
  Output, shown, no_such_file, offset, magic, cpio_size, trailer, cat_loop, initrd_cat,
}
use osc_2026_exercise.Cpio.Archive.{
  Entry, IsArchive, data_at, next_at, namesize_lem, filesize_lem, next_header_lem, file_address_lem,
  trailer_lem,
}

-- The first entry with a name, and where its content starts.
abbrev pub locate : List ℕ → ℕ → List Entry → Option (ℕ × Entry)
locate filename a [] = none
locate filename a (e ∷ es) =
    if filename =s e.name then some (data_at a e, e) else locate filename (next_at a e) es

module _ (m : Memory) (limit : ℕ) where
  -- What is printed for what was located.
  abbrev printed : List ℕ → Option (ℕ × Entry) → Option Output
  printed filename none = some (no_such_file filename)
  printed filename (some (a, e)) = Option.map shown (c_string m limit a)

  cat_loop-IsArchive :
      (filename : List ℕ) (es : List Entry) (fuel a : ℕ)
      → IsArchive m a es
      → IsString filename
      → length es < fuel
      → cat_loop m limit filename fuel a ≡ printed filename (locate filename a es)
  unfolding cat_loop
  cat_loop-IsArchive filename es zero a h str enough = absurd (omega arith)
  cat_loop-IsArchive filename [] (suc fuel) a h str enough =
      let e : is_string m trailer (a + cpio_size) ≡ true =
        is_string-Holds m trailer trailer (a + cpio_size) h (omega arith) (omega arith) in
      rw e
  cat_loop-IsArchive filename (e ∷ es) (suc fuel) a (h, hs) str enough =
      let same = is_string-Holds m filename e.name (a + cpio_size) h.has_name str h.is_name in
      rw
        (
          trailer_lem m a e h,
          namesize_lem m a e h,
          filesize_lem m a e h,
          next_header_lem m a e h,
          file_address_lem m a e h,
          same,
          cat_loop-IsArchive filename es fuel (next_at a e) hs str (omega arith),
        )
        (elim (Bool-cases (filename =s e.name)) [ inl yes' ↦ rw yes' | inr no' ↦ rw no' ])

  -- On an archive, with fuel for its entries, `initrd_cat` of a name without NUL comes to the
  -- first entry with the name. Where there is none it says so. Otherwise it prints the string at the
  -- start of the content of that entry, as `c_string` reads it: where no NUL stands among its
  -- first `limit` bytes there is no result.
  pub initrd_cat-IsArchive :
      (filename : List ℕ) (es : List Entry) (fuel rd : ℕ)
      → IsArchive m rd es
      → IsString filename
      → length es < fuel
      → initrd_cat m limit rd filename fuel ≡ printed filename (locate filename rd es)
  unfolding initrd_cat
  initrd_cat-IsArchive filename es fuel rd h str enough =
      cat_loop-IsArchive filename es fuel rd h str enough

  -- A file of text whose size is a multiple of four is printed wrong when another entry follows:
  -- the format puts no NUL behind it, and the print goes on into the next header.
  pub initrd_cat-overruns :
      (e e' : Entry) (es : List Entry) (fuel rd : ℕ)
      → IsArchive m rd (e ∷ e' ∷ es)
      → length es + 2 < fuel
      → length e.content % 4 ≡ 0
      → initrd_cat m limit rd e.name fuel ≢ some (shown e.content)
  initrd_cat-overruns e e' es fuel rd h enough whole bad =
      let found =
        sym (initrd_cat-IsArchive e.name (e ∷ e' ∷ es) fuel rd h h.0.is_name (omega arith)) ∙ bad in
      let read : Option.map shown (c_string m limit (data_at rd e)) ≡ some (shown e.content) =
        rw (=s_refl e.name) at found in
      let text : c_string m limit (data_at rd e) ≡ some e.content = ground arith in
      let ends = c_string-ends m limit (data_at rd e) e.content text in
      let same : next_at rd e + offset magic ≡ data_at rd e + length e.content = omega arith in
      let next = h.1.0.has_magic.0 in absurd (omega (arith, sym next ∙ ap m same ∙ ends))

  -- Where the first entry with the name holds a text without NUL, a NUL stands behind it and the
  -- text fits the limit, `initrd_cat` prints exactly its content.
  pub initrd_cat-shows :
      (filename : List ℕ) (es : List Entry) (fuel rd a : ℕ) (e : Entry)
      → IsArchive m rd es
      → IsString filename
      → length es < fuel
      → locate filename rd es ≡ some (a, e)
      → Holds m a (e.content ++ 0 ∷ [])
      → IsString e.content
      → length e.content < limit
      → initrd_cat m limit rd filename fuel ≡ some (shown e.content)
  initrd_cat-shows filename es fuel rd a e h str enough at text is_text short =
      initrd_cat-IsArchive filename es fuel rd h str enough
      ∙ ap (printed filename) at
      ∙ ap (Option.map shown) (c_string-Holds m e.content limit a text is_text short)
