-- ===== src/Exec/Search.antt =====
-- The search of `exec` on an archive.
use osc_2026_exercise.Base.{
  ℕ, zero, suc, ◌+◌, ◌-◌, ◌*◌, ◌/◌, ◌%◌, ◌^◌, ◌<◌, ◌≡◌, refl, List, [], ◌∷◌, ◌++◌, Option, none,
  some, length, arith, Bool, true, false, ◌&&◌, ◌==◌, if◌then◌else◌, Bool-cases, inl, inr, ◌∙◌,
}
use osc_2026_exercise.Bits.{sign_extended, sign_extended_small}
use osc_2026_exercise.Memory.{Memory, Holds}
use osc_2026_exercise.Text.{IsString, ◌=s◌}
use osc_2026_exercise.Utils.Hextoi.{hextoi-hex_field}
use osc_2026_exercise.Utils.Block.{memcmp}
use osc_2026_exercise.Cpio.{cpio_size, trailer}
use osc_2026_exercise.Cpio.Archive.{Entry, IsEntry, IsArchive, data_at, next_at, name_bytes}
use osc_2026_exercise.Exec.{is_zero, count, Found, search}

-- The bytes `ys` are the first of `xs`.
abbrev pub begins : List ℕ → List ℕ → Bool
begins [] xs = true
begins (y ∷ ys) [] = false
begins (y ∷ ys) (x ∷ xs) = (x == y) && begins ys xs

-- A comparison with a string of a fixed length, at a name.
memcmp-begins :
    (m : Memory) (ys name : List ℕ) (a b : ℕ)
    → Holds m a (name ++ 0 ∷ [])
    → Holds m b (ys ++ 0 ∷ [])
    → IsString ys
    → is_zero (memcmp m a b (length ys)) ≡ begins ys name
unfolding memcmp
memcmp-begins m [] name a b h k p = refl
memcmp-begins m (y ∷ ys) [] a b h k p = ground arith
memcmp-begins m (y ∷ ys) (x ∷ name) a b h k p =
    ground (arith, memcmp-begins m ys name (a + 1) (b + 1) h.1 k.1 p.1)

-- A comparison of a whole name, its NUL included, with a string.
memcmp-same :
    (m : Memory) (file name : List ℕ) (a b : ℕ)
    → Holds m a (name ++ 0 ∷ [])
    → Holds m b (file ++ 0 ∷ [])
    → IsString file
    → IsString name
    → is_zero (memcmp m a b (suc (length name))) ≡ (file =s name)
unfolding memcmp
memcmp-same m [] [] a b h k p q = ground arith
memcmp-same m [] (x ∷ name) a b h k p q = ground arith
memcmp-same m (y ∷ file) [] a b h k p q = ground arith
memcmp-same m (y ∷ file) (x ∷ name) a b h k p q =
    ground (arith, memcmp-same m file name (a + 1) (b + 1) h.1 k.1 p.1 q.1)

-- The first entry with a name, and where it starts.
abbrev pub find_entry : List ℕ → ℕ → List Entry → Option (ℕ × Entry)
find_entry file a [] = none
find_entry file a (e ∷ es) =
    if file =s e.name then some (a, e) else find_entry file (next_at a e) es

abbrev pub found : ℕ → Entry → Found
found a e = record {
  at = a;
  name_bytes = name_bytes e;
  file_bytes = length e.content;
  head_bytes = data_at a e - a;
}

abbrev pub result : Option (ℕ × Entry) → Option Found
result none = none
result (some (a, e)) = some (found a e)

-- The sizes that the code keeps in an `int`, and no name that begins like that of the trailer.
abbrev pub AreSmall : List Entry → Type 0
AreSmall [] = Unit
AreSmall (e ∷ es) =
    (name_bytes e < 2 ^ 29)
    × (length e.content < 2 ^ 29)
    × (begins trailer e.name ≡ false)
    × AreSmall es

-- What `align` of the programs computes for such sizes.
abbrev pub HeadSize : (ℕ → ℕ) → Type 0
HeadSize head_size = (n : ℕ) → n < 2 ^ 29 → head_size n ≡ (cpio_size + n + 3) / 4 * 4

abbrev pub DataSize : (ℕ → ℕ) → Type 0
DataSize data_size = (n : ℕ) → n < 2 ^ 29 → data_size n ≡ (n + 3) / 4 * 4

module _ (m : Memory) (head_size data_size : ℕ → ℕ) (trailer_at filename : ℕ)
    (head_law : HeadSize head_size) (data_law : DataSize data_size)
    (has_trailer : Holds m trailer_at (trailer ++ 0 ∷ [])) where
  -- The address of the next entry.
  next_lem :
      (a : ℕ) (e : Entry)
      → IsEntry m a e
      → a % 4 ≡ 0
      → name_bytes e < 2 ^ 29
      → length e.content < 2 ^ 29
      → (a + sign_extended ((head_size (name_bytes e) + data_size (length e.content)) % 2 ^ 32))
          % 2 ^ 64
        ≡ next_at a e
  next_lem a e is aligned small small' =
      let bound = is.in_memory in
      let sum : (head_size (name_bytes e) + data_size (length e.content)) % 2 ^ 32
          ≡ (cpio_size + name_bytes e + 3) / 4 * 4 + (length e.content + 3) / 4 * 4 =
        omega (arith, head_law (name_bytes e) small, data_law (length e.content) small') in
      rw
        (
          sum,
          sign_extended_small
              ((cpio_size + name_bytes e + 3) / 4 * 4 + (length e.content + 3) / 4 * 4)
              (omega arith),
        )
        (omega arith)

  pub search-IsArchive :
      (file : List ℕ) (es : List Entry) (fuel a : ℕ)
      → Holds m filename (file ++ 0 ∷ [])
      → IsString file
      → IsArchive m a es
      → AreSmall es
      → a % 4 ≡ 0
      → length es < fuel
      → search m head_size data_size trailer_at filename fuel a
        ≡ some (result (find_entry file a es))
  unfolding search
  search-IsArchive file es zero a f str h small aligned enough = absurd (omega arith)
  search-IsArchive file [] (suc fuel) a f str h small aligned enough =
      let end : is_zero (memcmp m (a + cpio_size) trailer_at 10) ≡ true =
        memcmp-begins m trailer trailer (a + cpio_size) trailer_at h has_trailer (omega arith) in
      rw end
  search-IsArchive file (e ∷ es) (suc fuel) a f str (h, hs) (s1, s2, s3, ss) aligned enough =
      let more : is_zero (memcmp m (a + cpio_size) trailer_at 10) ≡ false =
        memcmp-begins m trailer e.name (a + cpio_size) trailer_at h.has_name has_trailer
          (omega arith)
        ∙ s3 in
      let names : is_zero (memcmp m (a + cpio_size) filename (suc (length e.name)))
          ≡ (file =s e.name) =
        memcmp-same m file e.name (a + cpio_size) filename h.has_name f str h.is_name in
      let size : name_bytes e ≡ suc (length e.name) = omega arith in
      let rounds : count (name_bytes e) ≡ suc (length e.name) = ground arith in
      let head : head_size (name_bytes e) ≡ data_at a e - a =
        omega (arith, head_law (name_bytes e) s1) in
      rw
        (
          (hextoi-hex_field m _ _ h.name_fits h.has_namesize).1,
          (hextoi-hex_field m _ _ h.file_fits h.has_filesize).1,
          next_lem a e h aligned s1 s2,
          more,
          rounds,
          names,
          head,
          search-IsArchive file es fuel (next_at a e) f str hs ss (omega arith) (omega arith),
        )
        (elim (Bool-cases (file =s e.name)) [ inl same ↦ rw same | inr other ↦ rw other ])

-- What was found is an entry of the archive, with its sizes.
abbrev pub Sound : Memory → Option (ℕ × Entry) → Type 0
Sound m none = Unit
Sound m (some (a, e)) = IsEntry m a e × (name_bytes e < 2 ^ 29) × (length e.content < 2 ^ 29)

pub find_entry-Sound :
    (m : Memory) (file : List ℕ) (es : List Entry) (a : ℕ)
    → IsArchive m a es
    → AreSmall es
    → Sound m (find_entry file a es)
find_entry-Sound m file [] a h small = tt
find_entry-Sound m file (e ∷ es) a (h, hs) (s1, s2, s3, ss) = elim (Bool-cases (file =s e.name)) [
  | inl same ↦ rw same (h, s1, s2)
  | inr other ↦ rw other (find_entry-Sound m file es (next_at a e) hs ss)
]
