-- ===== src/Fdt/Run.antt =====
-- A run of `main` of ex21/main.c on a blob that holds a tree: the property of a node that a path
-- leads to, and the numbers in it.
use mathlib.Core.Option as Option
use osc_2026_exercise.Base.{
  ℕ, ◌+◌, ◌*◌, ◌/◌, ◌%◌, ◌^◌, ◌<◌, ◌≤◌, ◌≡◌, refl, ◌∙◌, ap, subst, some, List, [], ◌∷◌, ◌++◌, false,
  Bool-cases, inl, inr, length, leb, arith,
}
use osc_2026_exercise.Memory.{Memory, Holds, Holds-append}
use osc_2026_exercise.Text.{IsString, ◌=s◌}
use osc_2026_exercise.Fdt.{cell, bswap32, load32}
use osc_2026_exercise.Fdt.Props.{
  Property, next_at, HasProperties, find_property, fdt_getprop-HasProperties,
}
use osc_2026_exercise.Fdt.Offset.{off_dt_struct, path_indices, fdt_path_offset}
use osc_2026_exercise.Fdt.Tree.{
  Forest, end, node, props_at, props_end, tokens, FoundNode, find_node, HasForest, find_node-IsNode,
}
use osc_2026_exercise.Fdt.Walk.{fdt_path_offset-HasForest}
use osc_2026_exercise.Fdt.Names.{before}
use osc_2026_exercise.Fdt.Main.{
  bswap64, load64, shown_text, compatible, memory_range, initrd_start, loaded, controller_path,
  memory_path, chosen_path, compatible_name, reg_name, initrd_name, prop_at, last_lines,
  main_loaded, main,
}

compatible_name-IsString : IsString compatible_name
compatible_name-IsString = omega arith

reg_name-IsString : IsString reg_name
reg_name-IsString = omega arith

initrd_name-IsString : IsString initrd_name
initrd_name-IsString = omega arith

-- A number of 64 bits as the blob has it, the high byte first.
abbrev pub be64 : ℕ → List ℕ
be64 x =
    x / 2 ^ 56 % 2 ^ 8
    ∷ x / 2 ^ 48 % 2 ^ 8
    ∷ x / 2 ^ 40 % 2 ^ 8
    ∷ x / 2 ^ 32 % 2 ^ 8
    ∷ x / 2 ^ 24 % 2 ^ 8
    ∷ x / 2 ^ 16 % 2 ^ 8
    ∷ x / 2 ^ 8 % 2 ^ 8
    ∷ x % 2 ^ 8
    ∷ []

-- The bytes of a word, read low byte first and turned around.
bswap32-bytes :
    {a b c d : ℕ}
    → a < 2 ^ 8
    → b < 2 ^ 8
    → c < 2 ^ 8
    → d < 2 ^ 8
    → bswap32 (a + b * 2 ^ 8 + c * 2 ^ 16 + d * 2 ^ 24) ≡ a * 2 ^ 24 + b * 2 ^ 16 + c * 2 ^ 8 + d
bswap32-bytes ha hb hc hd = omega arith

-- `a + 2` and `a + 3` as the bytes of a list have them.
load32-bytes :
    (m : Memory) (a p q r s : ℕ) (rest : List ℕ)
    → Holds m a (p ∷ q ∷ r ∷ s ∷ rest)
    → load32 m a ≡ p + q * 2 ^ 8 + r * 2 ^ 16 + s * 2 ^ 24
load32-bytes m a p q r s rest h =
    let two : m (a + 2) ≡ m (a + 1 + 1) = ap m (omega arith) in
    let three : m (a + 3) ≡ m (a + 1 + 1 + 1) = ap m (omega arith) in
    rw (two, three, h.0, h.1.0, h.1.1.0, h.1.1.1.0) refl

bswap64-words :
    (lo hi : ℕ)
    → lo < 2 ^ 32
    → hi < 2 ^ 32
    → bswap64 (lo + hi * 2 ^ 32) ≡ bswap32 lo * 2 ^ 32 + bswap32 hi
bswap64-words lo hi small small' =
    let low : (lo + hi * 2 ^ 32) % 2 ^ 32 ≡ lo = omega arith in
    let high : (lo + hi * 2 ^ 32) / 2 ^ 32 % 2 ^ 32 ≡ hi = omega arith in rw (low, high) refl

abbrev low_word : ℕ → ℕ
low_word x =
    x / 2 ^ 24 % 2 ^ 8
    + x / 2 ^ 16 % 2 ^ 8 * 2 ^ 8
    + x / 2 ^ 8 % 2 ^ 8 * 2 ^ 16
    + x % 2 ^ 8 * 2 ^ 24

bswap32-low_word : (x : ℕ) → bswap32 (low_word x) ≡ x % 2 ^ 32
bswap32-low_word x =
    bswap32-bytes {a = x / 2 ^ 24 % 2 ^ 8} {b = x / 2 ^ 16 % 2 ^ 8} {c = x / 2 ^ 8 % 2 ^ 8}
      {d = x % 2 ^ 8} (omega arith) (omega arith) (omega arith) (omega arith)
    ∙ omega arith

load64-be64 : (m : Memory) (a x : ℕ) → x < 2 ^ 64 → Holds m a (be64 x) → bswap64 (load64 m a) ≡ x
load64-be64 m a x small h =
    let high = h.1.1.1.1 in
    let low_bytes = x / 2 ^ 24 % 2 ^ 8 ∷ x / 2 ^ 16 % 2 ^ 8 ∷ x / 2 ^ 8 % 2 ^ 8 ∷ x % 2 ^ 8 ∷ [] in
    let four : a + 1 + 1 + 1 + 1 ≡ a + 4 = omega arith in
    let y = x / 2 ^ 32 in
    let first : load32 m a ≡ low_word y = load32-bytes m a _ _ _ _ low_bytes h ∙ omega arith in
    let second : load32 m (a + 4) ≡ low_word x =
      load32-bytes m (a + 4) _ _ _ _ [] (rw four at high) in
    rw (first, second)
      (bswap64-words (low_word y) (low_word x) (omega arith) (omega arith)
        ∙ rw (bswap32-low_word x, bswap32-low_word y) (omega arith))

shown_text-Holds :
    (m : Memory) (v : List ℕ) (a : ℕ) → Holds m a v → shown_text m (length v) a ≡ before 0 v
shown_text-Holds m [] a h = refl
shown_text-Holds m (c ∷ cs) a h = ground (arith, shown_text-Holds m cs (a + 1) h.1)

find_property-Holds :
    (m : Memory) (fdt : ℕ) (name : List ℕ) (ps : List Property) (off : ℕ) {o : ℕ} {p : Property}
    → HasProperties m fdt off ps
    → find_property m fdt name off ps ≡ some (o, p)
    → Holds m (fdt + o + 0xc) p.value
find_property-Holds m fdt name [] off h e = cc
find_property-Holds m fdt name (q ∷ ps) off {o} {p} (h, hs) e = elim (Bool-cases (name =s q.name)) [
  | inl same ↦
      subst {A = ℕ × Property} (λ (o, p). Holds m (fdt + o + 0xc) p.value)
        (Option.some-injective _ _ (rw same at e)) h.has_value
  | inr other ↦ find_property-Holds m fdt name ps (next_at off q) hs (rw other at e)
]

module _ (m : Memory) (fdt limit : ℕ) (root : List ℕ) (props : List Property) (nodes : Forest) where
  -- The node that a path leads to has a property with the value.
  pub record HasValue (path name value : List ℕ) : Type 0 where
    pub found : FoundNode
    pub prop_offset : ℕ
    pub property : Property
    pub is_found :
        find_node path
          (path_indices 0 path)
          0
          (props_end (props_at (cell m fdt off_dt_struct) root) props)
          nodes
        ≡ some found
    pub is_property :
        find_property m fdt name (props_at found.node_offset found.node_name) found.node_props
        ≡ some (prop_offset, property)
    pub is_value : property.value ≡ value

  module _ (fuel : ℕ) (aligned : fdt % 4 ≡ 0) (room : fdt + 2 ^ 32 + 4 ≤ 2 ^ 64)
      (magic : cell m fdt 0 ≡ 0xd00dfeed)
      (tree : HasForest m fdt limit (cell m fdt off_dt_struct) (node root props nodes end))
      (enough : tokens (node root props nodes end) ≤ fuel) where
    -- The two functions give the address of the value.
    getprop-HasValue :
        (path name : List ℕ) {value : List ℕ} (v : HasValue path name value)
        → length (path_indices 0 path) ≤ 10
        → IsString name
        → (fdt_path_offset m fdt limit path fuel ≡ some (some v.found.node_offset))
          × (prop_at m fdt limit fuel (some v.found.node_offset) name
              ≡ some (some (fdt + v.prop_offset + 0xc, length value)))
          × Holds m (fdt + v.prop_offset + 0xc) value
    unfolding prop_at
    getprop-HasValue path name {value} v few str =
        let (cs, is_node, few_props) =
          find_node-IsNode m fdt limit path (path_indices 0 path) 0
            (props_end (props_at (cell m fdt off_dt_struct) root) props) nodes tree.1 v.is_found in
        let small = is_node.name_in_blob in
        (
          fdt_path_offset-HasForest m fdt limit aligned room path few magic root props nodes fuel
                tree enough
              ∙ rw v.is_found refl,
          fdt_getprop-HasProperties m fdt aligned room limit v.found.node_offset fuel
                v.found.node_name name v.found.node_props is_node.has_name is_node.is_name
                is_node.name_fits str (omega arith) is_node.has_props (omega arith)
              ∙ rw (v.is_property, v.is_value) refl,
          subst (λ t. Holds m (fdt + v.prop_offset + 0xc) t) v.is_value
              (find_property-Holds m fdt name v.found.node_props
                (props_at v.found.node_offset v.found.node_name) is_node.has_props v.is_property),
        )

    -- The blob lies at a multiple of four, away from the end of the memory, and has a root with
    -- a tree below it, laid out as the format has them, with no FDT_NOP token and with names
    -- shorter than the limit; its magic number is 0xd00dfeed; the fuel is enough for its tokens.
    -- The three paths of `main` lead to nodes with the properties that it reads, the first one
    -- below 2 GiB, those of the memory and of the archive with their numbers of 64 bits. Then
    -- `main` prints the first property up to a NUL, and these numbers, and returns 0.
    pub main-HasValue :
        {names : List ℕ} {base size start : ℕ}
        (controller : HasValue controller_path compatible_name names)
        (memory : HasValue memory_path reg_name (be64 base ++ be64 size))
        (chosen : HasValue chosen_path initrd_name (be64 start))
        → controller.found.node_offset < 2 ^ 31
        → base < 2 ^ 64
        → size < 2 ^ 64
        → start < 2 ^ 64
        → main limit fuel (loaded m fdt)
          ≡ some (compatible (before 0 names) ∷ memory_range base size ∷ initrd_start start ∷ [], 0)
    unfolding main main_loaded last_lines
    main-HasValue {names} {base} {size} {start} controller memory chosen low base_64 size_64
          start_64 =
        let (path1, prop1, value1) =
          getprop-HasValue controller_path compatible_name controller (omega arith)
            compatible_name-IsString in
        let (path2, prop2, value2) =
          getprop-HasValue memory_path reg_name memory (omega arith) reg_name-IsString in
        let (path3, prop3, value3) =
          getprop-HasValue chosen_path initrd_name chosen (omega arith) initrd_name-IsString in
        let (reg_base, reg_size) =
          Holds-append m (fdt + memory.prop_offset + 0xc) (be64 base) (be64 size) value2 in
        let is_offset : leb (2 ^ 31) controller.found.node_offset ≡ false = ground arith in
        rw
          (
            path1,
            is_offset,
            prop1,
            shown_text-Holds m names (fdt + controller.prop_offset + 0xc) value1,
            path2,
            prop2,
            path3,
            prop3,
            load64-be64 m (fdt + memory.prop_offset + 0xc) base base_64 reg_base,
            load64-be64 m (fdt + memory.prop_offset + 0xc + 8) size size_64 reg_size,
            load64-be64 m (fdt + chosen.prop_offset + 0xc) start start_64 value3,
          )
          refl
