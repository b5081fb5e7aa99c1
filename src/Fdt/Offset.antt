-- ===== src/Fdt/Offset.antt =====
-- `fdt_path_offset` of ex21/main.c, and the comparison of names that it uses.
use osc_2026_exercise.Base.{
  ℕ, zero, suc, ◌+◌, ◌-◌, ◌%◌, ◌^◌, ◌≡◌, refl, Option, none, some, List, [], ◌∷◌, ◌++◌, Bool, true,
  false, not, ◌==◌, ◌&&◌, ◌||◌, ltb, if◌then◌else◌, length, get_or, drop, arith,
}
use osc_2026_exercise.Memory.{Memory}
use osc_2026_exercise.Text.{c_string}
use osc_2026_exercise.Paging.{◌>>=◌}
use osc_2026_exercise.Fdt.{fdt_prop, cell, align_off}

abbrev pub fdt_begin_node : ℕ
fdt_begin_node = 0x1

abbrev pub fdt_end_node : ℕ
fdt_end_node = 0x2

abbrev pub fdt_nop : ℕ
fdt_nop = 0x4

-- The character of a string, 0 at its end.
abbrev pub first_char : List ℕ → ℕ
first_char [] = 0
first_char (c ∷ cs) = c

abbrev pub has_at : List ℕ → Bool
has_at [] = false
has_at (c ∷ cs) = (c == b'@') || has_at cs

-- The second loop of `strncmp2`; `len` is the length of the node's name.
unfoldable pub same_loop : (have_at : Bool) → (node_name path : List ℕ) → Bool
same_loop have_at [] path = true
same_loop have_at (c ∷ cs) path =
    let p = first_char path in
    let rest = same_loop have_at cs (drop 1 path) in
    if c == p then rest else not have_at && (c == b'@') && ((p == b'/') || (p == 0))

unfoldable pub strncmp2 : (node_name path : List ℕ) → Bool
strncmp2 node_name path = same_loop (has_at path) node_name path

-- The positions behind the `/` of a path, from the position `i` on.
abbrev pub path_indices : (i : ℕ) → List ℕ → List ℕ
path_indices i [] = []
path_indices i (c ∷ cs) =
    let rest = path_indices (suc i) cs in if c == b'/' then (i + 1) ∷ rest else rest

-- The header's field.
abbrev pub off_dt_struct : ℕ
off_dt_struct = 8

module _ (m : Memory) (fdt limit : ℕ) (path : List ℕ) (path_idx : List ℕ) where
  -- A node begins: `depth` is `cur_depth + 3` of the new depth, and the path has a `/`. The result is the
  -- new `matching_depth`, and whether it is that of the path.
  unfoldable pub begin_node : (depth matching : ℕ) → (node_name : List ℕ) → ℕ × Bool
  unfolding strncmp2
  begin_node depth matching node_name =
      let same = strncmp2 node_name (drop (get_or path_idx matching 0) path) in
      if (depth == matching + 3) && same
      then (matching + 1, matching + 1 == length path_idx)
      else (matching, false)

  -- What it prints where the path is not found is left out. The loop over the tokens on fuel;
  -- the result -1 is `some none`.
  unfoldable pub offset_loop : (fuel cur_off depth matching : ℕ) → Option (Option ℕ)
  unfolding begin_node cell align_off
  offset_loop zero cur_off depth matching = none
  offset_loop (suc n) cur_off depth matching =
      let token = cell m fdt cur_off in
      let after = (cur_off + 4) % 2 ^ 32 in
      let entered = c_string m limit (fdt + cur_off + 4) >>= λ node_name.
      let (matching', done) = begin_node (depth + 1) matching node_name in
      let rest =
        offset_loop n (align_off m fdt (cur_off + 4 + length node_name + 1)) (depth + 1)
          matching' in
      if done then some (some cur_off) else rest in
      let left = offset_loop n after (depth - 1) matching in
      let past =
        offset_loop n (align_off m fdt (cur_off + 0xc + cell m fdt (cur_off + 4))) depth matching in
      let next = offset_loop n after depth matching in
      if token == fdt_begin_node
      then entered
      else if token == fdt_end_node
      then (if ltb (depth - 1) (matching + 2) then some none else left)
      else if token == fdt_prop
      then past
      else if token == fdt_nop
      then next
      else some none

-- `int path_idx[10]`: with more than ten `/` the code writes behind it.
unfoldable pub fdt_path_offset :
    Memory → (fdt limit : ℕ) → (path : List ℕ) → (fuel : ℕ) → Option (Option ℕ)
unfolding offset_loop
fdt_path_offset m fdt limit path fuel =
    let path_idx = path_indices 0 path in
    if ltb 10 (length path_idx)
    then none
    else offset_loop m fdt limit path path_idx fuel (cell m fdt off_dt_struct) 1 0

same_loop-append :
    (have_at : Bool) (node_name rest : List ℕ)
    → same_loop have_at node_name (node_name ++ rest) ≡ true
unfolding same_loop
same_loop-append have_at [] rest = refl
same_loop-append have_at (c ∷ cs) rest = ground (arith, same_loop-append have_at cs rest)

-- `strncmp2` takes a node's name for the component of the path wherever the component only begins with
-- it: it looks at no more characters than the name has.
strncmp2-append : (node_name rest : List ℕ) → strncmp2 node_name (node_name ++ rest) ≡ true
unfolding strncmp2
strncmp2-append node_name rest = same_loop-append (has_at (node_name ++ rest)) node_name rest
