-- ===== src/Fdt/Walk.antt =====
-- The loop of `fdt_path_offset` of ex21/main.c on a tree of nodes: it gives the node that
-- `find_node` gives.
use mathlib.Core.Option as Option
use osc_2026_exercise.Base.{
  ℕ, suc, ◌+◌, ◌-◌, ◌%◌, ◌^◌, ◌<◌, ◌≤◌, ◌≡◌, refl, ◌∙◌, none, some, Bool, List, [], ◌∷◌, true,
  false, ◌==◌, Bool-cases, inl, inr, if◌then◌else◌, length, get_or, drop, ltb, arith,
}
use osc_2026_exercise.Memory.{Memory}
use osc_2026_exercise.Text.{c_string-Holds}
use osc_2026_exercise.Fdt.{cell}
use osc_2026_exercise.Fdt.Props.{Property, next_at, HasProperties, align_off_lem}
use osc_2026_exercise.Fdt.Offset.{
  fdt_end_node, off_dt_struct, strncmp2, path_indices, begin_node, offset_loop, fdt_path_offset,
}
use osc_2026_exercise.Fdt.Tree.{
  Forest, end, node, props_at, props_end, forest_end, tokens, props_fuel, forest_fuel,
  forest_fuel_lem, find_node, IsNode, HasForest,
}

module _ (m : Memory) (fdt limit : ℕ) where
  module _ (aligned : fdt % 4 ≡ 0) (room : fdt + 2 ^ 32 + 4 ≤ 2 ^ 64) (path : List ℕ)
      (path_idx : List ℕ) where
    offset_loop-props :
        (ps : List Property) (n off depth matching : ℕ)
        → HasProperties m fdt off ps
        → offset_loop m fdt limit path path_idx (props_fuel ps n) off depth matching
          ≡ offset_loop m fdt limit path path_idx n (props_end off ps) depth matching
    unfolding offset_loop
    offset_loop-props [] n off depth matching h = refl
    offset_loop-props (p ∷ ps) n off depth matching (h, hs) =
        let bound = h.in_blob in
        rw
          (
            h.is_prop,
            h.has_length,
            align_off_lem m fdt aligned room (off + 0xc + length p.value) (omega arith),
          )
          (offset_loop-props ps n (next_at off p) depth matching hs)

    -- A node that is not on the path.
    enter_other :
        (name : List ℕ) (ps : List Property) (cs : Forest) (n off depth matching : ℕ)
        → IsNode m fdt limit off name ps cs
        → begin_node m fdt limit path path_idx (depth + 1) matching name ≡ (matching, false)
        → offset_loop m fdt limit path path_idx (suc (props_fuel ps n)) off depth matching
          ≡ offset_loop m fdt limit path path_idx n
              (props_end (props_at off name) ps)
              (depth + 1)
              matching
    unfolding offset_loop
    enter_other name ps cs n off depth matching h other =
        let bound = h.name_in_blob in
        rw
          (
            h.begins,
            c_string-Holds m name limit (fdt + off + 4) h.has_name h.is_name h.name_fits,
            other,
            align_off_lem m fdt aligned room (off + 4 + length name + 1) (omega arith),
          )
          (offset_loop-props ps n (props_at off name) (depth + 1) matching h.has_props)

    -- A node of the path that is not its last one.
    enter_next :
        (name : List ℕ) (ps : List Property) (cs : Forest) (n off depth matching : ℕ)
        → IsNode m fdt limit off name ps cs
        → begin_node m fdt limit path path_idx (depth + 1) matching name ≡ (suc matching, false)
        → offset_loop m fdt limit path path_idx (suc (props_fuel ps n)) off depth matching
          ≡ offset_loop m fdt limit path path_idx n
              (props_end (props_at off name) ps)
              (depth + 1)
              (suc matching)
    unfolding offset_loop
    enter_next name ps cs n off depth matching h other =
        let bound = h.name_in_blob in
        rw
          (
            h.begins,
            c_string-Holds m name limit (fdt + off + 4) h.has_name h.is_name h.name_fits,
            other,
            align_off_lem m fdt aligned room (off + 4 + length name + 1) (omega arith),
          )
          (offset_loop-props ps n (props_at off name) (depth + 1) (suc matching) h.has_props)

    -- The end of a node that is not on the path.
    leave_other :
        (n off depth matching : ℕ)
        → cell m fdt off ≡ fdt_end_node
        → off + 4 < 2 ^ 32
        → matching + 2 ≤ depth
        → offset_loop m fdt limit path path_idx (suc n) off (depth + 1) matching
          ≡ offset_loop m fdt limit path path_idx n (off + 4) depth matching
    unfolding offset_loop
    leave_other n off depth matching ends small below =
        let back : depth + 1 - 1 ≡ depth = omega arith in
        let on : (off + 4) % 2 ^ 32 ≡ off + 4 = omega arith in
        let stays : ltb depth (matching + 2) ≡ false = ground arith in
        rw (ends, back, on, stays) refl

    begin_node-deeper :
        (name : List ℕ) (depth matching : ℕ)
        → matching + 2 < depth
        → begin_node m fdt limit path path_idx (depth + 1) matching name ≡ (matching, false)
    unfolding begin_node
    begin_node-deeper name depth matching below =
        let other : (depth + 1 == matching + 3) ≡ false = ground arith in rw other refl

    -- Whether a node at the level of the component `matching` is taken for it.
    begin_node-level :
        (name : List ℕ) (matching : ℕ) {same : Bool}
        → strncmp2 name (drop (get_or path_idx matching 0) path) ≡ same
        → begin_node m fdt limit path path_idx (matching + 2 + 1) matching name
          ≡ (if same then (suc matching, suc matching == length path_idx) else (matching, false))
    unfolding begin_node
    begin_node-level name matching {same} h =
        let level : (matching + 2 + 1 == matching + 3) ≡ true = ground arith in
        let one : matching + 1 ≡ suc matching = omega arith in rw (level, one, h) refl

    -- Nodes below one that is not on the path are passed over.
    offset_loop-skip :
        (f : Forest) (n off depth matching : ℕ)
        → HasForest m fdt limit off f
        → matching + 2 < depth
        → offset_loop m fdt limit path path_idx (forest_fuel f n) off depth matching
          ≡ offset_loop m fdt limit path path_idx n (forest_end off f) depth matching
    offset_loop-skip end n off depth matching h below = refl
    offset_loop-skip (node name ps cs rest) n off depth matching (here, inner, others) below =
        let inside = props_end (props_at off name) ps in
        enter_other name ps cs (forest_fuel cs (suc (forest_fuel rest n))) off depth matching here
          (begin_node-deeper name depth matching below)
        ∙ offset_loop-skip cs (suc (forest_fuel rest n)) inside (depth + 1) matching inner
            (omega arith)
        ∙ leave_other (forest_fuel rest n) (forest_end inside cs) depth matching here.ends
            here.end_in_blob (omega arith)
        ∙ offset_loop-skip rest n (forest_end inside cs + 4) depth matching others below

    -- The last node of the path.
    found :
        (name : List ℕ) (ps : List Property) (cs : Forest) (n off depth matching : ℕ)
        → IsNode m fdt limit off name ps cs
        → begin_node m fdt limit path path_idx (depth + 1) matching name ≡ (suc matching, true)
        → offset_loop m fdt limit path path_idx (suc n) off depth matching ≡ some (some off)
    unfolding offset_loop
    found name ps cs n off depth matching h last =
        rw
          (
            h.begins,
            c_string-Holds m name limit (fdt + off + 4) h.has_name h.is_name h.name_fits,
            last,
          )
          refl

    -- The end of a node of the path.
    not_found :
        (n off matching : ℕ)
        → cell m fdt off ≡ fdt_end_node
        → offset_loop m fdt limit path path_idx (suc n) off (matching + 2) matching ≡ some none
    unfolding offset_loop
    not_found n off matching ends =
        let back : ltb (matching + 2 - 1) (matching + 2) ≡ true = ground arith in
        rw (ends, back) refl

    -- The loop among the nodes below the part of the path that is matched.
    offset_loop-find_node :
        (f : Forest) (n off matching : ℕ)
        → HasForest m fdt limit off f
        → cell m fdt (forest_end off f) ≡ fdt_end_node
        → offset_loop m fdt limit path path_idx (forest_fuel f (suc n)) off (matching + 2) matching
          ≡ some (Option.map (λ n. n.node_offset) (find_node path path_idx matching off f))
    offset_loop-find_node end n off matching h ends = not_found n off matching ends
    offset_loop-find_node (node name ps cs rest) n off matching (here, inner, others) ends =
        let inside = props_end (props_at off name) ps in
        let behind = forest_fuel rest (suc n) in
        let fuel = forest_fuel cs (suc behind) in
        elim (Bool-cases (strncmp2 name (drop (get_or path_idx matching 0) path))) [
          | inl same ↦ elim (Bool-cases (suc matching == length path_idx)) [
            | inl last ↦
                rw (same, last)
                  (found name ps cs (props_fuel ps fuel) off (matching + 2) matching here
                    (begin_node-level name matching same ∙ rw last refl))
            | inr more ↦
                let deeper : matching + 2 + 1 ≡ suc matching + 2 = omega arith in
                rw (same, more)
                  (enter_next name ps cs fuel off (matching + 2) matching here
                      (begin_node-level name matching same ∙ rw more refl)
                    ∙ rw deeper
                        (offset_loop-find_node cs behind inside (suc matching) inner here.ends))
          ]
          | inr other ↦ rw other (
              enter_other name ps cs fuel off (matching + 2) matching here
                (begin_node-level name matching other)
              ∙ offset_loop-skip cs (suc behind) inside (matching + 2 + 1) matching inner
                  (omega arith)
              ∙ leave_other behind (forest_end inside cs) (matching + 2) matching here.ends
                  here.end_in_blob (omega arith)
              ∙ offset_loop-find_node rest n (forest_end inside cs + 4) matching others ends)
        ]

  pub fdt_path_offset-HasForest :
      (aligned : fdt % 4 ≡ 0) (room : fdt + 2 ^ 32 + 4 ≤ 2 ^ 64) (path : List ℕ)
      → length (path_indices 0 path) ≤ 10
      → cell m fdt 0 ≡ 0xd00dfeed
      → (name : List ℕ) (ps : List Property) (cs : Forest) (fuel : ℕ)
      → HasForest m fdt limit (cell m fdt off_dt_struct) (node name ps cs end)
      → tokens (node name ps cs end) ≤ fuel
      → fdt_path_offset m fdt limit path fuel
        ≡ some (
            Option.map
              (λ n. n.node_offset)
              (find_node path
                (path_indices 0 path)
                0
                (props_end (props_at (cell m fdt off_dt_struct) name) ps)
                cs))
  unfolding fdt_path_offset begin_node
  fdt_path_offset-HasForest aligned room path few magic name ps cs fuel (here, inner, none_beside)
        enough =
      let idx = path_indices 0 path in
      let in_array : ltb 10 (length idx) ≡ false = ground arith in
      let n = fuel - tokens (node name ps cs end) in
      let enough_fuel : fuel ≡ forest_fuel (node name ps cs end) n =
        omega (arith, forest_fuel_lem (node name ps cs end) n) in
      rw (in_array, enough_fuel)
        (enter_other aligned room path idx name ps cs (forest_fuel cs (suc n))
            (cell m fdt off_dt_struct) 1 0 here refl
          ∙ offset_loop-find_node aligned room path idx cs n
              (props_end (props_at (cell m fdt off_dt_struct) name) ps) 0 inner here.ends)
