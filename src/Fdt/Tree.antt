-- ===== src/Fdt/Tree.antt =====
-- The nodes of a device tree, as the format lays them out in the blob: what `fdt_path_offset` of
-- ex21/main.c walks over.
use mathlib.Core.Option as Option
use osc_2026_exercise.Base.{
  ℕ, suc, ◌+◌, ◌*◌, ◌/◌, ◌^◌, ◌<◌, ◌≡◌, subst, Option, none, some, List, [], ◌∷◌, ◌++◌, ◌==◌,
  Bool-cases, inl, inr, if◌then◌else◌, length, get_or, drop, arith,
}
use osc_2026_exercise.Memory.{Memory, Holds}
use osc_2026_exercise.Text.{IsString}
use osc_2026_exercise.Fdt.{cell}
use osc_2026_exercise.Fdt.Props.{Property, next_at, HasProperties}
use osc_2026_exercise.Fdt.Offset.{fdt_begin_node, fdt_end_node, strncmp2}

-- Nodes beside each other: the first one's name, properties and children, and the others.
pub data Forest : Type 0 where
  end : Forest
  node : (name : List ℕ) → (props : List Property) → (children rest : Forest) → Forest

-- Where the properties of a node begin, behind its name.
abbrev pub props_at : (off : ℕ) → (name : List ℕ) → ℕ
props_at off name = (off + 4 + length name + 1 + 3) / 4 * 4

abbrev pub props_end : (off : ℕ) → List Property → ℕ
props_end off [] = off
props_end off (p ∷ ps) = props_end (next_at off p) ps

-- Where nodes that begin at an offset end.
abbrev pub forest_end : (off : ℕ) → Forest → ℕ
forest_end off end = off
forest_end off (node name ps cs rest) =
    forest_end (forest_end (props_end (props_at off name) ps) cs + 4) rest

abbrev pub props_fuel : List Property → ℕ → ℕ
props_fuel [] n = n
props_fuel (p ∷ ps) n = suc (props_fuel ps n)

-- The fuel that leaves `n` behind nodes: one for each token.
abbrev pub forest_fuel : Forest → ℕ → ℕ
forest_fuel end n = n
forest_fuel (node name ps cs rest) n =
    suc (props_fuel ps (forest_fuel cs (suc (forest_fuel rest n))))

-- The number of tokens.
abbrev pub tokens : Forest → ℕ
tokens end = 0
tokens (node name ps cs rest) = suc (length ps + tokens cs + suc (tokens rest))

props_fuel_lem : (ps : List Property) (n : ℕ) → props_fuel ps n ≡ length ps + n
props_fuel_lem [] n = omega arith
props_fuel_lem (p ∷ ps) n = omega (arith, props_fuel_lem ps n)

pub forest_fuel_lem : (f : Forest) (n : ℕ) → forest_fuel f n ≡ tokens f + n
forest_fuel_lem end n = omega arith
forest_fuel_lem (node name ps cs rest) n = omega (
  arith,
  props_fuel_lem ps (forest_fuel cs (suc (forest_fuel rest n))),
  forest_fuel_lem cs (suc (forest_fuel rest n)),
  forest_fuel_lem rest n,
)

pub record FoundNode : Type 0 where
  pub node_offset : ℕ
  pub node_name : List ℕ
  pub node_props : List Property

-- The node that a path leads to, from the component `i` on: among nodes beside each
-- other it is the first one that is taken for the component; nothing turns back from it.
abbrev pub find_node :
    (path : List ℕ) → (path_idx : List ℕ) → (i off : ℕ) → Forest → Option FoundNode
find_node path path_idx i off end = none
find_node path path_idx i off (node name ps cs rest) =
    let inside = props_end (props_at off name) ps in
    if strncmp2 name (drop (get_or path_idx i 0) path)
    then (if suc i == length path_idx
        then some (record { node_offset = off; node_name = name; node_props = ps })
        else find_node path path_idx (suc i) inside cs)
    else find_node path path_idx i (forest_end inside cs + 4) rest

module _ (m : Memory) (fdt limit : ℕ) where
  pub record IsNode (off : ℕ) (name : List ℕ) (ps : List Property) (cs : Forest) : Type 0 where
    pub begins : cell m fdt off ≡ fdt_begin_node
    pub has_name : Holds m (fdt + off + 4) (name ++ 0 ∷ [])
    pub is_name : IsString name
    pub name_fits : length name < limit
    pub name_in_blob : off + length name + 32 < 2 ^ 32
    pub has_props : HasProperties m fdt (props_at off name) ps
    pub ends : cell m fdt (forest_end (props_end (props_at off name) ps) cs) ≡ fdt_end_node
    pub end_in_blob : forest_end (props_end (props_at off name) ps) cs + 4 < 2 ^ 32

  abbrev pub HasForest : ℕ → Forest → Type 0
  HasForest off end = Unit
  HasForest off (node name ps cs rest) =
      let inside = props_end (props_at off name) ps in
      IsNode off name ps cs × HasForest inside cs × HasForest (forest_end inside cs + 4) rest

  -- A node that is found is laid out in the blob, and its properties are some of the tokens.
  pub find_node-IsNode :
      (path : List ℕ) (path_idx : List ℕ) (i off : ℕ) (f : Forest) {n : FoundNode}
      → HasForest off f
      → find_node path path_idx i off f ≡ some n
      → (cs : Forest) × IsNode n.node_offset n.node_name n.node_props cs
        × (length n.node_props < tokens f)
  find_node-IsNode path path_idx i off end {n} h e = cc
  find_node-IsNode path path_idx i off (node name ps cs rest) {n} (here, inner, others) e =
      let inside = props_end (props_at off name) ps in
      elim (Bool-cases (strncmp2 name (drop (get_or path_idx i 0) path))) [
        | inl same ↦ elim (Bool-cases (suc i == length path_idx)) [
          | inl last ↦
              subst
                (λ n.
                  (x : Forest) × IsNode n.node_offset n.node_name n.node_props x
                  × (length n.node_props < tokens (node name ps cs rest)))
                (Option.some-injective _ _ (rw (same, last) at e)) (cs, here, omega arith)
          | inr more ↦
              let (ds, is_node, few) =
                find_node-IsNode path path_idx (suc i) inside cs inner (rw (same, more) at e) in
              (ds, is_node, omega arith)
        ]
        | inr other ↦
            let (ds, is_node, few) =
              find_node-IsNode path path_idx i (forest_end inside cs + 4) rest others
                (rw other at e) in
            (ds, is_node, omega arith)
      ]
