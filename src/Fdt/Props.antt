-- ===== src/Fdt/Props.antt =====
-- The properties of a node, as the format lays them out.
use osc_2026_exercise.Base.{
  ℕ, zero, suc, ◌+◌, ◌*◌, ◌/◌, ◌%◌, ◌^◌, ◌<◌, ◌≤◌, ◌≡◌, ◌⊎◌, refl, Option, none, some, List, [],
  ◌∷◌, ◌++◌, true, false, ◌==◌, Bool-cases, inl, inr, if◌then◌else◌, length, arith,
}
use osc_2026_exercise.Memory.{Memory, Holds}
use osc_2026_exercise.Text.{IsString, ◌=s◌, is_string-Holds, c_string-Holds}
use osc_2026_exercise.Utils.Align.{align_up_four}
use osc_2026_exercise.Fdt.{fdt_prop, off_dt_strings, cell, align_off, prop_loop, fdt_getprop}

pub record Property : Type 0 where
  pub name : List ℕ
  pub value : List ℕ

-- Where the next property is.
abbrev pub next_at : ℕ → Property → ℕ
next_at off p = (off + 0xc + length p.value + 3) / 4 * 4

module _ (m : Memory) (fdt : ℕ) where
  pub record IsProperty (off : ℕ) (p : Property) : Type 0 where
    pub name_off : ℕ
    pub is_prop : cell m fdt off ≡ fdt_prop
    pub has_length : cell m fdt (off + 4) ≡ length p.value
    pub has_name_off : cell m fdt (off + 8) ≡ name_off
    pub has_name : Holds m (fdt + cell m fdt off_dt_strings + name_off) (p.name ++ 0 ∷ [])
    pub has_value : Holds m (fdt + off + 0xc) p.value
    pub is_name : IsString p.name
    pub in_blob : next_at off p + 8 < 2 ^ 32

  -- The properties from an offset on, behind which a child (1) or the end of the node (2) stands.
  abbrev pub HasProperties : ℕ → List Property → Type 0
  HasProperties off [] = (cell m fdt off ≡ 1) ⊎ (cell m fdt off ≡ 2)
  HasProperties off (p ∷ ps) = IsProperty off p × HasProperties (next_at off p) ps

  -- The first property with the name: its offset.
  abbrev pub find_property : List ℕ → ℕ → List Property → Option (ℕ × Property)
  find_property name off [] = none
  find_property name off (p ∷ ps) =
      if name =s p.name then some (off, p) else find_property name (next_at off p) ps

  abbrev pub address : Option (ℕ × Property) → Option (ℕ × ℕ)
  address none = none
  address (some (off, p)) = some (fdt + off + 0xc, length p.value)

  -- The blob lies at a multiple of four, away from the end of the memory.
  module _ (aligned : fdt % 4 ≡ 0) (room : fdt + 2 ^ 32 + 4 ≤ 2 ^ 64) where
    pub align_off_lem : (off : ℕ) → off + 3 < 2 ^ 32 → align_off m fdt off ≡ (off + 3) / 4 * 4
    unfolding align_off
    align_off_lem off small = omega (arith, align_up_four ((fdt + off) % 2 ^ 64) (omega arith))

    prop_loop-HasProperties :
        (name : List ℕ) (ps : List Property) (fuel off : ℕ)
        → IsString name
        → HasProperties off ps
        → off + 8 < 2 ^ 32
        → length ps < fuel
        → prop_loop m fdt name fuel off ≡ some (address (find_property name off ps))
    unfolding prop_loop
    prop_loop-HasProperties name ps zero off str h small enough = absurd (omega arith)
    prop_loop-HasProperties name [] (suc n) off str h small enough =
        let stop : (cell m fdt off == fdt_prop) ≡ false = ground arith in rw stop refl
    prop_loop-HasProperties name (p ∷ ps) (suc n) off str (h, hs) small enough =
        let go : (cell m fdt off == fdt_prop) ≡ true = ground (arith, h.is_prop) in
        let bound = h.in_blob in
        rw
          (
            go,
            h.has_length,
            h.has_name_off,
            is_string-Holds m name p.name (fdt + cell m fdt off_dt_strings + h.name_off) h.has_name
                str h.is_name,
            align_off_lem (off + 0xc + length p.value) (omega arith),
            prop_loop-HasProperties name ps n (next_at off p) str hs (omega arith) (omega arith),
          )
          (elim (Bool-cases (name =s p.name)) [
            | inl same ↦ rw same refl
            | inr other ↦ rw other refl
          ])

    -- On a blob at a multiple of four, at a node whose name is shorter than the limit, whose
    -- properties lie behind it as the format has them, with no FDT_NOP token among them or
    -- before the child or the end behind them, and with fuel for them: `fdt_getprop` gives the
    -- address and the length of the value of the first property with the name, and NULL where
    -- none has it.
    pub fdt_getprop-HasProperties :
        (limit nodeoffset fuel : ℕ) (node name : List ℕ) (ps : List Property)
        → Holds m (fdt + nodeoffset + 4) (node ++ 0 ∷ [])
        → IsString node
        → length node < limit
        → IsString name
        → nodeoffset + length node + 32 < 2 ^ 32
        → HasProperties ((nodeoffset + 4 + length node + 1 + 3) / 4 * 4) ps
        → length ps < fuel
        → fdt_getprop m fdt limit nodeoffset name fuel
          ≡ some (address (find_property name ((nodeoffset + 4 + length node + 1 + 3) / 4 * 4) ps))
    unfolding fdt_getprop
    fdt_getprop-HasProperties limit nodeoffset fuel node name ps h str fits str' small hs enough =
        rw
          (
            c_string-Holds m node limit (fdt + nodeoffset + 4) h str fits,
            align_off_lem (nodeoffset + 4 + length node + 1) (omega arith),
          )
          (prop_loop-HasProperties name ps fuel ((nodeoffset + 4 + length node + 1 + 3) / 4 * 4)
            str' hs (omega arith) enough)
