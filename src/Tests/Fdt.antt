-- ===== src/Tests/Fdt.antt =====
-- A blob at 0x1000 with one node, which has the property "x" with the value "hi".
use osc_2026_exercise.Base.{◌≡◌, refl, [], ◌∷◌, some, arith}
use osc_2026_exercise.Memory.{Memory}
use osc_2026_exercise.Fdt.{cell, fdt_getprop}
use osc_2026_exercise.Fdt.Props.{Property, IsProperty, HasProperties, fdt_getprop-HasProperties}
use osc_2026_exercise.Tests.Utils.{memory_of}

abbrev blob : Memory
blob = memory_of 0x1000 (
    0 ∷ 0 ∷ 0 ∷ 0 ∷ 0 ∷ 0 ∷ 0 ∷ 0 ∷ 0 ∷ 0 ∷ 0 ∷ 16 ∷ 0 ∷ 0 ∷ 0 ∷ 52 ∷ 0 ∷ 0 ∷ 0 ∷ 1 ∷ 0 ∷ 0 ∷ 0 ∷ 0
    ∷ 0 ∷ 0 ∷ 0 ∷ 3 ∷ 0 ∷ 0 ∷ 0 ∷ 2 ∷ 0 ∷ 0 ∷ 0 ∷ 0 ∷ b'h' ∷ b'i' ∷ 0 ∷ 0 ∷ 0 ∷ 0 ∷ 0 ∷ 2 ∷ 0 ∷ 0
    ∷ 0 ∷ 0 ∷ 0 ∷ 0 ∷ 0 ∷ 0 ∷ b'x' ∷ 0 ∷ [])

abbrev x_property : Property
x_property = record { name = b'x' ∷ []; value = b'h' ∷ b'i' ∷ [] }

x_property-IsProperty : IsProperty blob 0x1000 24 x_property
unfolding cell
x_property-IsProperty = record {
  name_off = 0;
  is_prop = refl;
  has_length = refl;
  has_name_off = refl;
  has_name = (refl, (refl, tt));
  has_value = (refl, (refl, tt));
  is_name = omega arith;
  in_blob = omega arith;
}

blob-HasProperties : HasProperties blob 0x1000 24 (x_property ∷ [])
unfolding cell
blob-HasProperties = (x_property-IsProperty, omega arith)

fdt_getprop-HasProperties_example :
    fdt_getprop blob 0x1000 8 16 (b'x' ∷ []) 2 ≡ some (some (0x1024, 2))
fdt_getprop-HasProperties_example =
    fdt_getprop-HasProperties blob 0x1000 refl (omega arith) 8 16 2 [] (b'x' ∷ []) (x_property ∷ [])
      (refl, tt) tt (omega arith) (omega arith) (omega arith) blob-HasProperties (omega arith)
