-- ===== src/Tests/Tree.antt =====
-- A device tree at 0x1000: a root with the nodes "chosen", "memory@80000000" and "cpus", and below the
-- last one "cpu@0" with "interrupt-controller".
use osc_2026_exercise.Base.{
  ℕ, ◌+◌, ◌≡◌, refl, List, [], ◌∷◌, ◌++◌, Bool, true, ◌==◌, ◌&&◌, some, arith,
}
use osc_2026_exercise.Memory.{Memory, Holds}
use osc_2026_exercise.Fdt.{cell}
use osc_2026_exercise.Fdt.Props.{Property, IsProperty}
use osc_2026_exercise.Fdt.Offset.{off_dt_struct, same_loop, strncmp2}
use osc_2026_exercise.Fdt.Tree.{Forest, end, node, IsNode, HasForest}
use osc_2026_exercise.Fdt.Names.{strncmp2_lem}
use osc_2026_exercise.Fdt.Main.{
  compatible, memory_range, initrd_start, loaded, controller_path, memory_path, chosen_path,
  compatible_name, reg_name, initrd_name, main,
}
use osc_2026_exercise.Fdt.Run.{be64, HasValue, main-HasValue}
use osc_2026_exercise.Tests.Utils.{memory_of}

holds : Memory → ℕ → List ℕ → Bool
holds m a [] = true
holds m a (b ∷ bs) = let rest = holds m (a + 1) bs in (m a == b) && rest

holds-Holds : (m : Memory) (a : ℕ) (bs : List ℕ) → holds m a bs ≡ true → Holds m a bs
unfolding holds
holds-Holds m a [] h = tt
holds-Holds m a (b ∷ bs) h = ground (arith, holds-Holds m (a + 1) bs)

abbrev dtb : Memory
dtb = memory_of 0x1000 (
    0xd0 ∷ 0x0d ∷ 0xfe ∷ 0xed ∷ 0 ∷ 0 ∷ 0 ∷ 0 ∷ 0 ∷ 0 ∷ 0 ∷ 56 ∷ 0 ∷ 0 ∷ 0 ∷ 248 ∷ 0 ∷ 0 ∷ 0 ∷ 0 ∷ 0
    ∷ 0 ∷ 0 ∷ 0 ∷ 0 ∷ 0 ∷ 0 ∷ 0 ∷ 0 ∷ 0 ∷ 0 ∷ 0 ∷ 0 ∷ 0 ∷ 0 ∷ 0 ∷ 0 ∷ 0 ∷ 0 ∷ 0 ∷ 0 ∷ 0 ∷ 0 ∷ 0 ∷ 0
    ∷ 0 ∷ 0 ∷ 0 ∷ 0 ∷ 0 ∷ 0 ∷ 0 ∷ 0 ∷ 0 ∷ 0 ∷ 0 ∷ 0 ∷ 0 ∷ 0 ∷ 1 ∷ 0 ∷ 0 ∷ 0 ∷ 0 ∷ 0 ∷ 0 ∷ 0 ∷ 1 ∷ 99
    ∷ 104 ∷ 111 ∷ 115 ∷ 101 ∷ 110 ∷ 0 ∷ 0 ∷ 0 ∷ 0 ∷ 0 ∷ 3 ∷ 0 ∷ 0 ∷ 0 ∷ 8 ∷ 0 ∷ 0 ∷ 0 ∷ 15 ∷ 0 ∷ 0
    ∷ 0 ∷ 0 ∷ 132 ∷ 0 ∷ 0 ∷ 0 ∷ 0 ∷ 0 ∷ 0 ∷ 2 ∷ 0 ∷ 0 ∷ 0 ∷ 1 ∷ 109 ∷ 101 ∷ 109 ∷ 111 ∷ 114 ∷ 121
    ∷ 64 ∷ 56 ∷ 48 ∷ 48 ∷ 48 ∷ 48 ∷ 48 ∷ 48 ∷ 48 ∷ 0 ∷ 0 ∷ 0 ∷ 0 ∷ 3 ∷ 0 ∷ 0 ∷ 0 ∷ 16 ∷ 0 ∷ 0 ∷ 0
    ∷ 11 ∷ 0 ∷ 0 ∷ 0 ∷ 0 ∷ 128 ∷ 0 ∷ 0 ∷ 0 ∷ 0 ∷ 0 ∷ 0 ∷ 0 ∷ 8 ∷ 0 ∷ 0 ∷ 0 ∷ 0 ∷ 0 ∷ 0 ∷ 2 ∷ 0 ∷ 0
    ∷ 0 ∷ 1 ∷ 99 ∷ 112 ∷ 117 ∷ 115 ∷ 0 ∷ 0 ∷ 0 ∷ 0 ∷ 0 ∷ 0 ∷ 0 ∷ 1 ∷ 99 ∷ 112 ∷ 117 ∷ 64 ∷ 48 ∷ 0
    ∷ 0 ∷ 0 ∷ 0 ∷ 0 ∷ 0 ∷ 1 ∷ 105 ∷ 110 ∷ 116 ∷ 101 ∷ 114 ∷ 114 ∷ 117 ∷ 112 ∷ 116 ∷ 45 ∷ 99 ∷ 111
    ∷ 110 ∷ 116 ∷ 114 ∷ 111 ∷ 108 ∷ 108 ∷ 101 ∷ 114 ∷ 0 ∷ 0 ∷ 0 ∷ 0 ∷ 0 ∷ 0 ∷ 0 ∷ 3 ∷ 0 ∷ 0 ∷ 0 ∷ 11
    ∷ 0 ∷ 0 ∷ 0 ∷ 0 ∷ 114 ∷ 105 ∷ 115 ∷ 99 ∷ 118 ∷ 44 ∷ 105 ∷ 110 ∷ 116 ∷ 99 ∷ 0 ∷ 0 ∷ 0 ∷ 0 ∷ 0 ∷ 2
    ∷ 0 ∷ 0 ∷ 0 ∷ 2 ∷ 0 ∷ 0 ∷ 0 ∷ 2 ∷ 0 ∷ 0 ∷ 0 ∷ 2 ∷ 0 ∷ 0 ∷ 0 ∷ 9 ∷ 99 ∷ 111 ∷ 109 ∷ 112 ∷ 97
    ∷ 116 ∷ 105 ∷ 98 ∷ 108 ∷ 101 ∷ 0 ∷ 114 ∷ 101 ∷ 103 ∷ 0 ∷ 108 ∷ 105 ∷ 110 ∷ 117 ∷ 120 ∷ 44 ∷ 105
    ∷ 110 ∷ 105 ∷ 116 ∷ 114 ∷ 100 ∷ 45 ∷ 115 ∷ 116 ∷ 97 ∷ 114 ∷ 116 ∷ 0 ∷ [])

abbrev initrd_property : Property
initrd_property = record {
  name =
      (b'l' ∷ b'i' ∷ b'n' ∷ b'u' ∷ b'x' ∷ b',' ∷ b'i' ∷ b'n' ∷ b'i' ∷ b't' ∷ b'r' ∷ b'd' ∷ b'-'
        ∷ b's' ∷ b't' ∷ b'a' ∷ b'r' ∷ b't' ∷ []);
  value = 0 ∷ 0 ∷ 0 ∷ 0 ∷ 132 ∷ 0 ∷ 0 ∷ 0 ∷ [];
}

abbrev reg_property : Property
reg_property = record {
  name = (b'r' ∷ b'e' ∷ b'g' ∷ []);
  value = 0 ∷ 0 ∷ 0 ∷ 0 ∷ 128 ∷ 0 ∷ 0 ∷ 0 ∷ 0 ∷ 0 ∷ 0 ∷ 0 ∷ 8 ∷ 0 ∷ 0 ∷ 0 ∷ [];
}

abbrev compatible_property : Property
compatible_property = record {
  name = (b'c' ∷ b'o' ∷ b'm' ∷ b'p' ∷ b'a' ∷ b't' ∷ b'i' ∷ b'b' ∷ b'l' ∷ b'e' ∷ []);
  value = 114 ∷ 105 ∷ 115 ∷ 99 ∷ 118 ∷ 44 ∷ 105 ∷ 110 ∷ 116 ∷ 99 ∷ 0 ∷ [];
}

abbrev cpu_nodes : Forest
cpu_nodes =
    (node
      (b'i' ∷ b'n' ∷ b't' ∷ b'e' ∷ b'r' ∷ b'r' ∷ b'u' ∷ b'p' ∷ b't' ∷ b'-' ∷ b'c' ∷ b'o' ∷ b'n'
        ∷ b't' ∷ b'r' ∷ b'o' ∷ b'l' ∷ b'l' ∷ b'e' ∷ b'r' ∷ [])
      (compatible_property ∷ []) end end)

abbrev cpus_nodes : Forest
cpus_nodes = (node (b'c' ∷ b'p' ∷ b'u' ∷ b'@' ∷ b'0' ∷ []) [] cpu_nodes end)

abbrev root_nodes : Forest
root_nodes =
    (node (b'c' ∷ b'h' ∷ b'o' ∷ b's' ∷ b'e' ∷ b'n' ∷ []) (initrd_property ∷ []) end (
      node
        (b'm' ∷ b'e' ∷ b'm' ∷ b'o' ∷ b'r' ∷ b'y' ∷ b'@' ∷ b'8' ∷ b'0' ∷ b'0' ∷ b'0' ∷ b'0' ∷ b'0'
          ∷ b'0' ∷ b'0' ∷ [])
        (reg_property ∷ []) end (node (b'c' ∷ b'p' ∷ b'u' ∷ b's' ∷ []) [] cpus_nodes end)))

initrd_property-IsProperty : IsProperty dtb 0x1000 76 initrd_property
unfolding cell holds
initrd_property-IsProperty = record {
  name_off = 15;
  is_prop = refl;
  has_length = refl;
  has_name_off = refl;
  has_name = holds-Holds dtb 4359 (initrd_property.name ++ 0 ∷ []) refl;
  has_value = holds-Holds dtb 4184 initrd_property.value refl;
  is_name = omega arith;
  in_blob = omega arith;
}

reg_property-IsProperty : IsProperty dtb 0x1000 120 reg_property
unfolding cell holds
reg_property-IsProperty = record {
  name_off = 11;
  is_prop = refl;
  has_length = refl;
  has_name_off = refl;
  has_name = holds-Holds dtb 4355 (reg_property.name ++ 0 ∷ []) refl;
  has_value = holds-Holds dtb 4228 reg_property.value refl;
  is_name = omega arith;
  in_blob = omega arith;
}

compatible_property-IsProperty : IsProperty dtb 0x1000 204 compatible_property
unfolding cell holds
compatible_property-IsProperty = record {
  name_off = 0;
  is_prop = refl;
  has_length = refl;
  has_name_off = refl;
  has_name = holds-Holds dtb 4344 (compatible_property.name ++ 0 ∷ []) refl;
  has_value = holds-Holds dtb 4312 compatible_property.value refl;
  is_name = omega arith;
  in_blob = omega arith;
}

root-IsNode : IsNode dtb 0x1000 32 56 [] [] root_nodes
unfolding cell holds
root-IsNode = record {
  begins = refl;
  has_name = holds-Holds dtb 4156 ([] ++ 0 ∷ []) refl;
  is_name = omega arith;
  name_fits = omega arith;
  name_in_blob = omega arith;
  has_props = omega arith;
  ends = refl;
  end_in_blob = omega arith;
}

chosen-IsNode :
    IsNode dtb 0x1000 32 64
      (b'c' ∷ b'h' ∷ b'o' ∷ b's' ∷ b'e' ∷ b'n' ∷ [])
      (initrd_property ∷ [])
      end
unfolding cell holds
chosen-IsNode = record {
  begins = refl;
  has_name = holds-Holds dtb 4164 ((b'c' ∷ b'h' ∷ b'o' ∷ b's' ∷ b'e' ∷ b'n' ∷ []) ++ 0 ∷ []) refl;
  is_name = omega arith;
  name_fits = omega arith;
  name_in_blob = omega arith;
  has_props = (initrd_property-IsProperty, omega arith);
  ends = refl;
  end_in_blob = omega arith;
}

memory-IsNode :
    IsNode dtb 0x1000 32 100
      (b'm' ∷ b'e' ∷ b'm' ∷ b'o' ∷ b'r' ∷ b'y' ∷ b'@' ∷ b'8' ∷ b'0' ∷ b'0' ∷ b'0' ∷ b'0' ∷ b'0'
        ∷ b'0' ∷ b'0' ∷ [])
      (reg_property ∷ [])
      end
unfolding cell holds
memory-IsNode = record {
  begins = refl;
  has_name =
      holds-Holds dtb 4200
        ((b'm' ∷ b'e' ∷ b'm' ∷ b'o' ∷ b'r' ∷ b'y' ∷ b'@' ∷ b'8' ∷ b'0' ∷ b'0' ∷ b'0' ∷ b'0' ∷ b'0'
            ∷ b'0' ∷ b'0' ∷ [])
          ++ 0 ∷ [])
        refl;
  is_name = omega arith;
  name_fits = omega arith;
  name_in_blob = omega arith;
  has_props = (reg_property-IsProperty, omega arith);
  ends = refl;
  end_in_blob = omega arith;
}

cpus-IsNode : IsNode dtb 0x1000 32 152 (b'c' ∷ b'p' ∷ b'u' ∷ b's' ∷ []) [] cpus_nodes
unfolding cell holds
cpus-IsNode = record {
  begins = refl;
  has_name = holds-Holds dtb 4252 ((b'c' ∷ b'p' ∷ b'u' ∷ b's' ∷ []) ++ 0 ∷ []) refl;
  is_name = omega arith;
  name_fits = omega arith;
  name_in_blob = omega arith;
  has_props = omega arith;
  ends = refl;
  end_in_blob = omega arith;
}

cpu-IsNode : IsNode dtb 0x1000 32 164 (b'c' ∷ b'p' ∷ b'u' ∷ b'@' ∷ b'0' ∷ []) [] cpu_nodes
unfolding cell holds
cpu-IsNode = record {
  begins = refl;
  has_name = holds-Holds dtb 4264 ((b'c' ∷ b'p' ∷ b'u' ∷ b'@' ∷ b'0' ∷ []) ++ 0 ∷ []) refl;
  is_name = omega arith;
  name_fits = omega arith;
  name_in_blob = omega arith;
  has_props = omega arith;
  ends = refl;
  end_in_blob = omega arith;
}

controller-IsNode :
    IsNode dtb 0x1000 32 176
      (b'i' ∷ b'n' ∷ b't' ∷ b'e' ∷ b'r' ∷ b'r' ∷ b'u' ∷ b'p' ∷ b't' ∷ b'-' ∷ b'c' ∷ b'o' ∷ b'n'
        ∷ b't' ∷ b'r' ∷ b'o' ∷ b'l' ∷ b'l' ∷ b'e' ∷ b'r' ∷ [])
      (compatible_property ∷ [])
      end
unfolding cell holds
controller-IsNode = record {
  begins = refl;
  has_name =
      holds-Holds dtb 4276
        ((b'i' ∷ b'n' ∷ b't' ∷ b'e' ∷ b'r' ∷ b'r' ∷ b'u' ∷ b'p' ∷ b't' ∷ b'-' ∷ b'c' ∷ b'o' ∷ b'n'
            ∷ b't' ∷ b'r' ∷ b'o' ∷ b'l' ∷ b'l' ∷ b'e' ∷ b'r' ∷ [])
          ++ 0 ∷ [])
        refl;
  is_name = omega arith;
  name_fits = omega arith;
  name_in_blob = omega arith;
  has_props = (compatible_property-IsProperty, omega arith);
  ends = refl;
  end_in_blob = omega arith;
}

dtb-HasForest : HasForest dtb 0x1000 32 (cell dtb 0x1000 off_dt_struct) (node [] [] root_nodes end)
unfolding cell
dtb-HasForest = (
  root-IsNode,
  (
    chosen-IsNode,
    tt,
    (memory-IsNode, tt, (cpus-IsNode, (cpu-IsNode, (controller-IsNode, tt, tt), tt), tt)),
  ),
  tt,
)

dtb-magic : cell dtb 0x1000 0 ≡ 0xd00dfeed
unfolding cell
dtb-magic = refl

-- A node with a unit address is taken for a component without one.
strncmp2_lem_example :
    strncmp2 (b'c' ∷ b'p' ∷ b'u' ∷ b'@' ∷ b'0' ∷ []) (b'c' ∷ b'p' ∷ b'u' ∷ b'/' ∷ b'x' ∷ []) ≡ true
strncmp2_lem_example =
    strncmp2_lem (b'c' ∷ b'p' ∷ b'u' ∷ b'@' ∷ b'0' ∷ []) (b'c' ∷ b'p' ∷ b'u' ∷ b'/' ∷ b'x' ∷ [])
      (omega arith) (omega arith) (omega arith)

controller-HasValue :
    HasValue dtb 0x1000 32 [] [] root_nodes controller_path compatible_name
      compatible_property.value
unfolding same_loop strncmp2 cell
controller-HasValue = record {
  found = record {
    node_offset = 176;
    node_name =
        (b'i' ∷ b'n' ∷ b't' ∷ b'e' ∷ b'r' ∷ b'r' ∷ b'u' ∷ b'p' ∷ b't' ∷ b'-' ∷ b'c' ∷ b'o' ∷ b'n'
          ∷ b't' ∷ b'r' ∷ b'o' ∷ b'l' ∷ b'l' ∷ b'e' ∷ b'r' ∷ []);
    node_props = compatible_property ∷ [];
  };
  prop_offset = 204;
  property = compatible_property;
  is_found = refl;
  is_property = refl;
  is_value = refl;
}

memory-HasValue :
    HasValue dtb 0x1000 32 [] [] root_nodes memory_path reg_name (be64 0x80000000 ++ be64 0x8000000)
unfolding same_loop strncmp2 cell
memory-HasValue = record {
  found = record {
    node_offset = 100;
    node_name =
        (b'm' ∷ b'e' ∷ b'm' ∷ b'o' ∷ b'r' ∷ b'y' ∷ b'@' ∷ b'8' ∷ b'0' ∷ b'0' ∷ b'0' ∷ b'0' ∷ b'0'
          ∷ b'0' ∷ b'0' ∷ []);
    node_props = reg_property ∷ [];
  };
  prop_offset = 120;
  property = reg_property;
  is_found = refl;
  is_property = refl;
  is_value = refl;
}

chosen-HasValue : HasValue dtb 0x1000 32 [] [] root_nodes chosen_path initrd_name (be64 0x84000000)
unfolding same_loop strncmp2 cell
chosen-HasValue = record {
  found = record {
    node_offset = 64;
    node_name = (b'c' ∷ b'h' ∷ b'o' ∷ b's' ∷ b'e' ∷ b'n' ∷ []);
    node_props = initrd_property ∷ [];
  };
  prop_offset = 76;
  property = initrd_property;
  is_found = refl;
  is_property = refl;
  is_value = refl;
}

main-HasValue_example :
    main 32 20 (loaded dtb 0x1000)
    ≡ some (
      compatible (b'r' ∷ b'i' ∷ b's' ∷ b'c' ∷ b'v' ∷ b',' ∷ b'i' ∷ b'n' ∷ b't' ∷ b'c' ∷ [])
          ∷ memory_range 0x80000000 0x8000000
          ∷ initrd_start 0x84000000
          ∷ [],
      0,
    )
unfolding controller-HasValue
main-HasValue_example =
    main-HasValue dtb 0x1000 32 [] [] root_nodes 20 refl (omega arith) dtb-magic dtb-HasForest
      (omega arith) controller-HasValue memory-HasValue chosen-HasValue (omega arith) (omega arith)
      (omega arith) (omega arith)
