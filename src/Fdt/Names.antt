-- ===== src/Fdt/Names.antt =====
-- Which names `strncmp2` of ex21/main.c takes for the component that a path begins with.
use osc_2026_exercise.Base.{
  ℕ, ◌≡◌, ◌≢◌, ◌∙◌, refl, List, [], ◌∷◌, Bool, true, false, not, ◌==◌, ◌&&◌, ◌||◌, Bool-cases, inl,
  inr, if◌then◌else◌, arith,
}
use osc_2026_exercise.Text.{IsString, ◌=s◌}
use osc_2026_exercise.Fdt.Offset.{has_at, same_loop, strncmp2}

abbrev pub is_prefix : (xs ys : List ℕ) → Bool
is_prefix [] ys = true
is_prefix (x ∷ xs) [] = false
is_prefix (x ∷ xs) (y ∷ ys) = (x == y) && is_prefix xs ys

-- The characters before the first one that is `x`.
abbrev pub before : (x : ℕ) → List ℕ → List ℕ
before x [] = []
before x (c ∷ cs) = let rest = before x cs in if c == x then [] else c ∷ rest

-- A name without its unit address is the component.
abbrev pub is_base : (node_name path : List ℕ) → Bool
is_base node_name path = has_at node_name && (before b'@' node_name =s before b'/' path)

abbrev pub NoSlash : List ℕ → Type 0
NoSlash [] = Unit
NoSlash (c ∷ cs) = (c ≢ b'/') × NoSlash cs

same_loop-has_at :
    (node_name path : List ℕ)
    → IsString node_name
    → same_loop true node_name path ≡ is_prefix node_name path
unfolding same_loop
same_loop-has_at [] path str = refl
same_loop-has_at (c ∷ cs) [] str = ground arith
same_loop-has_at (c ∷ cs) (d ∷ ds) str = ground (arith, same_loop-has_at cs ds str.1)

same_loop-is_base :
    (node_name path : List ℕ)
    → IsString node_name
    → NoSlash node_name
    → IsString path
    → has_at path ≡ false
    → same_loop false node_name path ≡ is_prefix node_name path || is_base node_name path
unfolding same_loop
same_loop-is_base [] path str plain str' no_at = refl
same_loop-is_base (c ∷ cs) [] str plain str' no_at = ground arith
same_loop-is_base (c ∷ cs) (d ∷ ds) str plain str' no_at =
    ground (arith, same_loop-is_base cs ds str.1 plain.1 str'.1)

or_false : (a : Bool) → a ≡ a || false
or_false a = ground arith

-- For a name with no slash: `strncmp2` takes it where it is the beginning of what is left of the path,
-- or, if no `@` is left in the path, where the component is the name without its unit address.
pub strncmp2_lem :
    (node_name path : List ℕ)
    → IsString node_name
    → NoSlash node_name
    → IsString path
    → strncmp2 node_name path
      ≡ is_prefix node_name path || (not (has_at path) && is_base node_name path)
unfolding strncmp2
strncmp2_lem node_name path str plain str' = elim (Bool-cases (has_at path)) [
  | inl unit ↦ rw unit (same_loop-has_at node_name path str ∙ or_false (is_prefix node_name path))
  | inr no_unit ↦ rw no_unit (same_loop-is_base node_name path str plain str' no_unit)
]
