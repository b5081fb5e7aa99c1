-- ===== src/Vfs/Path.antt =====
-- Paths as lists of names.
use osc_2026_exercise.Base.{
  ℕ, ◌≤◌, ◌≡◌, refl, sym, ap, Option, none, some, List, [], ◌∷◌, ◌++◌, ltb, ◌==◌, Bool-cases, inl,
  inr, if◌then◌else◌, length, arith, length-append,
}
use osc_2026_exercise.Vfs.{Operations, Mounts, path_max, or_fail, step, lookup_loop, vfs_lookup}

-- The names between the `/`; `name` is what stands in front.
abbrev pub split : (name : List ℕ) → List ℕ → List (List ℕ)
split name [] = name ∷ []
split name (c ∷ cs) =
    let here = split (name ++ c ∷ []) cs in
    let next = name ∷ split [] cs in if c == b'/' then next else here

-- The names of a path; its first character is not looked at.
abbrev pub components : List ℕ → List (List ℕ)
components [] = []
components (c ∷ cs) = split [] cs

module _ {S : Type 0} (ops : Operations S) (k : Mounts) (fuel : ℕ) where
  -- One name after another.
  abbrev pub walk : S → ℕ → List (List ℕ) → Option (Option ℕ)
  walk s node [] = some (some node)
  walk s node (name ∷ names) = or_fail (step ops k fuel s node name) (λ v. walk s v names)

  or_fail-some : (o : Option (Option ℕ)) → or_fail o (λ v. some (some v)) ≡ o
  or_fail-some none = refl
  or_fail-some (some none) = refl
  or_fail-some (some (some v)) = refl

  -- A name that is too long for the buffer is met before it is looked up.
  overlong :
      (s : S) (node : ℕ) (name cs : List ℕ)
      → path_max ≤ length name
      → walk s node (split name cs) ≡ none
  unfolding step
  overlong s node name [] long = ground arith
  overlong s node name (c ∷ cs) long =
      let longer : path_max ≤ length (name ++ c ∷ []) =
        omega (arith, length-append name (c ∷ [])) in
      elim (Bool-cases (c == b'/')) [
        | inl slash ↦ rw slash (ground arith)
        | inr other ↦ rw other (overlong s node (name ++ c ∷ []) cs longer)
      ]

  lookup_loop-walk :
      (s : S) (node : ℕ) (name cs : List ℕ)
      → lookup_loop ops k fuel s node name cs ≡ walk s node (split name cs)
  unfolding lookup_loop
  lookup_loop-walk s node name [] = sym (or_fail-some (step ops k fuel s node name))
  lookup_loop-walk s node name (c ∷ cs) = elim (Bool-cases (c == b'/')) [
    | inl slash ↦
        rw slash (ap (or_fail (step ops k fuel s node name)) (λ i v. lookup_loop-walk s v [] cs i))
    | inr other ↦ rw other (elim (Bool-cases (ltb (length name) path_max)) [
      | inl short ↦ rw short (lookup_loop-walk s node (name ++ c ∷ []) cs)
      | inr long ↦
          let longer : path_max ≤ length (name ++ c ∷ []) =
            ground (arith, length-append name (c ∷ [])) in
          rw long (sym (overlong s node (name ++ c ∷ []) cs longer))
    ])
  ]

  -- `vfs_lookup` goes from the root through the names of the path, those between the `/` behind its
  -- first character: each is looked up in the node that the names before it lead to, and the
  -- mounts on what is found are crossed. It returns -1 where a lookup does, and is undefined where
  -- the walk comes to a name of 255 characters or more or does not leave the mounts.
  pub vfs_lookup-walk :
      (s : S) (pathname : List ℕ)
      → vfs_lookup ops k fuel s pathname ≡ walk s (k.root k.rootfs) (components pathname)
  unfolding vfs_lookup
  vfs_lookup-walk s [] = refl
  vfs_lookup-walk s (c ∷ cs) = lookup_loop-walk s (k.root k.rootfs) [] cs
