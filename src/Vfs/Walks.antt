-- ===== src/Vfs/Walks.antt =====
-- What a path means in ex71/vfs.c, apart from the code: the mounts that are crossed and the names
-- that are looked up.
use mathlib.Core.Option as Option
use osc_2026_exercise.Base.{
  ℕ, zero, suc, ◌<◌, ◌≡◌, ◌≢◌, refl, sym, ◌∙◌, Option, none, some, List, [], ◌∷◌, ltb, true, false,
  length, arith, ◌==◌, Bool-cases, inl, inr, subst,
}
use osc_2026_exercise.Vfs.{Operations, Mounts, path_max, cross, step, vfs_lookup}
use osc_2026_exercise.Vfs.Path.{walk, components, vfs_lookup-walk}

-- From a node through `n` mounts, each time to the root of what is mounted, to a node with none.
pub data Crosses (k : Mounts) : (n from to : ℕ) → Type 0 where
  bare : {v : ℕ} → k.mount v ≡ 0 → Crosses k 0 v v
  over : {n v w : ℕ} → k.mount v ≢ 0 → Crosses k n (k.root (k.mount v)) w → Crosses k (suc n) v w

-- The result of going through the names from a node, with fewer than `fuel` mounts on each; `none`
-- is -1. A name leaves room for a NUL in a buffer of 255 characters.
pub data Walks {S : Type 0} (ops : Operations S) (k : Mounts) (fuel : ℕ) (s : S)
    : ℕ → List (List ℕ) → Option ℕ → Type 0 where
  arrived : {node : ℕ} → Walks ops k fuel s node [] (some node)
  missing :
      {node : ℕ} {name : List ℕ} {names : List (List ℕ)}
      → length name < 255
      → ops.lookup s node name ≡ none
      → Walks ops k fuel s node (name ∷ names) none
  entered :
      {node v w n : ℕ} {name : List ℕ} {names : List (List ℕ)} {result : Option ℕ}
      → length name < 255
      → ops.lookup s node name ≡ some v
      → Crosses k n v w
      → n < fuel
      → Walks ops k fuel s w names result
      → Walks ops k fuel s node (name ∷ names) result

cross-Crosses :
    {k : Mounts} {n v w : ℕ} (fuel : ℕ) → Crosses k n v w → n < fuel → cross k fuel v ≡ some w
unfolding cross
cross-Crosses zero c enough = absurd (omega arith)
cross-Crosses {k} {v = v} (suc fuel) (bare e) enough =
    let free : (k.mount v == 0) ≡ true = ground arith in rw free refl
cross-Crosses {k} {v = v} (suc fuel) (over e c) enough =
    let taken : (k.mount v == 0) ≡ false = ground arith in
    rw taken (cross-Crosses fuel c (omega arith))

Crosses-cross :
    (k : Mounts) (fuel v w : ℕ) → cross k fuel v ≡ some w → (n : ℕ) × (n < fuel) × Crosses k n v w
unfolding cross
Crosses-cross k zero v w e = absurd (ground arith)
Crosses-cross k (suc fuel) v w e = elim (Bool-cases (k.mount v == 0)) [
  | inl free ↦
      let same : v ≡ w = Option.some-injective _ _ (rw free at e) in
      (0, omega arith, subst (λ u. Crosses k 0 v u) same (bare (ground arith)))
  | inr taken ↦
      let (n, fewer, c) = Crosses-cross k fuel (k.root (k.mount v)) w (rw taken at e) in
      (suc n, omega arith, over (ground arith) c)
]

module _ {S : Type 0} (ops : Operations S) (k : Mounts) (fuel : ℕ) where
  step-found :
      (s : S) (node v : ℕ) (name : List ℕ)
      → length name < 255
      → ops.lookup s node name ≡ some v
      → step ops k fuel s node name ≡ Option.map some (cross k fuel v)
  unfolding step
  step-found s node v name short e =
      let fits : ltb (length name) path_max ≡ true = ground arith in rw (fits, e) refl

  step-missing :
      (s : S) (node : ℕ) (name : List ℕ)
      → length name < 255
      → ops.lookup s node name ≡ none
      → step ops k fuel s node name ≡ some none
  unfolding step
  step-missing s node name short e =
      let fits : ltb (length name) path_max ≡ true = ground arith in rw (fits, e) refl

  Walks-walk :
      {s : S} {node : ℕ} {names : List (List ℕ)} {result : Option ℕ}
      → Walks ops k fuel s node names result
      → walk ops k fuel s node names ≡ some result
  Walks-walk arrived = refl
  Walks-walk {s = s} (missing {node = node} {name = name} short e) =
      rw (step-missing s node name short e) refl
  Walks-walk {s = s} (entered {node = node} {v = v} {name = name} short e c enough rest) =
      rw (step-found s node v name short e, cross-Crosses fuel c enough) (Walks-walk rest)

  -- What a walk of at least one name starts with.
  walk-entered :
      (s : S) (node v : ℕ) (name : List ℕ) (names : List (List ℕ)) (result : Option ℕ)
      (o : Option ℕ)
      → length name < 255
      → ops.lookup s node name ≡ some v
      → cross k fuel v ≡ o
      → walk ops k fuel s node (name ∷ names) ≡ some result
      → ((w : ℕ) → walk ops k fuel s w names ≡ some result → Walks ops k fuel s w names result)
      → Walks ops k fuel s node (name ∷ names) result
  walk-entered s node v name names result none short e crossed ran later =
      let bad : none ≡ some result = rw (step-found s node v name short e, crossed) at ran in
      absurd (ground arith)
  walk-entered s node v name names result (some w) short e crossed ran later =
      let (n, fewer, c) = Crosses-cross k fuel v w crossed in
      let rest : walk ops k fuel s w names ≡ some result =
        rw (step-found s node v name short e, crossed) at ran in
      entered short e c fewer (later w rest)

  step-overlong :
      (s : S) (node : ℕ) (name : List ℕ)
      → ltb (length name) path_max ≡ false
      → step ops k fuel s node name ≡ none
  unfolding step
  step-overlong s node name long = rw long refl

  walk-first :
      (s : S) (node : ℕ) (name : List ℕ) (names : List (List ℕ)) (result o : Option ℕ)
      → length name < 255
      → ops.lookup s node name ≡ o
      → walk ops k fuel s node (name ∷ names) ≡ some result
      → ((w : ℕ) → walk ops k fuel s w names ≡ some result → Walks ops k fuel s w names result)
      → Walks ops k fuel s node (name ∷ names) result
  walk-first s node name names result none short e ran later =
      let same : none ≡ result =
        Option.some-injective _ _ (rw (step-missing s node name short e) at ran) in
      subst (λ r. Walks ops k fuel s node (name ∷ names) r) same (missing short e)
  walk-first s node name names result (some v) short e ran later =
      walk-entered s node v name names result (cross k fuel v) short e refl ran later

  walk-Walks :
      (s : S) (node : ℕ) (names : List (List ℕ)) (result : Option ℕ)
      → walk ops k fuel s node names ≡ some result
      → Walks ops k fuel s node names result
  walk-Walks s node [] result ran =
      subst (λ r. Walks ops k fuel s node [] r) (Option.some-injective _ _ ran) arrived
  walk-Walks s node (name ∷ names) result ran = elim (Bool-cases (ltb (length name) path_max)) [
    | inl fits ↦
        walk-first s node name names result (ops.lookup s node name) (ground arith) refl ran
          (λ w rest. walk-Walks s w names result rest)
    | inr long ↦
        let bad : none ≡ some result = rw (step-overlong s node name long) at ran in
        absurd (ground arith)
  ]

  -- `vfs_lookup` returns a node, or -1, exactly where the walk from the root through the names of
  -- the path comes to it: the names are those between the `/` behind the first character, each
  -- has fewer than 255 characters and is looked up in the node before it, a lookup that fails gives
  -- -1, and the mounts on what is found, fewer than the fuel, are crossed, each to its root, up
  -- to a node without one. In every other case it has no result.
  pub vfs_lookup-Walks :
      (s : S) (pathname : List ℕ) (result : Option ℕ)
      → (Walks ops k fuel s (k.root k.rootfs) (components pathname) result
          → vfs_lookup ops k fuel s pathname ≡ some result)
        × (vfs_lookup ops k fuel s pathname ≡ some result
            → Walks ops k fuel s (k.root k.rootfs) (components pathname) result)
  vfs_lookup-Walks s pathname result =
      let same = vfs_lookup-walk ops k fuel s pathname in
      (
        λ h. same ∙ Walks-walk h,
        λ e. walk-Walks s (k.root k.rootfs) (components pathname) result (sym same ∙ e),
      )
