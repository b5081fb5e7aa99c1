-- ===== src/Vfs/Create.antt =====
-- `vfs_open` of ex71/vfs.c with O_CREAT for a file that is not there yet.
use osc_2026_exercise.Base.{
  ℕ, suc, ◌+◌, ◌<◌, ◌≡◌, ◌≢◌, refl, sym, ap, ◌∙◌, Option, none, some, List, [], ◌∷◌, ◌++◌, ltb,
  ◌==◌, Bool-cases, inl, inr, if◌then◌else◌, length, take, drop, arith, length-append, true, false,
}
use mathlib.Core.Option as Option
use osc_2026_exercise.Vfs.{
  File, Operations, Mounts, path_max, creates, or_fail, step, lookup_loop, vfs_lookup, last_slash,
  create_path, find_or_create, allocate_file, vfs_open, or_else,
}

-- A name without `/`.
abbrev pub NoSlash : List ℕ → Type 0
NoSlash [] = Unit
NoSlash (c ∷ cs) = (c ≢ b'/') × NoSlash cs

last_slash-NoSlash : (name : List ℕ) (i at : ℕ) → NoSlash name → last_slash i at name ≡ at
last_slash-NoSlash [] i at plain = refl
last_slash-NoSlash (c ∷ cs) i at plain =
    let other : (c == b'/') ≡ false = ground arith in
    rw other (last_slash-NoSlash cs (suc i) at plain.1)

last_slash-append :
    (dir name : List ℕ) (i at : ℕ)
    → NoSlash name
    → last_slash i at (dir ++ b'/' ∷ name) ≡ i + length dir
last_slash-append [] name i at plain = last_slash-NoSlash name (suc i) i plain ∙ omega arith
last_slash-append (c ∷ cs) name i at plain =
    last_slash-append cs name (suc i) (if c == b'/' then i else at) plain ∙ omega arith

take-append : (xs ys : List ℕ) → take (length xs) (xs ++ ys) ≡ xs
take-append [] ys = refl
take-append (x ∷ xs) ys = ap (λ zs. x ∷ zs) (take-append xs ys)

drop-append : (xs ys : List ℕ) (y : ℕ) → drop (suc (length xs)) (xs ++ y ∷ ys) ≡ ys
drop-append [] ys y = refl
drop-append (x ∷ xs) ys y = drop-append xs ys y

append-nil : (xs : List ℕ) → xs ++ [] ≡ xs
append-nil [] = refl
append-nil (x ∷ xs) = ap (λ zs. x ∷ zs) (append-nil xs)

append-snoc : (xs ys : List ℕ) (y : ℕ) → (xs ++ y ∷ []) ++ ys ≡ xs ++ y ∷ ys
append-snoc [] ys y = refl
append-snoc (x ∷ xs) ys y = ap (λ zs. x ∷ zs) (append-snoc xs ys y)

or_fail-or_fail :
    (o : Option (Option ℕ)) (f g h : ℕ → Option (Option ℕ))
    → ((v : ℕ) → h v ≡ or_fail (f v) g)
    → or_fail o h ≡ or_fail (or_fail o f) g
or_fail-or_fail none f g h e = refl
or_fail-or_fail (some none) f g h e = refl
or_fail-or_fail (some (some v)) f g h e = e v

module _ {S : Type 0} (ops : Operations S) (k : Mounts) (fuel : ℕ) where
  lookup_loop-NoSlash :
      (s : S) (node : ℕ) (component name : List ℕ)
      → NoSlash name
      → length component + length name < path_max
      → lookup_loop ops k fuel s node component name ≡ step ops k fuel s node (component ++ name)
  unfolding lookup_loop
  lookup_loop-NoSlash s node component [] plain short =
      ap (λ c. step ops k fuel s node c) (sym (append-nil component))
  lookup_loop-NoSlash s node component (c ∷ cs) plain short =
      let other : (c == b'/') ≡ false = ground arith in
      let fits : ltb (length component) path_max ≡ true = ground arith in
      let fewer : length (component ++ c ∷ []) + length cs < path_max =
        rw (length-append component (c ∷ [])) (omega arith) in
      rw other (
        rw fits (
          lookup_loop-NoSlash s node (component ++ c ∷ []) cs plain.1 fewer
          ∙ ap (λ w. step ops k fuel s node w) (append-snoc component cs c)))

  lookup_loop-append :
      (s : S) (node : ℕ) (component cs name : List ℕ)
      → lookup_loop ops k fuel s node component (cs ++ b'/' ∷ name)
        ≡ or_fail
            (lookup_loop ops k fuel s node component cs)
            (λ v. lookup_loop ops k fuel s v [] name)
  unfolding lookup_loop
  lookup_loop-append s node component [] name = refl
  lookup_loop-append s node component (c ∷ cs) name = elim (Bool-cases (c == b'/')) [
    | inl slash ↦ rw slash (
        or_fail-or_fail (step ops k fuel s node component) _
          (λ v. lookup_loop ops k fuel s v [] name) _ (λ v. lookup_loop-append s v [] cs name))
    | inr other ↦ rw other (elim (Bool-cases (ltb (length component) path_max)) [
      | inl short ↦ rw short (lookup_loop-append s node (component ++ c ∷ []) cs name)
      | inr long ↦ rw long refl
    ])
  ]

  -- The lookup of a name in a directory, after the lookup of the directory.
  vfs_lookup-append :
      (s : S) (dir name : List ℕ) (d : ℕ)
      → NoSlash name
      → length name < path_max
      → vfs_lookup ops k fuel s dir ≡ some (some d)
      → vfs_lookup ops k fuel s (dir ++ b'/' ∷ name) ≡ step ops k fuel s d name
  unfolding vfs_lookup
  vfs_lookup-append s [] name d plain short e =
      let root : k.root k.rootfs ≡ d = Option.some-injective _ _ (Option.some-injective _ _ e) in
      rw root (lookup_loop-NoSlash s d [] name plain (omega arith))
  vfs_lookup-append s (c ∷ cs) name d plain short e =
      lookup_loop-append s (k.root k.rootfs) [] cs name
      ∙ ap (λ o. or_fail o (λ v. lookup_loop ops k fuel s v [] name)) e
      ∙ lookup_loop-NoSlash s d [] name plain (omega arith)

module _ {S : Type 0} (ops : Operations S) (k : Mounts) (fuel : ℕ) (block : File) (s : S)
    (dir name : List ℕ) (d flags : ℕ) (plain : NoSlash name) (short : length name < path_max)
    (short_dir : length dir < path_max) (there : vfs_lookup ops k fuel s dir ≡ some (some d)) where
  create_path-append :
      (s' : S) (new : Option ℕ)
      → ops.create s d name ≡ (s', new)
      → create_path ops k fuel block s (dir ++ b'/' ∷ name) ≡ some (some (s', or_else new d))
  unfolding create_path
  create_path-append s' new e =
      let at : last_slash 0 0 (dir ++ b'/' ∷ name) ≡ length dir =
        last_slash-append dir name 0 0 plain ∙ omega arith in
      let fits : ltb (length dir) path_max ≡ true = ground arith in
      rw (at, fits, take-append dir (b'/' ∷ name), drop-append dir name b'/', there, e) refl

  -- With O_CREAT, where the directory is found, the name behind the last `/` is not in it and both
  -- fit their buffers, `vfs_open` opens the file that `create` makes in that directory under that
  -- name; where `create` fails, it opens the directory and reports no error.
  pub vfs_open-creates :
      (s' : S) (new : Option ℕ)
      → creates flags ≡ true
      → ops.lookup s d name ≡ none
      → ops.create s d name ≡ (s', new)
      → vfs_open ops k fuel block s (dir ++ b'/' ∷ name) flags
        ≡ some (some (s', ops.open_vnode s' (or_else new d) (record block { flags = flags })))
  unfolding vfs_open find_or_create allocate_file step
  vfs_open-creates s' new creating missing e =
      let fits : ltb (length name) path_max ≡ true = ground arith in
      let absent : step ops k fuel s d name ≡ some none = rw (fits, missing) refl in
      rw
        (
          vfs_lookup-append ops k fuel s dir name d plain short there,
          absent,
          creating,
          create_path-append s' new e,
        )
        refl
