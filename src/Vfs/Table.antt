-- ===== src/Vfs/Table.antt =====
-- The descriptor table.
use osc_2026_exercise.Base.{
  ℕ, zero, suc, ◌-◌, ◌<◌, ◌≤◌, ◌≡◌, refl, sym, ap, ◌∙◌, Option, none, some, List, true, false, ltb,
  ◌==◌, Bool-cases, inl, inr, arith, subst,
}
use osc_2026_exercise.Base.Int.{ℤ, pos, negsuc}
use osc_2026_exercise.Sched.{put}
use osc_2026_exercise.Vfs.{
  File, Operations, Mounts, max_fd, creates, find_or_create, allocate_file, vfs_open, try_slot,
  open_loop, my_open, close_slot, my_close,
}
use osc_2026_exercise.Vfs.Path.{walk, components, vfs_lookup-walk}

-- `i` where no file is there, else `later`.
abbrev pub pick : Option File → (i : ℕ) → (later : Option ℕ) → Option ℕ
pick (some file) i later = later
pick none i later = some i

-- The first of the last `rounds` descriptors that is free.
abbrev pub first_free : (rounds : ℕ) → (ℕ → Option File) → Option ℕ
first_free zero fdt = none
first_free (suc n) fdt = pick (fdt (max_fd - suc n)) (max_fd - suc n) (first_free n fdt)

module _ {S : Type 0} where
  -- What `my_open` gives, by the first free descriptor and by what `vfs_open` does.
  abbrev pub expected :
      S
      → (ℕ → Option File)
      → Option ℕ
      → Option (Option (S × File))
      → Option (S × (ℕ → Option File) × ℤ)
  expected s fdt none o = some (s, fdt, negsuc 0)
  expected s fdt (some i) none = none
  expected s fdt (some i) (some none) = some (s, fdt, negsuc 0)
  expected s fdt (some i) (some (some (s', file))) = some (s', put fdt i (some file), pos i)

  failed :
      (s : S) (fdt : ℕ → Option File) (i : Option ℕ)
      → expected s fdt i (some none) ≡ some (s, fdt, negsuc 0)
  failed s fdt none = refl
  failed s fdt (some i) = refl

  try_slot-expected :
      (s : S) (fdt : ℕ → Option File) (i : ℕ) (rest : Option (S × (ℕ → Option File) × ℤ))
      (later : Option ℕ) (here : Option File) (o : Option (Option (S × File)))
      → rest ≡ expected s fdt later o
      → try_slot fdt i rest here o ≡ expected s fdt (pick here i later) o
  unfolding try_slot
  try_slot-expected s fdt i rest later (some file) o e = e
  try_slot-expected s fdt i rest later none none e = refl
  try_slot-expected s fdt i rest later none (some none) e = e ∙ failed s fdt later
  try_slot-expected s fdt i rest later none (some (some (s', file))) e = refl

module _ {S : Type 0} (ops : Operations S) (k : Mounts) (fuel : ℕ) (block : File) where
  open_loop-expected :
      (rounds : ℕ) (s : S) (fdt : ℕ → Option File) (pathname : List ℕ) (flags : ℕ)
      → open_loop ops k fuel block rounds s fdt pathname flags
        ≡ expected s fdt (first_free rounds fdt) (vfs_open ops k fuel block s pathname flags)
  unfolding open_loop
  open_loop-expected zero s fdt pathname flags = refl
  open_loop-expected (suc n) s fdt pathname flags =
      try_slot-expected s fdt (max_fd - suc n) _ (first_free n fdt) (fdt (max_fd - suc n))
        (vfs_open ops k fuel block s pathname flags) (open_loop-expected n s fdt pathname flags)

  -- `my_open` uses the first descriptor that is free. Where there is none, or where the path does
  -- not open, it returns -1 and changes nothing, although it then tries the free descriptors
  -- one after another.
  pub my_open-expected :
      (s : S) (fdt : ℕ → Option File) (pathname : List ℕ) (flags : ℕ)
      → my_open ops k fuel block s fdt pathname flags
        ≡ expected s fdt (first_free max_fd fdt) (vfs_open ops k fuel block s pathname flags)
  unfolding my_open
  my_open-expected s fdt pathname flags = open_loop-expected max_fd s fdt pathname flags

  -- Where a descriptor is free, a walk to a path returns -1 and the flags are without O_CREAT, what
  -- `my_open` does is not defined: it opens a vnode that was never set, instead of returning -1.
  pub my_open-unset :
      (s : S) (fdt : ℕ → Option File) (pathname : List ℕ) (flags i : ℕ)
      → first_free max_fd fdt ≡ some i
      → walk ops k fuel s (k.root k.rootfs) (components pathname) ≡ some none
      → creates flags ≡ false
      → my_open ops k fuel block s fdt pathname flags ≡ none
  unfolding vfs_open find_or_create allocate_file
  my_open-unset s fdt pathname flags i free missing plain =
      my_open-expected s fdt pathname flags
      ∙ rw (free, vfs_lookup-walk ops k fuel s pathname, missing, plain) refl

-- A descriptor that no file is at.
abbrev pub IsFree : (ℕ → Option File) → Option ℕ → Type 0
IsFree fdt none = Unit
IsFree fdt (some i) = (fdt i ≡ none) × (i < max_fd)

pick-IsFree :
    (fdt : ℕ → Option File) (i : ℕ) (later : Option ℕ) (here : Option File)
    → fdt i ≡ here
    → i < max_fd
    → IsFree fdt later
    → IsFree fdt (pick here i later)
pick-IsFree fdt i later (some file) e small h = h
pick-IsFree fdt i later none e small h = (e, small)

first_free-IsFree :
    (rounds : ℕ) (fdt : ℕ → Option File) → rounds ≤ max_fd → IsFree fdt (first_free rounds fdt)
first_free-IsFree zero fdt fits = tt
first_free-IsFree (suc n) fdt fits =
    pick-IsFree fdt (max_fd - suc n) (first_free n fdt) (fdt (max_fd - suc n)) refl (omega arith)
      (first_free-IsFree n fdt (omega arith))

emptied :
    (fdt : ℕ → Option File) (i : ℕ) (file : File)
    → fdt i ≡ none
    → put (put fdt i (some file)) i none ≡ fdt
emptied fdt i file free =
    let at : (q : ℕ) → put (put fdt i (some file)) i none q ≡ fdt q = λ q.
      elim (Bool-cases (i == q)) [
        | inl same ↦ let e : i ≡ q = ground arith in rw same (sym free ∙ ap fdt e)
        | inr other ↦ rw other refl
      ] in
    λ j q. at q j

module _ {S : Type 0} (ops : Operations S) (k : Mounts) (fuel : ℕ) (block : File) where
  -- Where a descriptor is free and the path opens, `my_open` returns a descriptor that was free, and
  -- `my_close` of it closes that file and leaves the table as it was.
  pub my_close-my_open :
      (s : S) (fdt : ℕ → Option File) (pathname : List ℕ) (flags i : ℕ) (s' : S) (file : File)
      → first_free max_fd fdt ≡ some i
      → vfs_open ops k fuel block s pathname flags ≡ some (some (s', file))
      → (my_open ops k fuel block s fdt pathname flags ≡ some (s', put fdt i (some file), pos i))
        × (fdt i ≡ none)
        × (my_close ops s' (put fdt i (some file)) (pos i) ≡ some (ops.close s' file, fdt, pos 0))
  unfolding my_close close_slot
  my_close-my_open s fdt pathname flags i s' file first opens =
      let (free, small) : IsFree fdt (some i) =
        subst (IsFree fdt) first (first_free-IsFree max_fd fdt (omega arith)) in
      let in_table : ltb i max_fd ≡ true = ground arith in
      let here : put fdt i (some file) i ≡ some file = ground arith in
      (
        my_open-expected ops k fuel block s fdt pathname flags ∙ rw (first, opens) refl,
        free,
        rw (in_table, here)
            (ap (λ f. some (ops.close s' file, f, pos 0)) (emptied fdt i file free)),
      )
