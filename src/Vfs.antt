-- ===== src/Vfs.antt =====
-- The virtual file system of ex71: vfs.c, the descriptor table of main.c, and what tmpfs.c defines. A
-- pointer to a vnode, a mount or a file is a number with 0 for NULL; a path is the list of its
-- characters. `none` is what C does not define. What the function pointers of a vnode lead to is a
-- record of operations, of which tmpfs gives some.
pub mod Path
pub mod Table
pub mod Walks
pub mod Create
pub mod Tmpfs
pub mod Main
use osc_2026_exercise.Base.{
  ℕ, zero, suc, ◌+◌, ◌-◌, ◌*◌, ◌^◌, ◌%◌, ◌/◌, Option, none, some, List, [], ◌∷◌, ◌++◌, Bool, true,
  false, ltb, leb, ◌==◌, ◌&&◌, not, if◌then◌else◌, length, take, drop,
}
use osc_2026_exercise.Base.Int.{ℤ, pos, negsuc}
use mathlib.Core.Option as Option
use osc_2026_exercise.Sched.{put}
use osc_2026_exercise.Paging.{◌>>=◌}

abbrev pub max_fs : ℕ
max_fs = 16

abbrev pub max_fd : ℕ
max_fd = 16

abbrev pub path_max : ℕ
path_max = 255

-- `struct file` without its operations, which the vnode gives.
pub record File : Type 0 where
  pub vnode : ℕ
  pub f_pos : ℕ
  pub flags : ℕ

-- The operations of `struct vnode_operations` and `struct file_operations`, on what the file systems
-- keep. `none` of a lookup or of a create is a result other than 0.
pub record Operations (S : Type 0) : Type 0 where
  pub lookup : S → (dir : ℕ) → (component : List ℕ) → Option ℕ
  pub create : S → (dir : ℕ) → (component : List ℕ) → S × Option ℕ
  pub open_vnode : S → (vnode : ℕ) → File → File
  pub close : S → File → S
  pub read : S → File → (count : ℕ) → S × File × List ℕ × ℤ
  pub write : S → File → (bytes : List ℕ) → S × File × ℤ

-- What the kernel keeps: the field `mount` of a vnode, the field `root` of a mount, and the root.
pub record Mounts : Type 0 where
  pub mount : ℕ → ℕ
  pub root : ℕ → ℕ
  pub rootfs : ℕ

-- `while (node->mount)` on fuel.
unfoldable pub cross : Mounts → ℕ → ℕ → Option ℕ
cross k zero node = none
cross k (suc fuel) node =
    let rest = cross k fuel (k.root (k.mount node)) in if k.mount node == 0 then some node else rest

-- `return -1` where a call has failed.
abbrev pub or_fail : {A : Type 0} → Option (Option ℕ) → (ℕ → Option (Option A)) → Option (Option A)
or_fail none f = none
or_fail (some none) f = some none
or_fail (some (some v)) f = f v

module _ {S : Type 0} (ops : Operations S) (k : Mounts) (fuel : ℕ) where
  -- The end of a component: the NUL, the lookup, the mounts. `some none` is the result -1.
  unfoldable pub step : S → (node : ℕ) → (component : List ℕ) → Option (Option ℕ)
  unfolding cross
  step s node component =
      let entered =
        or_fail (some (ops.lookup s node component))
          (λ found. Option.map some (cross k fuel found)) in
      if ltb (length component) path_max then entered else none

  -- The loop over the characters from the second on, and the last component.
  unfoldable pub lookup_loop :
      S → (node : ℕ) → (component : List ℕ) → (pathname : List ℕ) → Option (Option ℕ)
  unfolding step
  lookup_loop s node component [] = step s node component
  lookup_loop s node component (c ∷ cs) =
      let more = lookup_loop s node (component ++ c ∷ []) cs in
      let next = or_fail (step s node component) (λ v. lookup_loop s v [] cs) in
      if c == b'/' then next else if ltb (length component) path_max then more else none

  unfoldable pub vfs_lookup : S → (pathname : List ℕ) → Option (Option ℕ)
  unfolding lookup_loop
  vfs_lookup s [] = some (some (k.root k.rootfs))
  vfs_lookup s (c ∷ cs) = lookup_loop s (k.root k.rootfs) [] cs

-- The last `/` of the path, 0 where there is none: `i` is the index of the first character.
abbrev pub last_slash : (i at : ℕ) → List ℕ → ℕ
last_slash i at [] = at
last_slash i at (c ∷ cs) = last_slash (suc i) (if c == b'/' then i else at) cs

-- What a variable holds after a call that may have set it.
abbrev pub or_else : Option ℕ → ℕ → ℕ
or_else none old = old
or_else (some new) old = new

-- `O_CREAT` of the flags.
abbrev pub o_creat : ℕ
o_creat = 0x40

abbrev pub creates : ℕ → Bool
creates flags = flags / o_creat % 2 == 1

module _ {S : Type 0} where
  -- `rest` is what the descriptors behind `i` give.
  unfoldable pub try_slot :
      (fdt : ℕ → Option File)
      → (i : ℕ) → (rest : Option (S × (ℕ → Option File) × ℤ)) → Option File
      → Option (Option (S × File))
      → Option (S × (ℕ → Option File) × ℤ)
  try_slot fdt i rest (some file) o = rest
  try_slot fdt i rest none none = none
  try_slot fdt i rest none (some none) = rest
  try_slot fdt i rest none (some (some (s, file))) = some (s, put fdt i (some file), pos i)

module _ {S : Type 0} (ops : Operations S) (k : Mounts) (fuel : ℕ) (block : File) where
  -- `block` is what malloc leaves in its block.
  -- The directory's name goes into a buffer of 255 characters, whose last has to stay 0. The result
  -- of `create` is not looked at: where it fails, `vnode` is still the directory.
  unfoldable pub create_path : S → (pathname : List ℕ) → Option (Option (S × ℕ))
  create_path s pathname =
      let at = last_slash 0 0 pathname in
      let created = or_fail (vfs_lookup ops k fuel s (take at pathname)) (λ dir.
        let (s', new) = ops.create s dir (drop (suc at) pathname) in
        some (some (s', or_else new dir))) in
      if ltb at path_max then created else none

  -- The vnode that is opened: without O_CREAT it is not set where the lookup fails.
  unfoldable pub find_or_create :
      S → (pathname : List ℕ) → (flags : ℕ) → Option (Option ℕ) → Option (Option (S × ℕ))
  find_or_create s pathname flags none = none
  find_or_create s pathname flags (some none) =
      if creates flags then create_path s pathname else none
  find_or_create s pathname flags (some (some v)) = some (some (s, v))

  unfoldable pub allocate_file : (flags : ℕ) → Option (Option (S × ℕ)) → Option (Option (S × File))
  allocate_file flags none = none
  allocate_file flags (some none) = some none
  allocate_file flags (some (some (s, v))) =
      some (some (s, ops.open_vnode s v (record block { flags = flags })))

  unfoldable pub vfs_open : S → (pathname : List ℕ) → (flags : ℕ) → Option (Option (S × File))
  vfs_open s pathname flags =
      allocate_file flags (find_or_create s pathname flags (vfs_lookup ops k fuel s pathname))

  -- `my_open` from the descriptor `max_fd - rounds` on; it is `fdt[i] == 0` where no file is.
  unfoldable pub open_loop :
      (rounds : ℕ)
      → S
      → (fdt : ℕ → Option File) → (pathname : List ℕ) → (flags : ℕ)
      → Option (S × (ℕ → Option File) × ℤ)
  open_loop zero s fdt pathname flags = some (s, fdt, negsuc 0)
  open_loop (suc n) s fdt pathname flags =
      let i = max_fd - suc n in
      let rest = open_loop n s fdt pathname flags in
      try_slot fdt i rest (fdt i) (vfs_open s pathname flags)

  unfoldable pub my_open :
      S → (ℕ → Option File) → (pathname : List ℕ) → (flags : ℕ) → Option (S × (ℕ → Option File) × ℤ)
  my_open s fdt pathname flags = open_loop max_fd s fdt pathname flags

-- `fdt[fd]`, where the index is one of the array.
abbrev pub slot : ℤ → Option ℕ
slot (pos i) = if ltb i max_fd then some i else none
slot (negsuc i) = none

module _ {S : Type 0} (ops : Operations S) where
  close_slot : S → (ℕ → Option File) → ℕ → Option File → S × (ℕ → Option File) × ℤ
  close_slot s fdt i none = (s, fdt, negsuc 0)
  close_slot s fdt i (some file) = (ops.close s file, put fdt i none, pos 0)

  unfoldable pub my_close : S → (ℕ → Option File) → ℤ → Option (S × (ℕ → Option File) × ℤ)
  unfolding close_slot
  my_close s fdt fd = slot fd >>= λ i. some (close_slot s fdt i (fdt i))

  -- `vfs_read` and `vfs_write` leave the file as the operation does.
  file_result : (ℕ → Option File) → ℕ → S × File × ℤ → S × (ℕ → Option File) × ℤ
  file_result fdt i (s, file, result) = (s, put fdt i (some file), result)

  -- A read gives the bytes that it puts into the buffer, too.
  read_result : (ℕ → Option File) → ℕ → S × File × List ℕ × ℤ → S × (ℕ → Option File) × List ℕ × ℤ
  read_result fdt i (s, file, bytes, result) = (s, put fdt i (some file), bytes, result)

  read_slot : S → (ℕ → Option File) → ℕ → Option File → ℕ → S × (ℕ → Option File) × List ℕ × ℤ
  unfolding read_result
  read_slot s fdt i none count = (s, fdt, [], negsuc 0)
  read_slot s fdt i (some file) count = read_result fdt i (ops.read s file count)

  unfoldable pub my_read :
      S → (ℕ → Option File) → ℤ → (count : ℕ) → Option (S × (ℕ → Option File) × List ℕ × ℤ)
  unfolding read_slot
  my_read s fdt fd count = slot fd >>= λ i. some (read_slot s fdt i (fdt i) count)

  write_slot : S → (ℕ → Option File) → ℕ → Option File → List ℕ → S × (ℕ → Option File) × ℤ
  unfolding file_result
  write_slot s fdt i none bytes = (s, fdt, negsuc 0)
  write_slot s fdt i (some file) bytes = file_result fdt i (ops.write s file bytes)

  unfoldable pub my_write :
      S → (ℕ → Option File) → ℤ → (bytes : List ℕ) → Option (S × (ℕ → Option File) × ℤ)
  unfolding write_slot
  my_write s fdt fd bytes = slot fd >>= λ i. some (write_slot s fdt i (fdt i) bytes)
