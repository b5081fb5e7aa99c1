-- ===== src/Tests/Vfs.antt =====
-- A root directory, the vnode 1, with the file "a", the vnode 2.
use osc_2026_exercise.Base.{true}
use osc_2026_exercise.Base.{
  ℕ, ◌≡◌, refl, List, [], ◌∷◌, ◌++◌, arith, Option, some, none, if◌then◌else◌, ◌==◌,
}
use osc_2026_exercise.Base.Int.{pos}
use osc_2026_exercise.Sched.{put}
use osc_2026_exercise.Vfs.{
  File, Operations, Mounts, max_fd, vfs_lookup, vfs_open, my_open, my_close, lookup_loop, step,
  cross, find_or_create, allocate_file,
}
use osc_2026_exercise.Vfs.Main.{main}
use osc_2026_exercise.Vfs.{create_path, open_loop, try_slot, my_write, my_read}
use osc_2026_exercise.Vfs.Tmpfs.{register_filesystem, register_loop}
use osc_2026_exercise.Vfs.Create.{vfs_open-creates}
use osc_2026_exercise.Vfs.Path.{components}
use osc_2026_exercise.Vfs.Walks.{Walks, vfs_lookup-Walks}
use osc_2026_exercise.Vfs.Table.{first_free, expected, my_open-expected, my_close-my_open}
use osc_2026_exercise.Vfs.Tmpfs.{Tmpfs, fs_dir, fs_file, tmpfs_operations, tmpfs_lookup, entry_loop}

-- Operations that keep one file, and what `main` says of them: the vnode 1 is the root.
abbrev bare : Tmpfs
bare v = record { type = fs_dir; name = []; entry = λ i. 0; bytes = [] }

add_file : Tmpfs → ℕ → List ℕ → Tmpfs × Option ℕ
add_file s dir name = (
  put (put s 2 (record { type = fs_file; name = name; entry = λ i. 0; bytes = [] })) dir
      (record (s dir) { entry = λ i. if i == 0 then 2 else 0 }),
  some 2,
)

keep : Operations Tmpfs
unfolding add_file
keep =
    tmpfs_operations add_file (λ s f n. (s, f, (s f.vnode).bytes, pos 0))
      (λ s f bs. (put s f.vnode (record (s f.vnode) { bytes = bs }), f, pos 0))

passes :
    main keep (λ s t. (s, 1)) 1 (record { vnode = 99; f_pos = 99; flags = 99 }) (λ v. 0) bare
    ≡ some true
unfolding main keep add_file vfs_open find_or_create create_path allocate_file vfs_lookup
    lookup_loop step cross tmpfs_lookup entry_loop my_open open_loop try_slot my_close my_write
    my_read register_filesystem register_loop
passes = refl

abbrev tree : Tmpfs
tree v =
    if v == 1
    then record { type = fs_dir; name = []; entry = λ i. if i == 0 then 2 else 0; bytes = [] }
    else record { type = fs_file; name = b'a' ∷ []; entry = λ i. 0; bytes = [] }

-- No file is created, and a read or a write does nothing.
abbrev operations : Operations Tmpfs
operations =
    tmpfs_operations (λ s d c. (s, none)) (λ s f n. (s, f, [], pos 0)) (λ s f bs. (s, f, pos 0))

abbrev mounts : Mounts
mounts = record { mount = λ v. 0; root = λ m. 1; rootfs = 7 }

abbrev block : File
block = record { vnode = 99; f_pos = 99; flags = 99 }

abbrev empty_table : ℕ → Option File
empty_table i = none

abbrev a_path : List ℕ
a_path = b'/' ∷ b'a' ∷ []

abbrev b_path : List ℕ
b_path = b'/' ∷ b'b' ∷ []

abbrev a_file : File
a_file = record { vnode = 2; f_pos = 0; flags = 0 }

my_open-expected_example :
    my_open operations mounts 1 block tree empty_table a_path 0
    ≡ expected tree empty_table
        (first_free max_fd empty_table)
        (vfs_open operations mounts 1 block tree a_path 0)
my_open-expected_example = my_open-expected operations mounts 1 block tree empty_table a_path 0

opens : vfs_open operations mounts 1 block tree a_path 0 ≡ some (some (tree, a_file))
unfolding vfs_open find_or_create allocate_file vfs_lookup lookup_loop step cross tmpfs_lookup
    entry_loop
opens = refl

my_close-my_open_example :
    (my_open operations mounts 1 block tree empty_table a_path 0
      ≡ some (tree, put empty_table 0 (some a_file), pos 0))
    × (empty_table 0 ≡ none)
    × (my_close operations tree (put empty_table 0 (some a_file)) (pos 0)
        ≡ some (tree, empty_table, pos 0))
my_close-my_open_example =
    my_close-my_open operations mounts 1 block tree empty_table a_path 0 0 tree a_file refl opens

-- A root directory with the directory "a", the vnode 2, and a file system that makes the vnode 3.
abbrev nested : Tmpfs
nested v = record {
  type = fs_dir;
  name = if v == 2 then b'a' ∷ [] else [];
  bytes = [];
  entry = λ i. if v == 1 then (if i == 0 then 2 else 0) else 0;
}

abbrev grown : Tmpfs
grown = put nested 3 (record { type = fs_file; name = b'b' ∷ []; entry = λ i. 0; bytes = [] })

abbrev makes : Operations Tmpfs
makes =
    tmpfs_operations
      (λ s dir name.
        (put s 3 (record { type = fs_file; name = name; entry = λ i. 0; bytes = [] }), some 3))
      (λ s f n. (s, f, [], pos 0)) (λ s f bs. (s, f, pos 0))

found_dir : vfs_lookup makes mounts 1 nested a_path ≡ some (some 2)
unfolding vfs_lookup lookup_loop step cross tmpfs_lookup entry_loop
found_dir = refl

not_there : makes.lookup nested 2 (b'b' ∷ []) ≡ none
unfolding tmpfs_lookup entry_loop
not_there = refl

vfs_open-creates_example :
    vfs_open makes mounts 1 block nested (a_path ++ b'/' ∷ b'b' ∷ []) 0x40
    ≡ some
        (some (grown, makes.open_vnode grown 3 (record { vnode = 99; f_pos = 99; flags = 0x40 })))
vfs_open-creates_example =
    vfs_open-creates makes mounts 1 block nested a_path (b'b' ∷ []) 2 0x40 (ground arith, tt)
      (omega arith) (omega arith) found_dir grown (some 3) refl not_there refl

vfs_lookup-Walks_example :
    (Walks operations mounts 1 tree 1 (components a_path) (some 2)
      → vfs_lookup operations mounts 1 tree a_path ≡ some (some 2))
    × (vfs_lookup operations mounts 1 tree a_path ≡ some (some 2)
        → Walks operations mounts 1 tree 1 (components a_path) (some 2))
vfs_lookup-Walks_example = vfs_lookup-Walks operations mounts 1 tree a_path (some 2)
