-- ===== src/Vfs/Main.antt =====
-- `main` of ex71/main.c, which writes a file and reads it again.
use osc_2026_exercise.Base.{ℕ, Option, none, some, List, [], ◌∷◌, Bool, ◌==◌, if◌then◌else◌}
use osc_2026_exercise.Base.Int.{ℤ, pos, negsuc}
use osc_2026_exercise.Text.{◌=s◌}
use osc_2026_exercise.Sched.{put}
use osc_2026_exercise.Paging.{◌>>=◌}
use osc_2026_exercise.Vfs.{File, Operations, Mounts, o_creat, my_open, my_close, my_read, my_write}
use osc_2026_exercise.Vfs.Tmpfs.{Tmpfs, FsnodeType, fs_dir, Filesystem, register_filesystem}

-- "/file.txt"
abbrev pub file_path : List ℕ
file_path = b'/' ∷ b'f' ∷ b'i' ∷ b'l' ∷ b'e' ∷ b'.' ∷ b't' ∷ b'x' ∷ b't' ∷ []

-- "Operating Systems Capstone"
abbrev pub capstone : List ℕ
capstone =
    b'O' ∷ b'p' ∷ b'e' ∷ b'r' ∷ b'a' ∷ b't' ∷ b'i' ∷ b'n' ∷ b'g' ∷ b' ' ∷ b'S' ∷ b'y' ∷ b's' ∷ b't'
    ∷ b'e' ∷ b'm' ∷ b's' ∷ b' ' ∷ b'C' ∷ b'a' ∷ b'p' ∷ b's' ∷ b't' ∷ b'o' ∷ b'n' ∷ b'e' ∷ []

-- The string in a buffer that is 0 behind the bytes.
abbrev pub until_nul : List ℕ → List ℕ
until_nul [] = []
until_nul (c ∷ cs) = let rest = until_nul cs in if c == 0 then [] else c ∷ rest

-- The root of the mount is a new directory.
abbrev pub tmpfs_setup_mount : (root : ℕ → ℕ) → (mnt vnode : ℕ) → ℕ → ℕ
tmpfs_setup_mount root mnt vnode = put root mnt vnode

-- `fs_list[id]` of the array, and the filesystem that `main` registers.
abbrev pub registered : ℤ → Option ℕ
registered (pos i) = some i
registered (negsuc i) = none

abbrev pub tmpfs_filesystem : Filesystem
tmpfs_filesystem = record { name = 1; setup_mount = 1 }

-- Whether the test passes. `block` is what malloc leaves in a file, `mount` the field of the vnodes.
unfoldable pub main :
    Operations Tmpfs
    → (tmpfs_create_vnode : Tmpfs → FsnodeType → Tmpfs × ℕ) → (fuel : ℕ) → (block : File)
    → (mount : ℕ → ℕ) → Tmpfs
    → Option Bool
main ops tmpfs_create_vnode fuel block mount s0 =
    let (fs_list, id) =
      register_filesystem (λ i. record { name = 0; setup_mount = 0 }) tmpfs_filesystem in
    let (s1, vnode) = tmpfs_create_vnode s0 fs_dir in
    let k : Mounts = record {
      mount = mount;
      root = tmpfs_setup_mount (λ q. 0) 1 vnode;
      rootfs = 1;
    } in
    registered id >>= λ _.
    my_open ops k fuel block s1 (λ i. none) file_path o_creat >>= λ (s2, fdt2, fd).
    my_write ops s2 fdt2 fd capstone >>= λ (s3, fdt3, len).
    my_close ops s3 fdt3 fd >>= λ (s4, fdt4, closed).
    my_open ops k fuel block s4 fdt4 file_path 0 >>= λ (s5, fdt5, fd').
    my_read ops s5 fdt5 fd' 63 >>= λ (s6, fdt6, buf, len').
    my_close ops s6 fdt6 fd' >>= λ (s7, fdt7, closed'). some (until_nul buf =s capstone)
