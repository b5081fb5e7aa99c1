-- ===== src/Vfs/Tmpfs.antt =====
-- tmpfs.c, and `register_filesystem` of vfs.c. The functions of tmpfs.c without a body are
-- parameters.
use osc_2026_exercise.Base.{
  ℕ, zero, suc, ◌-◌, ◌<◌, ◌≤◌, ◌≡◌, ◌≢◌, refl, Option, none, some, List, true, false, ◌==◌,
  Bool-cases, inl, inr, if◌then◌else◌, arith, subst,
}
use osc_2026_exercise.Base.Int.{ℤ, pos, negsuc}
use osc_2026_exercise.Text.{◌=s◌}
use osc_2026_exercise.Sched.{put}
use osc_2026_exercise.Vfs.{File, Operations, max_fs}

abbrev pub max_dir_entry : ℕ
max_dir_entry = 16

pub data FsnodeType : Type 0 where
  fs_dir fs_file : FsnodeType

-- `struct tmpfs_vnode`: `entry` holds pointers to vnodes.
pub record TmpfsVnode : Type 0 where
  pub type : FsnodeType
  pub name : List ℕ
  pub entry : ℕ → ℕ
  pub bytes : List ℕ

-- The field `internal` of each vnode.
abbrev pub Tmpfs : Type 0
Tmpfs = ℕ → TmpfsVnode

-- The loop from the entry `max_dir_entry - rounds` on.
unfoldable pub entry_loop : (rounds : ℕ) → Tmpfs → (dir : ℕ) → (component : List ℕ) → Option ℕ
entry_loop zero s dir component = none
entry_loop (suc n) s dir component =
    let entry = (s dir).entry (max_dir_entry - suc n) in
    let rest = entry_loop n s dir component in
    if entry == 0 then none else if (s entry).name =s component then some entry else rest

unfoldable pub tmpfs_lookup : Tmpfs → (dir : ℕ) → (component : List ℕ) → Option ℕ
tmpfs_lookup s dir component = entry_loop max_dir_entry s dir component

abbrev pub tmpfs_open : Tmpfs → ℕ → File → File
tmpfs_open s vnode file = record file { vnode = vnode; f_pos = 0 }

-- `free` of the file.
abbrev pub tmpfs_close : Tmpfs → File → Tmpfs
tmpfs_close s file = s

abbrev pub tmpfs_operations :
    (tmpfs_create : Tmpfs → ℕ → List ℕ → Tmpfs × Option ℕ)
    → (tmpfs_read : Tmpfs → File → ℕ → Tmpfs × File × List ℕ × ℤ)
    → (tmpfs_write : Tmpfs → File → List ℕ → Tmpfs × File × ℤ) → Operations Tmpfs
tmpfs_operations tmpfs_create tmpfs_read tmpfs_write = record {
  lookup = tmpfs_lookup;
  create = tmpfs_create;
  open_vnode = tmpfs_open;
  close = tmpfs_close;
  read = tmpfs_read;
  write = tmpfs_write;
}

-- A name and the number of its `setup_mount`; a name of 0 is NULL.
pub record Filesystem : Type 0 where
  pub name : ℕ
  pub setup_mount : ℕ

unfoldable pub register_loop : (rounds : ℕ) → (ℕ → Filesystem) → Filesystem → (ℕ → Filesystem) × ℤ
register_loop zero fs_list fs = (fs_list, negsuc 0)
register_loop (suc n) fs_list fs =
    let i = max_fs - suc n in
    let rest = register_loop n fs_list fs in
    if (fs_list i).name == 0 then (put fs_list i fs, pos i) else rest

unfoldable pub register_filesystem : (ℕ → Filesystem) → Filesystem → (ℕ → Filesystem) × ℤ
register_filesystem fs_list fs = register_loop max_fs fs_list fs

-- What a lookup in a directory means: the entries up to the first NULL are read in order.
abbrev pub Looks : Tmpfs → (dir : ℕ) → (component : List ℕ) → (from : ℕ) → Option ℕ → Type 0
Looks s dir component from (some v) =
    (i : ℕ) × (from ≤ i)
    × (i < max_dir_entry)
    × ((s dir).entry i ≡ v)
    × (v ≢ 0)
    × (((s v).name =s component) ≡ true)
    × ((j : ℕ)
        → from ≤ j
        → j < i
        → ((s dir).entry j ≢ 0) × (((s ((s dir).entry j)).name =s component) ≡ false))
Looks s dir component from none =
    (i : ℕ) × (from ≤ i)
    × (i ≤ max_dir_entry)
    × (i < max_dir_entry → (s dir).entry i ≡ 0)
    × ((j : ℕ)
        → from ≤ j
        → j < i
        → ((s dir).entry j ≢ 0) × (((s ((s dir).entry j)).name =s component) ≡ false))

module _ (s : Tmpfs) (dir : ℕ) (component : List ℕ) where
  earlier :
      (from i : ℕ)
      → ((s dir).entry from ≢ 0)
      → ((s ((s dir).entry from)).name =s component) ≡ false
      → ((j : ℕ)
          → suc from ≤ j
          → j < i
          → ((s dir).entry j ≢ 0) × (((s ((s dir).entry j)).name =s component) ≡ false))
      → (j : ℕ) → from ≤ j
      → j < i
      → ((s dir).entry j ≢ 0) × (((s ((s dir).entry j)).name =s component) ≡ false)
  earlier from i there other later j low high = elim (Bool-cases (j == from)) [
    | inl same ↦ let e : j ≡ from = ground arith in rw e (there, other)
    | inr new ↦ later j (ground arith) high
  ]

  extend :
      (from : ℕ) (o : Option ℕ)
      → ((s dir).entry from ≢ 0)
      → ((s ((s dir).entry from)).name =s component) ≡ false
      → Looks s dir component (suc from) o
      → Looks s dir component from o
  extend from none there other (i, low, high, end, later) =
      (i, omega arith, high, end, earlier from i there other later)
  extend from (some v) there other (i, low, high, at, real, named, later) =
      (i, omega arith, high, at, real, named, earlier from i there other later)

  entry_loop-Looks :
      (rounds : ℕ)
      → rounds ≤ max_dir_entry
      → Looks s dir component (max_dir_entry - rounds) (entry_loop rounds s dir component)
  unfolding entry_loop
  entry_loop-Looks zero fits = (
    max_dir_entry,
    omega arith,
    omega arith,
    (λ h. absurd (omega arith)),
    λ j low high. absurd (omega arith),
  )
  entry_loop-Looks (suc n) fits =
      let from = max_dir_entry - suc n in
      let next : max_dir_entry - n ≡ suc from = omega arith in
      let later : Looks s dir component (suc from) (entry_loop n s dir component) =
        subst (λ i. Looks s dir component i (entry_loop n s dir component)) next
          (entry_loop-Looks n (omega arith)) in
      elim (Bool-cases ((s dir).entry from == 0)) [
        | inl null ↦ rw null (
          from,
          omega arith,
          omega arith,
          (λ h. ground arith),
          λ j low high. absurd (omega arith),
        )
        | inr there ↦ elim (Bool-cases ((s ((s dir).entry from)).name =s component)) [
          | inl named ↦
              rw (there, named)
                (
                  from,
                  omega arith,
                  omega arith,
                  refl,
                  ground arith,
                  named,
                  λ j low high. absurd (omega arith),
                )
          | inr other ↦
              rw (there, other)
                (extend from (entry_loop n s dir component) (ground arith) other later)
        ]
      ]

  -- `tmpfs_lookup` reads the 16 entries of the directory in order, up to the first NULL. It
  -- returns the first vnode that has the name; it returns -1 where it comes to a NULL or to the end and
  -- no entry before has the name.
  pub tmpfs_lookup-Looks : Looks s dir component 0 (tmpfs_lookup s dir component)
  unfolding tmpfs_lookup
  tmpfs_lookup-Looks = entry_loop-Looks max_dir_entry (omega arith)
