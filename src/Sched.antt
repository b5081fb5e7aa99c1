-- ===== src/Sched.antt =====
-- The threads of ex51/main.c: the circular run queue, `kthread_create` and `schedule`, with
-- `switch_to` of ex51/start.S. A task is the address of its `struct task_struct`, 0 is NULL, and
-- each field of the structures is a map from addresses.
pub mod Ring
pub mod Move
pub mod Enqueue
pub mod Schedule
pub mod Create
use osc_2026_exercise.Base.{ℕ, ◌+◌, ◌%◌, ◌^◌, List, ◌==◌, if◌then◌else◌}
use osc_2026_exercise.Utils.Alloc.{kmalloc, alloc_page}

abbrev pub stack_size : ℕ
stack_size = 0x1000

-- `sizeof(struct task_struct)`: 14 words of `thread`, `pid` padded to a word, five more words.
abbrev pub task_size : ℕ
task_size = 160

-- `struct thread_struct`: the registers that a context switch keeps, `s` being `s1` to `s11`.
pub record Context : Type 0 where
  pub ra : ℕ
  pub sp : ℕ
  pub s0 : ℕ
  pub s : List ℕ

pub record Kernel : Type 0 where
  pub thread : ℕ → Context
  pub pid : ℕ → ℕ
  pub stack : ℕ → ℕ
  pub prev : ℕ → ℕ
  pub next : ℕ → ℕ
  pub run_queue : ℕ
  pub nr_threads : ℕ
  pub curr : ℕ
  -- The registers of the hart, and the words on the stacks.
  pub tp : ℕ
  pub pc : ℕ
  pub word : ℕ → ℕ
  pub cpu : Context

-- `p->field = v`
abbrev pub put : {A : Type 0} → (ℕ → A) → ℕ → A → ℕ → A
put f p v q = if p == q then v else f q

-- The assignments in the order of the source: each reads what those before it left.
pub enqueue : ℕ → Kernel → Kernel
enqueue task k =
    if k.run_queue == 0
    then record k { run_queue = task; prev = put k.prev task task; next = put k.next task task }
    else let queue = k.run_queue in
      let next1 = put k.next task queue in
      let prev1 = put k.prev task (k.prev queue) in
      let next2 = put next1 (prev1 queue) task in
      let prev2 = put prev1 queue task in record k { run_queue = task; prev = prev2; next = next2 }

-- Up to the jump: `s0` is fetched from the frame of the caller, the registers of `from` are
-- saved and those of `to` loaded, `to` becomes the current task, and `jalr` goes on at its `ra`,
-- leaving the address `link` behind itself in `ra`.
pub switch_to : ℕ → ℕ → ℕ → Kernel → Kernel
switch_to link from to k =
    let kept = record (k.cpu) { s0 = k.word (k.cpu.sp + 16) } in
    let saved = put k.thread from kept in
    let loaded = saved to in
    record k { thread = saved; tp = to; pc = loaded.ra; cpu = record loaded { ra = link } }

-- The part of `schedule` before the switch.
pub requeue : Kernel → Kernel
requeue k =
    let self = k.tp in
    if self == k.run_queue
    then record k { run_queue = k.next self }
    else let prev1 = put k.prev (k.next self) (k.prev self) in
      let next1 = put k.next (prev1 self) (k.next self) in
      let next2 = put next1 self k.run_queue in
      let prev2 = put prev1 self (prev1 k.run_queue) in
      let next3 = put next2 (prev2 k.run_queue) self in
      let prev3 = put prev2 k.run_queue self in record k { prev = prev3; next = next3 }

pub schedule : ℕ → Kernel → Kernel
unfolding requeue switch_to
schedule link k = let k' = requeue k in switch_to link k.tp k'.run_queue k'

-- The assignments of `kthread_create` to a task at `task` with its stack at `page`, the
-- allocator having reached `curr`.
pub fill : (threadfn task page curr : ℕ) → Kernel → Kernel
fill threadfn task page curr k = record k {
  curr = curr;
  pid = put k.pid task k.nr_threads;
  nr_threads = (k.nr_threads + 1) % 2 ^ 32;
  stack = put k.stack task page;
  thread = put k.thread task (record (k.thread task) { ra = threadfn; sp = page + stack_size });
}

-- The task that was created, and the state.
pub kthread_create : ℕ → Kernel → ℕ × Kernel
unfolding fill
kthread_create threadfn k =
    let (task, curr1) = kmalloc task_size k.curr in
    let (page, curr2) = alloc_page curr1 in (task, enqueue task (fill threadfn task page curr2 k))

-- `start_kernel` up to the call of `idle`: the idle task becomes the current one, and three
-- tasks of `foo` follow. `idle` then calls `schedule` for ever.
pub start_threads : ℕ → ℕ → Kernel → Kernel
start_threads idle foo k =
    let (task, k1) = kthread_create idle k in
    let k2 = record k1 { tp = task } in
    let k3 = (kthread_create foo k2).1 in
    let k4 = (kthread_create foo k3).1 in (kthread_create foo k4).1
