-- ===== src/Sched/Create.antt =====
-- `kthread_create`, and the threads that `start_kernel` makes.
use osc_2026_exercise.Base.{
  ℕ, ◌+◌, ◌%◌, ◌^◌, ◌<◌, ◌≤◌, ◌≡◌, ◌≢◌, refl, true, false, List, [], ◌∷◌, arith, sym, subst, ◌∙◌,
  map, ◌++◌,
}
use osc_2026_exercise.Sched.{
  Kernel, enqueue, fill, kthread_create, start_threads, task_size, stack_size,
}
use osc_2026_exercise.Sched.Enqueue.{IsRing, enqueue-empty, enqueue-IsRing}
use osc_2026_exercise.Sched.Ring.{has}
use osc_2026_exercise.Utils.Alloc.{kmalloc, alloc_page, kmalloc_lem, alloc_page_lem}

-- The run queue holds the tasks in this order from its head.
abbrev pub IsQueue : Kernel → List ℕ → Type 0
IsQueue k [] = k.run_queue ≡ 0
IsQueue k (h ∷ xs) = IsRing k h xs

pub record IsSched (k : Kernel) (ts : List ℕ) : Type 0 where
  pub queue : IsQueue k ts
  pub below : (q : ℕ) → has q ts ≡ true → q + task_size ≤ k.curr
  pub started : 0 < k.curr

enqueue-IsQueue :
    (k : Kernel) (ts : List ℕ) (task : ℕ)
    → IsQueue k ts
    → task ≢ 0
    → has task ts ≡ false
    → IsQueue (enqueue task k) (task ∷ ts)
enqueue-IsQueue k [] task q ne new = enqueue-empty k task q ne
enqueue-IsQueue k (h ∷ xs) task q ne new = enqueue-IsRing k task h xs q ne new

-- `enqueue` leaves all but the queue alone.
abbrev SameTasks : Kernel → Kernel → Type 0
SameTasks k k' =
    (k'.curr ≡ k.curr)
    × (k'.pid ≡ k.pid)
    × (k'.nr_threads ≡ k.nr_threads)
    × (k'.stack ≡ k.stack)
    × (k'.thread ≡ k.thread)
    × (k'.tp ≡ k.tp)

enqueue-SameTasks : (task : ℕ) (k : Kernel) → SameTasks k (enqueue task k)
unfolding enqueue
enqueue-SameTasks task k = ground arith

-- Nothing of what the ring is made of changes.
IsQueue-same :
    (k k' : Kernel) (ts : List ℕ)
    → k'.run_queue ≡ k.run_queue
    → k'.next ≡ k.next
    → k'.prev ≡ k.prev
    → IsQueue k ts
    → IsQueue k' ts
IsQueue-same k k' [] e e' e'' q = e ∙ q
IsQueue-same k k' (h ∷ xs) e e' e'' q = record {
  head = e ∙ q.head;
  links = rw (e', e'') q.links;
  distinct = q.distinct;
  no_null = q.no_null;
}

-- What `kthread_create` leaves: the thread is at the head of the run queue, with the next number
-- as its pid, a page of its own as its stack and a context that starts `threadfn` at the top of
-- it; the tasks `ts` that were there keep their pids, where they start and their order.
pub record Created (threadfn : ℕ) (k : Kernel) (ts : List ℕ) (task : ℕ) (after : Kernel)
    : Type 0 where
  pub sched : IsSched after (task ∷ ts)
  pub new_pid : after.pid task ≡ k.nr_threads
  pub counted : after.nr_threads ≡ (k.nr_threads + 1) % 2 ^ 32
  pub starts : (after.thread task).ra ≡ threadfn
  pub on_stack : (after.thread task).sp ≡ after.stack task + stack_size
  pub stack_aligned : after.stack task % 0x1000 ≡ 0
  pub stack_behind : task + task_size ≤ after.stack task
  pub stack_before : after.stack task + stack_size ≤ after.curr
  pub kept : (q : ℕ) → has q ts ≡ true → after.pid q ≡ k.pid q
  pub kept_entry : (q : ℕ) → has q ts ≡ true → (after.thread q).ra ≡ (k.thread q).ra
  pub same_tp : after.tp ≡ k.tp
  pub taken : after.curr ≤ k.curr + 0x2100

module _ (threadfn : ℕ) (k : Kernel) (ts : List ℕ) (is : IsSched k ts) (task page : ℕ)
    (above : k.curr ≤ task) (apart : task + task_size ≤ page) (aligned : page % 0x1000 ≡ 0)
    (near : page + stack_size ≤ k.curr + 0x2100) where
  abbrev filled : Kernel
  filled = fill threadfn task page (page + stack_size) k

  not_there : (q : ℕ) → has q ts ≡ true → task ≢ q
  not_there q i e = let b = is.below q i in let s = is.started in omega arith

  has-task : (xs : List ℕ) → ((q : ℕ) → has q xs ≡ true → task ≢ q) → has task xs ≡ false
  has-task [] out = refl
  has-task (x ∷ xs) out = ground (arith, out x, has-task xs (λ q i. out q (ground arith)))

  fill-Created : Created threadfn k ts task (enqueue task filled)
  unfolding fill
  fill-Created =
      let (curr, pid, count, stack, thread, tp) = enqueue-SameTasks task filled in
      let s = is.started in
      record {
        sched = record {
          queue =
              enqueue-IsQueue filled ts task (IsQueue-same k filled ts refl refl refl is.queue)
                (omega arith) (has-task ts not_there);
          below = λ q i. rw curr (ground (arith, is.below q));
          started = rw curr (omega arith);
        };
        new_pid = rw pid (ground arith);
        counted = count;
        starts = rw thread (ground arith);
        on_stack = rw (thread, stack) (ground arith);
        stack_aligned = rw stack (ground arith);
        stack_behind = rw stack (ground arith);
        stack_before = rw (stack, curr) (ground arith);
        kept = λ q i. rw pid (ground (arith, not_there q i));
        kept_entry = λ q i. rw thread (ground (arith, not_there q i));
        same_tp = tp;
        taken = rw curr near;
      }

-- With a state that fits the allocator, `kthread_create` creates the thread.
pub kthread_create-Created :
    (threadfn : ℕ) (k : Kernel) (ts : List ℕ)
    → IsSched k ts
    → k.curr + 0x3000 < 2 ^ 64
    → let (task, after) = kthread_create threadfn k in Created threadfn k ts task after
unfolding kthread_create
kthread_create-Created threadfn k ts is fits =
    let (t_at, t_end) = kmalloc_lem task_size k.curr (omega arith) in
    let (s_at, s_end) = alloc_page_lem (kmalloc task_size k.curr).1 (omega (arith, t_at)) in
    rw s_end (
      fill-Created threadfn k ts is (kmalloc task_size k.curr).0
        (alloc_page (kmalloc task_size k.curr).1).0 (omega (arith, t_at)) (omega arith)
        (omega arith) (omega (arith, t_at)))

IsSched-tp : (k : Kernel) (ts : List ℕ) (t : ℕ) → IsSched k ts → IsSched (record k { tp = t }) ts
IsSched-tp k ts t is = record {
  queue = IsQueue-same k (record k { tp = t }) ts refl refl refl is.queue;
  below = is.below;
  started = is.started;
}

-- The ring, the pids and where the threads start, where `tp` is `t`.
abbrev pub IsBoot : (idle foo : ℕ) → Kernel → ℕ → ℕ → List ℕ → Type 0
IsBoot idle foo k t h xs =
    IsRing k h (xs ++ t ∷ [])
    × (map k.pid (h ∷ (xs ++ t ∷ [])) ≡ 3 ∷ 2 ∷ 1 ∷ 0 ∷ [])
    × (map (λ q. (k.thread q).ra) (h ∷ (xs ++ t ∷ [])) ≡ foo ∷ foo ∷ foo ∷ idle ∷ [])

four_pids :
    (idle foo : ℕ) (k k1 k3 k4 k5 : Kernel) (t0 t1 t2 t3 : ℕ)
    → k.nr_threads ≡ 0
    → Created idle k [] t0 k1
    → Created foo (record k1 { tp = t0 }) (t0 ∷ []) t1 k3
    → Created foo k3 (t1 ∷ t0 ∷ []) t2 k4
    → Created foo k4 (t2 ∷ t1 ∷ t0 ∷ []) t3 k5
    → IsBoot idle foo k5 k5.tp t3 (t2 ∷ t1 ∷ [])
four_pids idle foo k k1 k3 k4 k5 t0 t1 t2 t3 none_yet c0 c1 c2 c3 =
    let at : k5.tp ≡ t0 = c3.same_tp ∙ c2.same_tp ∙ c1.same_tp in
    let n1 : k1.nr_threads ≡ 1 = omega (arith, c0.counted) in
    let n3 : k3.nr_threads ≡ 2 = omega (arith, c1.counted) in
    let n4 : k4.nr_threads ≡ 3 = omega (arith, c2.counted) in
    let p3 : k5.pid t3 ≡ 3 = c3.new_pid ∙ n4 in
    let p2 : k5.pid t2 ≡ 2 = c3.kept t2 (ground arith) ∙ c2.new_pid ∙ n3 in
    let p1 : k5.pid t1 ≡ 1 =
      c3.kept t1 (ground arith) ∙ c2.kept t1 (ground arith) ∙ c1.new_pid ∙ n1 in
    let p0 : k5.pid t0 ≡ 0 =
      c3.kept t0 (ground arith)
      ∙ c2.kept t0 (ground arith)
      ∙ c1.kept t0 (ground arith)
      ∙ c0.new_pid
      ∙ none_yet in
    let s3 : (k5.thread t3).ra ≡ foo = c3.starts in
    let s2 : (k5.thread t2).ra ≡ foo = c3.kept_entry t2 (ground arith) ∙ c2.starts in
    let s1 : (k5.thread t1).ra ≡ foo =
      c3.kept_entry t1 (ground arith) ∙ c2.kept_entry t1 (ground arith) ∙ c1.starts in
    let s0 : (k5.thread t0).ra ≡ idle =
      c3.kept_entry t0 (ground arith)
      ∙ c2.kept_entry t0 (ground arith)
      ∙ c1.kept_entry t0 (ground arith)
      ∙ c0.starts in
    subst (λ t. IsBoot idle foo k5 t t3 (t2 ∷ t1 ∷ [])) (sym at) (c3.sched.queue, cc, cc)

-- From an empty run queue, with no thread counted yet and with room for the allocator,
-- `start_kernel` makes a thread that starts at `idle`, with pid 0, the current one, and leaves a
-- ring with the last of three threads that start at `foo` at its head: pids 3, 2, 1 and then 0.
pub start_threads-IsRing :
    (idle foo : ℕ) (k : Kernel)
    → IsSched k []
    → k.nr_threads ≡ 0
    → k.curr + 0xc000 < 2 ^ 64
    → let k' = start_threads idle foo k in (h : ℕ) × (xs : List ℕ) × IsBoot idle foo k' k'.tp h xs
unfolding start_threads
start_threads-IsRing idle foo k is none_yet fits =
    let (t0, k1) = kthread_create idle k in
    let c0 = kthread_create-Created idle k [] is (omega arith) in
    let k2 = record k1 { tp = t0 } in
    let b0 = c0.taken in
    let c1 =
      kthread_create-Created foo k2 (t0 ∷ []) (IsSched-tp k1 (t0 ∷ []) t0 c0.sched)
        (omega (arith, b0)) in
    let (t1, k3) = kthread_create foo k2 in
    let b1 = c1.taken in
    let c2 = kthread_create-Created foo k3 (t1 ∷ t0 ∷ []) c1.sched (omega (arith, b0, b1)) in
    let (t2, k4) = kthread_create foo k3 in
    let b2 = c2.taken in
    let c3 =
      kthread_create-Created foo k4 (t2 ∷ t1 ∷ t0 ∷ []) c2.sched (omega (arith, b0, b1, b2)) in
    let (t3, k5) = kthread_create foo k4 in
    (t3, t2 ∷ t1 ∷ [], four_pids idle foo k k1 k3 k4 k5 t0 t1 t2 t3 none_yet c0 c1 c2 c3)
