-- ===== src/Tests/Sched.antt =====
-- The run queue of three tasks, built by `enqueue`.
use osc_2026_exercise.Base.{ℕ, ◌≡◌, refl, List, [], ◌∷◌, arith}
use osc_2026_exercise.Sched.{Kernel, Context, kthread_create, enqueue, schedule, start_threads}
use osc_2026_exercise.Sched.Create.{
  IsSched, Created, IsBoot, kthread_create-Created, start_threads-IsRing,
}
use osc_2026_exercise.Sched.Enqueue.{IsRing, enqueue-empty, enqueue-IsRing}
use osc_2026_exercise.Sched.Schedule.{serve, schedule-head, schedule-other, schedule_round_robin}

abbrev no_context : Context
no_context = record { ra = 0; sp = 0; s0 = 0; s = [] }

abbrev fresh : Kernel
fresh = record {
  thread = λ q. no_context;
  pid = λ q. 0;
  stack = λ q. 0;
  prev = λ q. 0;
  next = λ q. 0;
  run_queue = 0;
  nr_threads = 0;
  curr = 0x80204000;
  tp = 0;
  pc = 0;
  word = λ q. 0;
  cpu = no_context;
}

one_task : IsRing (enqueue 16 fresh) 16 []
one_task = enqueue-empty fresh 16 refl (omega arith)

two_tasks : IsRing (enqueue 32 (enqueue 16 fresh)) 32 (16 ∷ [])
two_tasks = enqueue-IsRing (enqueue 16 fresh) 32 16 [] one_task (omega arith) refl

abbrev running : Kernel
running = record (enqueue 48 (enqueue 32 (enqueue 16 fresh))) { tp = 48 }

three_tasks : IsRing (enqueue 48 (enqueue 32 (enqueue 16 fresh))) 48 (32 ∷ 16 ∷ [])
three_tasks =
    enqueue-IsRing (enqueue 32 (enqueue 16 fresh)) 48 32 (16 ∷ []) two_tasks (omega arith) refl

running-IsRing : IsRing running 48 (32 ∷ 16 ∷ [])
running-IsRing =
    let r = three_tasks in
    record { head = r.head; links = r.links; distinct = r.distinct; no_null = r.no_null }

schedule-head_example :
    IsRing (schedule 4 running) 32 (16 ∷ 48 ∷ []) × ((schedule 4 running).tp ≡ 32)
schedule-head_example = schedule-head 4 running 48 32 (16 ∷ []) running-IsRing refl

-- The idle task runs although it is not the head, as after `start_kernel`.
abbrev booted : Kernel
booted = record (enqueue 48 (enqueue 32 (enqueue 16 fresh))) { tp = 32 }

booted-IsRing : IsRing booted 48 (32 ∷ 16 ∷ [])
booted-IsRing =
    let r = three_tasks in
    record { head = r.head; links = r.links; distinct = r.distinct; no_null = r.no_null }

schedule-other_example :
    IsRing (schedule 4 booted) 48 (16 ∷ 32 ∷ []) × ((schedule 4 booted).tp ≡ 48)
schedule-other_example = schedule-other 4 booted 48 32 [] (16 ∷ []) booted-IsRing refl

schedule_round_robin_example :
    ((serve 4 2 running).0 ≡ 32 ∷ 16 ∷ [])
    × ((schedule 4 (serve 4 2 running).1).tp ≡ 48)
    × IsRing (schedule 4 (serve 4 2 running).1) 48 (32 ∷ 16 ∷ [])
schedule_round_robin_example = schedule_round_robin 4 (32 ∷ 16 ∷ []) running 48 running-IsRing refl

fresh-IsSched : IsSched fresh []
fresh-IsSched = record { queue = refl; below = λ q i. cc; started = omega arith }

kthread_create-Created_example :
    let (task, after) = kthread_create 0x1234 fresh in Created 0x1234 fresh [] task after
kthread_create-Created_example = kthread_create-Created 0x1234 fresh [] fresh-IsSched (omega arith)

start_threads-IsRing_example :
    let k' = start_threads 0x100 0x200 fresh in
    (h : ℕ) × (xs : List ℕ) × IsBoot 0x100 0x200 k' k'.tp h xs
start_threads-IsRing_example =
    start_threads-IsRing 0x100 0x200 fresh fresh-IsSched refl (omega arith)
