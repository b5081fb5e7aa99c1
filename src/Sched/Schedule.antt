-- ===== src/Sched/Schedule.antt =====
-- `schedule` keeps the ring, and serves its tasks in turn.
use mathlib.Core.List.{append_assoc, append-nil}
use osc_2026_exercise.Base.{
  ℕ, zero, suc, ◌≡◌, ◌≢◌, refl, true, false, List, [], ◌∷◌, ◌++◌, ◌==◌, arith, ap, ◌∙◌, length, ap₂,
}
use osc_2026_exercise.Sched.{Kernel, schedule}
use osc_2026_exercise.Sched.Enqueue.{IsRing}
use osc_2026_exercise.Sched.Move.{absent_ne, move-Links}
use osc_2026_exercise.Sched.Ring.{
  has, Distinct, last_of, Links-split, Links-join, has-append, Distinct-append, append-Distinct,
}

-- Moving an entry of a list of distinct tasks to the end.
has-move : (q p : ℕ) (xs ys : List ℕ) → has q (xs ++ (ys ++ p ∷ [])) ≡ has q (xs ++ p ∷ ys)
has-move q p [] ys = ground (arith, has-append q ys (p ∷ []))
has-move q p (x ∷ xs) ys = ground (arith, has-move q p xs ys)

Distinct-move : (p : ℕ) (xs ys : List ℕ) → Distinct (xs ++ p ∷ ys) → Distinct (xs ++ (ys ++ p ∷ []))
Distinct-move p [] ys d =
    append-Distinct ys (p ∷ []) d.1 (refl, tt) (λ q i. ground (arith, absent_ne p q ys d.0 i))
Distinct-move p (x ∷ xs) ys d = (has-move x p xs ys ∙ d.0, Distinct-move p xs ys d.1)

module _ (link : ℕ) (k : Kernel) where
  -- When the current task is the head, its successor becomes the head and runs, and the task
  -- itself comes last.
  pub schedule-head :
      (h x : ℕ) (xs : List ℕ)
      → IsRing k h (x ∷ xs)
      → k.tp ≡ h
      → IsRing (schedule link k) x (xs ++ h ∷ []) × ((schedule link k).tp ≡ x)
  unfolding schedule
  schedule-head h x xs ring at =
      let e : (k.tp == k.run_queue) ≡ true = ground (arith, ring.head) in
      let next : k.next k.tp ≡ x = ap k.next at ∙ ring.links.0 in
      rw e (
        record {
          head = next;
          links = Links-join k.next k.prev x xs h [] x ring.links.2 (ring.links.0, ring.links.1);
          distinct = Distinct-move h [] (x ∷ xs) ring.distinct;
          no_null = has-move 0 h [] (x ∷ xs) ∙ ring.no_null;
        },
        next,
      )

  -- When the current task is not the head, it is moved to the end, and the head runs.
  pub schedule-other :
      (h p : ℕ) (xs ys : List ℕ)
      → IsRing k h (xs ++ p ∷ ys)
      → k.tp ≡ p
      → IsRing (schedule link k) h (xs ++ (ys ++ p ∷ [])) × ((schedule link k).tp ≡ h)
  unfolding schedule
  schedule-other h p xs ys ring at =
      let (front, back) = Links-split k.next k.prev h xs p ys h ring.links in
      let (left, right, apart) = Distinct-append (h ∷ xs) (p ∷ ys) ring.distinct in
      let ne : p ≢ h = λ e. ground (arith, apart h) in
      let e : (k.tp == k.run_queue) ≡ false = ground (arith, ring.head) in
      let apart_test : (p == h) ≡ false = ground arith in
      rw (e, at, ring.head)
        (
          record {
            head = refl;
            links =
                rw apart_test at (move-Links k.next k.prev h p xs front left ys back right apart);
            distinct = Distinct-move p (h ∷ xs) ys ring.distinct;
            no_null = has-move 0 p (h ∷ xs) ys ∙ ring.no_null;
          },
          refl,
        )

  -- A task that is alone runs on.
  schedule-alone :
      (h : ℕ)
      → IsRing k h []
      → k.tp ≡ h
      → IsRing (schedule link k) h [] × ((schedule link k).tp ≡ h)
  unfolding schedule
  schedule-alone h ring at =
      let e : (k.tp == k.run_queue) ≡ true = ground (arith, ring.head) in
      let next : k.next k.tp ≡ h = ap k.next at ∙ ring.links.0 in
      rw e (
        record {
          head = next;
          links = ring.links;
          distinct = ring.distinct;
          no_null = ring.no_null;
        },
        next,
      )

-- The tasks that so many calls of `schedule` switch to, and the state after them.
pub serve : ℕ → ℕ → Kernel → List ℕ × Kernel
serve link zero k = ([], k)
serve link (suc n) k =
    let k' = schedule link k in let (ts, final) = serve link n k' in (k'.tp ∷ ts, final)

-- What comes before the last of `a` and then `xs`.
abbrev init_of : ℕ → List ℕ → List ℕ
init_of a [] = []
init_of a (x ∷ xs) = a ∷ init_of x xs

init_of-append : (a : ℕ) (xs : List ℕ) → init_of a xs ++ last_of a xs ∷ [] ≡ a ∷ xs
init_of-append a [] = refl
init_of-append a (x ∷ xs) = ap (λ l. a ∷ l) (init_of-append x xs)

module _ (link : ℕ) where
  serve-front :
      (xs ys : List ℕ) (k : Kernel) (h : ℕ)
      → IsRing k h (xs ++ ys)
      → k.tp ≡ h
      → ((serve link (length xs) k).0 ≡ xs)
        × IsRing (serve link (length xs) k).1 (last_of h xs) (ys ++ init_of h xs)
        × ((serve link (length xs) k).1.tp ≡ last_of h xs)
  unfolding serve
  serve-front [] ys k h ring at = (refl, rw append-nil ring, at)
  serve-front (x ∷ xs) ys k h ring at =
      let (ring', at') = schedule-head link k h x (xs ++ ys) ring at in
      let (picked, end, end_at) =
        serve-front xs (ys ++ h ∷ []) (schedule link k) x (rw append_assoc at ring') at' in
      (ap₂ ◌∷◌ at' picked, rw append_assoc at end, end_at)

  -- From a current task that is the head of the ring, as many calls of `schedule` as there are
  -- other tasks switch to each of them once, in the order of the ring; one call more switches
  -- back to the first task, and the ring is as it was.
  pub schedule_round_robin :
      (xs : List ℕ) (k : Kernel) (h : ℕ)
      → IsRing k h xs
      → k.tp ≡ h
      → ((serve link (length xs) k).0 ≡ xs)
        × ((schedule link (serve link (length xs) k).1).tp ≡ h)
        × IsRing (schedule link (serve link (length xs) k).1) h xs
  unfolding serve
  schedule_round_robin [] k h ring at =
      let (again, back) = schedule-alone link k h ring at in (refl, back, again)
  schedule_round_robin (x ∷ xs) k h ring at =
      let (picked, end, end_at) = serve-front (x ∷ xs) [] k h (rw append-nil ring) at in
      let (again, back) =
        schedule-head link (serve link (length (x ∷ xs)) k).1 (last_of x xs) h (init_of x xs) end
          end_at in
      (picked, back, rw (init_of-append x xs) at again)
