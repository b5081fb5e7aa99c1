-- ===== src/Sched/Enqueue.antt =====
-- `enqueue` puts a new task at the head of the ring.
use osc_2026_exercise.Base.{ℕ, ◌≡◌, ◌≢◌, refl, true, false, List, [], ◌∷◌, ◌==◌, arith, ap}
use osc_2026_exercise.Sched.{Kernel, enqueue}
use osc_2026_exercise.Sched.Ring.{
  has, Distinct, Links, last_of, has-last_of, Links-last, Links-retarget,
}

-- The run queue is the ring of `h` and then `xs`: distinct tasks, none of them NULL.
pub record IsRing (k : Kernel) (h : ℕ) (xs : List ℕ) : Type 0 where
  pub head : k.run_queue ≡ h
  pub links : Links k.next k.prev h xs h
  pub distinct : Distinct (h ∷ xs)
  pub no_null : has 0 (h ∷ xs) ≡ false

-- The first task makes a ring of itself.
pub enqueue-empty :
    (k : Kernel) (task : ℕ) → k.run_queue ≡ 0 → task ≢ 0 → IsRing (enqueue task k) task []
unfolding enqueue
enqueue-empty k task empty ne =
    let e : (k.run_queue == 0) ≡ true = ground arith in
    rw e
      (record { head = refl; links = ground arith; distinct = (refl, tt); no_null = ground arith })

module _ (k : Kernel) (task h : ℕ) (xs : List ℕ) (ring : IsRing k h xs) (ne : task ≢ 0)
    (new : has task (h ∷ xs) ≡ false) where
  not_task : (q : ℕ) → has q (h ∷ xs) ≡ true → task ≢ q
  not_task q i e = ground (arith, ap (λ t. has t (h ∷ xs)) e)

  -- In a ring the new task becomes the head, and the old ring follows in its order.
  pub enqueue-IsRing : IsRing (enqueue task k) task (h ∷ xs)
  unfolding enqueue
  enqueue-IsRing =
      let not_null : h ≢ 0 = λ z. ground (arith, ring.no_null) in
      let e : (k.run_queue == 0) ≡ false = ground (arith, ring.head) in
      let back = Links-last k.next k.prev h xs h ring.links in
      let not_head : task ≢ h = not_task h (ground arith) in
      let not_last : task ≢ last_of h xs = not_task _ (has-last_of h xs) in
      let miss : (task == h) ≡ false = ground arith in
      rw (e, ring.head)
        (rw (miss, back)
          (record {
            head = refl;
            links = (
              ground arith,
              ground arith,
              Links-retarget k.next k.prev _ _ h xs h task ring.links ring.distinct
                  (λ q i n. ground (arith, not_task q i))
                  (λ q i. ground (arith, not_task q, ring.distinct.0)) (ground arith)
                  (ground arith),
            );
            distinct = (new, ring.distinct);
            no_null = ground (arith, ring.no_null);
          }))
