-- ===== src/Buddy/Coalesced.antt =====
-- No two free blocks are the halves of a larger one: what merging is for, and what each operation keeps.
use osc_2026_exercise.Base.{
  ℕ, suc, ◌+◌, ◌*◌, ◌^◌, ◌<◌, ◌≤◌, ◌≡◌, ◌⊎◌, inl, inr, refl, sym, ap, ◌∙◌, arith, ◌==◌, Bool-cases,
  subst, true, List, [], ◌∷◌,
}
use native.Mathlib.Nat.{two-pow-succ}
use osc_2026_exercise.Sched.{put}
use osc_2026_exercise.Sched.Ring.{has}
use osc_2026_exercise.Buddy.{Buddy, max_order, push, pop, pop_front, remove, get_buddy}
use osc_2026_exercise.Buddy.Partition.{pow-pos, floor_le}
use osc_2026_exercise.Buddy.State.{Free, HasChunk}
use osc_2026_exercise.Buddy.Split.{halved, halved-Agree, upper_only}
use osc_2026_exercise.Buddy.Merge.{IsPair, get_buddy-IsPair}

abbrev pub IsCoalesced : Buddy → Type 0
IsCoalesced s =
    (j k : ℕ) → k < max_order → Free s (j * 2 ^ suc k) k → Free s (j * 2 ^ suc k + 2 ^ k) k → ⊥

-- Fewer free blocks.
pub fewer-IsCoalesced :
    (s t : Buddy) → ((q o : ℕ) → Free t q o → Free s q o) → IsCoalesced s → IsCoalesced t
fewer-IsCoalesced s t back h j k small low high =
    h j k small (back (j * 2 ^ suc k) k low) (back (j * 2 ^ suc k + 2 ^ k) k high)

-- Two pairs of an order with a block in common are the same.
same_halves :
    (j i k p : ℕ)
    → j * 2 ^ suc k ≤ p
    → p < j * 2 ^ suc k + 2 ^ suc k
    → i * 2 ^ suc k ≤ p
    → p < i * 2 ^ suc k + 2 ^ suc k
    → j * 2 ^ suc k ≡ i * 2 ^ suc k
same_halves j i k p a b c d =
    omega (arith, floor_le j i (2 ^ suc k) p a d, floor_le i j (2 ^ suc k) p c b)

-- One free block more.
pub more-IsCoalesced :
    (s t : Buddy) (p k : ℕ)
    → ((q o : ℕ) → Free t q o → Free s q o ⊎ ((o ≡ k) × (q ≡ p)))
    → ((j b : ℕ) → k < max_order → IsPair (j * 2 ^ suc k) p b k → Free s b k → ⊥)
    → IsCoalesced s
    → IsCoalesced t
more-IsCoalesced s t p k split alone h j o small low high =
    let pow = pow-pos o in
    let alone_at : o ≡ k → (b : ℕ) → IsPair (j * 2 ^ suc o) p b o → Free s b o → ⊥ = λ e b.
      subst (λ l. l < max_order → IsPair (j * 2 ^ suc l) p b l → Free s b l → ⊥) (sym e) (alone j b)
        small in
    elim (split (j * 2 ^ suc o) o low) [
      | inl old ↦ elim (split (j * 2 ^ suc o + 2 ^ o) o high) [
        | inl old' ↦ h j o small old old'
        | inr (e, at) ↦ alone_at e (j * 2 ^ suc o) (inr (refl, sym at)) old
      ]
      | inr (e, at) ↦ elim (split (j * 2 ^ suc o + 2 ^ o) o high) [
        | inl old' ↦ alone_at e (j * 2 ^ suc o + 2 ^ o) (inl (sym at, refl)) old'
        | inr (e', at') ↦ absurd (omega arith)
      ]
    ]

has-pop_front : (q : ℕ) (xs : List ℕ) → has q (pop_front xs) ≡ true → has q xs ≡ true
has-pop_front q [] h = h
has-pop_front q (x ∷ xs) h = ground arith

has-remove : (b q : ℕ) (xs : List ℕ) → has q (remove b xs) ≡ true → has q xs ≡ true
has-remove b q [] h = h
has-remove b q (x ∷ xs) h = ground (arith, has-remove b q xs)

put_fewer :
    (f : ℕ → List ℕ) (k : ℕ) (xs : List ℕ)
    → ((q : ℕ) → has q xs ≡ true → has q (f k) ≡ true)
    → (q o : ℕ) → has q (put f k xs o) ≡ true
    → has q (f o) ≡ true
put_fewer f k xs back q o free = elim (Bool-cases (k == o)) [
  | inl same ↦
      let e : k ≡ o = ground arith in subst (λ l. has q (f l) ≡ true) e (back q (rw same at free))
  | inr other ↦ rw other at free
]

pub pop-IsCoalesced : (k : ℕ) (s : Buddy) → IsCoalesced s → IsCoalesced (pop k s)
pop-IsCoalesced k s =
    fewer-IsCoalesced s (pop k s)
      (put_fewer s.free_area k (pop_front (s.free_area k)) (λ q. has-pop_front q (s.free_area k)))

-- The lists without a block, whatever happens to the orders.
pub remove-IsCoalesced :
    (b k : ℕ) (s : Buddy) (order : ℕ → ℕ)
    → IsCoalesced s
    → IsCoalesced
        (record s { order = order; free_area = put s.free_area k (remove b (s.free_area k)) })
remove-IsCoalesced b k s order =
    fewer-IsCoalesced s
      (record s { order = order; free_area = put s.free_area k (remove b (s.free_area k)) })
      (put_fewer s.free_area k (remove b (s.free_area k)) (λ q. has-remove b q (s.free_area k)))

-- A chunk is split: its lower half is not free.
pub halved-IsCoalesced :
    (n p k b : ℕ) (t : Buddy) (h : HasChunk n p (suc k) t) (buddy : b ≡ p + 2 ^ k)
    → IsCoalesced t
    → IsCoalesced (halved n p k b t h buddy)
halved-IsCoalesced n p k b t h buddy =
    let (i, multiple) = h.partition.aligned p (suc k) (inr (refl, refl)) in
    more-IsCoalesced t (halved n p k b t h buddy) b k
      (λ q o free. elim (Bool-cases (q == b)) [
        | inl same ↦
            let e : q ≡ b = ground arith in
            inr (
              upper_only n p k b t h buddy o
                  (inl (subst (λ r. Free (halved n p k b t h buddy) r o) e free)),
              e,
            )
        | inr other ↦
            inl (sym ((halved-Agree n p k b t h buddy q (ground arith) (ground arith)).2 o) ∙ free)
      ])
      (λ j r small pair free.
        let grown = two-pow-succ k in
        let pow = pow-pos k in
        let at : j * 2 ^ suc k ≡ p =
          same_halves j i k b (ground arith) (ground arith) (omega arith) (omega arith)
          ∙ sym multiple in
        elim pair [
          | inl (u, v) ↦ omega arith
          | inr (u, v) ↦
              let listed : has p (t.free_area k) ≡ true = subst (λ x. Free t x k) (u ∙ at) free in
              let gone = h.absent k in ground arith
        ])

-- A chunk becomes a free block: its buddy is not one of its order.
pub push-IsCoalesced :
    (n p k : ℕ) (t : Buddy)
    → HasChunk n p k t
    → (k < max_order → t.order (get_buddy p k) ≡ k → t.refcount (get_buddy p k) ≡ 0 → ⊥)
    → IsCoalesced t
    → IsCoalesced (push k p t)
push-IsCoalesced n p k t h stop =
    let (i, multiple) = h.partition.aligned p k (inr (refl, refl)) in
    let (j', pair') = get_buddy-IsPair p k i multiple in
    more-IsCoalesced t (push k p t) p k
      (λ q o free. elim (Bool-cases (k == o)) [
        | inl same ↦
            let e : k ≡ o = ground arith in
            elim (Bool-cases (q == p)) [
              | inl here ↦ inr (sym e, ground arith)
              | inr other ↦
                  let inside : has q (p ∷ t.free_area k) ≡ true = rw same at free in
                  inl (subst (λ l. Free t q l) e (ground arith))
            ]
        | inr other ↦ inl (rw other at free)
      ])
      (λ j b small pair free.
        let grown = two-pow-succ k in
        let pow = pow-pos k in
        let base : j * 2 ^ suc k ≡ j' * 2 ^ suc k =
          same_halves j j' k p (ground arith) (ground arith) (ground arith) (ground arith) in
        let same : b ≡ get_buddy p k = ground arith in
        let (size, idle) = h.labelled b k free in
        stop small (ap t.order (sym same) ∙ size) (ap t.refcount (sym same) ∙ idle))
