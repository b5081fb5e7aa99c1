-- ===== src/Buddy/Alloc.antt =====
-- `alloc_pages` keeps the partition and gives out a block that was not in use.
use osc_2026_exercise.Base.{
  ◌^◌, ℕ, zero, suc, ◌+◌, ◌-◌, ◌<◌, ◌≤◌, ◌≡◌, ◌⊎◌, inl, inr, refl, sym, ap, ◌∙◌, arith, leb, ◌==◌,
  Bool-cases, subst, ltb, true, List, [], ◌∷◌, Option, none, some, length,
}
use osc_2026_exercise.Sched.{put}
use osc_2026_exercise.Paging.{◌>>=◌}
use osc_2026_exercise.Buddy.{
  Buddy, max_order, push, pop, pop_front, front, label, get_buddy, split, split_loop, take, search,
  alloc_pages,
}
use osc_2026_exercise.Buddy.State.{Used, IsBuddy, HasChunk, Keeps, Keeps-trans}
use osc_2026_exercise.Buddy.Chunk.{put_same}
use osc_2026_exercise.Buddy.Ops.{pop-HasChunk, pop-Keeps, use-IsBuddy, use-Keeps}
use osc_2026_exercise.Buddy.Coalesced.{IsCoalesced, pop-IsCoalesced, halved-IsCoalesced}
use osc_2026_exercise.Buddy.Split.{halved, halved-HasChunk, halved-Keeps, chunk_buddy}

pub same_map : {A : Type 0} (f g : ℕ → A) → ((q : ℕ) → f q ≡ g q) → f ≡ g
same_map f g h = λ i q. h q i

pop-push_list : (f : ℕ → List ℕ) (k p : ℕ) → put (put f k (p ∷ f k)) k (f k) ≡ f
pop-push_list f k p = same_map _ _ (λ q. elim (Bool-cases (k == q)) [
  | inl same ↦ let e : k ≡ q = ground arith in rw same (ap f e)
  | inr other ↦ rw other refl
])

pop-push : (k p : ℕ) (t : Buddy) → pop k (push k p t) ≡ t
pop-push k p t =
    ap (λ xs. record t { free_area = put (push k p t).free_area k (pop_front xs) })
      (put_same t.free_area k (p ∷ t.free_area k))
    ∙ ap (λ f. record t { free_area = f }) (pop-push_list t.free_area k p)

list_cases : (xs : List ℕ) → (xs ≡ []) ⊎ ((x : ℕ) × (rest : List ℕ) × (xs ≡ x ∷ rest))
list_cases [] = inl refl
list_cases (x ∷ xs) = inr (x, xs, refl)

-- A list that has a front is that front in front of the rest.
push-pop_list :
    (f : ℕ → List ℕ) (k p : ℕ) (rest : List ℕ)
    → f k ≡ p ∷ rest
    → put (put f k (pop_front (f k))) k (p ∷ put f k (pop_front (f k)) k) ≡ f
push-pop_list f k p rest first = same_map _ _ (λ q. elim (Bool-cases (k == q)) [
  | inl same ↦
      let e : k ≡ q = ground arith in
      rw (same, put_same f k (pop_front (f k)), first) (sym first ∙ ap f e)
  | inr other ↦ rw other refl
])

push-pop : (k p : ℕ) (rest : List ℕ) (s : Buddy) → s.free_area k ≡ p ∷ rest → push k p (pop k s) ≡ s
push-pop k p rest s first =
    ap (λ f. record s { free_area = f }) (push-pop_list s.free_area k p rest first)

front-push : (k p : ℕ) (t : Buddy) → front ((push k p t).free_area k) ≡ some p
front-push k p t = rw (put_same t.free_area k (p ∷ t.free_area k)) refl

split-push :
    (n p k : ℕ) (t : Buddy) (h : HasChunk n p (suc k) t)
    → split k (push (suc k) p t)
      ≡ some (push k p (halved n p k (get_buddy p k) t h (chunk_buddy n p k t h)))
unfolding split
split-push n p k t h = rw (front-push (suc k) p t) (
    ap (λ u. some (push k p (push k (get_buddy p k) (label (get_buddy p k) k 0 u))))
      (pop-push (suc k) p t))

take-push : (p k : ℕ) (t : Buddy) → take k (push k p t) ≡ some (some p, label p k 1 t)
unfolding take
take-push p k t = rw (front-push k p t) (ap (λ u. some (some p, u)) (pop-push k p (label p k 1 t)))

-- From a chunk of order `order + d` to one of order `order`.
split_loop-push :
    (n p order d : ℕ) (t : Buddy)
    → HasChunk n p (order + d) t
    → (t' : Buddy) × (split_loop order d (push (order + d) p t) ≡ some (push order p t'))
      × HasChunk n p order t'
      × Keeps p t t'
      × (IsCoalesced t → IsCoalesced t')
unfolding split_loop
split_loop-push n p order zero t h =
    let e : order + 0 ≡ order = omega arith in
    (
      t,
      rw e refl,
      subst (λ k. HasChunk n p k t) e h,
      (λ q o other. ((λ x. x), (λ x. x))),
      λ whole. whole,
    )
split_loop-push n p order (suc d) t h =
    let e : order + suc d ≡ suc (order + d) = omega arith in
    let h' : HasChunk n p (suc (order + d)) t = subst (λ k. HasChunk n p k t) e h in
    let t1 =
      halved n p (order + d) (get_buddy p (order + d)) t h' (chunk_buddy n p (order + d) t h') in
    let (t', ran, last, kept, coalesced) =
      split_loop-push n p order d t1
        (halved-HasChunk n p (order + d) _ t h' (chunk_buddy n p (order + d) t h')) in
    (
      t',
      ap (λ k. split (order + d) (push k p t) >>= λ s'. split_loop order d s') e
          ∙ ap (λ o. o >>= λ s'. split_loop order d s') (split-push n p (order + d) t h')
          ∙ ran,
      last,
      Keeps-trans p t t1 t' (halved-Keeps n p (order + d) _ t h' (chunk_buddy n p (order + d) t h'))
          kept,
      λ whole. coalesced (
          halved-IsCoalesced n p (order + d) (get_buddy p (order + d)) t h'
            (chunk_buddy n p (order + d) t h') whole),
    )

-- What a caller of `alloc_pages` gets: nothing, where no list from `order` on has a block, or a
-- block of the order that was not in use; the other blocks in use stay as they are.
abbrev pub Allocates : (n order : ℕ) → Buddy → Option (Option ℕ × Buddy) → Type 0
Allocates n order s o =
    ((o ≡ some (none, s)) × ((k : ℕ) → order ≤ k → k ≤ max_order → s.free_area k ≡ []))
    ⊎ ((p : ℕ) × (s' : Buddy) × (o ≡ some (some p, s'))
        × IsBuddy n s'
        × Used s' p order
        × (s.refcount p ≡ 0)
        × Keeps p s s'
        × (IsCoalesced s → IsCoalesced s'))

-- The branch of the search that finds a block.
found_block :
    (n order d p : ℕ) (rest : List ℕ) (s : Buddy)
    → IsBuddy n s
    → s.free_area (order + d) ≡ p ∷ rest
    → (s' : Buddy) × ((split_loop order d s >>= λ t. take order t) ≡ some (some p, s'))
      × IsBuddy n s'
      × Used s' p order
      × (s.refcount p ≡ 0)
      × Keeps p s s'
      × (IsCoalesced s → IsCoalesced s')
found_block n order d p rest s h first =
    let popped = pop (order + d) s in
    let chunk = pop-HasChunk n p (order + d) s rest first h in
    let (t, ran, last, kept, coalesced) = split_loop-push n p order d popped chunk in
    (
      label p order 1 t,
      ap (λ u. split_loop order d u >>= λ t. take order t)
            (sym (push-pop (order + d) p rest s first))
          ∙ ap (λ o. o >>= λ t. take order t) ran
          ∙ take-push p order t,
      use-IsBuddy n p order t last,
      ((λ e. let one = put_same t.refcount p 1 in omega arith), put_same t.order p order),
      chunk.idle,
      Keeps-trans p s t (label p order 1 t)
          (Keeps-trans p s popped t (pop-Keeps n p (order + d) s rest first h) kept)
          (use-Keeps n p order t last),
      λ whole. coalesced (pop-IsCoalesced (order + d) s whole),
    )

search-Allocates :
    (n order d rounds : ℕ) (s : Buddy)
    → IsBuddy n s
    → order + d + rounds ≡ suc max_order
    → ((k : ℕ) → order ≤ k → k < order + d → s.free_area k ≡ [])
    → Allocates n order s (search order d rounds s)
unfolding search
search-Allocates n order d zero s h all empty = inl (refl, λ k low high. empty k low (omega arith))
search-Allocates n order d (suc rounds) s h all empty =
    elim (list_cases (s.free_area (order + d))) [
      | inl none_here ↦ rw none_here (
          search-Allocates n order (suc d) rounds s h (omega arith) (λ k low high.
            elim (Bool-cases (k == order + d)) [
              | inl same ↦ let e : k ≡ order + d = ground arith in rw e none_here
              | inr other ↦ empty k low (ground arith)
            ]))
      | inr (p, rest, first) ↦
          let (s', ran, after, used, idle, kept, coalesced) =
            found_block n order d p rest s h first in
          let longer : ltb 0 (suc (length rest)) ≡ true = ground arith in
          inr (p, s', rw (first, longer) ran, after, used, idle, kept, coalesced)
    ]

-- On a state whose free blocks and blocks in use are a partition of the `n` pages, `alloc_pages`
-- of an order that is an `int` meets no empty list where it takes a front. Either no list from
-- the order asked for on has a block and it returns a null pointer and the state as it was, or
-- it returns the first page of a block of that order which was not in use and now is; the result
-- is again a partition, in which the other blocks in use are the same. Where no two free blocks
-- were the halves of a larger one, none are afterwards.
pub alloc_pages-Allocates :
    (n order : ℕ) (s : Buddy)
    → order < 2 ^ 31
    → IsBuddy n s
    → Allocates n order s (alloc_pages order s)
unfolding alloc_pages search
alloc_pages-Allocates n order s is_order h = elim (Bool-cases (leb order (suc max_order))) [
  | inl small ↦
      let is_int : ltb order (2 ^ 31) ≡ true = ground arith in
      rw is_int (
        search-Allocates n order 0 (suc max_order - order) s h (ground arith)
          (λ k low high. absurd (omega arith)))
  | inr large ↦
      let is_int : ltb order (2 ^ 31) ≡ true = ground arith in
      let e : suc max_order - order ≡ 0 = ground arith in
      rw (is_int, e) (inl (refl, λ k low high. absurd (ground arith)))
]
