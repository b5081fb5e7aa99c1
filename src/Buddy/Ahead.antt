-- ===== src/Buddy/Ahead.antt =====
-- Why `memory_reserve` finds its chunks: what is free behind the page it has come to are blocks of the
-- largest order, and upper halves.
use native.Mathlib.Nat.{
  mul-add-mod_self_right, mod-eq_of_lt, mod-lt, mod-le, mul_assoc, div-add-mod', suc-mul, add-mul,
  mul-le-mul_right, two-pow-succ,
}
use osc_2026_exercise.Base.{
  ℕ, zero, suc, ◌+◌, ◌-◌, ◌*◌, ◌/◌, ◌%◌, ◌^◌, ◌<◌, ◌≤◌, ◌≡◌, ◌≢◌, ◌⊎◌, inl, inr, refl, sym, ap, ◌∙◌,
  arith, leb, ◌==◌, Bool-cases, subst, ltb, false, true, List, [], ◌∷◌, some,
}
use osc_2026_exercise.Sched.Ring.{has}
use osc_2026_exercise.Buddy.{Buddy, max_order, push, remove, get_buddy}
use osc_2026_exercise.Buddy.Partition.{pow-pos, pow_multiple, double_power}
use osc_2026_exercise.Buddy.State.{Free, Used, IsBuddy}
use osc_2026_exercise.Buddy.Chunk.{put_same}
use osc_2026_exercise.Buddy.Reserve.{find_order, next_order, removed, reserve, halve}
use osc_2026_exercise.Buddy.Reserved.{
  reserve-IsBuddy, reserve-Keeps, halve-Keeps, halve_idle, removed-Agree, at_half,
}

-- The remainder of a sum with a multiple.
multiple_mod : (a w r : ℕ) → r < w → (a * w + r) % w ≡ r
multiple_mod a w r small = mul-add-mod_self_right a w r ∙ mod-eq_of_lt small

-- The search for the lowest digit 1 of what is left of the offset.
find_order_lem :
    (d k m offset base : ℕ)
    → m < 2 ^ d
    → offset ≡ base + (m * 2 ^ suc k + 2 ^ k)
    → find_order (suc k + d) offset base ≡ some k
unfolding find_order
find_order_lem zero k m offset base small e =
    let none_left : m ≡ 0 = omega arith in
    let rounds : suc k + 0 ≡ suc k = omega arith in
    let here : (offset == base + 2 ^ k) ≡ true =
      (let z : m * 2 ^ suc k ≡ 0 = ap (λ t. t * 2 ^ suc k) none_left ∙ omega arith in
        ground arith) in
    rw rounds (rw here refl)
find_order_lem (suc d) k m offset base small e =
    let rounds : suc k + suc d ≡ suc (suc k + d) = omega arith in
    let w = 2 ^ suc k in
    let half : w ≡ 2 ^ k + 2 ^ k = two-pow-succ k in
    let top : 2 ^ (suc k + d) ≡ 2 ^ d * w = pow_multiple (suc k) d in
    elim (Bool-cases (leb (2 ^ d) m)) [
      | inl upper ↦
          let split : m * w ≡ (m - 2 ^ d) * w + 2 ^ d * w =
            ap (λ t. t * w) (ground arith) ∙ add-mul (m - 2 ^ d) (2 ^ d) w in
          let other : (offset == base + 2 ^ (suc k + d)) ≡ false = ground (arith, pow-pos k) in
          let more : ltb (base + 2 ^ (suc k + d)) offset ≡ true = ground (arith, pow-pos k) in
          rw rounds (
            rw (other, more)
              (find_order_lem d k (m - 2 ^ d) offset (base + 2 ^ (suc k + d))
                (ground (arith, two-pow-succ d)) (omega arith)))
      | inr lower ↦
          let below : suc m * w ≤ 2 ^ d * w = mul-le-mul_right w (ground arith) in
          let next : suc m * w ≡ m * w + w = suc-mul m w in
          let other : (offset == base + 2 ^ (suc k + d)) ≡ false = ground (arith, pow-pos k) in
          let less : ltb (base + 2 ^ (suc k + d)) offset ≡ false = ground (arith, pow-pos k) in
          rw rounds (rw (other, less) (find_order_lem d k m offset base (ground arith) e))
    ]

-- The order at the first page of an upper half.
next_order_lem : (k j p : ℕ) → k < max_order → p ≡ j * 2 ^ suc k + 2 ^ k → next_order p ≡ some k
unfolding next_order
next_order_lem k j p small e =
    let w = 2 ^ suc k in
    let d = max_order - suc k in
    let m = j % 2 ^ d in
    let rounds : suc k + d ≡ max_order = omega arith in
    let total : 1024 ≡ 2 ^ d * w = ap (λ t. 2 ^ t) (sym rounds) ∙ pow_multiple (suc k) d in
    let half : w ≡ 2 ^ k + 2 ^ k = two-pow-succ k in
    let parts : j ≡ j / 2 ^ d * 2 ^ d + m = sym (div-add-mod' j (2 ^ d)) in
    let in_range : m < 2 ^ d = mod-lt j (pow-pos d) in
    let below : suc m * w ≤ 2 ^ d * w = mul-le-mul_right w in_range in
    let next : suc m * w ≡ m * w + w = suc-mul m w in
    let spread : j * w ≡ j / 2 ^ d * 1024 + m * w =
      ap (λ t. t * w) parts
      ∙ add-mul (j / 2 ^ d * 2 ^ d) m w
      ∙ ap (λ t. t + m * w)
          (mul_assoc (j / 2 ^ d) (2 ^ d) w ∙ ap (λ t. j / 2 ^ d * t) (sym total)) in
    let offset : p % 1024 ≡ m * w + 2 ^ k =
      ap (λ t. t % 1024) (e ∙ omega (arith, spread))
      ∙ multiple_mod (j / 2 ^ d) 1024 (m * w + 2 ^ k) (omega (arith, pow-pos k)) in
    let inside : (p % 1024 == 0) ≡ false = ground (arith, pow-pos k) in
    rw inside (
      ap (λ t. find_order t (p % 1024) 0) (sym rounds)
      ∙ find_order_lem d k m (p % 1024) 0 in_range (omega arith))

next_order_at :
    (o p : ℕ)
    → o ≤ max_order
    → p % 2 ^ o ≡ 0
    → (o < max_order → (j : ℕ) × (p ≡ j * 2 ^ suc o + 2 ^ o))
    → next_order p ≡ some o
unfolding next_order
next_order_at o p fits multiple upper = elim (Bool-cases (o == max_order)) [
  | inl largest ↦
      let e : o ≡ max_order = ground arith in
      let power : 2 ^ o ≡ 1024 = ap (λ t. 2 ^ t) e in
      let rest : p % 1024 ≡ 0 = ap (λ t. p % t) (sym power) ∙ multiple in rw rest (ap some (sym e))
  | inr smaller ↦ let (j, e) = upper (ground arith) in next_order_lem o j p (ground arith) e
]

-- What the rounds of `memory_reserve` keep, `start` being the page that they have come to.
pub record Ahead (order start : ℕ) (s : Buddy) : Type 0 where
  pub used_below : (q o : ℕ) → Used s q o → q + 2 ^ o ≤ start
  pub upper :
      (q k : ℕ) → Free s q k → k < max_order → start < q → (j : ℕ) × (q ≡ j * 2 ^ suc k + 2 ^ k)
  pub here : Free s (start - start % 2 ^ order) order

module _ (n k p : ℕ) (s : Buddy) (free : Free s p k) (h : IsBuddy n s) (ahead : Ahead k p s)
    (more : p + 2 ^ k < n) where
  next_used : Used (reserve k p s) p k
  next_used = ((λ e. let one = put_same s.refcount p 1 in omega arith), put_same s.order p k)

  next_used_below : (q o : ℕ) → Used (reserve k p s) q o → q + 2 ^ o ≤ p + 2 ^ k
  next_used_below q o used = elim (Bool-cases (q == p)) [
    | inl same ↦
        let e : q ≡ p = ground arith in
        let size : o ≡ k = sym used.1 ∙ ap (reserve k p s).order e ∙ put_same s.order p k in
        let power : 2 ^ o ≡ 2 ^ k = ap (λ t. 2 ^ t) size in omega arith
    | inr other ↦
        omega
          (arith, ahead.used_below q o ((reserve-Keeps n p k s free h q o (ground arith)).1 used))
  ]

  not_free : (q o : ℕ) → Free (reserve k p s) q o → q ≢ p
  not_free q o listed e =
      let label = ((reserve-IsBuddy n p k s free h).labelled q o listed).1 in
      next_used.0 (ap (reserve k p s).refcount (sym e) ∙ label)

  still_free : (q o : ℕ) → Free (reserve k p s) q o → Free s q o
  still_free q o listed =
      let other = not_free q o listed in
      sym ((removed-Agree n p k s free h q other other).2 o) ∙ listed

  -- The block that the next page is in starts there and is free.
  next_free : (o : ℕ) × Free (reserve k p s) (p + 2 ^ k) o
  next_free =
      let is = reserve-IsBuddy n p k s free h in
      let (q, o, block, inside) = is.partition.covered (p + 2 ^ k) more in
      elim block [
        | inr used ↦ absurd (omega (arith, next_used_below q o used))
        | inl listed ↦ elim (Bool-cases (q == p + 2 ^ k)) [
          | inl same ↦
              let e : q ≡ p + 2 ^ k = ground arith in
              (o, subst (λ r. Free (reserve k p s) r o) e listed)
          | inr before ↦ absurd (
              not_free q o listed
                (is.partition.disjoint (p + 2 ^ k - 1) q o p k (inl listed) (inr next_used)
                  (ground arith) (omega (arith, pow-pos k))).0)
        ]
      ]

  pub next-Ahead :
      (o : ℕ) × (next_order (p + 2 ^ k) ≡ some o)
      × (o ≤ max_order)
      × Ahead o (p + 2 ^ k) (reserve k p s)
  next-Ahead =
      let is = reserve-IsBuddy n p k s free h in
      let next = p + 2 ^ k in
      let (o, listed) = next_free in
      let (a, multiple) = is.partition.aligned next o (inl listed) in
      let fits = is.orders next o (inl listed) in
      let zero_rest : next % 2 ^ o ≡ 0 =
        ap (λ t. t % 2 ^ o) (multiple ∙ omega arith) ∙ multiple_mod a (2 ^ o) 0 (pow-pos o) in
      let order : next_order next ≡ some o =
        next_order_at o next fits zero_rest (λ small.
          ahead.upper next o (still_free next o listed) small (omega (arith, pow-pos k))) in
      (
        o,
        order,
        fits,
        record {
          used_below = next_used_below;
          upper = λ q i old small after. ahead.upper q i (still_free q i old) small (omega arith);
          here = (let e : next - next % 2 ^ o ≡ next = omega arith in rw e listed);
        },
      )

-- A list without a page holds what it held.
has-remove_old : (p q : ℕ) (xs : List ℕ) → has q (remove p xs) ≡ true → has q xs ≡ true
has-remove_old p q [] h = h
has-remove_old p q (x ∷ xs) h = elim (Bool-cases (x == p)) [
  | inl same ↦ let old = has-remove_old p q xs (rw same at h) in ground (arith, old)
  | inr other ↦ elim (Bool-cases (x == q)) [
    | inl here ↦ ground arith
    | inr there ↦
        let rest : has q (remove p xs) ≡ true = (let k = (rw other at h) in ground arith) in
        let old = has-remove_old p q xs rest in ground (arith, old)
  ]
]

Free-push : (t : Buddy) (k p q o : ℕ) → Free (push k p t) q o → ((o ≡ k) × (q ≡ p)) ⊎ Free t q o
Free-push t k p q o listed = elim (Bool-cases (k == o)) [
  | inl same ↦
      let e : k ≡ o = ground arith in
      let here : has q (p ∷ t.free_area k) ≡ true = rw same at listed in
      elim (Bool-cases (p == q)) [
        | inl first ↦ inl (sym e, ground arith)
        | inr later ↦ inr (ap (λ r. has q (t.free_area r)) (sym e) ∙ (rw later at here))
      ]
  | inr other ↦ inr (rw other at listed)
]

push-Free : (t : Buddy) (k p : ℕ) → Free (push k p t) p k
push-Free t k p = rw (put_same t.free_area k (p ∷ t.free_area k)) (ground arith)

push-Free_old : (t : Buddy) (k p q o : ℕ) → Free t q o → Free (push k p t) q o
push-Free_old t k p q o old = elim (Bool-cases (k == o)) [
  | inl same ↦
      let e : k ≡ o = ground arith in
      let there : has q (t.free_area k) ≡ true = ap (λ r. has q (t.free_area r)) e ∙ old in
      rw same (ground (arith, there))
  | inr other ↦ rw other old
]

Free-removed : (t : Buddy) (k p q o : ℕ) → Free (removed k p t) q o → Free t q o
Free-removed t k p q o listed = elim (Bool-cases (k == o)) [
  | inl same ↦
      let e : k ≡ o = ground arith in
      ap (λ r. has q (t.free_area r)) (sym e)
      ∙ has-remove_old p q (t.free_area k) (rw same at listed)
  | inr other ↦ rw other at listed
]

module _ (n i start : ℕ) (s : Buddy) (h : IsBuddy n s) (ahead : Ahead (suc i) start s) where
  abbrev chunk : ℕ
  chunk = start - start % 2 ^ suc i

  halve-Free :
      (q o : ℕ)
      → Free (halve i chunk s) q o
      → ((o ≡ i) × (q ≡ chunk)) ⊎ (((o ≡ i) × (q ≡ get_buddy chunk i)) ⊎ Free s q o)
  unfolding halve
  halve-Free q o listed =
      elim (Free-push (push i (get_buddy chunk i) (removed (suc i) chunk s)) i chunk q o listed) [
        | inl low ↦ inl low
        | inr rest ↦ elim (Free-push (removed (suc i) chunk s) i (get_buddy chunk i) q o rest) [
          | inl high ↦ inr (inl high)
          | inr old ↦ inr (inr (Free-removed s (suc i) chunk q o old))
        ]
      ]

  low_free : Free (halve i chunk s) chunk i
  unfolding halve
  low_free = push-Free (push i (get_buddy chunk i) (removed (suc i) chunk s)) i chunk

  high_free : Free (halve i chunk s) (get_buddy chunk i) i
  unfolding halve
  high_free =
      push-Free_old (push i (get_buddy chunk i) (removed (suc i) chunk s)) i chunk
        (get_buddy chunk i) i (push-Free (removed (suc i) chunk s) i (get_buddy chunk i))

  -- The half that `start` is in.
  half_lem :
      (j : ℕ)
      → chunk ≡ j * 2 ^ suc i
      → (start - start % 2 ^ i ≡ chunk) ⊎ (start - start % 2 ^ i ≡ chunk + 2 ^ i)
  half_lem j e =
      let w = 2 ^ i in
      let double = double_power j i in
      let wide = two-pow-succ i in
      let rest = start % 2 ^ suc i in
      let inside : rest < 2 ^ suc i = mod-lt start (pow-pos (suc i)) in
      let at : start ≡ chunk + rest = omega (arith, mod-le start (2 ^ suc i)) in
      elim (Bool-cases (ltb rest w)) [
        | inl low ↦
            let r : start % w ≡ rest =
              ap (λ t. t % w) (at ∙ omega (arith, e, double))
              ∙ multiple_mod (2 * j) w rest (ground arith) in
            inl (omega arith)
        | inr high ↦
            let next : suc (2 * j) * w ≡ 2 * j * w + w = suc-mul (2 * j) w in
            let r : start % w ≡ rest - w =
              ap (λ t. t % w) (at ∙ ground (arith, e, double, next))
              ∙ multiple_mod (suc (2 * j)) w (rest - w) (ground arith) in
            inr (ground arith)
      ]

  pub halve-Ahead : Ahead i start (halve i chunk s)
  halve-Ahead =
      let free : Free s chunk (suc i) = ahead.here in
      let buddy : get_buddy chunk i ≡ chunk + 2 ^ i = at_half n chunk i s free h in
      let (j, multiple) = h.partition.aligned chunk (suc i) (inl free) in
      record {
        used_below = λ q o used. elim (Bool-cases (q == chunk)) [
          | inl same ↦
              let e : q ≡ chunk = ground arith in
              absurd (used.0 (ap (halve i chunk s).refcount e ∙ halve_idle n chunk i s free h))
          | inr other ↦
              ahead.used_below q o ((halve-Keeps n chunk i s free h q o (ground arith)).1 used)
        ];
        upper = λ q k listed small after. elim (halve-Free q k listed) [
          | inl (size, at) ↦ absurd (omega (arith, mod-le start (2 ^ suc i)))
          | inr (inl (size, at)) ↦ rw size (j, at ∙ buddy ∙ omega (arith, multiple))
          | inr (inr old) ↦ ahead.upper q k old small after
        ];
        here = elim (half_lem j multiple) [
          | inl low ↦ rw low low_free
          | inr high ↦ rw (high ∙ sym buddy) high_free
        ];
      }
