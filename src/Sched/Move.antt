-- ===== src/Sched/Move.antt =====
-- The pointer writes of `schedule` for a task that is not the head: they take it out of the ring
-- and link it in behind the last one.
use osc_2026_exercise.Base.{ℕ, ◌≡◌, ◌≢◌, true, false, List, [], ◌∷◌, ◌++◌, ◌==◌, arith, ap}
use osc_2026_exercise.Sched.{put}
use osc_2026_exercise.Sched.Ring.{
  has, Distinct, Apart, Links, last_of, has-last_of, Links-last, Links-retarget, Links-join,
}

module _ (next prev : ℕ → ℕ) (h p : ℕ) where
  abbrev pub prev1 : ℕ → ℕ
  prev1 = put prev (next p) (prev p)

  abbrev pub next2 : ℕ → ℕ
  next2 = put (put next (prev1 p) (next p)) p h

  abbrev pub prev2 : ℕ → ℕ
  prev2 = put prev1 p (prev1 h)

  abbrev pub next3 : ℕ → ℕ
  next3 = put next2 (prev2 h) p

  abbrev pub prev3 : ℕ → ℕ
  prev3 = put prev2 h p

-- Two lists of distinct tasks have nothing in common.
Apart-ne : (xs ys : List ℕ) (q r : ℕ) → Apart xs ys → has q xs ≡ true → has r ys ≡ true → q ≢ r
Apart-ne xs ys q r apart i j e = ground (arith, apart q, ap (λ t. has t ys) e)

pub absent_ne : (r q : ℕ) (xs : List ℕ) → has r xs ≡ false → has q xs ≡ true → r ≢ q
absent_ne r q xs out i e = ground (arith, ap (λ t. has t xs) e)

module _ (next prev : ℕ → ℕ) (h p : ℕ) (xs : List ℕ) (front : Links next prev h xs p)
    (left : Distinct (h ∷ xs)) where
  move_last :
      Links next prev p [] h
      → Apart (h ∷ xs) (p ∷ [])
      → Links (next3 next prev h p) (prev3 next prev h p) h (xs ++ p ∷ []) h
  move_last back apart =
      let before : prev p ≡ last_of h xs = Links-last next prev h xs p front in
      let ne : h ≢ p = Apart-ne (h ∷ xs) (p ∷ []) h p apart (ground arith) (ground arith) in
      let ne' : last_of h xs ≢ p =
        Apart-ne (h ∷ xs) (p ∷ []) _ p apart (has-last_of h xs) (ground arith) in
      let e : (h == p) ≡ false = ground arith in
      let e' : (p == h) ≡ false = ground arith in
      let e'' : (h == h) ≡ true = ground arith in
      rw (back.0, e, e', e'', before)
        (Links-join _ _ h xs p [] h
          (Links-retarget next prev _ _ h xs p p front left
            (λ q i n. ground (arith, Apart-ne (h ∷ xs) (p ∷ []) q p apart i))
            (λ q i. ground (arith, absent_ne h q xs left.0 i, Apart-ne (h ∷ xs) (p ∷ []) q p apart))
            (ground arith) (ground arith))
          (ground arith, ground arith))

  move_inner :
      (y : ℕ) (zs : List ℕ)
      → Links next prev p (y ∷ zs) h
      → Distinct (p ∷ y ∷ zs)
      → Apart (h ∷ xs) (p ∷ y ∷ zs)
      → Links (next3 next prev h p) (prev3 next prev h p) h (xs ++ (y ∷ (zs ++ p ∷ []))) h
  move_inner y zs back right apart =
      let before : prev p ≡ last_of h xs = Links-last next prev h xs p front in
      let after : prev h ≡ last_of y zs = Links-last next prev y zs h back.2 in
      let in_left = has-last_of h xs in
      let in_right = has-last_of y zs in
      let u_l : last_of h xs ≢ last_of y zs = cross _ _ in_left (ground arith) in
      let u_p : last_of h xs ≢ p = cross _ _ in_left (ground arith) in
      let h_p : h ≢ p = cross _ _ (ground arith) (ground arith) in
      let h_y : h ≢ y = cross _ _ (ground arith) (ground arith) in
      let p_l : p ≢ last_of y zs = absent_ne p _ (y ∷ zs) right.0 in_right in
      let p_y : p ≢ y = absent_ne p y (y ∷ zs) right.0 (ground arith) in
      let e : (y == p) ≡ false = ground arith in
      let e' : (y == h) ≡ false = ground arith in
      rw (back.0, e, e', before, after)
        (Links-join _ _ h xs y (zs ++ p ∷ []) h
          (Links-retarget next prev _ _ h xs p y front left
            (λ q i n.
              ground (arith, cross q (last_of y zs) i (ground arith), cross q p i (ground arith)))
            (λ q i. ground (
              arith,
              absent_ne h q xs left.0 i,
              cross q p (ground arith) (ground arith),
              cross q y (ground arith) (ground arith),
            ))
            (ground arith) (ground arith))
          (Links-join _ _ y zs p [] h
            (Links-retarget next prev _ _ y zs h p back.2 right.1
              (λ q i n. ground (
                arith,
                absent_ne p q (y ∷ zs) right.0 i,
                cross (last_of h xs) q in_left (ground arith),
              ))
              (λ q i. ground (
                arith,
                absent_ne y q zs right.1.0 i,
                absent_ne p q (y ∷ zs) right.0 (ground arith),
                cross h q (ground arith) (ground arith),
              ))
              (ground arith) (ground arith))
            (ground arith, ground arith)))
    where
      cross : (q r : ℕ) → has q (h ∷ xs) ≡ true → has r (p ∷ y ∷ zs) ≡ true → q ≢ r
      cross q r i j = Apart-ne (h ∷ xs) (p ∷ y ∷ zs) q r apart i j

  -- The ring after the writes.
  pub move-Links :
      (ys : List ℕ)
      → Links next prev p ys h
      → Distinct (p ∷ ys)
      → Apart (h ∷ xs) (p ∷ ys)
      → Links (next3 next prev h p) (prev3 next prev h p) h (xs ++ (ys ++ p ∷ [])) h
  move-Links [] back right apart = move_last back apart
  move-Links (y ∷ zs) back right apart = move_inner y zs back right apart
