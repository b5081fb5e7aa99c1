-- ===== src/Sched/Ring.antt =====
-- Circular doubly linked lists: `Links next prev a xs b` leads from `a` over `xs` to `b` by
-- `next`, and back by `prev`.
use osc_2026_exercise.Base.{
  ℕ, ◌≡◌, ◌≢◌, refl, Bool, true, false, ◌||◌, List, [], ◌∷◌, ◌++◌, ◌==◌, arith, ap, ◌∙◌,
}

abbrev pub has : ℕ → List ℕ → Bool
has q [] = false
has q (x ∷ xs) = (x == q) || has q xs

abbrev pub Distinct : List ℕ → Type 0
Distinct [] = Unit
Distinct (x ∷ xs) = (has x xs ≡ false) × Distinct xs

abbrev pub Apart : List ℕ → List ℕ → Type 0
Apart xs ys = (q : ℕ) → has q xs ≡ true → has q ys ≡ false

abbrev pub Links : (next prev : ℕ → ℕ) → ℕ → List ℕ → ℕ → Type 0
Links next prev a [] b = (next a ≡ b) × (prev b ≡ a)
Links next prev a (x ∷ xs) b = (next a ≡ x) × (prev x ≡ a) × Links next prev x xs b

abbrev pub last_of : ℕ → List ℕ → ℕ
last_of a [] = a
last_of a (x ∷ xs) = last_of x xs

pub has-last_of : (a : ℕ) (xs : List ℕ) → has (last_of a xs) (a ∷ xs) ≡ true
has-last_of a [] = ground arith
has-last_of a (x ∷ xs) = ground (arith, has-last_of x xs)

module _ (next prev : ℕ → ℕ) where
  pub Links-last : (a : ℕ) (xs : List ℕ) (b : ℕ) → Links next prev a xs b → prev b ≡ last_of a xs
  Links-last a [] b h = h.1
  Links-last a (x ∷ xs) b h = Links-last x xs b h.2

  pub Links-next_last :
      (a : ℕ) (xs : List ℕ) (b : ℕ) → Links next prev a xs b → next (last_of a xs) ≡ b
  Links-next_last a [] b h = h.0
  Links-next_last a (x ∷ xs) b h = Links-next_last x xs b h.2

  pub Links-split :
      (a : ℕ) (xs : List ℕ) (p : ℕ) (ys : List ℕ) (b : ℕ)
      → Links next prev a (xs ++ p ∷ ys) b
      → Links next prev a xs p × Links next prev p ys b
  Links-split a [] p ys b h = ((h.0, h.1), h.2)
  Links-split a (x ∷ xs) p ys b h =
      let (front, back) = Links-split x xs p ys b h.2 in ((h.0, h.1, front), back)

  pub Links-join :
      (a : ℕ) (xs : List ℕ) (p : ℕ) (ys : List ℕ) (b : ℕ)
      → Links next prev a xs p
      → Links next prev p ys b
      → Links next prev a (xs ++ p ∷ ys) b
  Links-join a [] p ys b h k = (h.0, h.1, k)
  Links-join a (x ∷ xs) p ys b h k = (h.0, h.1, Links-join x xs p ys b h.2 k)

-- A change that keeps the links inside and leads the last one to `c`.
pub Links-retarget :
    (next prev next' prev' : ℕ → ℕ) (a : ℕ) (xs : List ℕ) (b c : ℕ)
    → Links next prev a xs b
    → Distinct (a ∷ xs)
    → ((q : ℕ) → has q (a ∷ xs) ≡ true → q ≢ last_of a xs → next' q ≡ next q)
    → ((q : ℕ) → has q xs ≡ true → prev' q ≡ prev q)
    → next' (last_of a xs) ≡ c
    → prev' c ≡ last_of a xs
    → Links next' prev' a xs c
Links-retarget next prev next' prev' a [] b c h d same same' e e' = (e, e')
Links-retarget next prev next' prev' a (x ∷ xs) b c h d same same' e e' = (
  same a (ground arith) (λ l. absurd (not_last l)) ∙ h.0,
  same' x (ground arith) ∙ h.1,
  Links-retarget next prev next' prev' x xs b c h.2 d.1 (λ q i n. same q (ground arith) n)
      (λ q i. same' q (ground arith)) e e',
)
  where
    not_last : a ≢ last_of x xs
    not_last l = ground (arith, has-last_of x xs, ap (λ q. has q (x ∷ xs)) l)

pub has-append : (q : ℕ) (xs ys : List ℕ) → has q (xs ++ ys) ≡ (has q xs || has q ys)
has-append q [] ys = refl
has-append q (x ∷ xs) ys = ground (arith, has-append q xs ys)

pub Distinct-append :
    (xs ys : List ℕ) → Distinct (xs ++ ys) → Distinct xs × Distinct ys × Apart xs ys
Distinct-append [] ys d = (tt, d, λ q i. cc)
Distinct-append (x ∷ xs) ys d =
    let (front, back, apart) = Distinct-append xs ys d.1 in
    (
      (ground (arith, has-append x xs ys), front),
      back,
      λ q i. ground (arith, apart q, has-append x xs ys),
    )

pub append-Distinct :
    (xs ys : List ℕ) → Distinct xs → Distinct ys → Apart xs ys → Distinct (xs ++ ys)
append-Distinct [] ys d d' apart = d'
append-Distinct (x ∷ xs) ys d d' apart = (
  ground (arith, has-append x xs ys, apart x),
  append-Distinct xs ys d.1 d' (λ q i. apart q (ground arith)),
)
