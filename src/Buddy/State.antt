-- ===== src/Buddy/State.antt =====
-- What the allocator keeps: the free blocks of its lists and the blocks in use are a partition of
-- the pages. A block is in use where the count of its first page is not 0; between two steps one
-- chunk may be in no list.
use osc_2026_exercise.Base.{
  ℕ, ◌≤◌, ◌≡◌, ◌≢◌, ◌⊎◌, inl, inr, refl, sym, ◌∙◌, arith, ◌==◌, Bool-cases, false, true, List, [],
  ◌∷◌,
}
use osc_2026_exercise.Sched.Ring.{has, Distinct}
use osc_2026_exercise.Buddy.{Buddy, max_order, remove}
use osc_2026_exercise.Buddy.Partition.{Blocks, IsPartition}

abbrev pub Free : Buddy → Blocks
Free s q o = has q (s.free_area o) ≡ true

abbrev pub Used : Buddy → Blocks
Used s q o = (s.refcount q ≢ 0) × (s.order q ≡ o)

abbrev pub Block : Buddy → Blocks
Block s q o = Free s q o ⊎ Used s q o

-- The blocks and a chunk.
abbrev pub WithChunk : Buddy → ℕ → ℕ → Blocks
WithChunk s p k q o = Block s q o ⊎ ((o ≡ k) × (q ≡ p))

abbrev pub Labelled : Buddy → Type 0
Labelled s = (q o : ℕ) → Free s q o → (s.order q ≡ o) × (s.refcount q ≡ 0)

pub record IsBuddy (n : ℕ) (s : Buddy) : Type 0 where
  pub partition : IsPartition n (Block s)
  pub labelled : Labelled s
  pub orders : (q o : ℕ) → Block s q o → o ≤ max_order
  pub distinct : (o : ℕ) → Distinct (s.free_area o)

pub record HasChunk (n : ℕ) (p k : ℕ) (s : Buddy) : Type 0 where
  pub partition : IsPartition n (WithChunk s p k)
  pub idle : s.refcount p ≡ 0
  pub absent : (o : ℕ) → has p (s.free_area o) ≡ false
  pub labelled : Labelled s
  pub orders : (q o : ℕ) → Block s q o → o ≤ max_order
  pub order_fits : k ≤ max_order
  pub distinct : (o : ℕ) → Distinct (s.free_area o)

-- `t` and `t'` differ at most in what they say of `a` and `b`.
abbrev pub Agree : (a b : ℕ) → Buddy → Buddy → Type 0
Agree a b t t' =
    (q : ℕ)
    → q ≢ a
    → q ≢ b
    → (t'.order q ≡ t.order q)
      × (t'.refcount q ≡ t.refcount q)
      × ((o : ℕ) → has q (t'.free_area o) ≡ has q (t.free_area o))

module _ (a b : ℕ) (t t' : Buddy) (agree : Agree a b t t') (q o : ℕ) (u : q ≢ a) (v : q ≢ b) where
  pub Agree-Block : Block t q o → Block t' q o
  Agree-Block (inl free) = inl ((agree q u v).2 o ∙ free)
  Agree-Block (inr (used, size)) = let (e, f, g) = agree q u v in inr (omega arith, omega arith)

  pub Block-Agree : Block t' q o → Block t q o
  Block-Agree (inl free) = inl (sym ((agree q u v).2 o) ∙ free)
  Block-Agree (inr (used, size)) = let (e, f, g) = agree q u v in inr (omega arith, omega arith)

  pub Agree-Labelled : Labelled t → Free t' q o → (t'.order q ≡ o) × (t'.refcount q ≡ 0)
  Agree-Labelled h free =
      let (e, f, g) = agree q u v in
      let (i, j) = h q o (sym (g o) ∙ free) in (omega arith, omega arith)

-- The used blocks but that at `p` are the same.
abbrev pub Keeps : ℕ → Buddy → Buddy → Type 0
Keeps p s s' = (q o : ℕ) → q ≢ p → (Used s q o → Used s' q o) × (Used s' q o → Used s q o)

pub Keeps-trans : (p : ℕ) (s t u : Buddy) → Keeps p s t → Keeps p t u → Keeps p s u
Keeps-trans p s t u h k q o other =
    let (a, b) = h q o other in let (c, d) = k q o other in ((λ x. c (a x)), (λ x. b (d x)))

-- A list without a page.
pub has-remove_self : (b : ℕ) (xs : List ℕ) → has b (remove b xs) ≡ false
has-remove_self b [] = refl
has-remove_self b (x ∷ xs) = ground (arith, has-remove_self b xs)

pub has-remove_ne : (b q : ℕ) (xs : List ℕ) → q ≢ b → has q (remove b xs) ≡ has q xs
has-remove_ne b q [] other = refl
has-remove_ne b q (x ∷ xs) other = ground (arith, has-remove_ne b q xs other)

pub remove-Distinct : (b : ℕ) (xs : List ℕ) → Distinct xs → Distinct (remove b xs)
remove-Distinct b [] h = tt
remove-Distinct b (x ∷ xs) (h, hs) = elim (Bool-cases (x == b)) [
  | inl same ↦ rw same (remove-Distinct b xs hs)
  | inr other ↦ rw other (has-remove_ne b x xs (ground arith) ∙ h, remove-Distinct b xs hs)
]
