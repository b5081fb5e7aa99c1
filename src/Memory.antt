-- ===== src/Memory.antt =====
-- Memory as a map from addresses to bytes: what the bare-metal programs have, and what the hosted
-- ones see of the buffers that they read.
use osc_2026_exercise.Base.{
  ℕ, suc, ◌+◌, ◌<◌, ◌≤◌, ◌≡◌, ◌∙◌, List, [], ◌∷◌, ◌++◌, ◌==◌, if◌then◌else◌, arith, length,
}

abbrev pub Memory : Type 0
Memory = ℕ → ℕ

-- `*a = v`
abbrev pub store : Memory → ℕ → ℕ → Memory
store m a v q = if a == q then v else m q

-- The bytes `bs` stand at `a`.
abbrev pub Holds : Memory → ℕ → List ℕ → Type 0
Holds m a [] = Unit
Holds m a (b ∷ bs) = (m a ≡ b) × Holds m (a + 1) bs

pub Holds-append :
    (m : Memory) (a : ℕ) (bs cs : List ℕ)
    → Holds m a (bs ++ cs)
    → Holds m a bs × Holds m (a + length bs) cs
Holds-append m a [] cs h = let e : a + 0 ≡ a = omega arith in (tt, rw e h)
Holds-append m a (b ∷ bs) cs h =
    let (front, back) = Holds-append m (a + 1) bs cs h.1 in
    let e : a + suc (length bs) ≡ a + 1 + length bs = omega arith in ((h.0, front), rw e back)

pub append-Holds :
    (m : Memory) (a : ℕ) (bs cs : List ℕ)
    → Holds m a bs
    → Holds m (a + length bs) cs
    → Holds m a (bs ++ cs)
append-Holds m a [] cs h k = let e : a ≡ a + 0 = omega arith in rw e k
append-Holds m a (b ∷ bs) cs h k =
    let e : a + suc (length bs) ≡ a + 1 + length bs = omega arith in
    (h.0, append-Holds m (a + 1) bs cs h.1 (rw e at k))

-- Memories that agree on a range hold the same bytes there.
pub Holds-agree :
    (m m' : Memory) (a : ℕ) (bs : List ℕ)
    → ((q : ℕ) → a ≤ q → q < a + length bs → m' q ≡ m q)
    → Holds m a bs
    → Holds m' a bs
Holds-agree m m' a [] same h = tt
Holds-agree m m' a (b ∷ bs) same h = (
  same a (omega arith) (omega arith) ∙ h.0,
  Holds-agree m m' (a + 1) bs (λ q lo hi. same q (omega arith) (omega arith)) h.1,
)
