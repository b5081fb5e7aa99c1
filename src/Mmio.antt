-- ===== src/Mmio.antt =====
-- Memory-mapped device registers. What a read of a register returns is the device's choice, so
-- the device is a parameter: its answer may depend on the address and on how many register reads
-- came before. The writes of a program are kept in order, each with its address.
use osc_2026_exercise.Base.{
  ℕ, suc, ◌+◌, ◌<◌, ◌≡◌, ◌≢◌, true, Option, none, some, List, [], ◌∷◌, ◌++◌, bit_and, ◌==◌,
  if◌then◌else◌, arith, refl, zero, Bool-cases, inl, inr, ==_iff, ◌-◌,
}
use mathlib.Core.List.{append-nil, append_assoc}

-- `read n a` answers the read number `n`, at address `a`.
pub record Device : Type 0 where
  pub read : ℕ → ℕ → ℕ

pub record Bus : Type 0 where
  pub reads : ℕ
  pub writes : List (ℕ × ℕ)

-- `none`: a polling loop ran through all its rounds.
abbrev pub Io : Type 0 → Type 0
Io A = Bus → Option (A × Bus)

abbrev pub pure : {A : Type 0} → A → Io A
pure a s = some (a, s)

abbrev pub and_then : {A B : Type 0} → Option (A × Bus) → (A → Io B) → Option (B × Bus)
and_then none f = none
and_then (some (a, s)) f = f a s

infixl 5 ◌>>=◌ ◌>>◌
abbrev pub ◌>>=◌ : {A B : Type 0} → Io A → (A → Io B) → Io B
◌>>=◌ m f s = and_then (m s) f

abbrev pub ◌>>◌ : {B : Type 0} → Io (Unit {0}) → Io B → Io B
m >> k = m >>= λ _. k

-- `*(volatile T*)a = v`
unfoldable pub write : ℕ → ℕ → Io (Unit {0})
write a v s = some (tt, record s { writes = s.writes ++ (a, v) ∷ [] })

module _ (dev : Device) where
  -- `*(volatile T*)a`
  unfoldable pub read : ℕ → Io ℕ
  read a s = some (dev.read s.reads a, record s { reads = s.reads + 1 })

  -- `while ((*a & mask) == 0);` for so many rounds.
  unfoldable pub poll : ℕ → ℕ → ℕ → Io (Unit {0})
  poll zero a mask = λ s. none
  poll (suc rounds) a mask =
      let again = poll rounds a mask in
      do v ← read a; if bit_and v mask == 0 then again else pure tt

  -- Among `rounds` reads of `a` in a row, from any time on, one has a bit of the mask.
  abbrev pub Answers : ℕ → ℕ → ℕ → Type 0
  Answers rounds a mask = (n : ℕ) → (k : ℕ) × (k < rounds) × (bit_and (dev.read (n + k) a) mask ≢ 0)

  -- The read number `i` is the first with a bit of the mask, or one before it is.
  poll-eq-some :
      (rounds a mask : ℕ) (s : Bus) (i k : ℕ)
      → i ≡ s.reads + k
      → k < rounds
      → bit_and (dev.read i a) mask ≢ 0
      → (r : ℕ) × (poll rounds a mask s ≡ some (tt, record s { reads = r }))
  unfolding poll read
  poll-eq-some zero a mask s i k e h set = absurd (omega arith)
  poll-eq-some (suc rounds) a mask s i k e h set =
      elim (Bool-cases (bit_and (dev.read s.reads a) mask == 0)) [
        | inl clear ↦ rw clear (
            poll-eq-some rounds a mask (record s { reads = s.reads + 1 }) i (k - 1) (later clear)
              (rest clear) set)
        | inr found ↦ (s.reads + 1, rw found)
      ]
    where
      is_later : (bit_and (dev.read s.reads a) mask == 0) ≡ true → k ≢ 0
      is_later clear e0 =
          set (rw e (let at : s.reads + k ≡ s.reads = omega arith in rw at ((==_iff _ _).0 clear)))

      later : (bit_and (dev.read s.reads a) mask == 0) ≡ true → i ≡ s.reads + 1 + (k - 1)
      later clear = let pos : k ≢ 0 = is_later clear in omega arith

      rest : (bit_and (dev.read s.reads a) mask == 0) ≡ true → k - 1 < rounds
      rest clear = let pos : k ≢ 0 = is_later clear in omega arith

-- The command ends, and writes `ws`.
abbrev pub Writes : Io (Unit {0}) → List (ℕ × ℕ) → Type 0
Writes m ws = (s : Bus) → (r : ℕ) × (m s ≡ some (tt, record { reads = r; writes = s.writes ++ ws }))

pub Writes-pure : Writes (pure tt) []
Writes-pure s = (s.reads, rw append-nil)

pub Writes-then :
    (m n : Io (Unit {0})) (ws us : List (ℕ × ℕ))
    → Writes m ws
    → Writes n us
    → Writes (m >> n) (ws ++ us)
Writes-then m n ws us h k s =
    let (r, first) = h s in
    let (q, second) = k (record { reads = r; writes = s.writes ++ ws }) in
    (q, rw (first, ← append_assoc s.writes ws us) second)

pub Writes-write : (a v : ℕ) → Writes (write a v) ((a, v) ∷ [])
unfolding write
Writes-write a v s = (s.reads, refl)

-- A device that answers ends the wait, and nothing is written.
pub Writes-poll :
    (dev : Device) (rounds a mask : ℕ)
    → Answers dev rounds a mask
    → Writes (poll dev rounds a mask) []
Writes-poll dev rounds a mask answers s =
    let (k, below, set) = answers s.reads in
    let (r, e) = poll-eq-some dev rounds a mask s (s.reads + k) k refl below set in
    (r, rw append-nil e)
