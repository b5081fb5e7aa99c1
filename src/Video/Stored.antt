-- ===== src/Video/Stored.antt =====
-- Bytes that ex52/video.c stores, and the strings that it compares.
use osc_2026_exercise.Base.{
  ℕ, zero, suc, ◌+◌, ◌-◌, ◌<◌, ◌≤◌, ◌≡◌, ◌⊎◌, inl, inr, refl, ◌∙◌, arith, List, [], ◌∷◌, ◌++◌, true,
  false, ◌==◌, Bool-cases, leb, length,
}
use osc_2026_exercise.Base.Int.{pos, sub_ℕ}
use osc_2026_exercise.Memory.{Memory, Holds, store, Holds-agree}
use osc_2026_exercise.Text.{IsString, ◌=s◌}
use osc_2026_exercise.Exec.{is_zero}
use osc_2026_exercise.Utils.Block.{strncmp}
use osc_2026_exercise.Video.{store_all}

pos_zero : (k : ℕ) → is_zero (pos k) ≡ (k == 0)
pos_zero zero = refl
pos_zero (suc k) = ground arith

sub_zero : (a b : ℕ) → is_zero (sub_ℕ a b) ≡ (a == b)
sub_zero a b = elim (Bool-cases (leb b a)) [
  | inl above ↦ rw above (pos_zero (a - b) ∙ ground arith)
  | inr below ↦ rw below (ground arith)
]

-- Strings compare equal in their first `n` characters, more than the first one has.
pub strncmp-Holds :
    (m : Memory) (cs ds : List ℕ) (n a b : ℕ)
    → Holds m a (cs ++ 0 ∷ [])
    → Holds m b (ds ++ 0 ∷ [])
    → IsString cs
    → IsString ds
    → length cs < n
    → is_zero (strncmp m a b n) ≡ (cs =s ds)
unfolding strncmp
strncmp-Holds m cs ds zero a b h k p q fits = absurd (omega arith)
strncmp-Holds m [] [] (suc n) a b h k p q fits = rw (h.0, k.0) (sub_zero 0 0)
strncmp-Holds m [] (d ∷ ds) (suc n) a b h k p q fits = rw (h.0, k.0) (sub_zero 0 d ∙ ground arith)
strncmp-Holds m (c ∷ cs) [] (suc n) a b h k p q fits =
    let other : (c == 0) ≡ false = ground arith in rw (h.0, k.0, other) (sub_zero c 0 ∙ other)
strncmp-Holds m (c ∷ cs) (d ∷ ds) (suc n) a b h k p q fits =
    let one : (c == 0) ≡ false = ground arith in
    elim (Bool-cases (c == d)) [
      | inl same ↦
          let same' : (d == c) ≡ true = ground arith in
          rw (h.0, k.0, one, same, same')
            (strncmp-Holds m cs ds n (a + 1) (b + 1) h.1 k.1 p.1 q.1 (omega arith))
      | inr other ↦
          let other' : (d == c) ≡ false = ground arith in
          rw (h.0, k.0, one, other, other') (sub_zero c d ∙ other)
    ]

pub store_all-outside :
    (bs : List ℕ) (m : Memory) (a q : ℕ) → (q < a) ⊎ (a + length bs ≤ q) → store_all m a bs q ≡ m q
store_all-outside [] m a q away = refl
store_all-outside (b ∷ bs) m a q away =
    store_all-outside bs (store m a b) (a + 1) q (ground arith) ∙ ground arith

pub store_all-Holds : (bs : List ℕ) (m : Memory) (a : ℕ) → Holds (store_all m a bs) a bs
store_all-Holds [] m a = tt
store_all-Holds (b ∷ bs) m a = (
  store_all-outside bs (store m a b) (a + 1) a (inl (omega arith)) ∙ ground arith,
  store_all-Holds bs (store m a b) (a + 1),
)

-- Two ranges of addresses have none in common.
abbrev pub Apart : (a n b k : ℕ) → Type 0
Apart a n b k = (a + n ≤ b) ⊎ (b + k ≤ a)

pub stored-Holds :
    (bs cs : List ℕ) (m : Memory) (a b : ℕ)
    → Apart a (length bs) b (length cs)
    → Holds m b cs
    → Holds (store_all m a bs) b cs
stored-Holds bs cs m a b apart = Holds-agree m (store_all m a bs) b cs (λ q low high.
    store_all-outside bs m a q
      (elim apart [ inl before ↦ inr (omega arith) | inr behind ↦ inl (omega arith) ]))
