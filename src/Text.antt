-- ===== src/Text.antt =====
-- C strings: lists of bytes with no NUL, and strings in memory up to the NUL that ends them. The
-- calls of `strcmp` and of `printf` with `%s` in ex22/main.c are read through these.
use mathlib.Core.Option
use osc_2026_exercise.Base.{
  ℕ, zero, suc, ◌+◌, ◌<◌, ◌≡◌, refl, ap, List, [], ◌∷◌, ◌++◌, ◌==◌, if◌then◌else◌, arith, length,
  Bool, true, false, ◌&&◌, ◌≢◌, Option, none, some,
}
use osc_2026_exercise.Memory.{Memory, Holds}

-- No NUL among the bytes of a string.
abbrev pub IsString : List ℕ → Type 0
IsString [] = Unit
IsString (c ∷ cs) = (c ≢ 0) × IsString cs

-- `strcmp(s, (char*)a) == 0` for a string `s`.
abbrev pub is_string : Memory → List ℕ → ℕ → Bool
is_string m [] a = m a == 0
is_string m (c ∷ cs) a = (m a == c) && is_string m cs (a + 1)

-- The string at `a`, in at most so many bytes; `none` where no NUL ends it there.
unfoldable pub c_string : Memory → ℕ → ℕ → Option (List ℕ)
c_string m zero a = none
c_string m (suc n) a =
    let rest = c_string m n (a + 1) in
    if m a == 0 then some [] else Option.map (λ cs. m a ∷ cs) rest

infix 50 ◌=s◌
abbrev pub ◌=s◌ : List ℕ → List ℕ → Bool
[] =s [] = true
[] =s (d ∷ ds) = false
(c ∷ cs) =s [] = false
(c ∷ cs) =s (d ∷ ds) = (d == c) && (cs =s ds)

pub =s_refl : (cs : List ℕ) → (cs =s cs) ≡ true
=s_refl [] = refl
=s_refl (c ∷ cs) = ground (arith, =s_refl cs)

pub =s→eq : (cs ds : List ℕ) → (cs =s ds) ≡ true → cs ≡ ds
=s→eq [] [] h = refl
=s→eq [] (d ∷ ds) h = cc
=s→eq (c ∷ cs) [] h = cc
=s→eq (c ∷ cs) (d ∷ ds) h = ground (arith, =s→eq cs ds)

-- Comparing with a string in memory compares with its bytes.
pub is_string-Holds :
    (m : Memory) (cs ds : List ℕ) (a : ℕ)
    → Holds m a (ds ++ 0 ∷ [])
    → IsString cs
    → IsString ds
    → is_string m cs a ≡ (cs =s ds)
is_string-Holds m [] [] a h p q = ground arith
is_string-Holds m [] (d ∷ ds) a h p q = ground arith
is_string-Holds m (c ∷ cs) [] a h p q = ground arith
is_string-Holds m (c ∷ cs) (d ∷ ds) a h p q =
    ground (arith, is_string-Holds m cs ds (a + 1) h.1 p.1 q.1)

pub c_string-Holds :
    (m : Memory) (cs : List ℕ) (n a : ℕ)
    → Holds m a (cs ++ 0 ∷ [])
    → IsString cs
    → length cs < n
    → c_string m n a ≡ some cs
unfolding c_string
c_string-Holds m cs zero a h p fits = absurd (omega arith)
c_string-Holds m [] (suc n) a h p fits = ground arith
c_string-Holds m (c ∷ cs) (suc n) a h p fits = ground (arith, c_string-Holds m cs n (a + 1) h.1 p.1)

-- A string that is read ends at a NUL.
pub c_string-ends :
    (m : Memory) (n a : ℕ) (cs : List ℕ) → c_string m n a ≡ some cs → m (a + length cs) ≡ 0
unfolding c_string
c_string-ends m zero a cs h = cc
c_string-ends m (suc n) a [] h = let here : m (a + 0) ≡ m a = ap m (omega arith) in ground arith
c_string-ends m (suc n) a (c ∷ cs) h =
    let there : m (a + suc (length cs)) ≡ m (a + 1 + length cs) = ap m (omega arith) in
    ground (arith, c_string-ends m n (a + 1) cs)
