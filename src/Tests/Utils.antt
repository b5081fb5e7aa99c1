-- ===== src/Tests/Utils.antt =====
-- The helpers at small inputs.
use osc_2026_exercise.Base.{
  ℕ, ◌+◌, ◌-◌, ◌*◌, ◌^◌, ◌<◌, ◌≤◌, ◌≡◌, refl, List, [], ◌∷◌, arith, get_or, ltb, if◌then◌else◌,
}
use osc_2026_exercise.Memory.{Memory}
use osc_2026_exercise.Utils.Align.{align, kernel_align, align_up, align-least}
use osc_2026_exercise.Utils.Alloc.{bytes, page, Laid, serve, serve-Laid}
use osc_2026_exercise.Utils.Hextoi.{hextoi, kernel_hextoi, hex_field, hextoi-hex_field}

-- The bytes `bs` from `a` on, and zeros elsewhere.
abbrev pub memory_of : ℕ → List ℕ → Memory
memory_of a bs q = if ltb q a then 0 else get_or bs (q - a) 0

abbrev digits : Memory
digits = memory_of 100 (b'0' ∷ b'0' ∷ b'0' ∷ b'0' ∷ b'1' ∷ b'2' ∷ b'A' ∷ b'F' ∷ [])

hextoi-hex_field_example : (hextoi digits 100 8 ≡ 0x12af) × (kernel_hextoi digits 100 8 ≡ 0x12af)
unfolding hex_field
hextoi-hex_field_example = hextoi-hex_field digits 100 0x12af (omega arith) (omega arith)

-- A lower-case digit is read too high, by 32.
lower_case : kernel_hextoi (memory_of 0 (b'0' ∷ b'a' ∷ [])) 0 2 ≡ 42
unfolding kernel_hextoi
lower_case = refl

align-least_example :
    (q : ℕ) × (align 13 (2 ^ 2) ≡ q * 2 ^ 2)
    × (kernel_align 13 (2 ^ 2) ≡ q * 2 ^ 2)
    × (align_up 13 (2 ^ 2) ≡ q * 2 ^ 2)
    × (13 ≤ q * 2 ^ 2)
    × (q * 2 ^ 2 < 13 + 2 ^ 2)
align-least_example = align-least 2 13 (omega arith) (omega arith)

serve-Laid_example : Laid 0x80200008 (serve (bytes 24 ∷ page ∷ bytes 8 ∷ []) 0x80200008)
serve-Laid_example = serve-Laid (bytes 24 ∷ page ∷ bytes 8 ∷ []) 0x80200008 (omega arith)
