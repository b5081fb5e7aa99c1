-- ===== src/Uart/Hex.antt =====
-- What `uart_hex` of ex12/uart.c prints: "0x" and sixteen digits that read back as the number.
use native.Mathlib.Nat.{div-add-mod, div-div-eq-div-mul}
use osc_2026_exercise.Base.{
  ℕ, zero, suc, ◌+◌, ◌-◌, ◌*◌, ◌/◌, ◌%◌, ◌^◌, ◌<◌, ◌≤◌, ◌≡◌, ◌⊎◌, inl, inr, Bool-cases, refl, ap,
  subst, List, [], ◌∷◌, bit_and, ltb, if◌then◌else◌, arith, length, ◌∙◌,
}
use osc_2026_exercise.Bits.{bit_and_low, two_pow_pos, two_pow_four_suc}
use osc_2026_exercise.Mmio.{Device, Answers, Writes, Writes-pure, Writes-then}
use osc_2026_exercise.Uart.{uart_lsr, lsr_tdrq, uart_putc, uart_puts, hex_char, hex_loop, uart_hex}
use osc_2026_exercise.Uart.Puts.{sent, crlf_char, uart_putc-Writes, uart_puts-Writes}

-- The value of a digit, and of a numeral with `acc` before it.
abbrev pub digit_value : ℕ → ℕ
digit_value c = if ltb c b'a' then c - b'0' else c - b'a' + 10

abbrev pub hex_value : ℕ → List ℕ → ℕ
hex_value acc [] = acc
hex_value acc (c ∷ cs) = hex_value (acc * 16 + digit_value c) cs

-- A hexadecimal digit, with lower-case letters.
abbrev pub IsDigit : ℕ → Type 0
IsDigit c = ((b'0' ≤ c) × (c ≤ b'9')) ⊎ ((b'a' ≤ c) × (c ≤ b'f'))

abbrev pub IsNumeral : List ℕ → Type 0
IsNumeral [] = Unit
IsNumeral (c ∷ cs) = IsDigit c × IsNumeral cs

-- The low `k` digits of `h`.
abbrev pub hex_text : ℕ → ℕ → List ℕ
hex_text zero h = []
hex_text (suc k) h = hex_char (bit_and (h / 2 ^ (4 * k)) 0xf) ∷ hex_text k h

nibble : (x : ℕ) → bit_and x 0xf ≡ x % 16
nibble x = bit_and_low 4 x

hex_char_value : (x : ℕ) → digit_value (hex_char (bit_and x 0xf)) ≡ x % 16
hex_char_value x = ground (arith, nibble x)

hex_char-IsDigit : (x : ℕ) → IsDigit (hex_char (bit_and x 0xf))
hex_char-IsDigit x =
    let small : bit_and x 0xf < 16 = omega (arith, nibble x) in
    elim (Bool-cases (ltb (bit_and x 0xf) 10)) [
      | inl low ↦ inl (ground arith)
      | inr high ↦ inr (ground arith)
    ]

hex_text-IsNumeral : (k h : ℕ) → IsNumeral (hex_text k h)
hex_text-IsNumeral zero h = tt
hex_text-IsNumeral (suc k) h = (hex_char-IsDigit (h / 2 ^ (4 * k)), hex_text-IsNumeral k h)

-- One more digit: `p` is the weight of the digits below.
split_digit :
    (acc h p : ℕ) → 0 < p → (acc * 16 + h / p % 16) * p + h % p ≡ acc * (16 * p) + h % (16 * p)
split_digit acc h p pos =
    let swap : 16 * p ≡ p * 16 = omega arith in
    let top : h / p ≡ h / (p * 16) * 16 + h / p % 16 = omega (arith, div-div-eq-div-mul h p 16) in
    rw swap (omega (arith, div-add-mod h p, div-add-mod h (p * 16), ap (λ (t : ℕ). t * p) top))

hex_value-text : (k acc h : ℕ) → hex_value acc (hex_text k h) ≡ acc * 2 ^ (4 * k) + h % 2 ^ (4 * k)
hex_value-text zero acc h = omega arith
hex_value-text (suc k) acc h =
    hex_value-text k (acc * 16 + digit_value (hex_char (bit_and (h / 2 ^ (4 * k)) 0xf))) h
    ∙ ground (
      arith,
      two_pow_four_suc k,
      split_digit acc h (2 ^ (4 * k)) (two_pow_pos (4 * k)),
      hex_char_value (h / 2 ^ (4 * k)),
    )

length-hex_text : (k h : ℕ) → length (hex_text k h) ≡ k
length-hex_text zero h = refl
length-hex_text (suc k) h = ap suc (length-hex_text k h)

-- A digit is no line feed.
crlf_char-digit : (x : ℕ) → crlf_char (hex_char (bit_and x 0xf)) ≡ hex_char (bit_and x 0xf) ∷ []
crlf_char-digit x = ground arith

module _ (dev : Device) (base rounds : ℕ)
    (answers : Answers dev rounds (uart_lsr base) lsr_tdrq) where
  digit-Writes :
      (x : ℕ)
      → Writes
          (uart_putc dev base rounds (hex_char (bit_and x 0xf)))
          (sent base (hex_char (bit_and x 0xf) ∷ []))
  digit-Writes x =
      subst (λ l. Writes (uart_putc dev base rounds (hex_char (bit_and x 0xf))) (sent base l))
        (crlf_char-digit x) (uart_putc-Writes dev base rounds answers (hex_char (bit_and x 0xf)))

  hex_loop-Writes : (k h : ℕ) → Writes (hex_loop dev base rounds k h) (sent base (hex_text k h))
  unfolding hex_loop
  hex_loop-Writes zero h = Writes-pure
  hex_loop-Writes (suc k) h =
      Writes-then (uart_putc dev base rounds (hex_char (bit_and (h / 2 ^ (4 * k)) 0xf)))
        (hex_loop dev base rounds k h) (sent base (hex_char (bit_and (h / 2 ^ (4 * k)) 0xf) ∷ []))
        (sent base (hex_text k h)) (digit-Writes (h / 2 ^ (4 * k))) (hex_loop-Writes k h)

  pub uart_hex-Writes :
      (h : ℕ) → Writes (uart_hex dev base rounds h) (sent base (b'0' ∷ b'x' ∷ hex_text 16 h))
  unfolding uart_hex
  uart_hex-Writes h =
      Writes-then (uart_puts dev base rounds (b'0' ∷ b'x' ∷ [])) (hex_loop dev base rounds 16 h)
        (sent base (b'0' ∷ b'x' ∷ [])) (sent base (hex_text 16 h))
        (uart_puts-Writes dev base rounds answers (b'0' ∷ b'x' ∷ []) (omega arith))
        (hex_loop-Writes 16 h)

  -- If the device reports its transmitter ready within `rounds` status reads from any time on,
  -- `uart_hex` of a 64-bit number ends, and writes to the transmit register "0x" and then
  -- sixteen hexadecimal digits (0 to 9, a to f) of a numeral with the value of the number.
  pub uart_hex_reads_back :
      (h : ℕ)
      → h < 2 ^ 64
      → (cs : List ℕ) × (length cs ≡ 16)
        × IsNumeral cs
        × (hex_value 0 cs ≡ h)
        × Writes (uart_hex dev base rounds h) (sent base (b'0' ∷ b'x' ∷ cs))
  uart_hex_reads_back h fits = (
    hex_text 16 h,
    length-hex_text 16 h,
    hex_text-IsNumeral 16 h,
    omega (arith, hex_value-text 16 0 h),
    uart_hex-Writes h,
  )
