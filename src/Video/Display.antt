-- ===== src/Video/Display.antt =====
-- The picture in the frame buffer.
use native.Mathlib.Nat.{mul-le-mul_right, suc-mul}
use osc_2026_exercise.Base.{
  ℕ, zero, suc, ◌+◌, ◌-◌, ◌*◌, ◌/◌, ◌%◌, ◌^◌, ◌<◌, ◌≤◌, ◌≡◌, ◌⊎◌, refl, ap, ◌∙◌, ◌==◌, Bool-cases,
  inl, inr, arith,
}
use osc_2026_exercise.Memory.{Memory}
use osc_2026_exercise.Utils.Block.{memcpy, memcpy_lem}
use osc_2026_exercise.Exec.{count}
use osc_2026_exercise.Video.{
  fb_base, fb_width, fb_height, row_address, display_loop, video_bmp_display,
}

-- The first byte behind the frame buffer.
abbrev pub fb_end : ℕ
fb_end = fb_base + 4 * (fb_width * fb_height)

module _ (bmp_image width height : ℕ) (narrow : width ≤ fb_width) (short : height ≤ fb_height)
    (below : bmp_image + 4 * (height * width) ≤ fb_base) where
  unfoldable pub row : ℕ → ℕ
  row y = fb_base + 4 * (((fb_height - height) / 2 + y) * fb_width + (fb_width - width) / 2)

  pub row_lem : (y : ℕ) → y < height → row_address width height y ≡ row y
  unfolding row
  row_lem y small = ground arith

  pub rows_lem :
      (y : ℕ)
      → y < height
      → (fb_base ≤ row y) × (row y + 4 * width ≤ fb_end) × (row y + 4 * width ≤ row (y + 1))
  unfolding row
  rows_lem y small = omega arith

  pub source_lem : (y : ℕ) → y < height → bmp_image + 4 * (y * width) + 4 * width ≤ fb_base
  source_lem y small = omega (arith, mul-le-mul_right width small, suc-mul y width)

  pub count_lem : count (width * 4 % 2 ^ 32) ≡ 4 * width
  count_lem = ground arith

  -- One row.
  abbrev pub copied : ℕ → Memory → Memory
  copied y m = (memcpy m (row y) (bmp_image + 4 * (y * width)) (4 * width)).0

  pub copied_lem :
      (y : ℕ) (m : Memory)
      → y < height
      → ((i : ℕ) → i < 4 * width → copied y m (row y + i) ≡ m (bmp_image + 4 * (y * width) + i))
        × ((q : ℕ) → (q < row y) ⊎ (row y + 4 * width ≤ q) → copied y m q ≡ m q)
  copied_lem y m small =
      let (low, high, next) = rows_lem y small in
      let (inside, outside, result) =
        memcpy_lem m (row y) (bmp_image + 4 * (y * width)) (4 * width)
          (inr (let fits = source_lem y small in omega arith)) in
      (inside, outside)

  pub step_lem :
      (n y : ℕ) (m : Memory)
      → y < height
      → display_loop (suc n) y bmp_image width height m
        ≡ display_loop n (y + 1) bmp_image width height (copied y m)
  unfolding display_loop
  step_lem n y m small = rw (row_lem y small, count_lem) refl

  pub display_loop_lem :
      (n y : ℕ) (m : Memory)
      → y + n ≤ height
      → ((r i : ℕ)
          → y ≤ r
          → r < y + n
          → i < 4 * width
          → display_loop n y bmp_image width height m (row r + i)
            ≡ m (bmp_image + 4 * (r * width) + i))
        × ((q : ℕ) → (q < row y) ⊎ (fb_end ≤ q) → display_loop n y bmp_image width height m q ≡ m q)
  unfolding display_loop
  display_loop_lem zero y m fits = ((λ r i low high small. absurd (omega arith)), λ q outside. refl)
  display_loop_lem (suc n) y m fits =
      let here : y < height = omega arith in
      let (low, high, next) = rows_lem y here in
      let (inside, outside) = copied_lem y m here in
      let (later, kept) = display_loop_lem n (y + 1) (copied y m) (omega arith) in
      let step = step_lem n y m here in
      (
        λ r i from to small. ap (λ f. f (row r + i)) step ∙ elim (Bool-cases (r == y)) [
          | inl same ↦
              let e : r ≡ y = ground arith in
              rw e (kept (row y + i) (inl (omega arith)) ∙ inside i small)
          | inr other ↦
              let source = source_lem r (omega arith) in
              later r i (ground arith) (omega arith) small
              ∙ outside (bmp_image + 4 * (r * width) + i) (inl (omega arith))
        ],
        λ q away. ap (λ f. f q) step ∙ elim away [
          | inl before ↦ kept q (inl (omega arith)) ∙ outside q (inl before)
          | inr behind ↦ kept q (inr behind) ∙ outside q (inr (omega arith))
        ],
      )

  -- A picture that is not larger than the frame buffer and lies below it is copied to its middle: each
  -- byte of each row stands at its place, at the row's distance from the upper edge and from the
  -- left one, and outside of the frame buffer nothing changes.
  pub video_bmp_display_lem :
      (m : Memory)
      → ((y i : ℕ)
          → y < height
          → i < 4 * width
          → video_bmp_display bmp_image width height m (
              fb_base
              + 4 * (((fb_height - height) / 2 + y) * fb_width + (fb_width - width) / 2)
              + i)
            ≡ m (bmp_image + 4 * (y * width) + i))
        × ((q : ℕ)
            → (q < fb_base) ⊎ (fb_end ≤ q)
            → video_bmp_display bmp_image width height m q ≡ m q)
  unfolding video_bmp_display row
  video_bmp_display_lem m =
      let rounds : count height ≡ height = ground arith in
      let (inside, outside) = display_loop_lem height 0 m (omega arith) in
      rw rounds (
        (λ y i small within. inside y i (omega arith) (omega arith) within),
        λ q away.
            outside q (elim away [ inl before ↦ inl (omega arith) | inr behind ↦ inr behind ]),
      )
