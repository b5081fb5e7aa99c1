-- ===== src/Video/Cache.antt =====
-- What ex52/video.c leaves for the device that shows the frame buffer: it reads the main memory, which
-- the data cache of the processor hides.
use mathlib.Core.Option as Option
use osc_2026_exercise.Base.{
  ℕ, zero, suc, ◌+◌, ◌-◌, ◌*◌, ◌/◌, ◌%◌, ◌^◌, ◌<◌, ◌≤◌, ◌≡◌, ◌⊎◌, refl, sym, ap, ap₂, ◌∙◌, Option,
  some, List, [], ◌∷◌, true, ◌&&◌, ◌==◌, ltb, leb, if◌then◌else◌, Bool-cases, inl, inr, arith,
  bit_and,
}
use osc_2026_exercise.Memory.{Memory}
use osc_2026_exercise.Bits.{bit_and_high}
use osc_2026_exercise.Paging.{◌>>=◌}
use osc_2026_exercise.Utils.Block.{memcpy}
use osc_2026_exercise.Exec.{count}
use osc_2026_exercise.Video.{
  fb_base, fb_width, fb_height, cache_block_size, flush_loop, flush_dcache, row_address,
  display_loop, video_bmp_display,
}
use osc_2026_exercise.Video.Display.{
  fb_end, row, row_lem, rows_lem, step_lem, copied, copied_lem, video_bmp_display_lem,
}

-- The memory as the processor sees it, and what stands in main memory where nothing but a flush
-- writes lines back.
pub record Cached : Type 0 where
  pub memory : Memory
  pub main : Memory

-- `cbo_flush` of a line at a multiple of its size.
abbrev pub cbo_flush : (line : ℕ) → Cached → Cached
cbo_flush line s = record s {
  main = λ q. if leb line q && ltb q (line + cache_block_size) then s.memory q else s.main q;
}

abbrev pub flush_all : (lines : List ℕ) → Cached → Cached
flush_all [] s = s
flush_all (line ∷ lines) s = flush_all lines (cbo_flush line s)

-- The rows from `y` on, `rounds` of them, with their flushes.
unfoldable pub display_rows :
    (fuel rounds y : ℕ) → (bmp_image width height : ℕ) → Cached → Option Cached
display_rows fuel zero y bmp_image width height s = some s
display_rows fuel (suc n) y bmp_image width height s =
    let dst = row_address width height y in
    let size = width * 4 % 2 ^ 32 in
    let copied = (memcpy s.memory dst (bmp_image + 4 * (y * width)) (count size)).0 in
    flush_dcache fuel dst size >>= λ lines.
    display_rows fuel n (y + 1) bmp_image width height
      (flush_all lines (record s { memory = copied }))

unfoldable pub video_bmp_display_cached :
    (fuel : ℕ) → (bmp_image width height : ℕ) → Cached → Option Cached
unfolding display_rows
video_bmp_display_cached fuel bmp_image width height =
    display_rows fuel (count height) 0 bmp_image width height

-- Main memory has the byte that the processor sees.
abbrev pub IsWritten : Cached → ℕ → Type 0
IsWritten s q = s.main q ≡ s.memory q

-- The lines of a range: flushing them writes the range back, and takes nothing back.
abbrev Flushes : (from to : ℕ) → List ℕ → Type 0
Flushes from to lines =
    (s : Cached)
    → ((flush_all lines s).memory ≡ s.memory)
      × ((q : ℕ) → from ≤ q → q < to → IsWritten (flush_all lines s) q)
      × ((q : ℕ) → IsWritten s q → IsWritten (flush_all lines s) q)

cbo_flush-inside :
    (line q : ℕ) (s : Cached) → line ≤ q → q < line + 64 → IsWritten (cbo_flush line s) q
cbo_flush-inside line q s low high = ground arith

cbo_flush-keeps : (line q : ℕ) (s : Cached) → IsWritten s q → IsWritten (cbo_flush line s) q
cbo_flush-keeps line q s h = ground arith

Flushes-next :
    (line to : ℕ) (lines : List ℕ) → Flushes (line + 64) to lines → Flushes line to (line ∷ lines)
Flushes-next line to lines h s =
    let (same, inside, kept) = h (cbo_flush line s) in
    (
      same,
      (λ q low high. elim (Bool-cases (ltb q (line + 64))) [
        | inl here ↦ kept q (cbo_flush-inside line q s low (ground arith))
        | inr later ↦ inside q (ground arith) high
      ]),
      λ q old. kept q (cbo_flush-keeps line q s old),
    )

flush_loop-next :
    (n line to : ℕ)
    → line < to
    → to + 64 < 2 ^ 64
    → flush_loop (suc n) line to ≡ Option.map (λ lines. line ∷ lines) (flush_loop n (line + 64) to)
unfolding flush_loop
flush_loop-next n line to low room =
    let next : (line + 64) % 2 ^ 64 ≡ line + 64 = ground arith in
    let inside : ltb line to ≡ true = ground arith in rw (inside, next) refl

flush_loop-Flushes :
    (fuel line to : ℕ)
    → to + 64 < 2 ^ 64
    → line < to + 64
    → to + 64 ≤ line + 64 * fuel
    → (lines : List ℕ) × (flush_loop fuel line to ≡ some lines) × Flushes line to lines
unfolding flush_loop
flush_loop-Flushes zero line to room near enough = absurd (omega arith)
flush_loop-Flushes (suc n) line to room near enough = elim (Bool-cases (ltb line to)) [
  | inl inside ↦
      let (lines, e, flushes) =
        flush_loop-Flushes n (line + 64) to room (ground arith) (omega arith) in
      (
        line ∷ lines,
        flush_loop-next n line to (ground arith) room ∙ ap (Option.map (λ ls. line ∷ ls)) e,
        Flushes-next line to lines flushes,
      )
  | inr behind ↦
      ([], rw behind refl, λ s. (refl, (λ q low high. absurd (ground arith)), λ q old. old))
]

-- With fuel for the lines, `flush_dcache` writes a range back.
pub flush_dcache-Flushes :
    (fuel addr len : ℕ)
    → addr + len + 64 < 2 ^ 64
    → len + 128 ≤ 64 * fuel
    → (lines : List ℕ) × (flush_dcache fuel addr len ≡ some lines) × Flushes addr (addr + len) lines
unfolding flush_dcache
flush_dcache-Flushes fuel addr len room enough =
    let start : bit_and addr (2 ^ 64 - cache_block_size) ≡ addr / 64 * 64 =
      bit_and_high 58 6 addr ∙ omega arith in
    let stop : (addr + len) % 2 ^ 64 ≡ addr + len = omega arith in
    let (lines, e, flushes) =
      flush_loop-Flushes fuel (addr / 64 * 64) (addr + len) (omega arith) (omega arith)
        (omega arith) in
    (
      lines,
      ap₂ (flush_loop fuel) start stop ∙ e,
      λ s.
          let (same, inside, kept) = flushes s in
          (same, (λ q low high. inside q (omega arith) high), kept),
    )

module _ (bmp_image width height : ℕ) (narrow : width ≤ fb_width) (short : height ≤ fb_height)
    (below : bmp_image + 4 * (height * width) ≤ fb_base) where
  -- One row and its flush.
  row_next :
      (fuel n y : ℕ) (s : Cached) (lines : List ℕ)
      → y < height
      → flush_dcache fuel (row bmp_image width height narrow short below y) (4 * width) ≡ some lines
      → display_rows fuel (suc n) y bmp_image width height s
        ≡ display_rows fuel n (y + 1) bmp_image width height (
            flush_all lines
              (record s { memory = copied bmp_image width height narrow short below y s.memory }))
  unfolding display_rows
  row_next fuel n y s lines small e =
      let size : width * 4 % 2 ^ 32 ≡ 4 * width = omega arith in
      let bytes : count (4 * width) ≡ 4 * width = ground arith in
      rw (row_lem bmp_image width height narrow short below y small, size, bytes, e) refl

  row_flushed :
      (fuel y : ℕ) (s : Cached)
      → y < height
      → 4 * width + 128 ≤ 64 * fuel
      → (t : Cached) × ((n : ℕ)
          → display_rows fuel (suc n) y bmp_image width height s
            ≡ display_rows fuel n (y + 1) bmp_image width height t)
        × (t.memory ≡ copied bmp_image width height narrow short below y s.memory)
        × ((q : ℕ)
            → row bmp_image width height narrow short below y ≤ q
            → q < row bmp_image width height narrow short below y + 4 * width
            → IsWritten t q)
        × ((q : ℕ)
            → q < row bmp_image width height narrow short below y
            → IsWritten s q
            → IsWritten t q)
  row_flushed fuel y s small enough =
      let at = row bmp_image width height narrow short below y in
      let (low, high, next) = rows_lem bmp_image width height narrow short below y small in
      let (inside, outside) =
        copied_lem bmp_image width height narrow short below y s.memory small in
      let s' = record s { memory = copied bmp_image width height narrow short below y s.memory } in
      let (lines, e, flushes) = flush_dcache-Flushes fuel at (4 * width) (omega arith) enough in
      let (same, written, kept) = flushes s' in
      (
        flush_all lines s',
        (λ n. row_next fuel n y s lines small e),
        same,
        written,
        λ q before old. kept q (old ∙ sym (outside q (inl before))),
      )

  display_rows_lem :
      (fuel n y : ℕ) (s : Cached)
      → y + n ≤ height
      → 4 * width + 128 ≤ 64 * fuel
      → (t : Cached) × (display_rows fuel n y bmp_image width height s ≡ some t)
        × (t.memory ≡ display_loop n y bmp_image width height s.memory)
        × ((r i : ℕ)
            → y ≤ r
            → r < y + n
            → i < 4 * width
            → IsWritten t (row bmp_image width height narrow short below r + i))
        × ((q : ℕ)
            → q < row bmp_image width height narrow short below y
            → IsWritten s q
            → IsWritten t q)
  unfolding display_rows display_loop
  display_rows_lem fuel zero y s fits enough =
      (s, refl, refl, (λ r i low high small. absurd (omega arith)), λ q before old. old)
  display_rows_lem fuel (suc n) y s fits enough =
      let here : y < height = omega arith in
      let (low, high, next) = rows_lem bmp_image width height narrow short below y here in
      let (t1, step, same, written, kept) = row_flushed fuel y s here enough in
      let (t, e, same', written', kept') =
        display_rows_lem fuel n (y + 1) t1 (omega arith) enough in
      (
        t,
        step n ∙ e,
        same'
            ∙ ap (display_loop n (y + 1) bmp_image width height) same
            ∙ sym (step_lem bmp_image width height narrow short below n y s.memory here),
        (λ r i from to small. elim (Bool-cases (r == y)) [
          | inl at ↦
              let e : r ≡ y = ground arith in
              rw e (
                kept' (row bmp_image width height narrow short below y + i) (omega arith) (
                  written (row bmp_image width height narrow short below y + i) (omega arith)
                    (omega arith)))
          | inr later ↦ written' r i (ground arith) (omega arith) small
        ]),
        λ q before old. kept' q (omega arith) (kept q before old),
      )

  -- A picture that is not larger than the frame buffer and lies below it, and fuel for the cache lines
  -- of a row: the copy ends, and the device that reads main memory finds each byte of each row at
  -- its place in the middle of the frame buffer, since every line of it has been flushed. The processor
  -- sees the memory that the copy without a cache leaves, which is as it was outside of the frame buffer.
  pub video_bmp_display-IsWritten :
      (fuel : ℕ) (s : Cached)
      → 4 * width + 128 ≤ 64 * fuel
      → (t : Cached) × (video_bmp_display_cached fuel bmp_image width height s ≡ some t)
        × (t.memory ≡ video_bmp_display bmp_image width height s.memory)
        × ((y i : ℕ)
            → y < height
            → i < 4 * width
            → t.main (
                fb_base
                + 4 * (((fb_height - height) / 2 + y) * fb_width + (fb_width - width) / 2)
                + i)
              ≡ s.memory (bmp_image + 4 * (y * width) + i))
        × ((q : ℕ) → (q < fb_base) ⊎ (fb_end ≤ q) → t.memory q ≡ s.memory q)
  unfolding video_bmp_display_cached video_bmp_display row
  video_bmp_display-IsWritten fuel s enough =
      let rounds : count height ≡ height = ground arith in
      let (t, e, same, written, kept) = display_rows_lem fuel height 0 s (omega arith) enough in
      let (inside, outside) =
        video_bmp_display_lem bmp_image width height narrow short below s.memory in
      (
        t,
        ap (λ n. display_rows fuel n 0 bmp_image width height s) rounds ∙ e,
        same ∙ sym (ap (λ n. display_loop n 0 bmp_image width height s.memory) rounds),
        (λ y i small in_row.
            written y i (omega arith) (omega arith) in_row
            ∙ ap
                (λ m. m (
                  fb_base
                  + 4 * (((fb_height - height) / 2 + y) * fb_width + (fb_width - width) / 2)
                  + i))
                (same ∙ sym (ap (λ n. display_loop n 0 bmp_image width height s.memory) rounds))
            ∙ inside y i small in_row),
        λ q away.
            ap (λ m. m q)
              (same ∙ sym (ap (λ n. display_loop n 0 bmp_image width height s.memory) rounds))
            ∙ outside q away,
      )
