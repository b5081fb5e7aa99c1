-- ===== src/Video/Frames.antt =====
-- `display_video` and `usleep` of ex52/main.c: the pictures of ex52/bird.h in turn. The table `frames` is
-- in memory at an address that is a parameter.
use osc_2026_exercise.Base.{
  ℕ, zero, suc, ◌+◌, ◌-◌, ◌*◌, ◌/◌, ◌%◌, ◌^◌, ◌<◌, ◌≤◌, ◌≡◌, refl, sym, ap, ◌∙◌, Option, some, ◌==◌,
  if◌then◌else◌, Bool-cases, inl, inr, arith,
}
use osc_2026_exercise.Paging.{◌>>=◌}
use osc_2026_exercise.Video.{fb_base, fb_width, fb_height}
use osc_2026_exercise.Video.Cache.{Cached, video_bmp_display_cached, video_bmp_display-IsWritten}

abbrev pub frame_count : ℕ
frame_count = 7

abbrev pub frame_width : ℕ
frame_width = 109

abbrev pub frame_height : ℕ
frame_height = 128

abbrev pub time_freq : ℕ
time_freq = 10000000

-- The rounds of the empty loop of `usleep`: the product is an `unsigned int`. The result is `usec`.
unfoldable pub usleep : (usec : ℕ) → ℕ × ℕ
usleep usec = (time_freq * usec % 2 ^ 32 / 100, usec)

-- The address of a picture.
abbrev pub frame_at : (frames f : ℕ) → ℕ
frame_at frames f = frames + 4 * (f * (frame_width * frame_height))

abbrev pub next_frame : ℕ → ℕ
next_frame f = if suc f == frame_count then 0 else suc f

-- The loops, for `n` pictures from the picture `f` on; sleeping changes nothing.
unfoldable pub display_video : (fuel frames : ℕ) → (n f : ℕ) → Cached → Option Cached
display_video fuel frames zero f s = some s
display_video fuel frames (suc n) f s =
    video_bmp_display_cached fuel (frame_at frames f) frame_width frame_height s >>= λ t.
    display_video fuel frames n (next_frame f) t

-- The place of a byte of a picture in the middle of the frame buffer.
abbrev pub screen_at : (y i : ℕ) → ℕ
screen_at y i =
    fb_base
    + 4 * (((fb_height - frame_height) / 2 + y) * fb_width + (fb_width - frame_width) / 2)
    + i

-- The byte `i` of the row `y` of the picture `f`: pictures of 128 rows of 109 pixels of 4 bytes stand
-- one behind another.
abbrev pub pixel_at : (frames f y i : ℕ) → ℕ
pixel_at frames f y i = frames + f * 55808 + y * 436 + i

next_frame_lt : (f : ℕ) → f < frame_count → next_frame f < frame_count
next_frame_lt f small = ground arith

next_frame_mod :
    (f n : ℕ) → f < frame_count → (next_frame f + n) % frame_count ≡ (f + suc n) % frame_count
next_frame_mod f n small = elim (Bool-cases (suc f == frame_count)) [
  | inl last ↦ let e : f ≡ 6 = ground arith in rw (last, e) (omega arith)
  | inr more ↦ rw more (omega arith)
]

module _ (fuel frames : ℕ) (enough : 9 ≤ fuel)
    (below : frames + 4 * (frame_count * (frame_width * frame_height)) ≤ fb_base) where
  -- One picture: it is shown, and the table stays.
  shown_one :
      (f : ℕ) (s : Cached)
      → f < frame_count
      → (t : Cached) × (video_bmp_display_cached fuel (frame_at frames f) frame_width frame_height s
          ≡ some t)
        × ((y i : ℕ)
            → y < frame_height
            → i < 4 * frame_width
            → t.main (screen_at y i) ≡ s.memory (pixel_at frames f y i))
        × ((q : ℕ) → q < fb_base → t.memory q ≡ s.memory q)
  shown_one f s small =
      let fits : frame_at frames f + 4 * (frame_height * frame_width) ≤ fb_base = omega arith in
      let (t, ran, same, shown, kept) =
        video_bmp_display-IsWritten (frame_at frames f) frame_width frame_height (omega arith)
          (omega arith) fits fuel s (omega arith) in
      (
        t,
        ran,
        λ y i low in_row. shown y i low in_row ∙ ap s.memory (omega arith),
        λ q low. kept q (inl low),
      )

  shown_from :
      (n f : ℕ) (s : Cached)
      → f < frame_count
      → (t : Cached) × (display_video fuel frames (suc n) f s ≡ some t)
        × ((y i : ℕ)
            → y < frame_height
            → i < 4 * frame_width
            → t.main (screen_at y i) ≡ s.memory (pixel_at frames ((f + n) % frame_count) y i))
  unfolding display_video
  shown_from zero f s small =
      let (t, ran, shown, kept) = shown_one f s small in
      let e : (f + 0) % frame_count ≡ f = omega arith in
      (
        t,
        rw ran refl,
        λ y i low in_row. shown y i low in_row ∙ ap (λ g. s.memory (pixel_at frames g y i)) (sym e),
      )
  shown_from (suc n) f s small =
      let (t, ran, shown, kept) = shown_one f s small in
      let (u, ran', shown') = shown_from n (next_frame f) t (next_frame_lt f small) in
      let e : (next_frame f + n) % frame_count ≡ (f + suc n) % frame_count =
        next_frame_mod f n small in
      (
        u,
        rw ran ran',
        λ y i low in_row.
            shown' y i low in_row
            ∙ kept (pixel_at frames ((next_frame f + n) % frame_count) y i) (omega arith)
            ∙ ap (λ g. s.memory (pixel_at frames g y i)) e,
      )

  -- The table of seven pictures lies below the frame buffer, and there is fuel for the cache
  -- lines of a row: when `display_video` has shown `n + 1` pictures, the device finds the
  -- picture `n` modulo seven of the table in the middle of the frame buffer, as the table was at
  -- the start.
  pub display_video-shows :
      (n : ℕ) (s : Cached)
      → (t : Cached) × (display_video fuel frames (suc n) 0 s ≡ some t)
        × ((y i : ℕ)
            → y < frame_height
            → i < 4 * frame_width
            → t.main (screen_at y i) ≡ s.memory (pixel_at frames (n % frame_count) y i))
  display_video-shows n s =
      let e : 0 + n ≡ n = omega arith in
      let (t, ran, shown) = shown_from n 0 s (omega arith) in
      (
        t,
        ran,
        λ y i low in_row.
            shown y i low in_row ∙ ap (λ g. s.memory (pixel_at frames (g % frame_count) y i)) e,
      )
