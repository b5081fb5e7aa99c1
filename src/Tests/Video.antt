-- ===== src/Tests/Video.antt =====
-- A picture of one row of two pixels at 0x1000.
use osc_2026_exercise.Base.{ℕ, ◌+◌, ◌-◌, ◌*◌, ◌/◌, ◌%◌, ◌<◌, ◌≤◌, ◌≡◌, refl, ◌⊎◌, some, arith}
use osc_2026_exercise.Memory.{Memory}
use osc_2026_exercise.Video.{fb_base, fb_width, fb_height, video_bmp_display}
use osc_2026_exercise.Video.Frames.{
  frame_height, frame_width, display_video, screen_at, pixel_at, display_video-shows, usleep,
}
use osc_2026_exercise.Video.Cache.{Cached, video_bmp_display_cached, video_bmp_display-IsWritten}
use osc_2026_exercise.Video.Display.{fb_end}

abbrev picture : Memory
picture q = q % 256

-- In main memory there are only zeros.
abbrev unwritten : Cached
unwritten = record { memory = picture; main = λ q. 0 }

video_bmp_display-IsWritten_example :
    (t : Cached) × (video_bmp_display_cached 3 0x1000 2 1 unwritten ≡ some t)
    × (t.memory ≡ video_bmp_display 0x1000 2 1 picture)
    × ((y i : ℕ)
        → y < 1
        → i < 4 * 2
        → t.main (fb_base + 4 * (((fb_height - 1) / 2 + y) * fb_width + (fb_width - 2) / 2) + i)
          ≡ picture (0x1000 + 4 * (y * 2) + i))
    × ((q : ℕ) → (q < fb_base) ⊎ (fb_end ≤ q) → t.memory q ≡ picture q)
video_bmp_display-IsWritten_example =
    video_bmp_display-IsWritten 0x1000 2 1 (omega arith) (omega arith) (omega arith) 3 unwritten
      (omega arith)

display_video-shows_example :
    (t : Cached) × (display_video 9 0x80000000 9 0 unwritten ≡ some t)
    × ((y i : ℕ)
        → y < frame_height
        → i < 4 * frame_width
        → t.main (screen_at y i) ≡ picture (pixel_at 0x80000000 1 y i))
display_video-shows_example =
    display_video-shows 9 0x80000000 (omega arith) (omega arith) 8 unwritten

-- The product of the frequency and 50000 microseconds does not fit: the loop has 17837936 rounds, not
-- 5000000000.
sleeps_less : usleep 50000 ≡ (17837936, 50000)
unfolding usleep
sleeps_less = refl
