-- ===== src/Trap/Frame.antt =====
-- Saving registers in a frame and loading them again, place by place: what a run of stores and
-- loads of ex41/start.S does to the 35 words of the frame.
use osc_2026_exercise.Base.{ℕ, ◌+◌, ◌*◌, ◌^◌, ◌<◌, ◌≤◌, ◌≡◌, refl, ap, ◌∙◌, List, [], ◌∷◌, arith}
use osc_2026_exercise.Sched.{put}
use osc_2026_exercise.Trap.{slot_address, sd_all, ld_all, frame_words}

-- The places of a run lie in the frame.
abbrev pub Placed : List (ℕ × ℕ) → Type 0
Placed [] = Unit
Placed ((r, slot) ∷ rest) = (slot < frame_words) × Placed rest

-- The runs with the frame as a map from places.
abbrev pub slots : List (ℕ × ℕ) → (ℕ → ℕ) → (ℕ → ℕ) → ℕ → ℕ
slots [] x f = f
slots ((r, slot) ∷ rest) x f = slots rest x (put f slot (x r))

abbrev pub loads : List (ℕ × ℕ) → (ℕ → ℕ) → (ℕ → ℕ) → ℕ → ℕ
loads [] f x = x
loads ((r, slot) ∷ rest) f x = loads rest f (put x r (f slot))

-- The words of the frame at `base` are those of `f`.
abbrev pub IsFrame : ℕ → (ℕ → ℕ) → (ℕ → ℕ) → Type 0
IsFrame base word f = (i : ℕ) → i < frame_words → word (slot_address base i) ≡ f i

module _ (base : ℕ) (fits : base + 8 * frame_words ≤ 2 ^ 64) where
  pub put-IsFrame :
      (word f : ℕ → ℕ) (slot v : ℕ)
      → slot < frame_words
      → IsFrame base word f
      → IsFrame base (put word (slot_address base slot) v) (put f slot v)
  put-IsFrame word f slot v h frame i below = let e = frame i below in ground arith

  pub sd_all-IsFrame :
      (table : List (ℕ × ℕ)) (x word f : ℕ → ℕ)
      → Placed table
      → IsFrame base word f
      → IsFrame base (sd_all table base x word) (slots table x f)
  unfolding sd_all
  sd_all-IsFrame [] x word f h frame = frame
  sd_all-IsFrame ((r, slot) ∷ rest) x word f h frame =
      sd_all-IsFrame rest x (put word (slot_address base slot) (x r)) (put f slot (x r)) h.1
        (put-IsFrame word f slot (x r) h.0 frame)

  pub ld_all-IsFrame :
      (table : List (ℕ × ℕ)) (x word f : ℕ → ℕ)
      → Placed table
      → IsFrame base word f
      → ld_all table base word x ≡ loads table f x
  unfolding ld_all
  ld_all-IsFrame [] x word f h frame = refl
  ld_all-IsFrame ((r, slot) ∷ rest) x word f h frame =
      ld_all-IsFrame rest (put x r (word (slot_address base slot))) word f h.1 frame
      ∙ ap (λ v. loads rest f (put x r v)) (frame slot h.0)
