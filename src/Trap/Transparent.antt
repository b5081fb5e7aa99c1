-- ===== src/Trap/Transparent.antt =====
-- A trap is invisible to the program that it interrupts: the registers come back through the
-- frame of ex41/start.S whatever the C function in between leaves in them.
use osc_2026_exercise.Base.{
  ℕ, ◌+◌, ◌-◌, ◌*◌, ◌%◌, ◌^◌, ◌<◌, ◌≤◌, ◌≡◌, ◌≢◌, ◌⊎◌, refl, ap, ◌∙◌, List, [], ◌∷◌, ◌++◌, map,
  arith, some, true, false, inl, inr, sym, bit_and, ◌==◌, if◌then◌else◌, ltb,
}
use osc_2026_exercise.Mmio.{Io, Bus}
use osc_2026_exercise.Sched.{put}
use osc_2026_exercise.Trap.{
  Hart, slot_address, sd_all, ld_all, frame_words, swap_stack, save_context, ret_from_exception,
  call, handle_exception, saved_registers, saved_controls, sp, s0, s1, s2, s3, s4,
}
use osc_2026_exercise.Trap.Frame.{IsFrame, slots, loads, sd_all-IsFrame, ld_all-IsFrame}

-- What the C function promises for every frame that does not wrap: it returns, leaves the frame
-- as it was but for the place of `sepc`, and writes to the device what the trap registers and
-- the device's answers say. `counts` is what it says of the number of reads.
abbrev pub Resumes :
    (ℕ → (ℕ → ℕ) → Io (ℕ → ℕ))
    → (ℕ → ℕ)
    → (ℕ → ℕ → ℕ → ℕ → List (ℕ × ℕ))
    → (Bus → ℕ → ℕ → ℕ → ℕ → Type 0)
    → Type 0
Resumes do_trap after output counts =
    (base : ℕ)
    → base + 8 * frame_words ≤ 2 ^ 64
    → (word f : ℕ → ℕ) → IsFrame base word f
    → (s : Bus)
    → (word' : ℕ → ℕ) × (r : ℕ) × (do_trap base word s
        ≡ some
            (word', record { reads = r; writes = s.writes ++ output s.reads (f 31) (f 33) (f 34) }))
      × IsFrame base word' (put f 31 (after (f 31)))
      × counts s (f 31) (f 33) (f 34) r

-- The registers that a program sees.
abbrev pub registers : List ℕ
registers =
    1 ∷ 2 ∷ 3 ∷ 4 ∷ 5 ∷ 6 ∷ 7 ∷ 8 ∷ 9 ∷ 10 ∷ 11 ∷ 12 ∷ 13 ∷ 14 ∷ 15 ∷ 16 ∷ 17 ∷ 18 ∷ 19 ∷ 20 ∷ 21
    ∷ 22 ∷ 23 ∷ 24 ∷ 25 ∷ 26 ∷ 27 ∷ 28 ∷ 29 ∷ 30 ∷ 31 ∷ []

-- The frame that entry leaves, from the stack pointer `old` of the program.
abbrev saved_frame : Hart → ℕ → ℕ
saved_frame h =
    let lowered = put h.x sp ((h.x sp + 2 ^ 64 - 8 * frame_words) % 2 ^ 64) in
    let x1 =
      put (put (put (put (put lowered s0 h.sscratch) s1 h.sepc) s2 h.sstatus) s3 h.scause) s4
        h.stval in
    slots saved_controls x1
      (slots saved_registers lowered (λ i. h.word (slot_address (lowered sp) i)))

save_context-IsFrame :
    (h : Hart)
    → 8 * frame_words ≤ h.x sp
    → h.x sp < 2 ^ 64
    → IsFrame ((save_context h).x sp) ((save_context h).word) (saved_frame h)
unfolding save_context
save_context-IsFrame h room word64 =
    let base = (h.x sp + 2 ^ 64 - 8 * frame_words) % 2 ^ 64 in
    let fits : base + 8 * frame_words ≤ 2 ^ 64 = omega arith in
    let lowered = put h.x sp base in
    let x1 =
      put (put (put (put (put lowered s0 h.sscratch) s1 h.sepc) s2 h.sstatus) s3 h.scause) s4
        h.stval in
    let f0 = λ (i : ℕ). h.word (slot_address base i) in
    let word1 = sd_all saved_registers base lowered h.word in
    let first =
      sd_all-IsFrame base fits saved_registers lowered h.word f0 (omega arith) (λ i below. refl) in
    sd_all-IsFrame base fits saved_controls x1 word1 (slots saved_registers lowered f0)
      (omega arith) first

-- The first two words that the exit loads, and the tables of its loads, one behind another.
abbrev controls : List (ℕ × ℕ)
controls = (s1, 31) ∷ (s2, 32) ∷ []

abbrev stack : List (ℕ × ℕ)
stack = (sp, 1) ∷ []

module _ (base : ℕ) (fits : base + 8 * frame_words ≤ 2 ^ 64) (word f : ℕ → ℕ)
    (frame : IsFrame base word f) (x : ℕ → ℕ) where
  controls-loaded : ld_all controls base word x ≡ loads controls f x
  controls-loaded = ld_all-IsFrame base fits controls x word f (omega arith) frame

  all-loaded :
      ld_all stack base word (ld_all saved_registers base word (ld_all controls base word x))
      ≡ loads stack f (loads saved_registers f (loads controls f x))
  all-loaded =
      let x2 = ld_all controls base word x in
      let x3 = ld_all saved_registers base word x2 in
      ld_all-IsFrame base fits stack x3 word f (omega arith) frame
      ∙ ap (loads stack f) (
          ld_all-IsFrame base fits saved_registers x2 word f (omega arith) frame
          ∙ ap (loads saved_registers f) controls-loaded)

-- What a hart is after the exit, over a frame at its stack pointer.
ret_from_exception_lem :
    (h : Hart) (f : ℕ → ℕ)
    → h.x sp + 8 * frame_words ≤ 2 ^ 64
    → IsFrame (h.x sp) h.word f
    → let h' = ret_from_exception h in
      (map h'.x registers
        ≡ f 0
          ∷ f 1
          ∷ f 2
          ∷ f 3
          ∷ f 4
          ∷ f 5
          ∷ f 6
          ∷ f 7
          ∷ f 8
          ∷ f 9
          ∷ f 10
          ∷ f 11
          ∷ f 12
          ∷ f 13
          ∷ f 14
          ∷ f 15
          ∷ f 16
          ∷ f 17
          ∷ f 18
          ∷ f 19
          ∷ f 20
          ∷ f 21
          ∷ f 22
          ∷ f 23
          ∷ f 24
          ∷ f 25
          ∷ f 26
          ∷ f 27
          ∷ f 28
          ∷ f 29
          ∷ f 30
          ∷ [])
      × (h'.pc ≡ f 31)
      × (h'.sstatus ≡ f 32)
      × (h'.sscratch ≡ (
          if bit_and (f 32) (2 ^ 8) == 0 then (h.x sp + 8 * frame_words) % 2 ^ 64 else h.sscratch))
unfolding ret_from_exception
ret_from_exception_lem h f fits frame =
    let base = h.x sp in
    let status = bit_and (h.word (slot_address base 32)) (2 ^ 8) in
    let x1 = put h.x s0 (if status == 0 then (base + 8 * frame_words) % 2 ^ 64 else status) in
    let two = controls-loaded base fits h.word f frame x1 in
    (
      ap (λ (x : ℕ → ℕ). map x registers) (all-loaded base fits h.word f frame x1),
      ap (λ (x : ℕ → ℕ). x s1) two,
      ap (λ (x : ℕ → ℕ). x s2) two,
      ap
          (λ (v : ℕ).
            if bit_and v (2 ^ 8) == 0 then (base + 8 * frame_words) % 2 ^ 64 else h.sscratch)
          (frame 32 (omega arith)),
    )

-- The state of a hart in which the entry finds a stack: a trap from the program, with the kernel
-- stack in `sscratch`, or one from the kernel itself, with 0 there.
abbrev pub FromUser : Hart → Type 0
FromUser h =
    (8 * frame_words ≤ h.sscratch) × (h.sscratch < 2 ^ 64) × (bit_and h.sstatus (2 ^ 8) ≡ 0)

abbrev pub FromKernel : Hart → Type 0
FromKernel h =
    (8 * frame_words ≤ h.x sp)
    × (h.x sp < 2 ^ 64)
    × (h.sscratch ≡ 0)
    × (bit_and h.sstatus (2 ^ 8) ≢ 0)

-- Two harts that a program cannot tell apart, but for where it goes on.
abbrev pub SameProgram : Hart → Hart → Type 0
SameProgram h h' =
    (map h'.x registers ≡ map h.x registers) × (h'.sscratch ≡ h.sscratch) × (h'.sstatus ≡ h.sstatus)

module _ (after_call below : ℕ → ℕ) (do_trap : ℕ → (ℕ → ℕ) → Io (ℕ → ℕ)) (after : ℕ → ℕ)
    (output : ℕ → ℕ → ℕ → ℕ → List (ℕ × ℕ)) (counts : Bus → ℕ → ℕ → ℕ → ℕ → Type 0)
    (resumes : Resumes do_trap after output counts) where
  -- From a hart whose stack pointer is the top of the frame, and with the program's in `sscratch`.
  through_frame :
      (h : Hart) (s : Bus)
      → 8 * frame_words ≤ h.x sp
      → h.x sp < 2 ^ 64
      → (h' : Hart) × (r : ℕ) × (call after_call below do_trap (save_context h) s
          ≡ some (
            h',
            record { reads = r; writes = s.writes ++ output s.reads h.sepc h.scause h.stval },
          ))
        × (map (ret_from_exception h').x registers ≡ map (put h.x sp h.sscratch) registers)
        × ((ret_from_exception h').pc ≡ after h.sepc)
        × ((ret_from_exception h').sstatus ≡ h.sstatus)
        × ((ret_from_exception h').sscratch
            ≡ (if bit_and h.sstatus (2 ^ 8) == 0 then h.x sp else 0))
        × counts s h.sepc h.scause h.stval r
  unfolding call save_context
  through_frame h s room word64 =
      let base = (h.x sp + 2 ^ 64 - 8 * frame_words) % 2 ^ 64 in
      let fits : base + 8 * frame_words ≤ 2 ^ 64 = omega arith in
      let (word', r, ran, frame, counted) =
        resumes base fits (save_context h).word (saved_frame h) (save_context-IsFrame h room word64)
          s in
      let h' : Hart = record (save_context h) {
        x = put after_call sp base;
        word = λ a. if ltb a base then below a else word' a;
      } in
      let g : ℕ → ℕ = put (saved_frame h) 31 (after h.sepc) in
      let frame' : IsFrame base h'.word g = λ i small. let e = frame i small in ground arith in
      let (xs, at, status, scratch) = ret_from_exception_lem h' g fits frame' in
      let top : (base + 8 * frame_words) % 2 ^ 64 ≡ h.x sp = omega arith in
      let back = scratch ∙ ap (λ (v : ℕ). if bit_and h.sstatus (2 ^ 8) == 0 then v else 0) top in
      (h', r, rw ran refl, xs, at, status, back, counted)

  -- A trap from a user program, `sscratch` holding a kernel stack with room for a frame, and a
  -- trap from the kernel on such a stack, `sscratch` being 0, each end in `sret` if the C function
  -- keeps its promise for the frame: what it leaves in its registers and below its stack
  -- pointer does not matter, every register of the interrupted program, `sscratch` and
  -- `sstatus` are as they were, and the program goes on where the function left `sepc`.
  pub handle_exception-SameProgram :
      (h : Hart) (s : Bus)
      → FromUser h ⊎ FromKernel h
      → (h' : Hart) × (r : ℕ) × (handle_exception after_call below do_trap h s
          ≡ some (
            h',
            record { reads = r; writes = s.writes ++ output s.reads h.sepc h.scause h.stval },
          ))
        × SameProgram h h'
        × (h'.pc ≡ after h.sepc)
        × counts s h.sepc h.scause h.stval r
  unfolding handle_exception swap_stack
  handle_exception-SameProgram h s (inl (room, word64, user)) =
      let taken : (h.sscratch == 0) ≡ false = ground arith in
      let h1 : Hart = record h { x = put h.x sp h.sscratch; sscratch = h.x sp } in
      let (h2, r, ran, xs, at, status, scratch, counted) = through_frame h1 s room word64 in
      (
        ret_from_exception h2,
        r,
        rw (taken, ran) refl,
        (xs, rw user at scratch, status),
        at,
        counted,
      )
  handle_exception-SameProgram h s (inr (room, word64, zero_scratch, kernel)) =
      let fallen : (h.sscratch == 0) ≡ true = ground arith in
      let h1 : Hart = record h { x = put (put h.x sp h.sscratch) sp (h.x sp); sscratch = h.x sp } in
      let (h2, r, ran, xs, at, status, scratch, counted) = through_frame h1 s room word64 in
      let high : (bit_and h.sstatus (2 ^ 8) == 0) ≡ false = ground arith in
      (
        ret_from_exception h2,
        r,
        rw (fallen, ran) refl,
        (xs, (rw high at scratch) ∙ sym zero_scratch, status),
        at,
        counted,
      )
