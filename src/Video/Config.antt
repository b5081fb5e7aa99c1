-- ===== src/Video/Config.antt =====
-- What `video_init` of ex52/video.c sends, for a device that answers from a directory of files.
use osc_2026_exercise.Base.{
  ℕ, zero, suc, ◌+◌, ◌-◌, ◌<◌, ◌≤◌, ◌≡◌, ◌≢◌, ◌^◌, bit_and, bit_or, ◌*◌, ◌%◌, ap, subst, ◌⊎◌, inl,
  inr, refl, ◌∙◌, arith, Option, none, some, List, [], ◌∷◌, ◌++◌, true, false, ◌==◌, if◌then◌else◌,
  Bool-cases, length,
}
use osc_2026_exercise.Memory.{Memory, Holds, Holds-agree}
use osc_2026_exercise.Text.{IsString, ◌=s◌}
use osc_2026_exercise.Fdt.Main.{bswap64}
use osc_2026_exercise.Mmio.{Device, Bus, Answers}
use osc_2026_exercise.Uart.{uart_lsr, lsr_tdrq}
use osc_2026_exercise.Uart.Puts.{sent, uart_puts-Writes}
use osc_2026_exercise.Uart.Ex52.{uart_base}
use mathlib.Core.List.{append-nil}
use osc_2026_exercise.Video.Stored.{
  Apart, strncmp-Holds, store_all-outside, store_all-Holds, stored-Holds,
}
use osc_2026_exercise.Video.{
  from_option, access_bytes, wait_loop, fw_cfg_dma_transfer, DmaAccess, entry_control, entry_number,
  ctl_read, ctl_write, file_dir, file_size, ramfb_cfg, word_at, big_endian, store_all, find_loop,
  fw_cfg_find_file, video_init,
}

-- A file of the directory: its number and its name.
pub record ConfigFile : Type 0 where
  pub select : ℕ
  pub name : List ℕ

-- The first file with a name.
abbrev pub find_file : List ℕ → List ConfigFile → Option ℕ
find_file name [] = none
find_file name (f ∷ fs) = if name =s f.name then some f.select else find_file name fs

-- "etc/ramfb"
abbrev pub ramfb_name : List ℕ
ramfb_name = b'e' ∷ b't' ∷ b'c' ∷ b'/' ∷ b'r' ∷ b'a' ∷ b'm' ∷ b'f' ∷ b'b' ∷ []

ramfb_name-IsString : IsString ramfb_name
ramfb_name-IsString = omega arith

-- `struct FWCfgDmaAccess` as the device takes it: the high byte first.
abbrev pub request : (control length address : ℕ) → List ℕ
request control length address =
    big_endian 4 control ++ (big_endian 4 length ++ big_endian 8 address)

-- The frame buffer at 0x87000000, "XR24", no flags, 1920 by 1080 pixels, rows of 7680 bytes.
abbrev pub configuration : List ℕ
configuration =
    0 ∷ 0 ∷ 0 ∷ 0 ∷ 0x87 ∷ 0 ∷ 0 ∷ 0 ∷ b'4' ∷ b'2' ∷ b'R' ∷ b'X' ∷ 0 ∷ 0 ∷ 0 ∷ 0 ∷ 0 ∷ 0 ∷ 0x07
    ∷ 0x80 ∷ 0 ∷ 0 ∷ 0x04 ∷ 0x38 ∷ 0 ∷ 0 ∷ 0x1e ∷ 0 ∷ []

-- The key that is selected: 0xffff where there is no file.
abbrev pub key : Option ℕ → ℕ
key none = 0xffff
key (some e) = e

-- What is printed where the file is found.
abbrev pub find_text : Option ℕ → List ℕ
find_text none = []
find_text (some e) = b'f' ∷ b'i' ∷ b'n' ∷ b'd' ∷ b'\r' ∷ b'\n' ∷ []

module _ {D : Type 0} (dma : (register : ℕ) → D → Memory → D × Memory)
    (step : D → Memory → D × Memory) (access wait cfg name count_at file : ℕ) where
  -- The structure and the name stay as they are.
  abbrev pub Spares : Memory → Memory → Type 0
  Spares m m' = (q : ℕ) → ((cfg ≤ q) × (q < cfg + 28)) ⊎ ((name ≤ q) × (q < name + 10)) → m' q ≡ m q

  pub record HasFile (m : Memory) (f : ConfigFile) : Type 0 where
    pub has_select : word_at m 2 (file + 4) ≡ f.select
    pub has_name : Holds m (file + 8) (f.name ++ 0 ∷ [])
    pub is_name : IsString f.name
    pub is_key : f.select < 2 ^ 16

  -- The control word is clear, but for the error bit, after so many steps of the device.
  abbrev pub Polls : ℕ → D → Memory → D → Memory → Type 0
  Polls zero d m d' m' = (bit_and (word_at m 4 access) (2 ^ 32 - 2) ≡ 0) × (d ≡ d') × (m ≡ m')
  Polls (suc n) d m d' m' =
      (bit_and (word_at m 4 access) (2 ^ 32 - 2) ≢ 0) × Polls n (step d m).0 (step d m).1 d' m'

  -- The device is told of the structure and is done before the looks run out.
  abbrev pub Transfers : D → Memory → D → Memory → Type 0
  Transfers d m d' m' =
      (n : ℕ) × (n < wait) × Polls n (dma (bswap64 access) d m).0 (dma (bswap64 access) d m).1 d' m'

  -- The device hands out the files one by one, for requests to read 64 bytes.
  abbrev pub Serves : D → List ConfigFile → Type 0
  Serves d [] = Unit
  Serves d (f ∷ fs) =
      (m : Memory)
      → Holds m access (request 0x2 64 file)
      → (d' : D) × (m' : Memory) × Transfers d m d' m' × HasFile m' f × Spares m m' × Serves d' fs

  -- It starts with the number of files when the directory, the key 0x19, is selected.
  abbrev pub ServesDirectory : D → List ConfigFile → Type 0
  ServesDirectory d fs =
      (m : Memory)
      → Holds m access (request 0x19000a 4 count_at)
      → (d' : D) × (m' : Memory) × Transfers d m d' m'
        × (word_at m' 4 count_at ≡ length fs)
        × Spares m m'
        × Serves d' fs

  wait_loop-Polls :
      (n fuel : ℕ) (d d' : D) (m m' : Memory)
      → Polls n d m d' m'
      → n < fuel
      → wait_loop dma step access fuel d m ≡ some (d', m')
  unfolding wait_loop
  wait_loop-Polls n zero d d' m m' h enough = absurd (omega arith)
  wait_loop-Polls zero (suc fuel) d d' m m' (clear, same, same') enough =
      let e : (bit_and (word_at m 4 access) (2 ^ 32 - 2) == 0) ≡ true = ground arith in
      rw (e, same, same') refl
  wait_loop-Polls (suc n) (suc fuel) d d' m m' (busy, later) enough =
      let e : (bit_and (word_at m 4 access) (2 ^ 32 - 2) == 0) ≡ false = ground arith in
      rw e (wait_loop-Polls n fuel (step d m).0 d' (step d m).1 m' later (omega arith))

  transfer-Transfers :
      (a : DmaAccess) (d d' : D) (m m' : Memory)
      → Transfers d (store_all m access (access_bytes a)) d' m'
      → fw_cfg_dma_transfer dma step access wait a d m ≡ some (d', m')
  unfolding fw_cfg_dma_transfer
  transfer-Transfers a d d' m m' (n, enough, polls) =
      wait_loop-Polls n wait (dma (bswap64 access) d (store_all m access (access_bytes a))).0 d'
        (dma (bswap64 access) d (store_all m access (access_bytes a))).1 m' polls enough

  module _ (apart_cfg : Apart access 16 cfg 28) (apart_name : Apart access 16 name 10) where
    -- Filling the structure of a transfer leaves the others alone.
    filled-Spares : (a : DmaAccess) (m : Memory) → Spares m (store_all m access (access_bytes a))
    filled-Spares a m q (inl inside) =
        store_all-outside (access_bytes a) m access q
          (elim apart_cfg [ inl before ↦ inr (omega arith) | inr behind ↦ inl (omega arith) ])
    filled-Spares a m q (inr inside) =
        store_all-outside (access_bytes a) m access q
          (elim apart_name [ inl before ↦ inr (omega arith) | inr behind ↦ inl (omega arith) ])

    keeps_name :
        (m m' : Memory)
        → Spares m m'
        → Holds m name (ramfb_name ++ 0 ∷ [])
        → Holds m' name (ramfb_name ++ 0 ∷ [])
    keeps_name m m' spares =
        Holds-agree m m' name (ramfb_name ++ 0 ∷ []) (λ q low high. spares q (inr (low, high)))

    module _ (uart : Device) (rounds : ℕ)
        (answers : Answers uart rounds (uart_lsr uart_base) lsr_tdrq) where
      find_loop-Serves :
          (fs : List ConfigFile) (d : D) (m : Memory) (s : Bus)
          → Serves d fs
          → Holds m name (ramfb_name ++ 0 ∷ [])
          → (d' : D) × (m' : Memory) × (r : ℕ) × (find_loop dma step access wait uart rounds
                (length fs)
                name
                file
                d
                m
                s
              ≡ some (
                (d', m', find_file ramfb_name fs),
                record {
                  reads = r;
                  writes = s.writes ++ sent uart_base (find_text (find_file ramfb_name fs));
                },
              ))
            × Spares m m'
            × (key (find_file ramfb_name fs) < 2 ^ 16)
      unfolding find_loop
      find_loop-Serves [] d m s serves named =
          (d, m, s.reads, rw append-nil refl, (λ q inside. refl), omega arith)
      find_loop-Serves (f ∷ fs) d m s serves named =
          let a : DmaAccess = record { control = ctl_read; length = file_size; address = file } in
          let filled = store_all m access (access_bytes a) in
          let (d1, m1, transfers, has, spares1, later) =
            serves filled (store_all-Holds (access_bytes a) m access) in
          let ran = transfer-Transfers a d d1 m m1 transfers in
          let spares : Spares m m1 = λ q inside. spares1 q inside ∙ filled-Spares a m q inside in
          let named1 = keeps_name m m1 spares named in
          let test =
            strncmp-Holds m1 ramfb_name f.name 56 name (file + 8) named1 has.has_name
              ramfb_name-IsString has.is_name (omega arith) in
          elim (Bool-cases (ramfb_name =s f.name)) [
            | inl same ↦
                let (r, printed) =
                  uart_puts-Writes uart uart_base rounds answers
                    (b'f' ∷ b'i' ∷ b'n' ∷ b'd' ∷ b'\n' ∷ []) (omega arith) s in
                let small = has.is_key in
                (
                  d1,
                  m1,
                  r,
                  rw (ran, test, same, printed, has.has_select) refl,
                  spares,
                  rw same small,
                )
            | inr other ↦
                let (d2, m2, r, ran', spares', small) = find_loop-Serves fs d1 m1 s later named1 in
                (
                  d2,
                  m2,
                  r,
                  rw (ran, test, other) ran',
                  (λ q inside. spares' q inside ∙ spares q inside),
                  rw other small,
                )
          ]

      -- The request to write the configuration.
      abbrev pub write_request : Option ℕ → List ℕ
      write_request found = request (bit_or (bit_or (key found * 2 ^ 16) 0x08) 0x10) 28 cfg

      entry_control-key :
          (found : Option ℕ)
          → key found < 2 ^ 16
          → access_bytes (record {
            control = entry_control (entry_number found) ctl_write;
            length = 28;
            address = cfg;
          })
            ≡ write_request found
      entry_control-key none small = refl
      entry_control-key (some e) small =
          let word : e * 2 ^ 16 % 2 ^ 32 ≡ e * 2 ^ 16 = omega arith in
          ap (λ (w : ℕ). request (bit_or (bit_or w 0x08) 0x10) 28 cfg) word

      -- The structure `cfg`, the count, the name "etc/ramfb" and the structure of the transfers
      -- are apart in memory. The device gives the number of files when the directory is selected
      -- and then hands them out one by one; each time it clears the control word before the
      -- looks of the loop run out, and what it writes spares the structure and the name. The
      -- numbers of the files are below 2 ^ 16. With a console that answers, `video_init` then
      -- comes to its last transfer: the device is told of a request to write 28 bytes from
      -- `cfg`, where the configuration of the frame buffer is, to the number of the first file
      -- with that name, or to 0xffff where there is none. It has printed "find" if there is one.
      pub video_init-ServesDirectory :
          (fs : List ConfigFile) (d : D) (m : Memory) (s : Bus)
          → ServesDirectory d fs
          → Holds m name (ramfb_name ++ 0 ∷ [])
          → Apart cfg 28 name 10
          → Apart count_at 4 cfg 28
          → Apart count_at 4 name 10
          → (d' : D) × (m' : Memory) × (r : ℕ) × (video_init dma step access wait uart rounds cfg
                name count_at file d m s
              ≡ from_option
                  (wait_loop dma step access wait
                    (dma (bswap64 access) d' m').0
                    (dma (bswap64 access) d' m').1)
                  (record {
                    reads = r;
                    writes = s.writes ++ sent uart_base (find_text (find_file ramfb_name fs));
                  }))
            × Holds m' access (write_request (find_file ramfb_name fs))
            × Holds m' cfg configuration
      unfolding video_init fw_cfg_find_file fw_cfg_dma_transfer
      video_init-ServesDirectory fs d m s serves named apart1 apart2 apart3 =
          let m0 = store_all m cfg ramfb_cfg in
          let m1 = store_all m0 count_at (big_endian 4 0) in
          let a : DmaAccess = record {
            control = entry_control file_dir ctl_read;
            length = 4;
            address = count_at;
          } in
          let m2 = store_all m1 access (access_bytes a) in
          let has : Holds m1 cfg configuration =
            stored-Holds (big_endian 4 0) configuration m0 count_at cfg apart2
              (store_all-Holds ramfb_cfg m cfg) in
          let named1 : Holds m1 name (ramfb_name ++ 0 ∷ []) =
            stored-Holds (big_endian 4 0) (ramfb_name ++ 0 ∷ []) m0 count_at name apart3
              (stored-Holds ramfb_cfg (ramfb_name ++ 0 ∷ []) m cfg name apart1 named) in
          let (d3, m3, transfers, number, spares3, later) =
            serves m2 (store_all-Holds (access_bytes a) m1 access) in
          let ran = transfer-Transfers a d d3 m1 m3 transfers in
          let spares : Spares m1 m3 = λ q inside. spares3 q inside ∙ filled-Spares a m1 q inside in
          let (d4, m4, r, ran', spares4, small) =
            find_loop-Serves fs d3 m3 s later (keeps_name m1 m3 spares named1) in
          let found = find_file ramfb_name fs in
          let b : DmaAccess = record {
            control = entry_control (entry_number found) ctl_write;
            length = 28;
            address = cfg;
          } in
          let m5 = store_all m4 access (access_bytes b) in
          let kept : Spares m1 m5 =
            λ q inside. filled-Spares b m4 q inside ∙ spares4 q inside ∙ spares q inside in
          (
            d4,
            m5,
            r,
            rw (ran, number, ran') refl,
            subst (λ bs. Holds m5 access bs) (entry_control-key found small)
                (store_all-Holds (access_bytes b) m4 access),
            Holds-agree m1 m5 cfg configuration (λ q low high. kept q (inl (low, high))) has,
          )
