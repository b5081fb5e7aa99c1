-- ===== src/Sbi.antt =====
-- The calls of the supervisor binary interface in ex12/main.c. The firmware is a parameter: what
-- `ecall` leaves in the registers `a0` and `a1`, by the eight registers of the call.
pub mod Start
use osc_2026_exercise.Base.{ℕ, ◌+◌, ◌-◌, ◌*◌, ◌/◌, ◌%◌, ◌^◌, List, [], ◌∷◌}
use osc_2026_exercise.Bits.{sign_extended}
use osc_2026_exercise.Mmio.{Device, Io}
use osc_2026_exercise.Uart.Report.{Print, puts, hex, report}

abbrev pub sbi_ext_set_timer : ℕ
sbi_ext_set_timer = 0x0

abbrev pub sbi_ext_shutdown : ℕ
sbi_ext_shutdown = 0x8

abbrev pub sbi_ext_base : ℕ
sbi_ext_base = 0x10

pub data SbiExtBaseFid : Type 0 where
  get_spec_version get_imp_id get_imp_version probe_ext get_mvendorid get_marchid get_mimpid :
      SbiExtBaseFid

-- The value of the enumeration constant.
abbrev pub fid_number : SbiExtBaseFid → ℕ
fid_number get_spec_version = 0
fid_number get_imp_id = 1
fid_number get_imp_version = 2
fid_number probe_ext = 3
fid_number get_mvendorid = 4
fid_number get_marchid = 5
fid_number get_mimpid = 6

pub record SbiRet : Type 0 where
  pub error : ℕ
  pub value : ℕ

-- The registers `a0` to `a7` at the call.
pub record Arguments : Type 0 where
  pub a0 : ℕ
  pub a1 : ℕ
  pub a2 : ℕ
  pub a3 : ℕ
  pub a4 : ℕ
  pub a5 : ℕ
  pub a6 : ℕ
  pub a7 : ℕ

module _ (firmware : Arguments → ℕ × ℕ) where
  unfoldable pub sbi_ecall : (ext fid arg0 arg1 arg2 arg3 arg4 arg5 : ℕ) → SbiRet
  sbi_ecall ext fid arg0 arg1 arg2 arg3 arg4 arg5 =
      let (x0, x1) = firmware (record {
        a0 = arg0;
        a1 = arg1;
        a2 = arg2;
        a3 = arg3;
        a4 = arg4;
        a5 = arg5;
        a6 = sign_extended fid;
        a7 = sign_extended ext;
      }) in
      record { error = x0; value = x1 }

  unfoldable pub sbi_get_spec_version : ℕ
  sbi_get_spec_version = (sbi_ecall 0x10 0 0 0 0 0 0 0).value

  unfoldable pub sbi_probe_extension : ℕ → ℕ
  sbi_probe_extension extid = (sbi_ecall 0x10 3 (sign_extended extid) 0 0 0 0 0).value

  -- The output of `start_kernel`.
  abbrev pub messages : List Print
  messages =
      puts (
        b'\n' ∷ b'S' ∷ b't' ∷ b'a' ∷ b'r' ∷ b't' ∷ b'i' ∷ b'n' ∷ b'g' ∷ b' ' ∷ b'k' ∷ b'e' ∷ b'r'
        ∷ b'n' ∷ b'e' ∷ b'l' ∷ b' ' ∷ b'.' ∷ b'.' ∷ b'.' ∷ b'\n' ∷ [])
      ∷ puts (
          b'S' ∷ b'B' ∷ b'I' ∷ b' ' ∷ b's' ∷ b'p' ∷ b'e' ∷ b'c' ∷ b'i' ∷ b'f' ∷ b'i' ∷ b'c' ∷ b'a'
          ∷ b't' ∷ b'i' ∷ b'o' ∷ b'n' ∷ b' ' ∷ b'v' ∷ b'e' ∷ b'r' ∷ b's' ∷ b'i' ∷ b'o' ∷ b'n' ∷ b':'
          ∷ b' ' ∷ [])
      ∷ hex sbi_get_spec_version
      ∷ puts (b'\n' ∷ [])
      ∷ puts (
          b'P' ∷ b'r' ∷ b'o' ∷ b'b' ∷ b'e' ∷ b' ' ∷ b'S' ∷ b'e' ∷ b't' ∷ b' ' ∷ b'T' ∷ b'i' ∷ b'm'
          ∷ b'e' ∷ b'r' ∷ b':' ∷ b' ' ∷ [])
      ∷ hex (sbi_probe_extension sbi_ext_set_timer)
      ∷ puts (b'\n' ∷ [])
      ∷ puts (
          b'P' ∷ b'r' ∷ b'o' ∷ b'b' ∷ b'e' ∷ b' ' ∷ b'S' ∷ b'h' ∷ b'u' ∷ b't' ∷ b'd' ∷ b'o' ∷ b'w'
          ∷ b'n' ∷ b':' ∷ b' ' ∷ b' ' ∷ [])
      ∷ hex (sbi_probe_extension sbi_ext_shutdown)
      ∷ puts (b'\n' ∷ [])
      ∷ []

  -- `start_kernel` before its loop.
  unfoldable pub start_kernel : Device → (base rounds : ℕ) → Io (Unit {0})
  start_kernel dev base rounds = report dev base rounds messages
