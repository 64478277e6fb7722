-- ===== src/Exe.antt =====
-- The header of an executable in loader/bios.h, and `exe_file_okay` of loader/secondary.c. A pointer is a
-- 32-bit address.
pub mod Segments
use tonyhax.Base.{
  ℕ, bit_and, Bool, true, false, not, ◌&&◌, ◌||◌, [], ◌∷◌, ◌==◌, if◌then◌else◌, Bytes, codes,
}
use tonyhax.Libc.{strncmp_zero}
use tonyhax.Machine.{Machine, Outcome, done, waits, fault, M, pure, ◌>>=◌, ◌>>◌}
use tonyhax.Debugscreen.{debug_write}

-- Without the reserved words.
pub record ExeOffsets : Type 0 where
  pub initial_pc : ℕ
  pub initial_gp : ℕ
  pub load_addr : ℕ
  pub load_size : ℕ
  pub memfill_start : ℕ
  pub memfill_size : ℕ
  pub initial_sp_base : ℕ
  pub initial_sp_offset : ℕ

pub record ExeHeader : Type 0 where
  pub signature : Bytes
  pub offsets : ExeOffsets

-- `masked` is none of the three segments' bases.
abbrev pub outside : ℕ → Bool
outside masked =
    not (masked == 0x00000000) && not (masked == 0x80000000) && not (masked == 0xA0000000)

warn_signature : ExeHeader → M (Unit {0})
warn_signature header =
    if not (strncmp_zero (header.signature) (codes "PS-X EXE") 8)
    then debug_write (codes "Warning: header has invalid signature") []
    else pure tt

check_pc : ExeHeader → M Bool
check_pc header =
    if outside (bit_and (header.offsets.initial_pc) 0xFF800003)
    then (do debug_write (codes "Error: header has an invalid start address") []; pure false)
    else pure true

check_addresses : ExeHeader → M Bool
check_addresses header =
    if outside (bit_and (header.offsets.load_addr) 0xFF800000)
    then (do debug_write (codes "Error: header has an invalid load address") []; pure false)
    else check_pc header

unfoldable pub exe_file_okay : ExeHeader → M Bool
unfolding warn_signature check_addresses check_pc
exe_file_okay header = do warn_signature header; check_addresses header
