-- ===== src/Boot.antt =====
-- `try_boot_cd` of loader/secondary.c. The BIOS calls are parameters, and an address in the console's
-- memory is a number of 32 bits.
pub mod Config
pub mod Disc
pub mod Header
pub mod Safe
pub mod Started
pub mod Starts
pub mod Boots
pub mod Lookup
pub mod Settled
pub mod Whole
use tonyhax.Base.{
  ℕ, suc, ◌+◌, ◌-◌, ◌*◌, ◌^◌, Bool, true, false, not, Option, none, some, [], ◌∷◌, ◌==◌, ltb, leb,
  if◌then◌else◌, u32, Bytes, codes, Memory, store8, load32, store32,
}
use tonyhax.Str.{bzero, int, text}
use tonyhax.Machine.{Machine, Outcome, done, waits, fault, M, pure, ◌>>=◌, ◌>>◌}
use tonyhax.Gpu.{gpu_is_pal}
use tonyhax.Debugscreen.{debug_write, debug_switch_standard}
use tonyhax.Cfgparse.{config_get_hex, config_get_string}
use tonyhax.Integrity.{ro_start}
use tonyhax.Rom.{bios_is_ps1, string_at}
use tonyhax.Unlock.{wait_lid_status}
use tonyhax.Exe.{ExeOffsets, ExeHeader, exe_file_okay}
use tonyhax.Patcher.{Blobs, Tables, patcher_apply}
use tonyhax.Bios.{
  Calls, get_mem, change_mem, default_tcb, default_evcb, default_stacktop, bios_restore_disc_error,
}

abbrev pub file_read_mode : ℕ
file_read_mode = 0x00000001

abbrev pub fileerr_not_found : ℕ
fileerr_not_found = 0x02

-- `BIOS_FCBS`
abbrev pub bios_fcbs : ℕ
bios_fcbs = 0x140

-- The BIOS calls for the disc, with results of type `int32_t` as their 32 bits. `load_and_execute`
-- gives `true` where the program has been started, and then C's function does not return.
pub record Files : Type 0 where
  pub cd_init : M Bool
  pub cd_read_sector : ℕ → ℕ → ℕ → M ℕ
  pub file_open : Bytes → ℕ → M ℕ
  pub file_read : ℕ → ℕ → ℕ → M ℕ
  pub file_close : ℕ → M (Unit {0})
  pub get_last_error : M ℕ
  pub load_and_execute : Bytes → ℕ → ℕ → M Bool
  pub flush_cache : M (Unit {0})
  pub todigit : ℕ → ℕ

-- How a call of `try_boot_cd` ends: it returns, or a program has been started by `LoadAndExecute`, or by
-- `DoExecute` with the `exe_offsets_t` at this address.
pub data Ending : Type 0 where
  returned : Ending
  by_bios : Bytes → Ending
  by_loader : ℕ → Ending

-- The sign of an `int32_t`.
abbrev pub is_negative : ℕ → Bool
is_negative n = leb 0x80000000 n

-- `game_region` and `game_is_pal`.
unfoldable pub game_region : ℕ → Bytes × Bool
game_region c =
    if c == b'E'
    then (codes "European", true)
    else if c == b'A'
    then (codes "American", false)
    else if c == b'I'
    then (codes "Japanese", false)
    else (codes "unknown", false)

-- The header at an address. Its `offsets` stand 16 bytes behind its start.
unfoldable pub header_at : ℕ → Memory → ExeHeader
header_at a mem = record {
  signature =
      mem a
      ∷ mem (a + 1)
      ∷ mem (a + 2)
      ∷ mem (a + 3)
      ∷ mem (a + 4)
      ∷ mem (a + 5)
      ∷ mem (a + 6)
      ∷ mem (a + 7)
      ∷ [];
  offsets = record {
    initial_pc = load32 mem (a + 0x10);
    initial_gp = load32 mem (a + 0x14);
    load_addr = load32 mem (a + 0x18);
    load_size = load32 mem (a + 0x1C);
    memfill_start = load32 mem (a + 0x28);
    memfill_size = load32 mem (a + 0x2C);
    initial_sp_base = load32 mem (a + 0x30);
    initial_sp_offset = load32 mem (a + 0x34);
  };
}

unfoldable pub cap_load_size : ℕ → ℕ → Memory → Memory
cap_load_size header actual_exe_size mem =
    if ltb actual_exe_size (load32 mem (header + 0x1C))
    then store32 (header + 0x1C) actual_exe_size mem
    else mem

-- The writes to the header, with the address of the file control block and the stack's top. The
-- subtraction on `uint32_t` wraps around.
unfoldable pub patch_header : ℕ → ℕ → ℕ → Memory → Memory
patch_header header exe_fcb stacktop mem =
    let patched = store32 (header + 0x34) 0 (store32 (header + 0x30) stacktop mem) in
    cap_load_size header (u32 (load32 patched (exe_fcb + 0x20) + (2 ^ 32 - 2048))) patched

-- `__RO_START__` is not behind the end of the executable; the addition wraps around.
unfoldable pub overlaps : ExeOffsets → Bool
overlaps o = leb ro_start (u32 (o.load_addr + o.load_size))

-- The header's `exe_offsets_t`.
abbrev pub offsets_at : ℕ → ℕ
offsets_at header = header + 0x10
