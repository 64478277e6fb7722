-- ===== src/Bios.antt =====
-- loader/bios.c: the reinitialisation of the kernel and the hook for disc errors. What the BIOS calls do is
-- a parameter; the variable `original_disc_error` is what `bios_reinitialize` returns.
pub mod Restore
pub mod Returns
use tonyhax.Base.{
  ℕ, ◌+◌, ◌*◌, Bool, false, ◌&&◌, ◌==◌, if◌then◌else◌, [], ◌∷◌, codes, Memory, load32, store32,
}
use tonyhax.Str.{bzero, int}
use tonyhax.Debugscreen.{debug_write}
use tonyhax.Machine.{Machine, Outcome, done, waits, fault, M, pure, ◌>>=◌, ◌>>◌}
use tonyhax.Gpu.{write_i_stat}
use tonyhax.Patcher.{a0_entry, parse_warmboot_jal}

abbrev pub default_evcb : ℕ
default_evcb = 0x10

abbrev pub default_tcb : ℕ
default_tcb = 0x4

abbrev pub default_stacktop : ℕ
default_stacktop = 0x801FFF00

-- The BIOS calls that loader/bios.h declares, a call of a function in the ROM by its address, the register
-- of the serial port at 0x1F802020, and the addresses of two functions of the loader.
pub record Calls : Type 0 where
  pub enter_critical_section : M (Unit {0})
  pub exit_critical_section : M (Unit {0})
  pub call_rom : ℕ → M (Unit {0})
  pub init_a0_b0_c0_vectors : M (Unit {0})
  pub adjust_a0_table : M (Unit {0})
  pub install_exception_handlers : M (Unit {0})
  pub set_default_exit_from_exception : M (Unit {0})
  pub install_devices : Bool → M (Unit {0})
  pub set_conf : ℕ → ℕ → ℕ → M (Unit {0})
  pub set_mem_size : ℕ → M (Unit {0})
  pub write_tty : ℕ → M (Unit {0})
  pub read_tty : M ℕ
  pub fake_enqueue_cd_intr : ℕ
  pub disc_error_handler : ℕ

abbrev pub get_mem : M Memory
get_mem m = done (m.mem) m

abbrev pub change_mem : (Memory → Memory) → M (Unit {0})
change_mem f m = done tt (record m { mem = f (m.mem) })

unfoldable pub logging_disc_error_handler : ℕ → ℕ → M (Unit {0})
logging_disc_error_handler type errorcode =
    debug_write (codes "Disc error type %c code %d") (int type ∷ int errorcode ∷ [])

-- The writes of `bios_inject_disc_error` and `bios_restore_disc_error`, the second with the value of
-- `original_disc_error`.
unfoldable pub bios_inject_disc_error : Calls → Memory → Memory
bios_inject_disc_error calls mem = store32 (a0_entry 0xA1) (calls.disc_error_handler) mem

unfoldable pub bios_restore_disc_error : ℕ → Memory → Memory
bios_restore_disc_error original_disc_error mem = store32 (a0_entry 0xA1) original_disc_error mem

module _ (calls : Calls) where
  unfoldable pub console_has_tty : M Bool
  console_has_tty = do
    calls.write_tty 0x55
    calls.write_tty 0xAA
    first ← calls.read_tty
    if first == 0x55 then (do second ← calls.read_tty; pure (second == 0xAA)) else pure false

  unfoldable pub bios_copy_relocated_kernel : M (Unit {0})
  bios_copy_relocated_kernel = do mem ← get_mem; calls.call_rom (parse_warmboot_jal 12 mem)

  unfoldable pub bios_copy_a0_table : M (Unit {0})
  bios_copy_a0_table = do mem ← get_mem; calls.call_rom (parse_warmboot_jal 14 mem)

  -- `SetConf` with the fake `EnqueueCdIntr` in the A table.
  unfoldable pub configure_kernel : M (Unit {0})
  configure_kernel = do
    mem ← get_mem
    change_mem (store32 (a0_entry 0xA2) (calls.fake_enqueue_cd_intr))
    calls.set_conf default_evcb default_tcb default_stacktop
    change_mem (store32 (a0_entry 0xA2) (load32 mem (a0_entry 0xA2)))

  unfoldable pub bios_reinitialize : M ℕ
  bios_reinitialize = do
    calls.enter_critical_section
    change_mem (bzero 0xA000E000 0x2000)
    bios_copy_relocated_kernel
    bios_copy_a0_table
    calls.init_a0_b0_c0_vectors
    calls.adjust_a0_table
    calls.install_exception_handlers
    calls.set_default_exit_from_exception
    write_i_stat 0
    change_mem (store32 0x1F801074 0)
    tty ← console_has_tty
    calls.install_devices tty
    configure_kernel
    calls.set_mem_size 8
    calls.exit_critical_section
    mem ← get_mem
    pure (load32 mem (a0_entry 0xA1))
