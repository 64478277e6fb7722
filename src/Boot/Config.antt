-- ===== src/Boot/Config.antt =====
-- SYSTEM.CNF in `try_boot_cd` of loader/secondary.c.
use tonyhax.Base.{
  ℕ, suc, ◌+◌, ◌*◌, not, Option, none, some, [], ◌∷◌, ◌==◌, if◌then◌else◌, Bytes, codes, store8,
  load32,
}
use tonyhax.Str.{int}
use tonyhax.Machine.{M, pure, ◌>>=◌, ◌>>◌}
use tonyhax.Debugscreen.{debug_write}
use tonyhax.Cfgparse.{config_get_hex, config_get_string}
use tonyhax.Rom.{string_at}
use tonyhax.Bios.{get_mem, change_mem, default_tcb, default_evcb, default_stacktop}
use tonyhax.Boot.{file_read_mode, fileerr_not_found, bios_fcbs, Files, is_negative}

-- The variables that SYSTEM.CNF sets.
pub record Settings : Type 0 where
  pub tcb : ℕ
  pub event : ℕ
  pub stacktop : ℕ
  pub bootfile : Bytes

unfoldable pub default_settings : Settings
default_settings = record {
  tcb = default_tcb;
  event = default_evcb;
  stacktop = default_stacktop;
  bootfile = codes "cdrom:PSX.EXE;1";
}

-- A variable that a failed lookup leaves alone.
abbrev pub or_else {ℓ} : {A : Type ℓ} → Option A → A → A
or_else none a = a
or_else (some b) a = b

module _ (files : Files) where
  unfoldable pub parse_settings : Bytes → M Settings
  parse_settings config = do
    tcb ← config_get_hex (files.todigit) config (codes "TCB")
    event ← config_get_hex (files.todigit) config (codes "EVENT")
    stacktop ← config_get_hex (files.todigit) config (codes "STACK")
    boot ← config_get_string config (codes "BOOT") 32
    pure (record {
      tcb = or_else tcb (default_settings.tcb);
      event = or_else event (default_settings.event);
      stacktop = or_else stacktop (default_settings.stacktop);
      bootfile = or_else boot (default_settings.bootfile);
    })

  -- The text that was read ends with the NUL that is stored behind it.
  unfoldable pub read_settings : ℕ → ℕ → ℕ → M (Option Settings)
  unfolding parse_settings
  read_settings buffer fd count =
      if is_negative count
      then (do
        mem ← get_mem
        debug_write (codes "Failed to read. Error %d.")
            (int count ∷ int (load32 mem (load32 mem (bios_fcbs + 4 * fd) + 0x18)) ∷ [])
        files.file_close fd
        pure none)
      else (do
        files.file_close fd
        change_mem (store8 (buffer + count) 0)
        mem ← get_mem
        settings ← parse_settings (string_at (suc count) buffer mem)
        pure (some settings))

  unfoldable pub missing_settings : M (Option Settings)
  missing_settings = do
    code ← files.get_last_error
    if not (code == fileerr_not_found)
        then (do debug_write (codes "Open error %d") (int code ∷ []); pure none)
        else (do debug_write (codes "Not found") []; pure (some default_settings))

  -- `none` is an error, after which `try_boot_cd` returns.
  unfoldable pub load_settings : ℕ → M (Option Settings)
  unfolding read_settings missing_settings
  load_settings buffer = do
    debug_write (codes "Loading SYSTEM.CNF") []
    fd ← files.file_open (codes "cdrom:SYSTEM.CNF;1") file_read_mode
    if is_negative fd
        then missing_settings
        else (do count ← files.file_read fd buffer 2048; read_settings buffer fd count)
