-- ===== src/Boot/Disc.antt =====
-- `try_boot_cd` of loader/secondary.c, in the parts between which it may return.
use tonyhax.Base.{
  ℕ, ◌+◌, ◌-◌, ◌*◌, Bool, true, false, not, Option, none, some, List, [], ◌∷◌, ◌==◌, if◌then◌else◌,
  Bytes, codes, Memory, load32,
}
use tonyhax.Str.{Arg, bzero, int, text}
use tonyhax.Machine.{M, pure, ◌>>=◌, ◌>>◌}
use tonyhax.Gpu.{gpu_is_pal}
use tonyhax.Debugscreen.{debug_write, debug_switch_standard}
use tonyhax.Integrity.{ro_start}
use tonyhax.Rom.{bios_is_ps1}
use tonyhax.Unlock.{wait_lid_status}
use tonyhax.Exe.{ExeOffsets, exe_file_okay}
use tonyhax.Patcher.{Blobs, Tables, patcher_apply}
use tonyhax.Bios.{Calls, get_mem, change_mem, bios_restore_disc_error}
use tonyhax.Boot.{
  file_read_mode, bios_fcbs, Files, Ending, returned, by_bios, by_loader, is_negative, game_region,
  header_at, patch_header, overlaps, offsets_at,
}
use tonyhax.Boot.Config.{Settings, load_settings}

-- `data_buffer`
unfoldable pub data_buffer : Bool → ℕ
data_buffer ps1 = if ps1 then 0xA000B070 else 0xA000A8D0

-- The place of the file control block of a descriptor.
abbrev pub fcb_at : ℕ → Memory → ℕ
fcb_at fd mem = load32 mem bios_fcbs + 44 * fd

abbrev pub user_start : ℕ
user_start = 0x80010000

-- `!=` on Booleans.
abbrev pub differs : Bool → Bool → Bool
differs true b = not b
differs false b = b

unfoldable pub switch_video : Bool → M (Unit {0})
switch_video game_is_pal = do
  pal ← gpu_is_pal
  if differs game_is_pal pal
      then (do debug_write (codes "Switching video mode") []; debug_switch_standard game_is_pal)
      else pure tt

unfoldable pub log_settings : Settings → M (Unit {0})
log_settings s = do
  debug_write (codes " * %s = %x") (text (codes "TCB") ∷ int (s.tcb) ∷ [])
  debug_write (codes " * %s = %x") (text (codes "EVENT") ∷ int (s.event) ∷ [])
  debug_write (codes " * %s = %x") (text (codes "STACK") ∷ int (s.stacktop) ∷ [])
  debug_write (codes " * %s = %s") (text (codes "BOOT") ∷ text (s.bootfile) ∷ [])

-- The text is logged, and `try_boot_cd` returns.
unfoldable pub give_up : Bytes → List Arg → M Ending
give_up format args = do debug_write format args; pure returned

module _ (calls : Calls) (files : Files) (blobs : Blobs) (tables : Tables) (original : ℕ) where
  -- The executable overlaps the loader.
  unfoldable pub boot_by_bios : Bool → Bytes → ExeOffsets → M Ending
  boot_by_bios game_is_pal bootfile o = do
    debug_write (codes "Executable won't fit. Using buggy BIOS call.") []
    switch_video game_is_pal
    change_mem (bios_restore_disc_error original)
    started ← files.load_and_execute bootfile (o.initial_sp_base) (o.initial_sp_offset)
    pure (if started then by_bios bootfile else returned)

  -- From the end of the load on.
  unfoldable pub start_program : Bool → Bytes → ℕ → M Ending
  start_program game_is_pal bootfile buffer = do
    patcher_apply blobs tables bootfile
    switch_video game_is_pal
    debug_write (codes "Starting") []
    change_mem (bios_restore_disc_error original)
    calls.enter_critical_section
    files.flush_cache
    pure (by_loader (offsets_at buffer))

  unfoldable pub finish_load : Bool → Bytes → ℕ → ℕ → ℕ → ℕ → M Ending
  finish_load game_is_pal bootfile buffer exe_fcb fd count =
      if is_negative count
      then (do
        mem ← get_mem
        give_up (codes "Failed to read. Error %d.") (int (load32 mem (exe_fcb + 0x18)) ∷ []))
      else (do files.file_close fd; start_program game_is_pal bootfile buffer)

  unfoldable pub load_executable : Bool → Bytes → ℕ → ℕ → ℕ → ExeOffsets → M Ending
  load_executable game_is_pal bootfile buffer exe_fcb fd o = do
    debug_write (codes "Loading executable (%d bytes @ %x)")
        (int (o.load_size) ∷ int (o.load_addr) ∷ [])
    count ← files.file_read fd (o.load_addr) (o.load_size)
    finish_load game_is_pal bootfile buffer exe_fcb fd count

  unfoldable pub boot_checked : Bool → Bytes → ℕ → ℕ → ℕ → ExeOffsets → Bool → M Ending
  boot_checked game_is_pal bootfile buffer exe_fcb fd o okay =
      if not okay
      then (do files.file_close fd; pure returned)
      else if overlaps o
      then boot_by_bios game_is_pal bootfile o
      else load_executable game_is_pal bootfile buffer exe_fcb fd o

  -- After the read of the header.
  unfoldable pub check_header : Bool → Settings → ℕ → ℕ → ℕ → ℕ → M Ending
  check_header game_is_pal s buffer exe_fcb fd count =
      if is_negative count
      then (do
        mem ← get_mem
        debug_write (codes "Failed to read. Error %d.") (int (load32 mem (exe_fcb + 0x18)) ∷ [])
        files.file_close fd
        pure returned)
      else (do
        change_mem (patch_header buffer exe_fcb (s.stacktop))
        mem ← get_mem
        okay ← exe_file_okay (header_at buffer mem)
        boot_checked game_is_pal (s.bootfile) buffer exe_fcb fd ((header_at buffer mem).offsets)
            okay)

  unfoldable pub read_header : Bool → Settings → ℕ → ℕ → M Ending
  read_header game_is_pal s buffer fd =
      if is_negative fd
      then (do code ← files.get_last_error; give_up (codes "Open error %d") (int code ∷ []))
      else (do
        mem ← get_mem
        count ← files.file_read fd buffer 2048
        check_header game_is_pal s buffer (fcb_at fd mem) fd count)

  unfoldable pub boot_file : Bool → Settings → ℕ → M Ending
  boot_file game_is_pal s buffer = do
    log_settings s
    debug_write (codes "Configuring kernel") []
    calls.enter_critical_section
    calls.set_conf (s.event) (s.tcb) (s.stacktop)
    debug_write (codes "Clearing RAM") []
    change_mem (bzero user_start (ro_start - user_start))
    debug_write (codes "Reading executable header") []
    fd ← files.file_open (s.bootfile) file_read_mode
    read_header game_is_pal s buffer fd

  unfoldable pub boot_configured : Bool → ℕ → Option Settings → M Ending
  boot_configured game_is_pal buffer none = pure returned
  boot_configured game_is_pal buffer (some s) = boot_file game_is_pal s buffer

  unfoldable pub boot_region : Bytes → Bool → ℕ → M Ending
  boot_region region game_is_pal buffer = do
    debug_write (codes "Game's region is %s. Using %s video.")
        (text region ∷ text (if game_is_pal then codes "PAL" else codes "NTSC") ∷ [])
    settings ← load_settings files buffer
    boot_configured game_is_pal buffer settings

  unfoldable pub boot_disc : ℕ → M Ending
  boot_disc buffer = do
    debug_write (codes "Checking game region") []
    sectors ← files.cd_read_sector 1 4 buffer
    if not (sectors == 1) then give_up (codes "Failed to read sector") [] else (do
      mem ← get_mem
      let (region, game_is_pal) = game_region (mem (buffer + 0x3C)) in
          boot_region region game_is_pal buffer)

  unfoldable pub try_boot_cd : M Ending
  try_boot_cd = do
    debug_write (codes "Swap CD now") []
    wait_lid_status true
    wait_lid_status false
    debug_write (codes "Initializing CD") []
    ok ← files.cd_init
    if not ok
        then give_up (codes "Init failed") []
        else (do ps1 ← bios_is_ps1; boot_disc (data_buffer ps1))
