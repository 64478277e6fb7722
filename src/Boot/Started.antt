-- ===== src/Boot/Started.antt =====
-- When `try_boot_cd` of loader/secondary.c starts a program by itself.
use tonyhax.Base.{
  ℕ, ◌+◌, ◌-◌, ◌≡◌, refl, ap, ◌∙◌, arith, Bool, true, false, not, ◌==◌, if◌then◌else◌, Option, none,
  some, [], Bytes, codes, Memory,
}
use tonyhax.Str.{bzero}
use tonyhax.Machine.{Machine, done}
use tonyhax.Machine.Triple.{Triple, >>=-Triple, if-Triple, bind_inverts}
use tonyhax.Debugscreen.{debug_write}
use tonyhax.Debugscreen.State.{debug_write-OnLog}
use tonyhax.Integrity.{ro_start}
use tonyhax.Rom.{bios_is_ps1}
use tonyhax.Unlock.{wait_lid_status}
use tonyhax.Exe.{ExeOffsets, exe_file_okay}
use tonyhax.Exe.Segments.{accepts, exe_file_okay_returns}
use tonyhax.Patcher.{Blobs, Tables, patcher_apply}
use tonyhax.Bios.{Calls, get_mem, change_mem, bios_restore_disc_error}
use tonyhax.Boot.{
  Files, file_read_mode, returned, by_bios, by_loader, is_negative, game_region, header_at,
  patch_header, overlaps, offsets_at,
}
use tonyhax.Boot.Safe.{Loads, Sound, Safe, after-Safe, pure-Safe, give_up-Safe}
use tonyhax.Boot.Config.{Settings, load_settings}
use tonyhax.Boot.Disc.{
  data_buffer, fcb_at, switch_video, boot_by_bios, start_program, finish_load, load_executable,
  boot_checked, check_header, read_header, boot_file, boot_configured, boot_region, boot_disc,
  try_boot_cd, log_settings, user_start,
}

module _ (calls : Calls) (files : Files) (blobs : Blobs) (tables : Tables) (original : ℕ) where
  boot_by_bios-Safe :
      (pal : Bool) (bootfile : Bytes) (o : ExeOffsets)
      → Safe files (boot_by_bios calls files blobs tables original pal bootfile o)
  unfolding boot_by_bios
  boot_by_bios-Safe pal bootfile o = after-Safe files (debug_write _ _) _ (λ u.
      after-Safe files (switch_video pal) _ (λ u'.
        after-Safe files (change_mem (bios_restore_disc_error original)) _ (λ u''.
          after-Safe files
            (files.load_and_execute bootfile (o.initial_sp_base) (o.initial_sp_offset)) _
            (λ started. pure-Safe files _ (harmless started)))))
    where
      harmless : (started : Bool) → Sound files (if started then by_bios bootfile else returned)
      harmless true = tt
      harmless false = tt

  start_program-Safe :
      (pal : Bool) (bootfile : Bytes) (buffer : ℕ)
      → Loads files (offsets_at buffer)
      → Safe files (start_program calls files blobs tables original pal bootfile buffer)
  unfolding start_program
  start_program-Safe pal bootfile buffer l = after-Safe files (patcher_apply _ _ _) _ (λ u.
      after-Safe files (switch_video pal) _ (λ u. after-Safe files (debug_write _ _) _ (λ u.
        after-Safe files (change_mem _) _ (λ u.
          after-Safe files (calls.enter_critical_section) _ (λ u.
            after-Safe files (files.flush_cache) _
              (λ u. pure-Safe files (by_loader (offsets_at buffer)) l))))))

  finish_load-Safe :
      (pal : Bool) (bootfile : Bytes) (buffer exe_fcb fd count : ℕ)
      → (is_negative count ≡ false → Loads files (offsets_at buffer))
      → Safe files
          (finish_load calls files blobs tables original pal bootfile buffer exe_fcb fd count)
  unfolding finish_load
  finish_load-Safe pal bootfile buffer exe_fcb fd count l =
      if-Triple (is_negative count) _ _
        (λ failed. after-Safe files get_mem _ (λ mem. give_up-Safe files _ _))
        (λ read.
          after-Safe files (files.file_close fd) _
            (λ u. start_program-Safe pal bootfile buffer (l read)))

  -- From a console whose memory has the patched header that `exe_file_okay` has accepted.
  load_executable-Safe :
      (pal : Bool) (bootfile : Bytes) (buffer exe_fcb fd stacktop : ℕ) (mem unpatched : Memory)
      → mem ≡ patch_header buffer exe_fcb stacktop unpatched
      → accepts ((header_at buffer mem).offsets) ≡ true
      → overlaps ((header_at buffer mem).offsets) ≡ false
      → Triple
          (λ m. m.mem ≡ mem)
          (load_executable calls files blobs tables original pal bootfile buffer exe_fcb fd
            ((header_at buffer mem).offsets))
          (λ e m. Sound files e)
  unfolding load_executable overlaps
  load_executable-Safe pal bootfile buffer exe_fcb fd stacktop mem unpatched patched accepted
        apart =
      >>=-Triple (debug_write _ _) _ {Q = λ u m. m.mem ≡ mem}
        (λ m m' u same e. ap (λ o. o.2) (debug_write-OnLog _ _ m m' u e) ∙ same)
        (λ u before m' ending same e.
          let (count, after, read, e') =
            bind_inverts
              (files.file_read fd ((header_at buffer mem).offsets.load_addr)
                ((header_at buffer mem).offsets.load_size))
              (finish_load calls files blobs tables original pal bootfile buffer exe_fcb fd) before
              m' ending e in
          finish_load-Safe pal bootfile buffer exe_fcb fd count
            (λ succeeds. record {
              before = before;
              after = after;
              unpatched = unpatched;
              buffer = buffer;
              exe_fcb = exe_fcb;
              stacktop = stacktop;
              fd = fd;
              count = count;
              header = (header_at buffer mem).offsets;
              is_offsets = refl;
              is_patched = same ∙ patched;
              is_header = ap (λ (x : Memory). (header_at buffer x).offsets) same;
              load_in_ram = ground arith;
              pc_in_ram = ground arith;
              pc_aligned = ground arith;
              below = ground arith;
              is_read = read;
              succeeds = succeeds;
            })
            after m' ending tt e')

  boot_checked-Safe :
      (pal : Bool) (bootfile : Bytes) (buffer exe_fcb fd stacktop : ℕ) (mem unpatched : Memory)
      (okay : Bool)
      → mem ≡ patch_header buffer exe_fcb stacktop unpatched
      → okay ≡ accepts ((header_at buffer mem).offsets)
      → Triple
          (λ m. m.mem ≡ mem)
          (boot_checked calls files blobs tables original pal bootfile buffer exe_fcb fd
            ((header_at buffer mem).offsets)
            okay)
          (λ e m. Sound files e)
  unfolding boot_checked
  boot_checked-Safe pal bootfile buffer exe_fcb fd stacktop mem unpatched okay patched decides =
      if-Triple (not okay) _ _
        (λ refused m m' e same.
          after-Safe files (files.file_close fd) _ (λ u. pure-Safe files returned tt) m m' e tt)
        (λ accepted.
          if-Triple (overlaps ((header_at buffer mem).offsets)) _ _
            (λ over m m' e same.
              boot_by_bios-Safe pal bootfile ((header_at buffer mem).offsets) m m' e tt)
            (λ apart.
              load_executable-Safe pal bootfile buffer exe_fcb fd stacktop mem unpatched patched
                (ground arith) apart))

  check_header-Safe :
      (pal : Bool) (s : Settings) (buffer exe_fcb fd count : ℕ)
      → Safe files (check_header calls files blobs tables original pal s buffer exe_fcb fd count)
  unfolding check_header
  check_header-Safe pal s buffer exe_fcb fd count =
      if-Triple (is_negative count) _ _
        (λ failed. after-Safe files get_mem _ (λ mem.
          after-Safe files (debug_write _ _) _
            (λ u. after-Safe files (files.file_close fd) _ (λ u. pure-Safe files returned tt))))
        (λ read m m' ending u e.
          let mem = patch_header buffer exe_fcb (s.stacktop) (m.mem) in
          let m1 = record m { mem = mem } in
          let (okay, m2, checked, e') =
            bind_inverts (exe_file_okay (header_at buffer mem))
              (boot_checked calls files blobs tables original pal (s.bootfile) buffer exe_fcb fd
                ((header_at buffer mem).offsets))
              m1 m' ending e in
          let (decides, same) = exe_file_okay_returns (header_at buffer mem) m1 m2 okay checked in
          boot_checked-Safe pal (s.bootfile) buffer exe_fcb fd (s.stacktop) mem (m.mem) okay refl
            decides m2 m' ending (ap (λ o. o.2) same) e')

  read_header-Safe :
      (pal : Bool) (s : Settings) (buffer fd : ℕ)
      → Safe files (read_header calls files blobs tables original pal s buffer fd)
  unfolding read_header
  read_header-Safe pal s buffer fd =
      if-Triple (is_negative fd) _ _
        (λ failed. after-Safe files (files.get_last_error) _ (λ code. give_up-Safe files _ _))
        (λ opened. after-Safe files get_mem _ (λ mem.
          after-Safe files (files.file_read fd buffer 2048) _
            (λ count. check_header-Safe pal s buffer (fcb_at fd mem) fd count)))

  boot_file-Safe :
      (pal : Bool) (s : Settings) (buffer : ℕ)
      → Safe files (boot_file calls files blobs tables original pal s buffer)
  unfolding boot_file
  boot_file-Safe pal s buffer = after-Safe files (log_settings s) _ (λ u.
      after-Safe files (debug_write _ _) _ (λ u.
        after-Safe files (calls.enter_critical_section) _ (λ u.
          after-Safe files (calls.set_conf (s.event) (s.tcb) (s.stacktop)) _ (λ u.
            after-Safe files (debug_write _ _) _ (λ u.
              after-Safe files (change_mem (bzero user_start (ro_start - user_start))) _ (λ u.
                after-Safe files (debug_write (codes "Reading executable header") []) _ (λ u.
                  after-Safe files (files.file_open (s.bootfile) file_read_mode) _
                    (λ fd. read_header-Safe pal s buffer fd))))))))

  boot_configured-Safe :
      (pal : Bool) (buffer : ℕ) (settings : Option Settings)
      → Safe files (boot_configured calls files blobs tables original pal buffer settings)
  unfolding boot_configured
  boot_configured-Safe pal buffer none = pure-Safe files returned tt
  boot_configured-Safe pal buffer (some s) = boot_file-Safe pal s buffer

  boot_region-Safe :
      (region : Bytes) (pal : Bool) (buffer : ℕ)
      → Safe files (boot_region calls files blobs tables original region pal buffer)
  unfolding boot_region
  boot_region-Safe region pal buffer = after-Safe files (debug_write _ _) _ (λ u.
      after-Safe files (load_settings files buffer) _
        (λ settings. boot_configured-Safe pal buffer settings))

  boot_disc-Safe : (buffer : ℕ) → Safe files (boot_disc calls files blobs tables original buffer)
  unfolding boot_disc
  boot_disc-Safe buffer = after-Safe files (debug_write _ _) _ (λ u.
      after-Safe files (files.cd_read_sector 1 4 buffer) _ (λ sectors.
        if-Triple (not (sectors == 1)) _ _ (λ failed. give_up-Safe files _ _)
          (λ read. after-Safe files get_mem _ (λ mem.
            boot_region-Safe ((game_region (mem (buffer + 0x3C))).0)
              ((game_region (mem (buffer + 0x3C))).1) buffer))))

  pub try_boot_cd-Safe : Safe files (try_boot_cd calls files blobs tables original)
  unfolding try_boot_cd
  try_boot_cd-Safe = after-Safe files (debug_write _ _) _ (λ u.
      after-Safe files (wait_lid_status true) _ (λ u.
        after-Safe files (wait_lid_status false) _ (λ u. after-Safe files (debug_write _ _) _ (λ u.
          after-Safe files (files.cd_init) _ (λ ok.
            if-Triple (not ok) _ _ (λ failed. give_up-Safe files _ _)
              (λ ready.
                after-Safe files bios_is_ps1 _ (λ ps1. boot_disc-Safe (data_buffer ps1))))))))

  -- `try_boot_cd` calls `DoExecute` only after it has patched the header in its buffer, checked that the
  -- header's load address and start address lie in RAM, that the start address is divisible by four, and
  -- that the executable ends below the loader, and then read the executable there without an error. The
  -- argument of `DoExecute` is the address of this header's offsets.
  pub try_boot_cd_starts :
      (m m' : Machine) (address : ℕ)
      → try_boot_cd calls files blobs tables original m ≡ done (by_loader address) m'
      → Loads files address
  try_boot_cd_starts m m' address e = try_boot_cd-Safe m m' (by_loader address) tt e
