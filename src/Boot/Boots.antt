-- ===== src/Boot/Boots.antt =====
-- A disc whose executable can be read is booted by `try_boot_cd` of loader/secondary.c.
use tonyhax.Base.{
  ℕ, ◌-◌, ◌^◌, ◌<◌, ◌≡◌, refl, ap, ◌∙◌, arith, Bool, true, false, some, List, [], ◌∷◌, ◌++◌, Bytes,
  codes, length, Memory,
}
use tonyhax.Str.{int, text, bzero, mini_vsprintf, vsprintf_loop, conversion, hex_loop}
use tonyhax.Machine.{Machine, done, ◌>>=◌, ◌>>◌}
use tonyhax.Machine.Total.{Total, >>=-Total}
use tonyhax.Debugscreen.{debug_write, in_buffer}
use tonyhax.Debugscreen.Quiet.{status, Quiet, >>=-Quiet, change_mem-Quiet, debug_write-Quiet}
use tonyhax.Integrity.{ro_start}
use tonyhax.Patcher.{Blobs, Tables}
use tonyhax.Bios.{Calls, get_mem, change_mem}
use tonyhax.Exe.Segments.{accepts}
use tonyhax.Boot.{
  Ending, Files, by_loader, file_read_mode, is_negative, overlaps, offsets_at, patch_header,
}
use tonyhax.Boot.Config.{Settings}
use tonyhax.Boot.Disc.{fcb_at, user_start, log_settings, check_header, read_header, boot_file}
use tonyhax.Boot.Starts.{Holds, patched, check_header_starts}

-- A setting in the log.
tcb-Quiet : (w : ℕ) → Quiet (debug_write (codes " * %s = %x") (text (codes "TCB") ∷ int w ∷ []))
unfolding in_buffer mini_vsprintf vsprintf_loop conversion hex_loop
tcb-Quiet w = debug_write-Quiet _ _ (codes " * TCB = " ++ hex_loop 8 w) refl (omega arith)

event-Quiet : (w : ℕ) → Quiet (debug_write (codes " * %s = %x") (text (codes "EVENT") ∷ int w ∷ []))
unfolding in_buffer mini_vsprintf vsprintf_loop conversion hex_loop
event-Quiet w = debug_write-Quiet _ _ (codes " * EVENT = " ++ hex_loop 8 w) refl (omega arith)

stack-Quiet : (w : ℕ) → Quiet (debug_write (codes " * %s = %x") (text (codes "STACK") ∷ int w ∷ []))
unfolding in_buffer mini_vsprintf vsprintf_loop conversion hex_loop
stack-Quiet w = debug_write-Quiet _ _ (codes " * STACK = " ++ hex_loop 8 w) refl (omega arith)

boot-fits :
    (t : Bytes)
    → length t < 32
    → in_buffer (mini_vsprintf (codes " * %s = %s") (text (codes "BOOT") ∷ text t ∷ []))
      ≡ some (codes " * BOOT = " ++ t)
unfolding in_buffer mini_vsprintf vsprintf_loop conversion
boot-fits t short = ground arith

log_settings-Quiet : (s : Settings) → length (s.bootfile) < 32 → Quiet (log_settings s)
unfolding log_settings
log_settings-Quiet s short = >>=-Quiet (debug_write _ _) _ (tcb-Quiet (s.tcb)) (λ u.
    >>=-Quiet (debug_write _ _) _ (event-Quiet (s.event)) (λ u.
      >>=-Quiet (debug_write _ _) _ (stack-Quiet (s.stacktop)) (λ u.
        debug_write-Quiet _ _ (codes " * BOOT = " ++ s.bootfile) (boot-fits (s.bootfile) short)
          (omega arith))))

-- The executable whose header is in memory can be started: its header is accepted, it does not overlap
-- the loader, its size is below 2 ^ 31, and it can be read.
pub record Startable (files : Files) (s : Settings) (buffer v : ℕ) (rest : List ℕ) (fd exe_fcb : ℕ)
    (loaded : Memory) : Type 0 where
  pub accepted : accepts (patched buffer exe_fcb s loaded) ≡ true
  pub apart : overlaps (patched buffer exe_fcb s loaded) ≡ false
  pub small : (patched buffer exe_fcb s loaded).load_size < 2 ^ 31
  pub reads :
      Total
        (Holds (patch_header buffer exe_fcb (s.stacktop) loaded) (v ∷ rest))
        (files.file_read fd
          ((patched buffer exe_fcb s loaded).load_addr)
          ((patched buffer exe_fcb s loaded).load_size))
        (λ n m. (is_negative n ≡ false) × (status m ≡ v ∷ rest))

-- What the BIOS does for a disc with a boot file: it opens the file, reads its header without an error, and
-- the executable can be started. `Opened` is what is known of memory once the file is open.
pub record Serves (calls : Calls) (files : Files) (s : Settings) (buffer v : ℕ) (rest : List ℕ)
    : Type 1 where
  pub Opened : Memory → Type 0
  pub fd : ℕ
  pub opens : is_negative fd ≡ false
  pub enters : Quiet (calls.enter_critical_section)
  pub configures : Quiet (calls.set_conf (s.event) (s.tcb) (s.stacktop))
  pub opens_file :
      Total
        (λ m. status m ≡ v ∷ rest)
        (files.file_open (s.bootfile) file_read_mode)
        (λ n m. (n ≡ fd) × Opened (m.mem) × (status m ≡ v ∷ rest))
  pub reads_header :
      (mem : Memory)
      → Opened mem
      → Total (Holds mem (v ∷ rest)) (files.file_read fd buffer 2048) (λ n m.
        (is_negative n ≡ false)
        × Startable files s buffer v rest fd (fcb_at fd mem) (m.mem)
        × (status m ≡ v ∷ rest))
  pub closes : Quiet (files.file_close fd)
  pub flushes : Quiet (files.flush_cache)

module _ (calls : Calls) (files : Files) (blobs : Blobs) (tables : Tables) (original : ℕ) where
  check_header-Total :
      (pal : Bool) (s : Settings) (buffer v : ℕ) (rest : List ℕ) (exe_fcb fd count : ℕ)
      (loaded : Memory)
      → is_negative count ≡ false
      → Startable files s buffer v rest fd exe_fcb loaded
      → Quiet (files.file_close fd)
      → Quiet (calls.enter_critical_section)
      → Quiet (files.flush_cache)
      → Total
          (Holds loaded (v ∷ rest))
          (check_header calls files blobs tables original pal s buffer exe_fcb fd count)
          (λ e m. e ≡ by_loader (offsets_at buffer))
  check_header-Total pal s buffer v rest exe_fcb fd count loaded read can closes enters flushes m
        h =
      let (m', e) =
        check_header_starts calls files blobs tables original pal s buffer exe_fcb fd count v rest m
          read (rw (h.0) (can.accepted)) (rw (h.0) (can.apart)) (rw (h.0) (can.small)) (h.1) closes
          enters flushes (rw (h.0) (can.reads)) in
      (by_loader (offsets_at buffer), m', e, refl)

  read_header-Total :
      (pal : Bool) (s : Settings) (buffer v : ℕ) (rest : List ℕ)
      (serves : Serves calls files s buffer v rest) (m : Machine)
      → serves.Opened (m.mem)
      → status m ≡ v ∷ rest
      → (e : Ending) × (m' : Machine) × (read_header calls files blobs tables original pal s buffer
            (serves.fd)
            m
          ≡ done e m')
        × (e ≡ by_loader (offsets_at buffer))
  unfolding read_header
  read_header-Total pal s buffer v rest serves m opened left = rw (serves.opens) (
      >>=-Total get_mem _ {Q = λ mem m1. (mem ≡ m.mem) × Holds (m.mem) (v ∷ rest) m1}
        (λ m1 h. (m1.mem, m1, refl, (h.0, h)))
        (λ mem.
          >>=-Total (files.file_read (serves.fd) buffer 2048)
            (λ n.
              check_header calls files blobs tables original pal s buffer (fcb_at (serves.fd) mem)
                (serves.fd) n)
            {Q = λ n m1.
              (mem ≡ m.mem)
              × ((is_negative n ≡ false)
                  × Startable files s buffer v rest (serves.fd) (fcb_at (serves.fd) (m.mem))
                      (m1.mem)
                  × (status m1 ≡ v ∷ rest))}
            (λ m1 h.
              let (n, m', e, h') = serves.reads_header (m.mem) opened m1 (h.1) in
              (n, m', e, (h.0, h')))
            (λ n m1 h. rw (h.0) (
              check_header-Total pal s buffer v rest _ (serves.fd) n (m1.mem) (h.1.0) (h.1.1)
                (serves.closes) (serves.enters) (serves.flushes) m1 (refl, h.1.2))))
        m (refl, left))

  -- With the settings known, a disc is booted whose boot file the BIOS opens and reads without an error, and
  -- whose executable has an accepted header, does not overlap the loader and has a size below 2 ^ 31: the rest
  -- of `try_boot_cd` returns no error but comes to `DoExecute`. It is assumed that the other BIOS calls on the
  -- way return, and that the GPU's status register gives a value.
  pub boot_file_starts :
      (pal : Bool) (s : Settings) (buffer v : ℕ) (rest : List ℕ) (m : Machine)
      (serves : Serves calls files s buffer v rest)
      → length (s.bootfile) < 32
      → status m ≡ v ∷ rest
      → (m' : Machine) × (boot_file calls files blobs tables original pal s buffer m
          ≡ done (by_loader (offsets_at buffer)) m')
  unfolding boot_file in_buffer mini_vsprintf vsprintf_loop
  boot_file_starts pal s buffer v rest m serves short left =
      let (e, m', r, is_started) =
        >>=-Total (log_settings s) _ (log_settings-Quiet s short (v ∷ rest))
          (λ u.
            >>=-Total (debug_write (codes "Configuring kernel") []) _
              (debug_write-Quiet _ [] (codes "Configuring kernel") refl (omega arith) (v ∷ rest))
              (λ u. >>=-Total (calls.enter_critical_section) _ (serves.enters (v ∷ rest)) (λ u.
                >>=-Total (calls.set_conf (s.event) (s.tcb) (s.stacktop)) _
                  (serves.configures (v ∷ rest))
                  (λ u.
                    >>=-Total (debug_write (codes "Clearing RAM") []) _
                      (debug_write-Quiet _ [] (codes "Clearing RAM") refl (omega arith) (v ∷ rest))
                      (λ u. from_clear)))))
          m left in
      (m', r ∙ ap (λ x. done x m') is_started)
    where
      from_open :
          Total
            (λ m1. status m1 ≡ v ∷ rest)
            (files.file_open (s.bootfile) file_read_mode >>= λ fd.
              read_header calls files blobs tables original pal s buffer fd)
            (λ e m1. e ≡ by_loader (offsets_at buffer))
      from_open =
          >>=-Total (files.file_open (s.bootfile) file_read_mode) _ (serves.opens_file)
            (λ fd m1 h. rw (h.0) (read_header-Total pal s buffer v rest serves m1 (h.1) (h.2)))

      from_clear :
          Total
            (λ m1. status m1 ≡ v ∷ rest)
            (do
              change_mem (bzero user_start (ro_start - user_start))
              debug_write (codes "Reading executable header") []
              fd ← files.file_open (s.bootfile) file_read_mode
              read_header calls files blobs tables original pal s buffer fd)
            (λ e m1. e ≡ by_loader (offsets_at buffer))
      from_clear =
          >>=-Total (change_mem (bzero user_start (ro_start - user_start))) _
            (change_mem-Quiet (bzero user_start (ro_start - user_start)) (v ∷ rest))
            (λ u.
              >>=-Total (debug_write (codes "Reading executable header") []) _
                (debug_write-Quiet _ [] (codes "Reading executable header") refl (omega arith)
                  (v ∷ rest))
                (λ u. from_open))
