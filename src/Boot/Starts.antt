-- ===== src/Boot/Starts.antt =====
-- An executable that passes the checks of `try_boot_cd` of loader/secondary.c is started.
use tonyhax.Base.{
  ℕ, ◌^◌, ◌<◌, ◌≡◌, refl, ap, ◌∙◌, arith, Bool, true, false, not, ◌==◌, bit_and, ◌<<<◌, List, [],
  ◌∷◌, Bytes, codes, Memory,
}
use tonyhax.Str.{int, mini_vsprintf, vsprintf_loop}
use tonyhax.Str.Pieces.{vsprintf_loop_numbers}
use tonyhax.Machine.{Machine, done, ◌>>=◌}
use tonyhax.Machine.Total.{Total, >>=-Total}
use tonyhax.Gpu.{take_status, read_status, gpu_is_pal}
use tonyhax.Debugscreen.{debug_write, in_buffer}
use tonyhax.Debugscreen.State.{debug_write-OnLog}
use tonyhax.Debugscreen.Repeats.{debug_write_returns}
use tonyhax.Debugscreen.Quiet.{
  status, Quiet, >>=-Quiet, pure-Quiet, if-Quiet, change_mem-Quiet, debug_write-Quiet,
  debug_switch_standard-Quiet,
}
use tonyhax.Exe.{ExeOffsets}
use tonyhax.Exe.Segments.{accepts, exe_file_okay_decides, exe_file_okay-OnLog}
use tonyhax.Patcher.{Blobs, Tables, patcher_apply}
use tonyhax.Patcher.Returns.{patcher_apply-Quiet}
use tonyhax.Bios.{Calls, change_mem, bios_restore_disc_error}
use tonyhax.Boot.{Files, by_loader, is_negative, header_at, patch_header, overlaps, offsets_at}
use tonyhax.Boot.Config.{Settings}
use tonyhax.Boot.Disc.{
  switch_video, differs, start_program, finish_load, load_executable, boot_checked, check_header,
}

-- The offsets in the header when it has been patched.
abbrev pub patched : ℕ → ℕ → Settings → Memory → ExeOffsets
patched buffer exe_fcb s mem =
    (header_at buffer (patch_header buffer exe_fcb (s.stacktop) mem)).offsets

-- The screen may have changed, and memory and the status register's values have not.
abbrev pub Holds : Memory → List ℕ → Machine → Type 0
Holds mem st m = (m.mem ≡ mem) × (status m ≡ st)

gpu_is_pal-Total :
    (v : ℕ) (rest : List ℕ) → Total (λ m. status m ≡ v ∷ rest) gpu_is_pal (λ pal m. status m ≡ rest)
unfolding gpu_is_pal read_status take_status
gpu_is_pal-Total v rest m e = (
  not (bit_and v (1 <<< 20) == 0),
  record m { screen = record (m.screen) { status = rest } },
  rw e refl,
  refl,
)

switch_video-Total :
    (pal : Bool) (v : ℕ) (rest : List ℕ)
    → Total (λ m. status m ≡ v ∷ rest) (switch_video pal) (λ u m. status m ≡ rest)
unfolding switch_video in_buffer mini_vsprintf vsprintf_loop
switch_video-Total pal v rest = >>=-Total gpu_is_pal _ (gpu_is_pal-Total v rest) (λ pal'.
    if-Quiet (differs pal pal') _ _
      (>>=-Quiet (debug_write (codes "Switching video mode") []) _
        (debug_write-Quiet _ [] (codes "Switching video mode") refl (omega arith))
        (λ u. debug_switch_standard-Quiet pal))
      (pure-Quiet tt) rest)

-- The line with the size and the address.
loading-Holds :
    (size addr : ℕ) (mem : Memory) (st : List ℕ)
    → size < 2 ^ 31
    → Total
        (Holds mem st)
        (debug_write (codes "Loading executable (%d bytes @ %x)") (int size ∷ int addr ∷ []))
        (λ u m. Holds mem st m)
unfolding in_buffer mini_vsprintf
loading-Holds size addr mem st h m holds =
    let (t, e, l) =
      vsprintf_loop_numbers (codes "Loading executable (") (codes " bytes @ ") (codes ")") size addr
        refl refl refl h in
    let (s, r, line) =
      debug_write_returns m (codes "Loading executable (%d bytes @ %x)") (int size ∷ int addr ∷ [])
        t (rw e (ground arith)) (omega arith) in
    let kept = debug_write-OnLog _ _ m _ tt r in
    (tt, record m { screen = s }, r, (holds.0, ap (λ o. o.1) kept ∙ holds.1))

module _ (calls : Calls) (files : Files) (blobs : Blobs) (tables : Tables) (original : ℕ) where
  start_program-Total :
      (pal : Bool) (bootfile : Bytes) (buffer v : ℕ) (rest : List ℕ)
      → Quiet (calls.enter_critical_section)
      → Quiet (files.flush_cache)
      → Total
          (λ m. status m ≡ v ∷ rest)
          (start_program calls files blobs tables original pal bootfile buffer)
          (λ e m. e ≡ by_loader (offsets_at buffer))
  unfolding start_program in_buffer mini_vsprintf vsprintf_loop
  start_program-Total pal bootfile buffer v rest enters flushes =
      >>=-Total (patcher_apply blobs tables bootfile) _
        (patcher_apply-Quiet blobs tables bootfile (v ∷ rest))
        (λ u. >>=-Total (switch_video pal) _ (switch_video-Total pal v rest) (λ u.
          >>=-Total (debug_write (codes "Starting") []) _
            (debug_write-Quiet (codes "Starting") [] (codes "Starting") refl (omega arith) rest)
            (λ u.
              >>=-Total (change_mem (bios_restore_disc_error original)) _
                (change_mem-Quiet (bios_restore_disc_error original) rest)
                (λ u. >>=-Total (calls.enter_critical_section) _ (enters rest) (λ u.
                  >>=-Total (files.flush_cache) _ (flushes rest)
                    (λ u m h. (by_loader (offsets_at buffer), m, refl, refl)))))))

  -- The executable at the header's place, read without an error.
  load_executable-Total :
      (pal : Bool) (bootfile : Bytes) (buffer exe_fcb fd v : ℕ) (rest : List ℕ) (mem : Memory)
      (o : ExeOffsets)
      → Quiet (files.file_close fd)
      → Quiet (calls.enter_critical_section)
      → Quiet (files.flush_cache)
      → Total
          (Holds mem (v ∷ rest))
          (files.file_read fd (o.load_addr) (o.load_size))
          (λ count m. (is_negative count ≡ false) × (status m ≡ v ∷ rest))
      → o.load_size < 2 ^ 31
      → Total
          (Holds mem (v ∷ rest))
          (load_executable calls files blobs tables original pal bootfile buffer exe_fcb fd o)
          (λ e m. e ≡ by_loader (offsets_at buffer))
  unfolding load_executable finish_load
  load_executable-Total pal bootfile buffer exe_fcb fd v rest mem o closes enters flushes reads
        small =
      >>=-Total (debug_write _ _) _ (loading-Holds (o.load_size) (o.load_addr) mem (v ∷ rest) small)
        (λ u. >>=-Total (files.file_read fd (o.load_addr) (o.load_size)) _ reads (λ count m h.
          let starts =
            >>=-Total (files.file_close fd) _ (closes (v ∷ rest))
              (λ u. start_program-Total pal bootfile buffer v rest enters flushes) in
          rw (h.0) (starts m (h.1))))

  -- From a read of the header without an error on: an executable whose addresses lie in RAM, with a start
  -- address divisible by four, that ends below the loader, is started by `DoExecute` when it can be read. It
  -- is assumed that the BIOS calls for that return, that they leave the GPU's status register to be read once
  -- more, and that the size to load is below 2 ^ 31.
  pub check_header_starts :
      (pal : Bool) (s : Settings) (buffer exe_fcb fd count v : ℕ) (rest : List ℕ) (m : Machine)
      → is_negative count ≡ false
      → accepts (patched buffer exe_fcb s (m.mem)) ≡ true
      → overlaps (patched buffer exe_fcb s (m.mem)) ≡ false
      → (patched buffer exe_fcb s (m.mem)).load_size < 2 ^ 31
      → status m ≡ v ∷ rest
      → Quiet (files.file_close fd)
      → Quiet (calls.enter_critical_section)
      → Quiet (files.flush_cache)
      → Total
          (Holds (patch_header buffer exe_fcb (s.stacktop) (m.mem)) (v ∷ rest))
          (files.file_read fd
            ((patched buffer exe_fcb s (m.mem)).load_addr)
            ((patched buffer exe_fcb s (m.mem)).load_size))
          (λ n m'. (is_negative n ≡ false) × (status m' ≡ v ∷ rest))
      → (m' : Machine) × (check_header calls files blobs tables original pal s buffer exe_fcb fd
            count m
          ≡ done (by_loader (offsets_at buffer)) m')
  unfolding check_header boot_checked
  check_header_starts pal s buffer exe_fcb fd count v rest m read accepted apart small left closes
        enters flushes reads =
      let mem = patch_header buffer exe_fcb (s.stacktop) (m.mem) in
      let m1 = record m { mem = mem } in
      let (screen, checked) = exe_file_okay_decides (header_at buffer mem) m1 in
      let okay = exe_file_okay-OnLog (header_at buffer mem) m1 _ _ checked in
      let (e, m', r, is_started) =
        load_executable-Total pal (s.bootfile) buffer exe_fcb fd v rest mem
          (patched buffer exe_fcb s (m.mem)) closes enters flushes reads small
          (record m1 { screen = screen }) (refl, ap (λ k. k.1) okay ∙ left) in
      let decided = checked ∙ ap (λ b. done b (record m1 { screen = screen })) accepted in
      (m', rw (read, decided, ◌>>=◌, apart) (r ∙ ap (λ x. done x m') is_started))
