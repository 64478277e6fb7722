-- ===== src/Patcher/Returns.antt =====
-- `patcher_apply` of loader/patcher.c returns, whatever the kernel's code is.
use tonyhax.Base.{ℕ, ◌+◌, ◌*◌, ◌==◌, not, refl, arith, [], codes, ◌>>>◌, length, Bytes, Memory}
use tonyhax.Libc.{strcmp_zero}
use tonyhax.Str.{mini_vsprintf, vsprintf_loop}
use tonyhax.Machine.{pure, ◌>>=◌, ◌>>◌}
use tonyhax.Debugscreen.{debug_write, in_buffer}
use tonyhax.Debugscreen.Quiet.{
  Quiet, >>=-Quiet, pure-Quiet, if-Quiet, change_mem-Quiet, debug_write-Quiet,
}
use tonyhax.Rom.{bios_is_ps1}
use tonyhax.Patcher.{
  Blobs, Tables, hook_buttons, encode_jal, copy_bytes, get_mem, put_mem, verifier_lw,
  generic_checked, install_generic_antipiracy_patch, install_vandal_patch, install_fpb_patch,
  patcher_apply,
}

get_mem-Quiet : Quiet get_mem
unfolding get_mem
get_mem-Quiet st m h = (m.mem, m, refl, h)

put_mem-Quiet : (mem : Memory) → Quiet (put_mem mem)
unfolding put_mem
put_mem-Quiet mem = change_mem-Quiet (λ _. mem)

-- A patch that changes memory by `f`, and the end of its code.
stored-Quiet :
    (f : Memory → Memory) (end : ℕ) → Quiet (get_mem >>= λ mem. put_mem (f mem) >> pure end)
stored-Quiet f end =
    >>=-Quiet get_mem _ get_mem-Quiet
      (λ mem. >>=-Quiet (put_mem (f mem)) _ (put_mem-Quiet (f mem)) (λ u. pure-Quiet end))

bios_is_ps1-Quiet : Quiet bios_is_ps1
unfolding bios_is_ps1
bios_is_ps1-Quiet st m h = (_, m, refl, h)

module _ (blobs : Blobs) (tables : Tables) where
  generic_checked-Quiet :
      (lw_op a : ℕ) (mem : Memory) → Quiet (generic_checked blobs tables lw_op a mem)
  unfolding generic_checked in_buffer mini_vsprintf vsprintf_loop
  generic_checked-Quiet lw_op a mem =
      if-Quiet (not (lw_op >>> 16 == 0x8C39)) _ _
        (>>=-Quiet (debug_write (codes "Aborted! Please report this!") []) _
          (debug_write-Quiet _ [] (codes "Aborted! Please report this!") refl (omega arith))
          (λ u. pure-Quiet a))
        (>>=-Quiet (put_mem _) _ (put_mem-Quiet _) (λ u. pure-Quiet _))

  install_generic-Quiet : (a : ℕ) → Quiet (install_generic_antipiracy_patch blobs tables a)
  unfolding install_generic_antipiracy_patch in_buffer mini_vsprintf vsprintf_loop
  install_generic-Quiet a =
      >>=-Quiet (debug_write (codes " * Generic antipiracy") []) _
        (debug_write-Quiet _ [] (codes " * Generic antipiracy") refl (omega arith))
        (λ u.
          >>=-Quiet get_mem _ get_mem-Quiet
            (λ mem. generic_checked-Quiet (verifier_lw blobs tables mem) a mem))

  install_vandal_patch-Quiet : (a : ℕ) → Quiet (install_vandal_patch blobs tables a)
  unfolding install_vandal_patch in_buffer mini_vsprintf vsprintf_loop
  install_vandal_patch-Quiet a =
      >>=-Quiet (debug_write (codes " * Vandal Hearths 2 AP") []) _
        (debug_write-Quiet _ [] (codes " * Vandal Hearths 2 AP") refl (omega arith))
        (λ u. stored-Quiet (hook_buttons blobs tables a) (a + length (blobs.vandal)))

  install_fpb_patch-Quiet : (a : ℕ) → Quiet (install_fpb_patch blobs tables a)
  unfolding install_fpb_patch in_buffer mini_vsprintf vsprintf_loop
  install_fpb_patch-Quiet a =
      >>=-Quiet (debug_write (codes " * FreePSXBoot") []) _
        (debug_write-Quiet _ [] (codes " * FreePSXBoot") refl (omega arith))
        (λ u.
          stored-Quiet (λ mem. encode_jal 0x5B40 a (copy_bytes a (blobs.fpb) mem))
            (a + length (blobs.fpb)))

  pub patcher_apply-Quiet : (boot_file : Bytes) → Quiet (patcher_apply blobs tables boot_file)
  unfolding patcher_apply in_buffer mini_vsprintf vsprintf_loop
  patcher_apply-Quiet boot_file =
      >>=-Quiet (debug_write (codes "Installing patches:") []) _
        (debug_write-Quiet _ [] (codes "Installing patches:") refl (omega arith))
        (λ u.
          >>=-Quiet _ _
            (if-Quiet (strcmp_zero boot_file (codes "cdrom:\\SLUS_009.40;1"))
              (install_vandal_patch blobs tables (tables.b0 + 4 * 0x5E))
              (install_generic_antipiracy_patch blobs tables (tables.b0 + 4 * 0x5E))
              (install_vandal_patch-Quiet _) (install_generic-Quiet _))
            (λ install_addr. >>=-Quiet bios_is_ps1 _ bios_is_ps1-Quiet (λ ps1.
              if-Quiet ps1 _ _
                (>>=-Quiet (install_fpb_patch blobs tables install_addr) _
                  (install_fpb_patch-Quiet install_addr) (λ end. pure-Quiet tt))
                (pure-Quiet tt))))
