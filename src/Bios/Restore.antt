-- ===== src/Bios/Restore.antt =====
-- What loader/bios.c puts back into the kernel's A table.
use tonyhax.Base.{
  ℕ, ◌+◌, ◌^◌, ◌<◌, ◌≡◌, refl, arith, Memory, IsBytes, load32, store32, load32-store32,
}
use tonyhax.Machine.{Machine, done, ◌>>=◌}
use tonyhax.Patcher.{a0_entry}
use tonyhax.Bios.{
  Calls, default_evcb, default_tcb, default_stacktop, configure_kernel, bios_inject_disc_error,
  bios_restore_disc_error,
}

load32-lt : (mem : Memory) (a : ℕ) → IsBytes mem → load32 mem a < 2 ^ 32
load32-lt mem a bytes = omega (arith, bytes a, bytes (a + 1), bytes (a + 2), bytes (a + 3))

-- The kernel is configured with the fake `EnqueueCdIntr` in its A table, and whatever `SetConf` does
-- there when it returns, the entry afterwards is the one from before; only memory is changed besides
-- what `SetConf` changes.
pub configure_kernel_lem :
    (calls : Calls) (m m' : Machine)
    → IsBytes (m.mem)
    → calls.set_conf default_evcb default_tcb default_stacktop
        (record m { mem = store32 (a0_entry 0xA2) (calls.fake_enqueue_cd_intr) (m.mem) })
      ≡ done tt m'
    → (mem : Memory) × (configure_kernel calls m ≡ done tt (record m' { mem = mem }))
      × (load32 mem (a0_entry 0xA2) ≡ load32 (m.mem) (a0_entry 0xA2))
unfolding configure_kernel
configure_kernel_lem calls m m' bytes e = (
  store32 (a0_entry 0xA2) (load32 (m.mem) (a0_entry 0xA2)) (m'.mem),
  rw (e, ◌>>=◌) refl,
  load32-store32 (a0_entry 0xA2) (load32 (m.mem) (a0_entry 0xA2)) (m'.mem)
      (load32-lt (m.mem) (a0_entry 0xA2) bytes),
)

-- Restoring the disc-error handler with the entry that stood there before the hook gives back the
-- memory from before, byte for byte.
pub bios_restore-inject :
    (calls : Calls) (mem : Memory) (a : ℕ)
    → IsBytes mem
    → bios_restore_disc_error (load32 mem (a0_entry 0xA1)) (bios_inject_disc_error calls mem) a
      ≡ mem a
unfolding bios_restore_disc_error bios_inject_disc_error
bios_restore-inject calls mem a bytes = ground (
  arith,
  bytes (a0_entry 0xA1),
  bytes (a0_entry 0xA1 + 1),
  bytes (a0_entry 0xA1 + 2),
  bytes (a0_entry 0xA1 + 3),
)
