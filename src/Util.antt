-- ===== src/Util.antt =====
-- loader/util.c: `delay_ds`.
pub mod Frames
use tonyhax.Base.{ℕ, zero, suc, ◌*◌, u32, if◌then◌else◌}
use tonyhax.Machine.{Machine, Outcome, done, waits, fault, M, pure, ◌>>=◌, ◌>>◌}
use tonyhax.Gpu.{gpu_is_pal, gpu_wait_vblank}

unfoldable pub frames_loop : ℕ → M (Unit {0})
frames_loop zero = pure tt
frames_loop (suc frames) = do gpu_wait_vblank; frames_loop frames

unfoldable pub delay_ds : ℕ → M (Unit {0})
delay_ds deciseconds = do pal ← gpu_is_pal; frames_loop (u32 (deciseconds * (if pal then 5 else 6)))
