-- ===== src/Patches/Installed.antt =====
-- The system call that loader/patcher.c leads to the code of loader/patch-ap.S.
use tonyhax.Base.{
  ℕ, ◌+◌, ◌/◌, ◌%◌, ◌^◌, ◌<◌, ◌≤◌, ◌≡◌, arith, bit_and, length, Memory, IsBytes, load32,
}
use tonyhax.Machine.{Machine, Screen, done}
use tonyhax.Cpu.{v0, Code, Cpu, run}
use tonyhax.Patcher.{Blobs, Tables, j_word, verifier_lw, install_generic_antipiracy_patch}
use tonyhax.Patcher.Jumps.{jump_target, j_word_sum}
use tonyhax.Patcher.Copied.{Copied, in_jumps}
use tonyhax.Patcher.Hooks.{FitsPatch, install_generic_lem}
use tonyhax.Patches.{patch_ap_start}
use tonyhax.Patches.Antimodchip.{Fits, Reached, Exits}
use tonyhax.Patches.Defused.{caller_frames, CallerMapped, patch_ap_lem}

jump_target-j_word :
    (pc dest : ℕ)
    → dest % 4 ≡ 0
    → dest / 2 ^ 28 ≡ (pc + 4) / 2 ^ 28
    → jump_target pc (j_word dest) ≡ dest
jump_target-j_word pc dest aligned near = omega (arith, j_word_sum dest)

-- The code that is installed at an address, with its two jumps as memory has them.
abbrev pub code_at : Blobs → ℕ → Memory → Code
code_at blobs at mem =
    patch_ap_start (jump_target (at + blobs.ap_success) (load32 mem (at + blobs.ap_success)))
      (jump_target (at + blobs.ap_skip) (load32 mem (at + blobs.ap_skip)))

-- A handler of a system call, to which a jump at the place leads.
pub record IsHandler (pc handler : ℕ) : Type 0 where
  pub aligned : handler % 4 ≡ 0
  pub near : handler / 2 ^ 28 ≡ (pc + 4) / 2 ^ 28

module _ (blobs : Blobs) (tables : Tables) (fits : FitsPatch blobs) where
  -- The patch's bytes stand at its place, but for its two jumps. System call 1 runs it, and it ends where it should: at the original handler of
  -- system call 1, with memory as it was, for a thread that no antimodchip module has called; and at the
  -- original handler of system call 0 for one that a module has called, which then goes on behind the module's
  -- call of the function that would stop the game. This is for a kernel whose verifier has the LW of the table
  -- of system calls as its instruction 20, and whose table stands before the place of the patch and leads to
  -- multiples of four in the same 256 MiB, and under the conditions of `patch_ap_lem`.
  pub install_generic_defuses :
      (at cases : ℕ) (m : Machine) (c : Cpu)
      → verifier_lw blobs tables (m.mem) / 2 ^ 16 ≡ 0x8C39
      → bit_and (verifier_lw blobs tables (m.mem)) 0xFFFF ≡ cases
      → cases + 8 ≤ at
      → at < 2 ^ 32
      → IsHandler (at + blobs.ap_success) (load32 (m.mem) cases)
      → IsHandler (at + blobs.ap_skip) (load32 (m.mem) (cases + 4))
      → IsBytes (c.mem)
      → Fits (c.mapped) (c.regs v0) (load32 (c.mem) (c.regs v0 + 0x7C))
      → CallerMapped c (load32 (c.mem) (c.regs v0 + 0x7C))
      → Reached (c.mapped) (load32 (c.mem) (c.regs v0 + 0x7C)) (caller_frames (c.regs v0) (c.mem))
      → (s : Screen) × (mem : Memory) × (install_generic_antipiracy_patch blobs tables at m
          ≡ done (at + length (blobs.ap)) (record m { screen = s; mem = mem }))
        × (load32 mem (cases + 4) ≡ at)
        × Exits
            (load32 (m.mem) cases)
            (load32 (m.mem) (cases + 4))
            (caller_frames (c.regs v0) (c.mem))
            (c.regs v0)
            (load32 (c.mem) (c.regs v0 + 0x7C))
            (c.mem)
            (run (code_at blobs at mem) c)
        × Copied (in_jumps blobs at) at (blobs.ap) mem
  install_generic_defuses at cases m c lw table clear small nop original bytes fine callers
        reached =
      let (s, mem, e, entry, skip, success, code) =
        install_generic_lem blobs tables fits at cases m lw table clear small in
      let leaves : jump_target (at + blobs.ap_success) (load32 mem (at + blobs.ap_success))
          ≡ load32 (m.mem) cases =
        rw success (
          jump_target-j_word (at + blobs.ap_success) (load32 (m.mem) cases) (nop.aligned)
            (nop.near)) in
      let goes_on : jump_target (at + blobs.ap_skip) (load32 mem (at + blobs.ap_skip))
          ≡ load32 (m.mem) (cases + 4) =
        rw skip (
          jump_target-j_word (at + blobs.ap_skip) (load32 (m.mem) (cases + 4)) (original.aligned)
            (original.near)) in
      (
        s,
        mem,
        e,
        entry,
        rw (leaves, goes_on)
            (patch_ap_lem (load32 (m.mem) cases) (load32 (m.mem) (cases + 4)) c bytes fine callers
              reached),
        code,
      )
