-- ===== src/Patches/Antimodchip.antt =====
-- What loader/patch-ap.S does to a thread: it returns from an antimodchip module, and from nothing else.
use tonyhax.Base.{
  ℕ, ◌+◌, ◌%◌, ◌/◌, true, ◌^◌, ◌<◌, ◌≤◌, ◌≡◌, ◌⊎◌, Bool, ◌&&◌, ◌||◌, ◌==◌, Option, some, none,
  if◌then◌else◌, Memory, load32, store32,
}
use tonyhax.Cpu.{v0, Cpu}
use tonyhax.Patcher.{lui_word, ori_word}

-- Two instructions that load a value into a register.
abbrev pub loads : ℕ → ℕ → ℕ → Memory → Bool
loads r v a mem = load32 mem a == lui_word r v && load32 mem (a + 4) == ori_word r v

-- The instructions of `sh zero, 0x1F801DAA`, which mutes the audio.
abbrev pub mutes : ℕ → Memory → Bool
mutes a mem = load32 mem a == lui_word 1 0x1F800000 && load32 mem (a + 4) == 0xA4201DAA

-- Where a module's function that stops the game keeps its return address, above the stack pointer, and the
-- place behind the frames; for the code that stands at the address.
abbrev pub module_frames : ℕ → Memory → Option (ℕ × ℕ)
module_frames a mem =
    if loads 2 0xE6000002 (a + 0x74) mem
    then some (0xE8, 0xF0)
    else if loads 3 0xE6000002 (a + 0x64) mem || mutes (a + 0x18) mem
    then some (0x120, 0x128)
    else none

-- The thread's state after the return from the module: registers s0, s1, sp and ra.
abbrev pub returned_from : ℕ → ℕ → ℕ × ℕ → Memory → Memory
returned_from thread sp frames mem = store32 (thread + 0x88) (load32 mem (sp + frames.0)) (
    store32 (thread + 0x7C) (sp + frames.1)
      (store32 (thread + 0x4C) 0 (store32 (thread + 0x48) 0 mem)))

abbrev pub memory_left : ℕ → ℕ → Option (ℕ × ℕ) → Memory → Memory
memory_left thread sp none mem = mem
memory_left thread sp (some frames) mem = returned_from thread sp frames mem

-- The state of a thread stands in memory at a multiple of four, and so does its stack, away from the ends of
-- the address space and of its lower half. If a place of a block of 2 MiB has the stack, all of the block is memory.
pub record Fits (mapped : ℕ → Bool) (thread sp : ℕ) : Type 0 where
  pub thread_aligned : thread % 4 ≡ 0
  pub thread_small : thread + 0x88 < 2 ^ 32
  pub thread_mapped : (off : ℕ) → off ≤ 0x88 → mapped (thread + off) ≡ true
  pub sp_aligned : sp % 4 ≡ 0
  pub sp_small : sp + 0x128 < 2 ^ 32
  pub in_half : (sp + 0x128 < 2 ^ 31) ⊎ (2 ^ 31 ≤ sp)
  pub stack_mapped : (a : ℕ) → a / 2 ^ 21 ≡ sp / 2 ^ 21 → mapped a ≡ true

-- The code at the address is memory up to the last word that is compared.
pub record IsNear (mapped : ℕ → Bool) (a : ℕ) : Type 0 where
  pub aligned : a % 4 ≡ 0
  pub small : a + 0x7C < 2 ^ 32
  pub code_mapped : (off : ℕ) → off ≤ 0x7C → mapped (a + off) ≡ true

-- The place that keeps the return address is memory.
abbrev pub Reached : (ℕ → Bool) → ℕ → Option (ℕ × ℕ) → Type 0
Reached mapped sp none = Unit {0}
Reached mapped sp (some frames) = mapped (sp + frames.0) ≡ true

module _ (success skip : ℕ) where
  -- The code exits by `success` with the thread returned from these frames, or by `skip` with memory as it
  -- was; the register of the thread is left alone.
  abbrev pub Exits : Option (ℕ × ℕ) → ℕ → ℕ → Memory → Option (ℕ × Cpu) → Type 0
  Exits frames thread sp mem o =
      (c' : Cpu) × (o ≡ some (elim frames [ none ↦ skip | some f ↦ success ], c'))
      × (c'.mem ≡ memory_left thread sp frames mem)
      × (c'.regs v0 ≡ thread)
