-- ===== src/Stubs/Documented.antt =====
-- The calls of loader/bios-asm.S against what loader/bios.h documents.
use tonyhax.Base.{
  true, ℕ, ◌+◌, ◌%◌, ◌^◌, ◌≤◌, ◌<◌, ◌≡◌, ◌⊎◌, refl, arith, false, Bool, ◌&&◌, leb, ◌==◌,
  if◌then◌else◌, Option, some, u32, ◌∙◌, All, load32,
}
use tonyhax.Cpu.{t1, sp, ra, addi, jr, ◌⨾◌, put, Cpu, run}
use tonyhax.Cpu.Steps.{run-lw, run-addi}
use tonyhax.Stubs.{
  Call, do_execute, stub, documented, program_calls, gpu_calls, system_calls, b_calls, c_calls,
  fake_enqueue_cd_intr,
}

-- Whether a call clears the register first: `DoExecute` does so with `s1` to `s6`.
abbrev pub clears : Call → ℕ → Bool
clears do_execute r = leb 17 r && leb r 22
clears _ r = false

-- The call goes to the table's dispatcher, with the number in `t1`.
abbrev pub Dispatches : Cpu → Call × ℕ × ℕ → Type 0
Dispatches c (call, table, number) =
    (c' : Cpu) × (run (stub call) c ≡ some (table, c'))
    × (c'.mem ≡ c.mem)
    × (c'.regs t1 ≡ number)
    × ((r : ℕ) → (r == t1) ≡ false → c'.regs r ≡ (if clears call r then 0 else c.regs r))

infixr 2 ◌&◌
◌&◌ : {A B : Type 0} → A → B → A × B
a & b = (a, b)

plain :
    {number : ℕ} {table : ℕ} {c : Cpu}
    → (c' : Cpu) × (◌≡◌ {A = Option (ℕ × Cpu)} (some (table, put t1 number c)) (some (table, c')))
      × (c'.mem ≡ c.mem)
      × (c'.regs t1 ≡ number)
      × ((r : ℕ) → (r == t1) ≡ false → c'.regs r ≡ c.regs r)
plain {number} {table} {c} = (put t1 number c, refl, refl, refl, λ r other. rw other refl)

cleared : (c : Cpu) → Dispatches c (do_execute, 0xA0, 0x43)
unfolding stub run
cleared c = (_, refl, refl, refl, λ r other. rw other (ground arith))

-- Each call that loader/bios.h documents goes to the dispatcher of its documented table with its documented
-- number in `t1`. Memory and the other registers keep their values, but that `DoExecute` clears `s1` to `s6`.
pub stub-Dispatches : (c : Cpu) → All (Dispatches c) documented
unfolding stub run documented program_calls gpu_calls system_calls b_calls c_calls
stub-Dispatches c =
    plain
    & cleared c
    & plain
    & plain
    & plain
    & plain
    & plain
    & plain
    & plain
    & plain
    & plain
    & plain
    & plain
    & plain
    & plain
    & plain
    & plain
    & plain
    & plain
    & plain
    & plain
    & plain
    & plain
    & tt

-- `FakeEnqueueCdIntr` returns from its caller: called with a frame of 0x18 bytes that has a return address at
-- 0x14, it goes to that address with the frame taken off the stack, and it changes nothing else but `ra`. The
-- stack pointer is a multiple of four whose frame lies in memory, in one half of the address space.
pub fake_enqueue_cd_intr_lem :
    (c : Cpu)
    → c.regs sp % 4 ≡ 0
    → c.regs sp + 0x18 < 2 ^ 32
    → (c.regs sp + 0x18 < 2 ^ 31) ⊎ (2 ^ 31 ≤ c.regs sp)
    → c.mapped (c.regs sp + 0x14) ≡ true
    → (c' : Cpu) × (run fake_enqueue_cd_intr c ≡ some (load32 (c.mem) (c.regs sp + 0x14), c'))
      × (c'.mem ≡ c.mem)
      × (c'.regs sp ≡ c.regs sp + 0x18)
      × ((r : ℕ) → (r == sp) ≡ false → (r == ra) ≡ false → c'.regs r ≡ c.regs r)
unfolding fake_enqueue_cd_intr run
fake_enqueue_cd_intr_lem c aligned small half there =
    let loaded : Cpu = put ra (load32 (c.mem) (c.regs sp + 0x14)) c in
    let sum : u32 (c.regs sp + 0x18) ≡ c.regs sp + 0x18 = omega arith in
    (
      put sp (u32 (c.regs sp + 0x18)) loaded,
      run-lw ra 0x14 sp (addi sp sp 0x18 ⨾ jr ra) c
            (record { aligned = omega arith; small = omega arith }) there
          ∙ run-addi sp sp 0x18 (jr ra) loaded (omega arith) half,
      refl,
      sum,
      λ r other another. rw (other, another) refl,
    )
