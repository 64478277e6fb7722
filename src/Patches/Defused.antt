-- ===== src/Patches/Defused.antt =====
-- The whole of loader/patch-ap.S, and the system call that loader/patcher.c leads to it.
use tonyhax.Base.{
  ◌≤◌, ℕ, ◌+◌, ◌*◌, ◌/◌, ◌%◌, ◌^◌, ◌<◌, ◌≡◌, refl, sym, ap, ◌∙◌, arith, Bool, true, Bool-cases, inl,
  inr, ◌&&◌, ◌||◌, ==_iff, eq_refl, ◌==◌, ltb, leb, Option, none, if◌then◌else◌, u32, Memory,
  IsBytes, load32, bit_and, bit_xor,
}
use tonyhax.Base.Bits.{
  bit_xor_fields, bit_xor_injective, bit_and_fields, bit_and_mask, bit_and_comm, bit_xor-lt,
  bit_xor_cancel, zero-bit_xor,
}
use mathlib.Core.Path.{ap₂}
use tonyhax.Cpu.{
  r0, v0, t0, t1, t2, lw, li, addi, xor, and, srl, bne, Code, ◌⨾◌, Cpu, put, step, run,
}
use tonyhax.Cpu.Steps.{run-lw, run-addi}
use tonyhax.Patches.{patch_ap_skip, patch_ap_start}
use tonyhax.Patches.Antimodchip.{Fits, IsNear, Reached, Exits, module_frames}
use tonyhax.Patches.Returns.{frames_code, frames-Exits}

-- A multiple of four in the first 8 MiB, or in the same at 0x80000000.
abbrev pub holds_code : ℕ → Bool
holds_code a = a % 4 == 0 && (ltb a 0x800000 || leb 0x80000000 a && ltb a 0x80800000)

code_mask : (a : ℕ) → a < 2 ^ 32 → (bit_and 0x7F800003 a == 0) ≡ holds_code a
code_mask a h =
    let parts : a ≡ a / 2 ^ 23 * 2 ^ 23 + a % 2 ^ 23 = omega arith in
    let split : bit_and 0x7F800003 a ≡ a / 2 ^ 23 % 2 ^ 8 * 2 ^ 23 + a % 2 ^ 23 % 2 ^ 2 =
      ap (λ (t : ℕ). bit_and 0x7F800003 t) parts
      ∙ bit_and_fields 23 255 (a / 2 ^ 23) 3 (a % 2 ^ 23) (omega arith) (omega arith)
      ∙ omega (
        arith,
        bit_and_comm 255 (a / 2 ^ 23),
        bit_and_mask 8 (a / 2 ^ 23),
        bit_and_comm 3 (a % 2 ^ 23),
        bit_and_mask 2 (a % 2 ^ 23),
      ) in
    ground (arith, split)

xor_quotient : (a b : ℕ) → bit_xor a b / 2 ^ 21 ≡ bit_xor (a / 2 ^ 21) (b / 2 ^ 21)
xor_quotient a b =
    let qa : ℕ = a / 2 ^ 21 in
    let qb : ℕ = b / 2 ^ 21 in
    let ea : a ≡ qa * 2 ^ 21 + a % 2 ^ 21 = omega arith in
    let eb : b ≡ qb * 2 ^ 21 + b % 2 ^ 21 = omega arith in
    let split : bit_xor a b ≡ bit_xor qa qb * 2 ^ 21 + bit_xor (a % 2 ^ 21) (b % 2 ^ 21) =
      ap₂ bit_xor ea eb
      ∙ bit_xor_fields 21 qa qb (a % 2 ^ 21) (b % 2 ^ 21) (omega arith) (omega arith) in
    omega (arith, split, bit_xor-lt 21 (a % 2 ^ 21) (b % 2 ^ 21) (omega arith) (omega arith))

xor_self : (a : ℕ) → bit_xor a a ≡ 0
xor_self a = ap (λ (t : ℕ). bit_xor t a) (sym (zero-bit_xor a)) ∙ bit_xor_cancel 0 a

xor_is_zero : (a b : ℕ) → (bit_xor a b == 0) ≡ (b == a)
xor_is_zero a b = elim (Bool-cases (b == a)) [
  | inl same ↦ let e : b ≡ a = (==_iff b a).0 same in rw (e, xor_self a) (sym (eq_refl a))
  | inr other ↦ elim (Bool-cases (bit_xor a b == 0)) [
    | inl zeroed ↦
        let e : a ≡ b =
          bit_xor_injective a b b ((==_iff (bit_xor a b) 0).0 zeroed ∙ sym (xor_self b)) in
        absurd (ground (arith, e))
    | inr n ↦ n ∙ sym other
  ]
]

-- Two addresses agree above their 21 low bits.
same_block : (a b : ℕ) → (bit_xor a b / 2 ^ 21 == 0) ≡ (b / 2 ^ 21 == a / 2 ^ 21)
same_block a b = ap (λ (t : ℕ). t == 0) (xor_quotient a b) ∙ xor_is_zero (a / 2 ^ 21) (b / 2 ^ 21)

-- The frames from which the patch returns, for a thread with its state at the address: the stack pointer and the
-- place of the return address, 0x28 above, lie in one block of 2 MiB, and the return address leads
-- into a module.
abbrev pub caller_frames : ℕ → Memory → Option (ℕ × ℕ)
caller_frames thread mem =
    let sp = load32 mem (thread + 0x7C) in
    let caller = load32 mem (sp + 0x28) in
    if sp / 2 ^ 21 == (sp + 0x28) / 2 ^ 21 && holds_code caller
    then module_frames caller mem
    else none

holds_code-IsNear :
    (mapped : ℕ → Bool) (a : ℕ)
    → holds_code a ≡ true
    → ((off : ℕ) → off ≤ 0x7C → mapped (a + off) ≡ true)
    → IsNear mapped a
holds_code-IsNear mapped a h there = record {
  aligned = ground arith;
  small = ground arith;
  code_mapped = there;
}

-- The code that the alleged return address leads to is memory, where the patch looks at it.
abbrev pub CallerMapped : Cpu → ℕ → Type 0
CallerMapped c sp =
    (off : ℕ)
    → off ≤ 0x7C
    → (sp / 2 ^ 21 == (sp + 0x28) / 2 ^ 21 && holds_code (load32 (c.mem) (sp + 0x28))) ≡ true
    → c.mapped (load32 (c.mem) (sp + 0x28) + off) ≡ true

module _ (success skip : ℕ) where
  -- The part behind the first check, with the stack pointer in `t0`.
  caller_code : Code
  caller_code =
      lw t1 0x28 t0
      ⨾ li t2 0x7F800003
      ⨾ and t2 t2 t1
      ⨾ bne t2 r0 (patch_ap_skip success skip) (frames_code success skip)

  caller-Exits :
      (c : Cpu)
      → IsBytes (c.mem)
      → Fits (c.mapped) (c.regs v0) (c.regs t0)
      → c.regs t0 / 2 ^ 21 ≡ (c.regs t0 + 0x28) / 2 ^ 21
      → CallerMapped c (c.regs t0)
      → Reached (c.mapped) (c.regs t0) (
          if holds_code (load32 (c.mem) (c.regs t0 + 0x28))
          then module_frames (load32 (c.mem) (c.regs t0 + 0x28)) (c.mem)
          else none)
      → Exits success skip
          (if holds_code (load32 (c.mem) (c.regs t0 + 0x28))
            then module_frames (load32 (c.mem) (c.regs t0 + 0x28)) (c.mem)
            else none)
          (c.regs v0)
          (c.regs t0)
          (c.mem)
          (run caller_code c)
  unfolding caller_code run step patch_ap_skip
  caller-Exits c bytes fits block there =
      let caller : ℕ = load32 (c.mem) (c.regs t0 + 0x28) in
      let small : caller < 2 ^ 32 = omega (
        arith,
        bytes (c.regs t0 + 0x28),
        bytes (c.regs t0 + 0x28 + 1),
        bytes (c.regs t0 + 0x28 + 2),
        bytes (c.regs t0 + 0x28 + 3),
      ) in
      let masked = code_mask caller small in
      let loaded =
        run-lw t1 0x28 t0
          (li t2 0x7F800003
            ⨾ and t2 t2 t1
            ⨾ bne t2 r0 (patch_ap_skip success skip) (frames_code success skip))
          c
          (record {
            aligned = omega (arith, fits.sp_aligned);
            small = omega (arith, fits.sp_small);
          })
          (fits.stack_mapped (c.regs t0 + 0x28) (sym block)) in
      let c1 : Cpu = put t2 (bit_and 0x7F800003 caller) (put t2 0x7F800003 (put t1 caller c)) in
      elim (Bool-cases (holds_code caller)) [
        | inr other ↦ rw (loaded, masked ∙ other, other) (λ reached. (_, refl, refl, refl))
        | inl found ↦
            rw (loaded, masked ∙ found, found)
              (frames-Exits success skip c1 fits (
                holds_code-IsNear (c.mapped) caller found
                  (λ off h. there off h (rw (found) (ground (arith, block))))))
      ]

  -- With the state of a thread in `v0`, the patch exits by `success`, if the thread's stack shows that it was
  -- called from an antimodchip module: the thread then goes on behind the call of the module's function that
  -- would stop the game, with that function's frame and those above it removed, and with s0 and s1 zero. Else it
  -- exits by `skip`, with memory as it was. The register `v0` is left alone, and no access traps: where the place
  -- 0x28 above the stack pointer is in another block of 2 MiB, it is not read. This is for a thread whose state is
  -- memory, with a stack at a multiple of four, in a block of 2 MiB that is all memory, and not at the end of
  -- one of the halves of the address space; and where a return address in RAM leads to memory, and the frames of a
  -- module end in memory.
  pub patch_ap_lem :
      (c : Cpu)
      → IsBytes (c.mem)
      → Fits (c.mapped) (c.regs v0) (load32 (c.mem) (c.regs v0 + 0x7C))
      → CallerMapped c (load32 (c.mem) (c.regs v0 + 0x7C))
      → Reached (c.mapped) (load32 (c.mem) (c.regs v0 + 0x7C)) (caller_frames (c.regs v0) (c.mem))
      → Exits success skip
          (caller_frames (c.regs v0) (c.mem))
          (c.regs v0)
          (load32 (c.mem) (c.regs v0 + 0x7C))
          (c.mem)
          (run (patch_ap_start success skip) c)
  unfolding patch_ap_start run step patch_ap_skip caller_code frames_code
  patch_ap_lem c bytes fits there =
      let sp : ℕ = load32 (c.mem) (c.regs v0 + 0x7C) in
      let checks : Code =
        xor t1 t1 t0 ⨾ srl t1 t1 21 ⨾ bne t1 r0 (patch_ap_skip success skip) caller_code in
      let c1 : Cpu = put t0 sp c in
      let c2 : Cpu = put t1 (sp + 0x28) c1 in
      let sum : u32 (sp + 0x28) ≡ sp + 0x28 = omega (arith, fits.sp_small) in
      let enters : run (patch_ap_start success skip) c ≡ run checks c2 =
        run-lw t0 0x7C v0 (addi t1 t0 0x28 ⨾ checks) c
          (record {
            aligned = omega (arith, fits.thread_aligned);
            small = omega (arith, fits.thread_small);
          })
          (fits.thread_mapped 0x7C (omega arith))
        ∙ run-addi t1 t0 0x28 checks c1 (omega arith) (ground (arith, fits.in_half))
        ∙ ap (λ (t : ℕ). run checks (put t1 t c1)) sum in
      let c3 : Cpu =
        put t1 (bit_xor (sp + 0x28) sp / 2 ^ 21) (put t1 (bit_xor (sp + 0x28) sp) c2) in
      rw enters (elim (Bool-cases (sp / 2 ^ 21 == (sp + 0x28) / 2 ^ 21)) [
        | inr other ↦
            rw (same_block (sp + 0x28) sp ∙ other, other) (λ reached. (_, refl, refl, refl))
        | inl same ↦
            rw (same_block (sp + 0x28) sp ∙ same, same)
              (caller-Exits c3 bytes fits (ground (arith, same)) there)
      ])
