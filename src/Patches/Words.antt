-- ===== src/Patches/Words.antt =====
-- The word that loader/patch-fpb.S clears in a sector, and the one that patch-vandal-hearths-2.S clears in a
-- game.
use tonyhax.Base.{
  ap, ◌∙◌, ℕ, ◌+◌, ◌%◌, ◌^◌, ◌<◌, ◌≡◌, refl, arith, Bool, true, false, Bool-cases, inl, inr, ◌&&◌,
  ◌==◌, some, [], ◌∷◌, if◌then◌else◌, Bytes, codes, Memory, IsBytes, load32, store32,
}
use tonyhax.Cpu.{r0, a1, a2, t0, t1, t2, li, sw, bne, ◌⨾◌, Cpu, put, step, run}
use tonyhax.Cpu.Steps.{IsPlace, run-lw, run-sw}
use tonyhax.Patcher.{jal_word}
use tonyhax.Patches.{patch_vandal_return, patch_fpb_ret, patch_fpb_start, patch_vandal_start}

-- These bytes stand at the address.
abbrev pub stands : Bytes → ℕ → Memory → Bool
stands [] a mem = true
stands (c ∷ t) a mem = mem a == c && stands t (a + 1) mem

magic :
    (mem : Memory) (a : ℕ)
    → IsBytes mem
    → (load32 mem a == 0x5A425046) ≡ stands (codes "FPBZ") a mem
magic mem a bytes = ground (arith, bytes a, bytes (a + 1), bytes (a + 2), bytes (a + 3))

-- The branches of the patch for FreePSXBoot.
fpb_branches :
    (c : Cpu)
    → IsPlace (c.regs a1 + 0)
    → c.mapped (c.regs a1 + 0) ≡ true
    → run (bne a2 r0 patch_fpb_ret (bne t0 t1 patch_fpb_ret (sw r0 0 a1 ⨾ patch_fpb_ret))) c
      ≡ some (
        0x5B54,
        record c {
          mem =
              if c.regs a2 == 0 && c.regs t0 == c.regs t1
              then store32 (c.regs a1 + 0) 0 (c.mem)
              else c.mem;
        },
      )
unfolding run patch_fpb_ret
fpb_branches c place there = elim (Bool-cases (c.regs a2 == 0)) [
  | inr other ↦ rw other refl
  | inl first ↦ elim (Bool-cases (c.regs t0 == c.regs t1)) [
    | inr other ↦ rw (first, other) refl
    | inl same ↦ rw (first, same) (run-sw r0 0 a1 patch_fpb_ret c place there)
  ]
]

-- The patch for FreePSXBoot, called with a sector's buffer in `a1` and the sector's number in `a2`: in sector 0,
-- if "FPBZ" stands at offset 0x7C, the sector's first word is cleared; else memory is left alone. The
-- code goes on in the kernel at 0x5B54, and no register changes but `t0` and `t1`. This is for a buffer in
-- memory at a multiple of four.
pub patch_fpb_lem :
    (c : Cpu)
    → IsBytes (c.mem)
    → c.regs a1 % 4 ≡ 0
    → c.regs a1 + 0x7C < 2 ^ 32
    → c.mapped (c.regs a1) ≡ true
    → c.mapped (c.regs a1 + 0x7C) ≡ true
    → (c' : Cpu) × (run patch_fpb_start c ≡ some (0x5B54, c'))
      × (c'.mem ≡ (
          if c.regs a2 == 0 && stands (codes "FPBZ") (c.regs a1 + 0x7C) (c.mem)
          then store32 (c.regs a1) 0 (c.mem)
          else c.mem))
      × ((r : ℕ) → (r == t0) ≡ false → (r == t1) ≡ false → c'.regs r ≡ c.regs r)
unfolding patch_fpb_start run step
patch_fpb_lem c bytes aligned small word magic_word =
    let loaded : Cpu = put t1 0x5A425046 (put t0 (load32 (c.mem) (c.regs a1 + 0x7C)) c) in
    let first : c.regs a1 + 0 ≡ c.regs a1 = omega arith in
    let branches =
      fpb_branches loaded (record { aligned = omega arith; small = omega arith })
        (ap (c.mapped) first ∙ word) in
    (
      _,
      run-lw t0 0x7C a1
            (li t1 0x5A425046
              ⨾ bne a2 r0 patch_fpb_ret (bne t0 t1 patch_fpb_ret (sw r0 0 a1 ⨾ patch_fpb_ret)))
            c (record { aligned = omega arith; small = small }) magic_word
          ∙ branches,
      rw (first, magic (c.mem) (c.regs a1 + 0x7C) bytes) refl,
      (λ r other other'. rw (other', other) refl),
    )

vandal_branches :
    (real : ℕ) (c : Cpu)
    → IsPlace (c.regs t0 + 0)
    → c.mapped (c.regs t0 + 0) ≡ true
    → run (bne t1 t2 (patch_vandal_return real) (sw r0 0 t0 ⨾ patch_vandal_return real)) c
      ≡ some (
        real,
        record c {
          mem = if c.regs t1 == c.regs t2 then store32 (c.regs t0 + 0) 0 (c.mem) else c.mem;
        },
      )
unfolding run patch_vandal_return
vandal_branches real c place there = elim (Bool-cases (c.regs t1 == c.regs t2)) [
  | inr other ↦ rw other refl
  | inl same ↦ rw same (run-sw r0 0 t0 (patch_vandal_return real) c place there)
]

-- The patch for Vandal Hearts 2: the instruction at 0x80040C98 becomes a NOP if it is the call of the
-- antipiracy check at 0x80042854, and else memory is left alone. Then the real function runs, with no
-- register changed but `t0`, `t1` and `t2`. This is for an instruction in memory.
pub patch_vandal_lem :
    (real : ℕ) (c : Cpu)
    → c.mapped 0x80040C98 ≡ true
    → (c' : Cpu) × (run (patch_vandal_start real) c ≡ some (real, c'))
      × (c'.mem ≡ (
          if load32 (c.mem) 0x80040C98 == jal_word 0x80042854
          then store32 0x80040C98 0 (c.mem)
          else c.mem))
      × ((r : ℕ) → (r == t0) ≡ false → (r == t1) ≡ false → (r == t2) ≡ false → c'.regs r ≡ c.regs r)
unfolding patch_vandal_start run step jal_word
patch_vandal_lem real c there =
    let called : Cpu =
      put t2 0x0C010A15 (put t1 (load32 (c.mem) 0x80040C98) (put t0 0x80040C98 c)) in
    (
      _,
      run-lw t1 0 t0
            (li t2 0x0C010A15
              ⨾ bne t1 t2 (patch_vandal_return real) (sw r0 0 t0 ⨾ patch_vandal_return real))
            (put t0 0x80040C98 c) (record { aligned = refl; small = omega arith }) there
          ∙ vandal_branches real called (record { aligned = refl; small = omega arith }) there,
      refl,
      (λ r other other' other''. rw (other'', other', other) refl),
    )
