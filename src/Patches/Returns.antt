-- ===== src/Patches/Returns.antt =====
-- The code of loader/patch-ap.S from the first comparison with a module's code on.
use tonyhax.Base.{
  true, ℕ, ◌+◌, ◌%◌, ◌^◌, ◌<◌, ◌≤◌, ◌≡◌, refl, ◌∙◌, arith, Bool-cases, inl, inr, ◌||◌, ◌==◌, some,
  none, if◌then◌else◌, u32, Memory, load32, store32,
}
use tonyhax.Cpu.{r0, v0, t0, t1, t2, t3, lw, li, sw, addi, bne, beq, Code, ◌⨾◌, Cpu, put, step, run}
use tonyhax.Cpu.Steps.{IsPlace, run-lw, run-sw, run-addi}
use tonyhax.Patcher.{lui_word, ori_word}
use tonyhax.Patches.{
  patch_ap_skip, patch_ap_success, patch_ap_save, patch_ap_adjust_v2, patch_ap_v2, patch_ap_v15,
}
use tonyhax.Patches.Antimodchip.{loads, mutes, module_frames, Fits, IsNear, Reached, Exits}

-- A word of the code at `t1` is compared.
compared : ℕ → ℕ → Cpu → Cpu
compared off w c = put t3 w (put t2 (load32 (c.mem) (c.regs t1 + off)) c)

run-compare :
    (off w : ℕ) (other code : Code) (c : Cpu)
    → IsPlace (c.regs t1 + off)
    → c.mapped (c.regs t1 + off) ≡ true
    → run (lw t2 off t1 ⨾ li t3 w ⨾ bne t2 t3 other code) c ≡ (
        if load32 (c.mem) (c.regs t1 + off) == w
        then run code (compared off w c)
        else run other (compared off w c))
unfolding run step compared
run-compare off w other code c place there =
    run-lw t2 off t1 (li t3 w ⨾ bne t2 t3 other code) c place there
    ∙ elim (Bool-cases (load32 (c.mem) (c.regs t1 + off) == w)) [
      | inl same ↦ rw same refl
      | inr different ↦ rw different refl
    ]

module _ (success skip : ℕ) where
  save-Exits :
      (c : Cpu)
      → c.regs v0 % 4 ≡ 0
      → c.regs v0 + 0x88 < 2 ^ 32
      → ((off : ℕ) → off ≤ 0x88 → c.mapped (c.regs v0 + off) ≡ true)
      → run (patch_ap_save success skip) c
        ≡ some (
          success,
          record c {
            mem = store32 (c.regs v0 + 0x88) (c.regs t1) (
                store32
                  (c.regs v0 + 0x7C)
                  (c.regs t0)
                  (store32 (c.regs v0 + 0x4C) 0 (store32 (c.regs v0 + 0x48) 0 (c.mem))));
          },
        )
  unfolding patch_ap_save patch_ap_success run
  save-Exits c aligned small there =
      let place : (off : ℕ) → off % 4 ≡ 0 → off ≤ 0x88 → IsPlace (c.regs v0 + off) =
        λ off word near. record { aligned = omega arith; small = omega arith } in
      let m1 : Memory = store32 (c.regs v0 + 0x48) 0 (c.mem) in
      let m2 : Memory = store32 (c.regs v0 + 0x4C) 0 m1 in
      let m3 : Memory = store32 (c.regs v0 + 0x7C) (c.regs t0) m2 in
      let saves_ra : Code = sw t1 0x88 v0 ⨾ patch_ap_success success skip in
      let saves_sp : Code = sw t0 0x7C v0 ⨾ saves_ra in
      run-sw r0 0x48 v0 (sw r0 0x4C v0 ⨾ saves_sp) c (place 0x48 refl (omega arith))
        (there 0x48 (omega arith))
      ∙ run-sw r0 0x4C v0 saves_sp (record c { mem = m1 }) (place 0x4C refl (omega arith))
          (there 0x4C (omega arith))
      ∙ run-sw t0 0x7C v0 saves_ra (record c { mem = m2 }) (place 0x7C refl (omega arith))
          (there 0x7C (omega arith))
      ∙ run-sw t1 0x88 v0 (patch_ap_success success skip) (record c { mem = m3 })
          (place 0x88 refl (omega arith)) (there 0x88 (omega arith))

  -- The return from a module with its return address and the place behind its frames at these offsets.
  returns-Exits :
      (off size : ℕ) (c : Cpu)
      → off % 4 ≡ 0
      → off ≤ 0x120
      → size ≤ 0x128
      → Fits (c.mapped) (c.regs v0) (c.regs t0)
      → c.mapped (c.regs t0 + off) ≡ true
      → Exits success skip
          (some (off, size))
          (c.regs v0)
          (c.regs t0)
          (c.mem)
          (run (lw t1 off t0 ⨾ addi t0 t0 size ⨾ patch_ap_save success skip) c)
  returns-Exits off size c word below inside fits there =
      let loaded : Cpu = put t1 (load32 (c.mem) (c.regs t0 + off)) c in
      let sp : u32 (c.regs t0 + size) ≡ c.regs t0 + size = omega (arith, fits.sp_small) in
      (
        _,
        run-lw t1 off t0 (addi t0 t0 size ⨾ patch_ap_save success skip) c
              (record {
                aligned = omega (arith, fits.sp_aligned);
                small = omega (arith, fits.sp_small);
              })
              there
            ∙ run-addi t0 t0 size (patch_ap_save success skip) loaded (omega arith)
                (ground (arith, fits.in_half))
            ∙ save-Exits (put t0 (u32 (c.regs t0 + size)) loaded) (fits.thread_aligned)
                (fits.thread_small) (fits.thread_mapped),
        rw sp refl,
        refl,
      )

  adjust_v2-Exits :
      (c : Cpu)
      → Fits (c.mapped) (c.regs v0) (c.regs t0)
      → Reached (c.mapped) (c.regs t0) (some (0x120, 0x128))
      → Exits success skip
          (some (0x120, 0x128))
          (c.regs v0)
          (c.regs t0)
          (c.mem)
          (run (patch_ap_adjust_v2 success skip) c)
  unfolding patch_ap_adjust_v2
  adjust_v2-Exits c fits = returns-Exits 0x120 0x128 c refl (omega arith) (omega arith) fits

  v2-Exits :
      (c : Cpu)
      → Fits (c.mapped) (c.regs v0) (c.regs t0)
      → IsNear (c.mapped) (c.regs t1)
      → Reached
          (c.mapped)
          (c.regs t0)
          (if mutes (c.regs t1 + 0x18) (c.mem) then some (0x120, 0x128) else none)
      → Exits success skip
          (if mutes (c.regs t1 + 0x18) (c.mem) then some (0x120, 0x128) else none)
          (c.regs v0)
          (c.regs t0)
          (c.mem)
          (run (patch_ap_v2 success skip) c)
  unfolding patch_ap_v2 patch_ap_skip run lui_word compared
  v2-Exits c fits near =
      let next : c.regs t1 + 0x18 + 4 ≡ c.regs t1 + 0x1C = omega arith in
      let adjust : Code = patch_ap_adjust_v2 success skip in
      let skips : Code = patch_ap_skip success skip in
      let c1 : Cpu = compared 0x18 0x3C011F80 c in
      let first =
        run-compare 0x18 0x3C011F80 skips
          (lw t2 0x1C t1 ⨾ li t3 0xA4201DAA ⨾ bne t2 t3 skips adjust) c
          (record { aligned = omega (arith, near.aligned); small = omega (arith, near.small) })
          (near.code_mapped 0x18 (omega arith)) in
      let second =
        run-compare 0x1C 0xA4201DAA skips adjust c1
          (record { aligned = omega (arith, near.aligned); small = omega (arith, near.small) })
          (near.code_mapped 0x1C (omega arith)) in
      elim (Bool-cases (load32 (c.mem) (c.regs t1 + 0x18) == 0x3C011F80)) [
        | inr different ↦ rw (first, different) (λ reached. (_, refl, refl, refl))
        | inl same ↦ elim (Bool-cases (load32 (c.mem) (c.regs t1 + 0x1C) == 0xA4201DAA)) [
          | inr different ↦
              rw (first, same, next, second, different) (λ reached. (_, refl, refl, refl))
          | inl same' ↦
              rw (first, same, next, second, same')
                (adjust_v2-Exits (compared 0x1C 0xA4201DAA c1) fits)
        ]
      ]

  v15-Exits :
      (c : Cpu)
      → Fits (c.mapped) (c.regs v0) (c.regs t0)
      → IsNear (c.mapped) (c.regs t1)
      → Reached (c.mapped) (c.regs t0) (
          if loads 3 0xE6000002 (c.regs t1 + 0x64) (c.mem) || mutes (c.regs t1 + 0x18) (c.mem)
          then some (0x120, 0x128)
          else none)
      → Exits success skip
          (if loads 3 0xE6000002 (c.regs t1 + 0x64) (c.mem) || mutes (c.regs t1 + 0x18) (c.mem)
            then some (0x120, 0x128)
            else none)
          (c.regs v0)
          (c.regs t0)
          (c.mem)
          (run (patch_ap_v15 success skip) c)
  unfolding patch_ap_v15 run lui_word ori_word compared
  v15-Exits c fits near =
      let next : c.regs t1 + 0x64 + 4 ≡ c.regs t1 + 0x68 = omega arith in
      let v2 : Code = patch_ap_v2 success skip in
      let adjust : Code = patch_ap_adjust_v2 success skip in
      let c1 : Cpu = compared 0x64 0x3C03E600 c in
      let c2 : Cpu = compared 0x68 0x34630002 c1 in
      let first =
        run-compare 0x64 0x3C03E600 v2 (lw t2 0x68 t1 ⨾ li t3 0x34630002 ⨾ beq t2 t3 adjust v2) c
          (record { aligned = omega (arith, near.aligned); small = omega (arith, near.small) })
          (near.code_mapped 0x64 (omega arith)) in
      let second =
        run-lw t2 0x68 t1 (li t3 0x34630002 ⨾ beq t2 t3 adjust v2) c1
          (record { aligned = omega (arith, near.aligned); small = omega (arith, near.small) })
          (near.code_mapped 0x68 (omega arith)) in
      elim (Bool-cases (load32 (c.mem) (c.regs t1 + 0x64) == 0x3C03E600)) [
        | inr different ↦ rw (first, different) (v2-Exits c1 fits near)
        | inl same ↦ elim (Bool-cases (load32 (c.mem) (c.regs t1 + 0x68) == 0x34630002)) [
          | inr different ↦ rw (first, same, next, second, different) (v2-Exits c2 fits near)
          | inl same' ↦ rw (first, same, next, second, same') (adjust_v2-Exits c2 fits)
        ]
      ]

  -- The return from the first version of the module.
  v1-Exits :
      (c : Cpu)
      → Fits (c.mapped) (c.regs v0) (c.regs t0)
      → Reached (c.mapped) (c.regs t0) (some (0xE8, 0xF0))
      → Exits success skip
          (some (0xE8, 0xF0))
          (c.regs v0)
          (c.regs t0)
          (c.mem)
          (run (lw t1 0xE8 t0 ⨾ addi t0 t0 0xF0 ⨾ patch_ap_save success skip) c)
  v1-Exits c fits = returns-Exits 0xE8 0xF0 c refl (omega arith) (omega arith) fits

  -- The comparisons, for the code that stands at `t1`.
  unfoldable pub frames_code : Code
  frames_code =
      lw t2 0x74 t1
      ⨾ li t3 0x3C02E600
      ⨾ bne t2 t3 (patch_ap_v15 success skip) (
          lw t2 0x78 t1
          ⨾ li t3 0x34420002
          ⨾ bne t2 t3 (patch_ap_v15 success skip)
              (lw t1 0xE8 t0 ⨾ addi t0 t0 0xF0 ⨾ patch_ap_save success skip))

  pub frames-Exits :
      (c : Cpu)
      → Fits (c.mapped) (c.regs v0) (c.regs t0)
      → IsNear (c.mapped) (c.regs t1)
      → Reached (c.mapped) (c.regs t0) (module_frames (c.regs t1) (c.mem))
      → Exits success skip
          (module_frames (c.regs t1) (c.mem))
          (c.regs v0)
          (c.regs t0)
          (c.mem)
          (run frames_code c)
  unfolding frames_code run lui_word ori_word compared
  frames-Exits c fits near =
      let next : c.regs t1 + 0x74 + 4 ≡ c.regs t1 + 0x78 = omega arith in
      let v15 : Code = patch_ap_v15 success skip in
      let returns : Code = lw t1 0xE8 t0 ⨾ addi t0 t0 0xF0 ⨾ patch_ap_save success skip in
      let c1 : Cpu = compared 0x74 0x3C02E600 c in
      let c2 : Cpu = compared 0x78 0x34420002 c1 in
      let first =
        run-compare 0x74 0x3C02E600 v15 (lw t2 0x78 t1 ⨾ li t3 0x34420002 ⨾ bne t2 t3 v15 returns) c
          (record { aligned = omega (arith, near.aligned); small = omega (arith, near.small) })
          (near.code_mapped 0x74 (omega arith)) in
      let second =
        run-compare 0x78 0x34420002 v15 returns c1
          (record { aligned = omega (arith, near.aligned); small = omega (arith, near.small) })
          (near.code_mapped 0x78 (omega arith)) in
      elim (Bool-cases (load32 (c.mem) (c.regs t1 + 0x74) == 0x3C02E600)) [
        | inr different ↦ rw (first, different) (v15-Exits c1 fits near)
        | inl same ↦ elim (Bool-cases (load32 (c.mem) (c.regs t1 + 0x78) == 0x34420002)) [
          | inr different ↦ rw (first, same, next, second, different) (v15-Exits c2 fits near)
          | inl same' ↦ rw (first, same, next, second, same') (v1-Exits c2 fits)
        ]
      ]
