-- ===== src/Patches.antt =====
-- The code that the loader puts into the kernel: loader/patch-ap.S, patch-fpb.S and
-- patch-vandal-hearths-2.S, label by label. A jump that loader/patcher.c replaces is a parameter.
pub mod Words
pub mod Antimodchip
pub mod Returns
pub mod Defused
pub mod Installed
pub mod Applied
use tonyhax.Base.{ℕ}
use tonyhax.Cpu.{
  r0, v0, a1, a2, t0, t1, t2, t3, lw, sw, addi, xor, and, srl, li, Code, j, bne, beq, ◌⨾◌,
}

unfoldable pub patch_fpb_ret : Code
patch_fpb_ret = j 0x5B54

unfoldable pub patch_fpb_start : Code
unfolding patch_fpb_ret
patch_fpb_start =
    lw t0 0x7C a1
    ⨾ li t1 0x5A425046
    ⨾ bne a2 r0 patch_fpb_ret (bne t0 t1 patch_fpb_ret (sw r0 0 a1 ⨾ patch_fpb_ret))

-- With the address of the real function.
module _ (real : ℕ) where
  unfoldable pub patch_vandal_return : Code
  patch_vandal_return = j real

  unfoldable pub patch_vandal_start : Code
  unfolding patch_vandal_return
  patch_vandal_start =
      li t0 0x80040C98
      ⨾ lw t1 0 t0
      ⨾ li t2 0x0C010A15
      ⨾ bne t1 t2 patch_vandal_return (sw r0 0 t0 ⨾ patch_vandal_return)

-- With the addresses of system call 0 and of the original system call 1.
module _ (success skip : ℕ) where
  unfoldable pub patch_ap_skip : Code
  patch_ap_skip = j skip

  unfoldable pub patch_ap_success : Code
  patch_ap_success = j success

  unfoldable pub patch_ap_save : Code
  unfolding patch_ap_success
  patch_ap_save = sw r0 0x48 v0 ⨾ sw r0 0x4C v0 ⨾ sw t0 0x7C v0 ⨾ sw t1 0x88 v0 ⨾ patch_ap_success

  unfoldable pub patch_ap_adjust_v2 : Code
  patch_ap_adjust_v2 = lw t1 0x120 t0 ⨾ addi t0 t0 0x128 ⨾ patch_ap_save

  unfoldable pub patch_ap_v2 : Code
  patch_ap_v2 =
      lw t2 0x18 t1
      ⨾ li t3 0x3C011F80
      ⨾ bne t2 t3 patch_ap_skip
          (lw t2 0x1C t1 ⨾ li t3 0xA4201DAA ⨾ bne t2 t3 patch_ap_skip patch_ap_adjust_v2)

  unfoldable pub patch_ap_v15 : Code
  patch_ap_v15 =
      lw t2 0x64 t1
      ⨾ li t3 0x3C03E600
      ⨾ bne t2 t3 patch_ap_v2
          (lw t2 0x68 t1 ⨾ li t3 0x34630002 ⨾ beq t2 t3 patch_ap_adjust_v2 patch_ap_v2)

  unfoldable pub patch_ap_start : Code
  patch_ap_start =
      lw t0 0x7C v0
      ⨾ addi t1 t0 0x28
      ⨾ xor t1 t1 t0
      ⨾ srl t1 t1 21
      ⨾ bne t1 r0 patch_ap_skip (
          lw t1 0x28 t0
          ⨾ li t2 0x7F800003
          ⨾ and t2 t2 t1
          ⨾ bne t2 r0 patch_ap_skip (
              lw t2 0x74 t1
              ⨾ li t3 0x3C02E600
              ⨾ bne t2 t3 patch_ap_v15 (
                  lw t2 0x78 t1
                  ⨾ li t3 0x34420002
                  ⨾ bne t2 t3 patch_ap_v15 (lw t1 0xE8 t0 ⨾ addi t0 t0 0xF0 ⨾ patch_ap_save))))
