-- ===== src/Tests/Code.antt =====
-- The theorems on the code that the loader puts into the kernel, at concrete inputs.
use tonyhax.Base.{
  codes, ℕ, All, ◌≡◌, refl, arith, inr, Bool, false, ◌%◌, ltb, List, [], ◌∷◌, ◌==◌, some,
  if◌then◌else◌, Memory, IsBytes, load32, store32, store32-IsBytes,
}
use tonyhax.Machine.{Screen, done}
use tonyhax.Cpu.{v0, a1, t0, t1, t2, Cpu, run}
use tonyhax.Patcher.{
  lui_word, ori_word, bios_get_syscall_handler, verifier_lw, patcher_apply, jal_word,
}
use tonyhax.Patches.{patch_fpb_start, patch_vandal_start, patch_ap_start}
use tonyhax.Patches.Words.{patch_fpb_lem, patch_vandal_lem}
use tonyhax.Patches.Antimodchip.{Fits, Exits}
use tonyhax.Patches.Defused.{CallerMapped, patch_ap_lem}
use tonyhax.Patcher.Jumps.{jump_target}
use tonyhax.Patcher.Copied.{Copied, in_jumps, nowhere}
use tonyhax.Patcher.Writes.{patcher_apply_writes}
use tonyhax.Libc.{strcmp_zero, strncmp_zero}
use tonyhax.Rom.{bios_is_ps1, string_at}
use tonyhax.Patches.Installed.{code_at}
use tonyhax.Patches.Applied.{patcher_apply_defuses}
use tonyhax.Uart.{Port}
use tonyhax.Stubs.{documented}
use tonyhax.Stubs.Documented.{Dispatches, stub-Dispatches}
use tonyhax.Tests.Patches.{zeros, patch, blobs, blobs-FitsPatch, tables, hooked_console}

-- Memory with these words in it, and else zero.
abbrev words : List (ℕ × ℕ) → Memory
words [] = zeros
words ((a, w) ∷ rest) = store32 a w (words rest)

words-IsBytes : (l : List (ℕ × ℕ)) → IsBytes (words l)
words-IsBytes [] a = omega arith
words-IsBytes ((a, w) ∷ rest) b = store32-IsBytes a w (words rest) (words-IsBytes rest) b

-- A thread with its state at 0xE000 that the first version of the module has called, from 0x80012344.
abbrev game : List (ℕ × ℕ)
game =
    (0xE07C, 0x801FF000)
    ∷ (0x801FF028, 0x80010000)
    ∷ (0x80010074, 0x3C02E600)
    ∷ (0x80010078, 0x34420002)
    ∷ (0x801FF0E8, 0x80012344)
    ∷ []

-- The 8 MB that the console has memory at.
abbrev ram : ℕ → Bool
ram a = ltb (a % 0x20000000) 0x800000

abbrev calling : Cpu
calling = record { regs = λ r. if r == v0 then 0xE000 else 0; mem = words game; mapped = ram }

calling-Fits : Fits ram 0xE000 0x801FF000
calling-Fits = record {
  thread_aligned = refl;
  thread_small = omega arith;
  sp_aligned = refl;
  sp_small = omega arith;
  in_half = inr (omega arith);
  thread_mapped = λ off h. ground arith;
  stack_mapped = λ a h. ground arith;
}

calling-CallerMapped : CallerMapped calling 0x801FF000
calling-CallerMapped off h e = ground arith

patch_ap_lem_example :
    Exits 0x1F00 0x1F40
      (some (0xE8, 0xF0))
      0xE000
      0x801FF000
      (words game)
      (run (patch_ap_start 0x1F00 0x1F40) calling)
unfolding lui_word ori_word
patch_ap_lem_example =
    patch_ap_lem 0x1F00 0x1F40 calling (words-IsBytes game) calling-Fits calling-CallerMapped refl

patcher_apply_defuses_example :
    (s : Screen) × (mem : Memory) × (patcher_apply blobs tables
        (codes "cdrom:\\SLUS_000.01;1")
        (hooked_console 0x8C390300)
      ≡ done tt (record (hooked_console 0x8C390300) { screen = s; mem = mem }))
    × (load32 mem 0x304 ≡ 0x9EC)
    × Exits 0x1F00 0x1F40
        (some (0xE8, 0xF0))
        0xE000
        0x801FF000
        (words game)
        (run (code_at blobs 0x9EC mem) calling)
    × (load32 mem 0x5B40 ≡ jal_word 0x9F8)
    × (jump_target 0x5B40 (load32 mem 0x5B40) ≡ 0x9F8)
    × Copied (in_jumps blobs 0x9EC) 0x9EC patch mem
    × Copied nowhere 0x9F8 patch mem
unfolding lui_word ori_word verifier_lw bios_get_syscall_handler strcmp_zero bios_is_ps1 string_at
    strncmp_zero
patcher_apply_defuses_example =
    patcher_apply_defuses blobs tables blobs-FitsPatch (codes "cdrom:\\SLUS_000.01;1") 0x300
      (hooked_console 0x8C390300) calling refl refl refl refl (omega arith) (omega arith) refl
      (record { aligned = refl; near = refl }) (record { aligned = refl; near = refl })
      (words-IsBytes game) calling-Fits calling-CallerMapped refl

-- The loader's own code is out of reach.
patcher_apply_writes_example :
    (s : Screen) × (mem : Memory) × (patcher_apply blobs tables
        (codes "cdrom:\\SLUS_009.40;1")
        (hooked_console 0x8C390300)
      ≡ done tt (record (hooked_console 0x8C390300) { screen = s; mem = mem }))
    × (mem 0x801FA100 ≡ (hooked_console 0x8C390300).mem 0x801FA100)
unfolding verifier_lw bios_get_syscall_handler
patcher_apply_writes_example =
    patcher_apply_writes blobs tables blobs-FitsPatch (omega arith) (codes "cdrom:\\SLUS_009.40;1")
      24 0x801FA100 (hooked_console 0x8C390300) (omega arith) (omega arith) (inr (omega arith))
      (inr (omega arith)) (inr (omega arith)) (inr (omega arith))

-- Sector 0 of a memory card with the exploit, in a buffer at 0x10000.
abbrev reading : Cpu
reading = record {
  regs = λ r. if r == a1 then 0x10000 else 0;
  mem = words ((0x1007C, 0x5A425046) ∷ []);
  mapped = ram;
}

patch_fpb_lem_example :
    (c' : Cpu) × (run patch_fpb_start reading ≡ some (0x5B54, c'))
    × (c'.mem ≡ store32 0x10000 0 (reading.mem))
    × ((r : ℕ) → (r == t0) ≡ false → (r == t1) ≡ false → c'.regs r ≡ reading.regs r)
patch_fpb_lem_example =
    patch_fpb_lem reading (words-IsBytes ((0x1007C, 0x5A425046) ∷ [])) refl (omega arith) refl refl

abbrev playing : Cpu
playing = record { regs = λ r. 0; mem = words ((0x80040C98, 0x0C010A15) ∷ []); mapped = ram }

patch_vandal_lem_example :
    (c' : Cpu) × (run (patch_vandal_start 0x3000) playing ≡ some (0x3000, c'))
    × (c'.mem ≡ store32 0x80040C98 0 (playing.mem))
    × ((r : ℕ)
        → (r == t0) ≡ false
        → (r == t1) ≡ false
        → (r == t2) ≡ false
        → c'.regs r ≡ playing.regs r)
unfolding jal_word
patch_vandal_lem_example = patch_vandal_lem 0x3000 playing refl

-- The byte "A", with a timer that is read twice for each change.
abbrev mode_values : List ℕ
mode_values =
    0x400 ∷ 0 ∷ 0 ∷ 0x400 ∷ 0x400 ∷ 0 ∷ 0 ∷ 0x400 ∷ 0x400 ∷ 0 ∷ 0 ∷ 0x400 ∷ 0x400 ∷ 0 ∷ 0 ∷ 0x400
    ∷ 0x400 ∷ 0 ∷ 0 ∷ 0x400 ∷ 0x400 ∷ []

abbrev port : Port
port = record { sr = 0x40000401; modes = mode_values; timer = []; controls = [] }

stub-Dispatches_example : All (Dispatches reading) documented
stub-Dispatches_example = stub-Dispatches reading
