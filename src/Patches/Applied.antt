-- ===== src/Patches/Applied.antt =====
-- The kernel once `patcher_apply` of loader/patcher.c has gone over it.
use tonyhax.Base.{
  ℕ, zero, suc, ◌+◌, ◌*◌, ◌/◌, ◌%◌, ◌^◌, ◌≤◌, ◌≡◌, ◌∙◌, inl, inr, refl, sym, ap, arith, Bool, true,
  false, not, bit_and, length, codes, Bytes, Memory, IsBytes, load32, load32-store32,
  store32-outside,
}
use tonyhax.Libc.{strcmp_zero, strncmp_zero}
use tonyhax.Str.{mini_vsprintf, vsprintf_loop}
use tonyhax.Machine.{Machine, Screen, Outcome, done, waits, fault, ◌>>=◌}
use tonyhax.Debugscreen.{in_buffer}
use tonyhax.Rom.{bios_version, string_at, bios_is_ps1}
use tonyhax.Cpu.{v0, Cpu, run}
use tonyhax.Patcher.{
  Blobs, Tables, jal_word, encode_jal, copy_bytes, verifier_lw, install_fpb_patch, patcher_apply,
}
use tonyhax.Patcher.Jumps.{jump_target, jal_word_sum, load32_apart}
use tonyhax.Patcher.Copied.{
  copy_bytes-before, Copied, in_jumps, nowhere, Copied-copy_bytes, Copied-kept,
}
use tonyhax.Patcher.Hooks.{FitsPatch, load32-copy_bytes}
use tonyhax.Patcher.Writes.{logs, generic_writes}
use tonyhax.Patches.Antimodchip.{Fits, Reached, Exits}
use tonyhax.Patches.Defused.{caller_frames, CallerMapped}
use tonyhax.Patches.Installed.{code_at, IsHandler, install_generic_defuses}

string_at_kept :
    (n a : ℕ) (mem mem' : Memory)
    → ((b : ℕ) → a ≤ b → mem' b ≡ mem b)
    → string_at n a mem' ≡ string_at n a mem
unfolding string_at
string_at_kept zero a mem mem' same = refl
string_at_kept (suc n) a mem mem' same =
    rw (same a (omega arith), string_at_kept n (a + 1) mem mem' (λ b h. same b (omega arith))) refl

memory_of : {A : Type 0} → Outcome A → Memory → Memory
memory_of (done x m) other = m.mem
memory_of waits other = other
memory_of fault other = other

result_of : Outcome Bool → Bool
result_of (done x m) = x
result_of waits = false
result_of fault = false

-- Whether the ROM is a PlayStation's, where memory is the same from the version on.
bios_is_ps1_kept :
    (m m' : Machine)
    → bios_is_ps1 m ≡ done true m
    → ((b : ℕ) → bios_version ≤ b → m'.mem b ≡ m.mem b)
    → bios_is_ps1 m' ≡ done true m'
unfolding bios_is_ps1 strncmp_zero result_of
bios_is_ps1_kept m m' e same =
    let ps1 : not (strncmp_zero (string_at 64 (bios_version + 0x13) (m.mem)) (codes "5.0") 3)
        ≡ true =
      ap result_of e in
    let kept =
      string_at_kept 64 (bios_version + 0x13) (m.mem) (m'.mem) (λ b h. same b (omega arith)) in
    rw (kept, ps1) refl

module _ (blobs : Blobs) (tables : Tables) (fits : FitsPatch blobs) where
  -- The memory that the patch for FreePSXBoot leaves.
  hooked : ℕ → Memory → Memory
  hooked at mem = encode_jal 0x5B40 at (copy_bytes at (blobs.fpb) mem)

  hooked_before :
      (at a : ℕ) (mem : Memory) → a + 4 ≤ at → at ≤ 0x5B40 → load32 (hooked at mem) a ≡ load32 mem a
  unfolding hooked encode_jal
  hooked_before at a mem h k =
      load32_apart 0x5B40 a (jal_word at) (copy_bytes at (blobs.fpb) mem) (inl (omega arith))
      ∙ load32-copy_bytes at (blobs.fpb) mem a h

  -- Bytes that stand before the patch stay, and the patch's own are there.
  hooked-Copied :
      (replaced : ℕ → Bool) (at end : ℕ) (bytes : Bytes) (mem : Memory)
      → at + length bytes ≤ end
      → end ≤ 0x5B40
      → Copied replaced at bytes mem
      → Copied replaced at bytes (hooked end mem)
  unfolding hooked encode_jal
  hooked-Copied replaced at end bytes mem below low =
      Copied-kept replaced at bytes mem (hooked end mem) (λ a lo hi e.
        store32-outside 0x5B40 (jal_word end) a (copy_bytes end (blobs.fpb) mem) (inl (omega arith))
        ∙ copy_bytes-before end (blobs.fpb) mem a (omega arith))

  hooked_fpb :
      (at : ℕ) (mem : Memory)
      → at + length (blobs.fpb) ≤ 0x5B40
      → Copied nowhere at (blobs.fpb) (hooked at mem)
  unfolding hooked encode_jal
  hooked_fpb at mem low =
      let copied : Memory = copy_bytes at (blobs.fpb) mem in
      Copied-kept nowhere at (blobs.fpb) copied (hooked at mem)
        (λ a lo hi e. store32-outside 0x5B40 (jal_word at) a copied (inl (omega arith)))
        (Copied-copy_bytes nowhere at (blobs.fpb) mem)

  hooked_call : (at : ℕ) (mem : Memory) → load32 (hooked at mem) 0x5B40 ≡ jal_word at
  unfolding hooked encode_jal
  hooked_call at mem =
      load32-store32 0x5B40 (jal_word at) (copy_bytes at (blobs.fpb) mem)
        (omega (arith, jal_word_sum at))

  install_fpb_hooks :
      (at : ℕ) (m : Machine)
      → (s : Screen) × (install_fpb_patch blobs tables at m
          ≡ done (at + length (blobs.fpb)) (record m { screen = s; mem = hooked at (m.mem) }))
  unfolding hooked install_fpb_patch in_buffer mini_vsprintf vsprintf_loop
  install_fpb_hooks at m =
      let (s, e) = logs m (codes " * FreePSXBoot") refl (omega arith) in (s, rw (e, ◌>>=◌) refl)

  -- On a PlayStation, for any game but the one of the file SLUS_009.40, the kernel has both patches in the end.
  -- At the end of table B stand the bytes of the first patch but for its two jumps, and right behind them those of the
  -- patch for FreePSXBoot, which the instruction at 0x5B40 calls. System call 1 leads to the first patch. Run with
  -- the jumps that stand there, the code of loader/patch-ap.S ends at the original handler of system call 1, with
  -- memory as it was, for a thread that no antimodchip module has called; for one that a module has called it ends at
  -- the handler of system call 0, with the thread behind the module's call of the function that would stop the game.
  -- This is for a kernel whose verifier has the LW of the table of system calls as its instruction 20, whose table
  -- stands before the end of table B and leads to multiples of four in the same 256 MiB; for patches that fit
  -- between the end of table B and 0x5B40, the first of a length that with the address of table B is divisible by four, and with
  -- its two jumps as words of it in the order of loader/patch-ap.S; and for a thread whose state is memory, with a
  -- stack at a multiple of four, in a block of 2 MiB that is all memory, and not at the end of one of the
  -- halves of the address space, where a return address in RAM leads to memory, and the frames of a module end in it.
  pub patcher_apply_defuses :
      (boot_file : Bytes) (cases : ℕ) (m : Machine) (c : Cpu)
      → strcmp_zero boot_file (codes "cdrom:\\SLUS_009.40;1") ≡ false
      → bios_is_ps1 m ≡ done true m
      → verifier_lw blobs tables (m.mem) / 2 ^ 16 ≡ 0x8C39
      → bit_and (verifier_lw blobs tables (m.mem)) 0xFFFF ≡ cases
      → cases + 8 ≤ tables.b0 + 4 * 0x5E
      → tables.b0 + 4 * 0x5E + length (blobs.ap) + length (blobs.fpb) ≤ 0x5B40
      → (tables.b0 + length (blobs.ap)) % 4 ≡ 0
      → IsHandler (tables.b0 + 4 * 0x5E + blobs.ap_success) (load32 (m.mem) cases)
      → IsHandler (tables.b0 + 4 * 0x5E + blobs.ap_skip) (load32 (m.mem) (cases + 4))
      → IsBytes (c.mem)
      → Fits (c.mapped) (c.regs v0) (load32 (c.mem) (c.regs v0 + 0x7C))
      → CallerMapped c (load32 (c.mem) (c.regs v0 + 0x7C))
      → Reached (c.mapped) (load32 (c.mem) (c.regs v0 + 0x7C)) (caller_frames (c.regs v0) (c.mem))
      → (s : Screen) × (mem : Memory) × (patcher_apply blobs tables boot_file m
          ≡ done tt (record m { screen = s; mem = mem }))
        × (load32 mem (cases + 4) ≡ tables.b0 + 4 * 0x5E)
        × Exits
            (load32 (m.mem) cases)
            (load32 (m.mem) (cases + 4))
            (caller_frames (c.regs v0) (c.mem))
            (c.regs v0)
            (load32 (c.mem) (c.regs v0 + 0x7C))
            (c.mem)
            (run (code_at blobs (tables.b0 + 4 * 0x5E) mem) c)
        × (load32 mem 0x5B40 ≡ jal_word (tables.b0 + 4 * 0x5E + length (blobs.ap)))
        × (jump_target 0x5B40 (load32 mem 0x5B40) ≡ tables.b0 + 4 * 0x5E + length (blobs.ap))
        × Copied (in_jumps blobs (tables.b0 + 4 * 0x5E)) (tables.b0 + 4 * 0x5E) (blobs.ap) mem
        × Copied nowhere (tables.b0 + 4 * 0x5E + length (blobs.ap)) (blobs.fpb) mem
  unfolding patcher_apply in_buffer mini_vsprintf vsprintf_loop memory_of
  patcher_apply_defuses boot_file cases m c other ps1 lw table clear low aligned nop original bytes
        fine callers reached =
      let (s, e) = logs m (codes "Installing patches:") refl (omega arith) in
      let logged : Machine = record m { screen = s } in
      let at = tables.b0 + 4 * 0x5E in
      let (s', mem, e', entry, exits, code) =
        install_generic_defuses blobs tables fits at cases logged c lw table clear (omega arith) nop
          original bytes fine callers reached in
      let same : (b : ℕ) → bios_version ≤ b → mem b ≡ m.mem b = λ b h.
        let (s0, addr0, mem0, e0, from, to, kept) =
          generic_writes blobs tables fits at b logged (inr (omega arith))
            (inr (omega (arith, table))) in
        ap (λ o. memory_of o mem b) (sym e' ∙ e0) ∙ kept in
      let patched : Machine = record m { screen = s'; mem = mem } in
      let still = bios_is_ps1_kept m patched ps1 same in
      let end = at + length (blobs.ap) in
      let (s'', e'') = install_fpb_hooks end patched in
      let skip =
        hooked_before end (at + blobs.ap_skip) mem (omega (arith, fits.inside)) (omega arith) in
      let success =
        hooked_before end (at + blobs.ap_success) mem
          (omega (arith, fits.inside, fits.success_first)) (omega arith) in
      (
        s'',
        hooked end mem,
        rw (e, ◌>>=◌, other, e', still, e'') refl,
        hooked_before end (cases + 4) mem (omega arith) (omega arith) ∙ entry,
        rw (skip, success) exits,
        hooked_call end mem,
        rw (hooked_call end mem) (omega (arith, jal_word_sum end)),
        hooked-Copied (in_jumps blobs at) at end (blobs.ap) mem (omega arith) (omega arith) code,
        hooked_fpb end mem (omega arith),
      )
