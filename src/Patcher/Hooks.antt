-- ===== src/Patcher/Hooks.antt =====
-- The antipiracy hook that loader/patcher.c installs.
use tonyhax.Base.{
  ℕ, ◌+◌, ◌/◌, ◌^◌, ◌≤◌, ◌<◌, ◌≡◌, ◌≢◌, refl, ap, ◌∙◌, arith, ◌⊎◌, inl, inr, true, false, [], ◌==◌,
  bit_and, Bytes, codes, length, Memory, load32, load32-store32, store32, store32-outside,
}
use tonyhax.Str.{mini_vsprintf, vsprintf_loop}
use tonyhax.Machine.{Machine, Screen, done, ◌>>=◌}
use tonyhax.Debugscreen.{in_buffer, debug_write}
use tonyhax.Debugscreen.Repeats.{debug_write_returns}
use tonyhax.Patcher.{
  Blobs, Tables, copy_bytes, encode_j, j_word, verifier_lw, hook_cases, generic_checked, get_mem,
  put_mem, install_generic_antipiracy_patch,
}
use tonyhax.Patcher.Copied.{copy_bytes-before, Copied, in_jumps, Copied-copy_bytes, Copied-kept}
use tonyhax.Patcher.Jumps.{j_word_sum, load32_apart}

pub load32-copy_bytes :
    (dest : ℕ) (bytes : Bytes) (mem : Memory) (a : ℕ)
    → a + 4 ≤ dest
    → load32 (copy_bytes dest bytes mem) a ≡ load32 mem a
load32-copy_bytes dest bytes mem a h = omega (
  arith,
  copy_bytes-before dest bytes mem a (omega arith),
  copy_bytes-before dest bytes mem (a + 1) (omega arith),
  copy_bytes-before dest bytes mem (a + 2) (omega arith),
  copy_bytes-before dest bytes mem (a + 3) (omega arith),
)

-- A jump reads back, and leaves the words beside it alone.
load32-encode_j : (at dest : ℕ) (mem : Memory) → load32 (encode_j at dest mem) at ≡ j_word dest
unfolding encode_j
load32-encode_j at dest mem = load32-store32 at (j_word dest) mem (omega (arith, j_word_sum dest))

encode_j_apart :
    (at b dest : ℕ) (mem : Memory)
    → (b + 4 ≤ at) ⊎ (at + 4 ≤ b)
    → load32 (encode_j at dest mem) b ≡ load32 mem b
unfolding encode_j
encode_j_apart at b dest mem apart = load32_apart at b (j_word dest) mem apart

-- The two jumps of the patch are words of it, the one that goes to system call 0 first.
pub record FitsPatch (blobs : Blobs) : Type 0 where
  pub success_first : blobs.ap_success + 4 ≤ blobs.ap_skip
  pub inside : blobs.ap_skip + 4 ≤ length blobs.ap

module _ (blobs : Blobs) (tables : Tables) (fits : FitsPatch blobs) where
  -- The memory after the copy, after the first jump, and after the second.
  copied : ℕ → Memory → Memory
  copied at mem = copy_bytes at (blobs.ap) mem

  skips : ℕ → ℕ → Memory → Memory
  skips cases at mem =
      encode_j (at + blobs.ap_skip) (load32 (copied at mem) (cases + 4)) (copied at mem)

  exits : ℕ → ℕ → Memory → Memory
  exits cases at mem =
      encode_j (at + blobs.ap_success) (load32 (skips cases at mem) cases) (skips cases at mem)

  hooked_entry :
      (cases at : ℕ) (mem : Memory)
      → at < 2 ^ 32
      → load32 (hook_cases blobs tables cases at mem) (cases + 4) ≡ at
  unfolding hook_cases copied skips exits
  hooked_entry cases at mem h = load32-store32 (cases + 4) at (exits cases at mem) h

  hooked_skip :
      (cases at : ℕ) (mem : Memory)
      → cases + 8 ≤ at
      → load32 (hook_cases blobs tables cases at mem) (at + blobs.ap_skip)
        ≡ j_word (load32 mem (cases + 4))
  unfolding hook_cases copied skips exits
  hooked_skip cases at mem h =
      load32_apart (cases + 4) (at + blobs.ap_skip) at (exits cases at mem) (inr (omega arith))
      ∙ encode_j_apart (at + blobs.ap_success) (at + blobs.ap_skip)
          (load32 (skips cases at mem) cases) (skips cases at mem)
          (inr (omega (arith, fits.success_first)))
      ∙ load32-encode_j (at + blobs.ap_skip) (load32 (copied at mem) (cases + 4)) (copied at mem)
      ∙ ap j_word (load32-copy_bytes at (blobs.ap) mem (cases + 4) (omega arith))

  hooked_exit :
      (cases at : ℕ) (mem : Memory)
      → cases + 8 ≤ at
      → load32 (hook_cases blobs tables cases at mem) (at + blobs.ap_success)
        ≡ j_word (load32 mem cases)
  unfolding hook_cases copied skips exits
  hooked_exit cases at mem h =
      load32_apart (cases + 4) (at + blobs.ap_success) at (exits cases at mem) (inr (omega arith))
      ∙ load32-encode_j (at + blobs.ap_success) (load32 (skips cases at mem) cases)
          (skips cases at mem)
      ∙ ap j_word (
          encode_j_apart (at + blobs.ap_skip) cases (load32 (copied at mem) (cases + 4))
            (copied at mem) (inl (omega arith))
          ∙ load32-copy_bytes at (blobs.ap) mem cases (omega arith))

  -- The bytes of the patch stand at its place, but for the two jumps.
  hooked_code :
      (cases at : ℕ) (mem : Memory)
      → cases + 8 ≤ at
      → Copied (in_jumps blobs at) at (blobs.ap) (hook_cases blobs tables cases at mem)
  unfolding hook_cases encode_j
  hooked_code cases at mem clear =
      let copied : Memory = copy_bytes at (blobs.ap) mem in
      let skip_word = j_word (load32 copied (cases + 4)) in
      let skips : Memory = store32 (at + blobs.ap_skip) skip_word copied in
      let exit_word = j_word (load32 skips cases) in
      let exits : Memory = store32 (at + blobs.ap_success) exit_word skips in
      Copied-kept (in_jumps blobs at) at (blobs.ap) copied (store32 (cases + 4) at exits)
        (λ a lo hi e.
          store32-outside (cases + 4) at a exits (inr (omega arith))
          ∙ store32-outside (at + blobs.ap_success) exit_word a skips (ground (arith, e))
          ∙ store32-outside (at + blobs.ap_skip) skip_word a copied (ground (arith, e)))
        (Copied-copy_bytes (in_jumps blobs at) at (blobs.ap) mem)

  logged :
      (m : Machine)
      → (s : Screen) × (debug_write (codes " * Generic antipiracy") [] m
          ≡ done tt (record m { screen = s }))
  unfolding in_buffer mini_vsprintf vsprintf_loop
  logged m =
      let (s, e, l) =
        debug_write_returns m (codes " * Generic antipiracy") [] (codes " * Generic antipiracy")
          refl (omega arith) in
      (s, e)

  aborted :
      (m : Machine)
      → (s : Screen) × (debug_write (codes "Aborted! Please report this!") [] m
          ≡ done tt (record m { screen = s }))
  unfolding in_buffer mini_vsprintf vsprintf_loop
  aborted m =
      let (s, e, l) =
        debug_write_returns m (codes "Aborted! Please report this!") []
          (codes "Aborted! Please report this!") refl (omega arith) in
      (s, e)

  -- Where the verifier's instruction 20 is the LW of the table of system calls, the patch is installed:
  -- the entry of system call 1 leads to the patch, the patch's first jump to where that entry led
  -- before, and its second jump to where the entry of system call 0 leads. The address behind the
  -- patch is returned. This is for a table that stands before the place of the patch.
  pub install_generic_lem :
      (at cases : ℕ) (m : Machine)
      → verifier_lw blobs tables (m.mem) / 2 ^ 16 ≡ 0x8C39
      → bit_and (verifier_lw blobs tables (m.mem)) 0xFFFF ≡ cases
      → cases + 8 ≤ at
      → at < 2 ^ 32
      → (s : Screen) × (mem : Memory) × (install_generic_antipiracy_patch blobs tables at m
          ≡ done (at + length (blobs.ap)) (record m { screen = s; mem = mem }))
        × (load32 mem (cases + 4) ≡ at)
        × (load32 mem (at + blobs.ap_skip) ≡ j_word (load32 (m.mem) (cases + 4)))
        × (load32 mem (at + blobs.ap_success) ≡ j_word (load32 (m.mem) cases))
        × Copied (in_jumps blobs at) at (blobs.ap) mem
  unfolding install_generic_antipiracy_patch generic_checked get_mem put_mem
  install_generic_lem at cases m lw table clear small =
      let (s, e) = logged m in
      let is_lw : (verifier_lw blobs tables (m.mem) / 2 ^ 16 == 0x8C39) ≡ true = ground arith in
      (
        s,
        hook_cases blobs tables cases at (m.mem),
        rw (e, ◌>>=◌, is_lw, table) refl,
        hooked_entry cases at (m.mem) small,
        hooked_skip cases at (m.mem) clear,
        hooked_exit cases at (m.mem) clear,
        hooked_code cases at (m.mem) clear,
      )

  -- Where it is another instruction, the installation is called off: nothing changes but the screen, and
  -- the address given is returned.
  pub install_generic_aborts :
      (at : ℕ) (m : Machine)
      → verifier_lw blobs tables (m.mem) / 2 ^ 16 ≢ 0x8C39
      → (s : Screen) × (install_generic_antipiracy_patch blobs tables at m
          ≡ done at (record m { screen = s }))
  unfolding install_generic_antipiracy_patch generic_checked get_mem put_mem
  install_generic_aborts at m other =
      let (s, e) = logged m in
      let (s', e') = aborted (record m { screen = s }) in
      let not_lw : (verifier_lw blobs tables (m.mem) / 2 ^ 16 == 0x8C39) ≡ false = ground arith in
      (s', rw (e, ◌>>=◌, not_lw, e') refl)
