-- ===== src/Patcher/Writes.antt =====
-- What loader/patcher.c writes to.
use tonyhax.Base.{
  ℕ, ◌+◌, ◌*◌, ◌/◌, ◌^◌, ◌≤◌, ◌<◌, ◌≡◌, refl, ◌∙◌, arith, ◌⊎◌, inl, inr, Bool-cases, not, [], ◌∷◌,
  some, ◌==◌, bit_and, Bytes, codes, length, Memory, store8, store32, load32, store32-outside,
  if◌then◌else◌,
}
use tonyhax.Libc.{strncmp_zero, strcmp_zero}
use tonyhax.Str.{mini_vsprintf, vsprintf_loop}
use tonyhax.Machine.{Machine, Screen, Outcome, done, pure, ◌>>=◌}
use tonyhax.Debugscreen.{in_buffer, debug_write}
use tonyhax.Debugscreen.Repeats.{debug_write_returns}
use tonyhax.Rom.{bios_is_ps1, bios_version, string_at}
use tonyhax.Patcher.{
  Blobs, Tables, j_word, jal_word, copy_bytes, encode_j, encode_jal, verifier_lw, hook_cases,
  hook_buttons, generic_checked, get_mem, put_mem, install_generic_antipiracy_patch,
  install_vandal_patch, install_fpb_patch, patcher_apply,
}
use tonyhax.Patcher.Copied.{copy_bytes-before}
use tonyhax.Patcher.Hooks.{FitsPatch}

-- The address is none of the `n` from `lo`.
abbrev pub Outside : ℕ → ℕ → ℕ → Type 0
Outside lo n a = (a < lo) ⊎ (lo + n ≤ a)

pub copy_bytes-Outside :
    (dest : ℕ) (bytes : Bytes) (mem : Memory) (a : ℕ)
    → Outside dest (length bytes) a
    → copy_bytes dest bytes mem a ≡ mem a
unfolding copy_bytes
copy_bytes-Outside dest bytes mem a (inl h) = copy_bytes-before dest bytes mem a h
copy_bytes-Outside dest [] mem a (inr h) = refl
copy_bytes-Outside dest (b ∷ bytes) mem a (inr h) =
    copy_bytes-Outside (dest + 1) bytes (store8 dest b mem) a (inr (omega arith)) ∙ ground arith

Outside-part : (at off n a : ℕ) → off + 4 ≤ n → Outside at n a → Outside (at + off) 4 a
Outside-part at off n a inside (inl h) = inl (omega arith)
Outside-part at off n a inside (inr h) = inr (omega arith)

Outside-smaller : (at n room a : ℕ) → n ≤ room → Outside at room a → Outside at n a
Outside-smaller at n room a inside (inl h) = inl h
Outside-smaller at n room a inside (inr h) = inr (omega arith)

Outside-between :
    (at addr n room a : ℕ) → at ≤ addr → addr + n ≤ at + room → Outside at room a → Outside addr n a
Outside-between at addr n room a from inside (inl h) = inl (omega arith)
Outside-between at addr n room a from inside (inr h) = inr (omega arith)

pub logs :
    (m : Machine) (line : Bytes)
    → in_buffer (mini_vsprintf line []) ≡ some line
    → length line ≤ 48
    → (s : Screen) × (debug_write line [] m ≡ done tt (record m { screen = s }))
logs m line e short = let (s, w, l) = debug_write_returns m line [] line e short in (s, w)

module _ (blobs : Blobs) (tables : Tables) (fits : FitsPatch blobs) where
  hook_cases-Outside :
      (cases at a : ℕ) (mem : Memory)
      → Outside at (length (blobs.ap)) a
      → Outside (cases + 4) 4 a
      → hook_cases blobs tables cases at mem a ≡ mem a
  unfolding hook_cases encode_j
  hook_cases-Outside cases at a mem code entry =
      let copied = copy_bytes at (blobs.ap) mem in
      let skip_word = j_word (load32 copied (cases + 4)) in
      let skips = store32 (at + blobs.ap_skip) skip_word copied in
      let exit_word = j_word (load32 skips cases) in
      let exits = store32 (at + blobs.ap_success) exit_word skips in
      store32-outside (cases + 4) at a exits entry
      ∙ store32-outside (at + blobs.ap_success) exit_word a skips (
          Outside-part at (blobs.ap_success) (length (blobs.ap)) a
            (omega (arith, fits.inside, fits.success_first)) code)
      ∙ store32-outside (at + blobs.ap_skip) skip_word a copied
          (Outside-part at (blobs.ap_skip) (length (blobs.ap)) a (fits.inside) code)
      ∙ copy_bytes-Outside at (blobs.ap) mem a code

  -- A patch, and the address that it leaves for the next.
  pub generic_writes :
      (at a : ℕ) (m : Machine)
      → Outside at (length (blobs.ap)) a
      → Outside (bit_and (verifier_lw blobs tables (m.mem)) 0xFFFF + 4) 4 a
      → (s : Screen) × (addr : ℕ) × (mem : Memory) × (install_generic_antipiracy_patch blobs tables
            at m
          ≡ done addr (record m { screen = s; mem = mem }))
        × (at ≤ addr)
        × (addr ≤ at + length (blobs.ap))
        × (mem a ≡ m.mem a)
  unfolding install_generic_antipiracy_patch generic_checked get_mem put_mem in_buffer mini_vsprintf
      vsprintf_loop
  generic_writes at a m code entry =
      let (s, e) = logs m (codes " * Generic antipiracy") refl (omega arith) in
      let lw = verifier_lw blobs tables (m.mem) in
      elim (Bool-cases (lw / 2 ^ 16 == 0x8C39)) [
        | inl is_lw ↦ (
          s,
          at + length (blobs.ap),
          hook_cases blobs tables (bit_and lw 0xFFFF) at (m.mem),
          rw (e, ◌>>=◌, is_lw) refl,
          omega arith,
          omega arith,
          hook_cases-Outside (bit_and lw 0xFFFF) at a (m.mem) code entry,
        )
        | inr other ↦
            let (s', e') =
              logs (record m { screen = s }) (codes "Aborted! Please report this!") refl
                (omega arith) in
            (s', at, m.mem, rw (e, ◌>>=◌, other, e') refl, omega arith, omega arith, refl)
      ]

module _ (blobs : Blobs) (tables : Tables) (fits : FitsPatch blobs)
    (vandal_fits : blobs.vandal_return + 4 ≤ length (blobs.vandal)) where
  hook_buttons-Outside :
      (at a : ℕ) (mem : Memory)
      → Outside at (length (blobs.vandal)) a
      → Outside (tables.b0 + 4 * 0x16) 4 a
      → hook_buttons blobs tables at mem a ≡ mem a
  unfolding hook_buttons encode_j
  hook_buttons-Outside at a mem code entry =
      let copied = copy_bytes at (blobs.vandal) mem in
      let word = j_word (load32 copied (tables.b0 + 4 * 0x16)) in
      let returns = store32 (at + blobs.vandal_return) word copied in
      store32-outside (tables.b0 + 4 * 0x16) at a returns entry
      ∙ store32-outside (at + blobs.vandal_return) word a copied
          (Outside-part at (blobs.vandal_return) (length (blobs.vandal)) a vandal_fits code)
      ∙ copy_bytes-Outside at (blobs.vandal) mem a code

  vandal_writes :
      (at a : ℕ) (m : Machine)
      → Outside at (length (blobs.vandal)) a
      → Outside (tables.b0 + 4 * 0x16) 4 a
      → (s : Screen) × (addr : ℕ) × (mem : Memory) × (install_vandal_patch blobs tables at m
          ≡ done addr (record m { screen = s; mem = mem }))
        × (at ≤ addr)
        × (addr ≤ at + length (blobs.vandal))
        × (mem a ≡ m.mem a)
  unfolding install_vandal_patch get_mem put_mem in_buffer mini_vsprintf vsprintf_loop
  vandal_writes at a m code entry =
      let (s, e) = logs m (codes " * Vandal Hearths 2 AP") refl (omega arith) in
      (
        s,
        at + length (blobs.vandal),
        hook_buttons blobs tables at (m.mem),
        rw (e, ◌>>=◌) refl,
        omega arith,
        omega arith,
        hook_buttons-Outside at a (m.mem) code entry,
      )

  fpb_writes :
      (at a : ℕ) (m : Machine)
      → Outside at (length (blobs.fpb)) a
      → Outside 0x5B40 4 a
      → (s : Screen) × (mem : Memory) × (install_fpb_patch blobs tables at m
          ≡ done (at + length (blobs.fpb)) (record m { screen = s; mem = mem }))
        × (mem a ≡ m.mem a)
  unfolding install_fpb_patch encode_jal get_mem put_mem in_buffer mini_vsprintf vsprintf_loop
  fpb_writes at a m code call =
      let (s, e) = logs m (codes " * FreePSXBoot") refl (omega arith) in
      let copied = copy_bytes at (blobs.fpb) (m.mem) in
      (
        s,
        store32 0x5B40 (jal_word at) copied,
        rw (e, ◌>>=◌) refl,
        store32-outside 0x5B40 (jal_word at) a copied call
            ∙ copy_bytes-Outside at (blobs.fpb) (m.mem) a code,
      )

  fpb_or_not :
      (at a : ℕ) (m : Machine)
      → Outside at (length (blobs.fpb)) a
      → Outside 0x5B40 4 a
      → (s : Screen) × (mem : Memory) × ◌≡◌ {A = Outcome (Unit {0})}
          ((do
            ps1 ← bios_is_ps1
            if ps1 then (do end ← install_fpb_patch blobs tables at; pure tt) else pure tt)
            m)
          (done tt (record m { screen = s; mem = mem }))
        × (mem a ≡ m.mem a)
  unfolding bios_is_ps1
  fpb_or_not at a m code call =
      elim (Bool-cases
        (not (strncmp_zero (string_at 64 (bios_version + 0x13) (m.mem)) (codes "5.0") 3))) [
          | inl ps1 ↦
              let (s, mem, e, same) = fpb_writes at a m code call in
              (s, mem, rw (ps1, ◌>>=◌, e) refl, same)
          | inr ps2 ↦ (m.screen, m.mem, rw (ps2, ◌>>=◌) refl, refl)
        ]

  -- `patcher_apply` returns, and an address keeps its byte that is not in the place behind table B, with room
  -- for the patches of the game and for that of FreePSXBoot, not in the entry of system call 1, not in the
  -- entry of table B that the game of Vandal Hearts 2 calls, and not in the kernel's instruction at 0x5B40. This is
  -- for assembled patches whose jumps are words of them, in the order of loader/patch-ap.S.
  pub patcher_apply_writes :
      (boot_file : Bytes) (room a : ℕ) (m : Machine)
      → length (blobs.ap) + length (blobs.fpb) ≤ room
      → length (blobs.vandal) + length (blobs.fpb) ≤ room
      → Outside (tables.b0 + 4 * 0x5E) room a
      → Outside (bit_and (verifier_lw blobs tables (m.mem)) 0xFFFF + 4) 4 a
      → Outside (tables.b0 + 4 * 0x16) 4 a
      → Outside 0x5B40 4 a
      → (s : Screen) × (mem : Memory) × (patcher_apply blobs tables boot_file m
          ≡ done tt (record m { screen = s; mem = mem }))
        × (mem a ≡ m.mem a)
  unfolding patcher_apply in_buffer mini_vsprintf vsprintf_loop
  patcher_apply_writes boot_file room a m generic_room vandal_room code entry buttons call =
      let (s, e) = logs m (codes "Installing patches:") refl (omega arith) in
      let logged : Machine = record m { screen = s } in
      let at = tables.b0 + 4 * 0x5E in
      elim (Bool-cases (strcmp_zero boot_file (codes "cdrom:\\SLUS_009.40;1"))) [
        | inl vandal ↦
            let (s', addr, mem, e', from, to, same) =
              vandal_writes at a logged
                (Outside-smaller at (length (blobs.vandal)) room a (omega arith) code) buttons in
            let (s'', mem'', e'', same') =
              fpb_or_not addr a (record m { screen = s'; mem = mem })
                (Outside-between at addr (length (blobs.fpb)) room a from (omega arith) code)
                call in
            (s'', mem'', rw (e, ◌>>=◌, vandal, e', e'') refl, same' ∙ same)
        | inr other ↦
            let (s', addr, mem, e', from, to, same) =
              generic_writes blobs tables fits at a logged
                (Outside-smaller at (length (blobs.ap)) room a (omega arith) code) entry in
            let (s'', mem'', e'', same') =
              fpb_or_not addr a (record m { screen = s'; mem = mem })
                (Outside-between at addr (length (blobs.fpb)) room a from (omega arith) code)
                call in
            (s'', mem'', rw (e, ◌>>=◌, other, e', e'') refl, same' ∙ same)
      ]
