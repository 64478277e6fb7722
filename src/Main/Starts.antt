-- ===== src/Main/Starts.antt =====
-- The whole run of loader/secondary.c, with an image that passes the integrity check, BIOS calls that
-- return, a drive that is unlocked and a disc that boots.
use tonyhax.Base.{
  ℕ, suc, ◌+◌, ◌≤◌, ◌≡◌, ◌∙◌, refl, ap, arith, true, false, not, List, [], ◌∷◌, ◌++◌, Bytes, codes,
  length, Memory,
}
use tonyhax.Str.{text, mini_vsprintf, vsprintf_loop, conversion}
use tonyhax.Libc.{strncmp_zero}
use tonyhax.Machine.{Machine, done, M}
use tonyhax.Machine.Sends.{sent}
use tonyhax.Machine.Total.{Total, >>=-Total}
use tonyhax.Debugscreen.{debug_write, in_buffer}
use tonyhax.Debugscreen.Init.{debug_init}
use tonyhax.Debugscreen.Draws.{Draws, debug_init-Draws}
use tonyhax.Audio.{audio_halt}
use tonyhax.Audio.Silence.{audio_halt_lem}
use tonyhax.Integrity.{start}
use tonyhax.Rom.{bios_version}
use tonyhax.Rom.Version.{IsString}
use tonyhax.Patcher.{Tables}
use tonyhax.Bios.{Calls, change_mem, bios_reinitialize}
use tonyhax.Bios.Returns.{Left, Has, Steady, Behaves, change_mem-Steady, bios_reinitialize-Steady}
use tonyhax.Boot.{Files, by_loader, offsets_at}
use tonyhax.Boot.Disc.{data_buffer}
use tonyhax.Boot.Whole.{LidMoves, moves_values, Boots, debug_write-Total}
use tonyhax.Main.{Image, started, main, run_image}
use tonyhax.Main.Boots.{Initializes, initial_values, Unlocks, query_values, trusted_main_starts}

audio_halt-IsString :
    (a : ℕ) (mem : Memory) (t : Bytes)
    → 0x1F801D88 ≤ a
    → IsString mem a t
    → IsString (audio_halt mem) a t
audio_halt-IsString a mem [] above h = ground (arith, audio_halt_lem mem a, h)
audio_halt-IsString a mem (c ∷ t) above h = (
  (ground (arith, audio_halt_lem mem a, h.0)),
  h.1,
  audio_halt-IsString (a + 1) mem t (omega arith) h.2,
)

Draws-Steady : (l : Left) (p : M (Unit {0})) → Draws p → Steady l p
Draws-Steady l p draws m h = let (cs, e) = draws m in (tt, sent m cs, e, h)

-- The console in a run that boots: the drive answers Init, is unlocked, and reports the lid opened and
-- closed; the ROM has a version.
pub record Course : Type 0 where
  pub initializes : Initializes
  pub unlocks : Unlocks
  pub opened : LidMoves true
  pub closed : LidMoves false
  pub replies_left : List ℕ
  pub version : Bytes
  pub short : length version ≤ 41

abbrev pub course_values : Course → List ℕ
course_values c =
    initial_values c.initializes
    ++ (query_values c.unlocks
        ++ (moves_values c.opened ++ (moves_values c.closed ++ c.replies_left)))

abbrev pub at_start : Course → List ℕ → Left
at_start c registers = record {
  replies = course_values c;
  version = codes "System ROM Version " ++ c.version;
  registers = registers;
}

module _ (calls : Calls) (files : Files) (tables : Tables) (image : Image) (v : ℕ) (rest : List ℕ)
    (boots : Boots calls files v rest) where
  main-Total :
      (rounds : ℕ) (c : Course)
      → not (strncmp_zero (c.version) (codes "5.0") 3) ≡ boots.ps1
      → Behaves calls (at_start c (v ∷ rest))
      → Total
          (Has (at_start c (v ∷ rest)))
          (main calls files tables image true (suc rounds))
          (λ e m. e ≡ started (by_loader (offsets_at (data_buffer (boots.ps1)))))
  unfolding main in_buffer mini_vsprintf vsprintf_loop conversion
  main-Total rounds c is_ps1 behaves =
      >>=-Total (bios_reinitialize calls) _
        (bios_reinitialize-Steady calls (at_start c (v ∷ rest)) behaves)
        (λ original.
          >>=-Total (change_mem audio_halt) _
            (change_mem-Steady (at_start c (v ∷ rest)) audio_halt (λ mem h.
              audio_halt-IsString bios_version mem (codes "System ROM Version " ++ c.version)
                (omega arith) h))
            (λ _.
              >>=-Total (debug_init (image.tonyhax_version) (image.orca_image)) _
                (Draws-Steady (at_start c (v ∷ rest)) _
                  (debug_init-Draws (image.tonyhax_version) (image.orca_image)))
                (λ _.
                  >>=-Total (debug_write (codes "Integrity check %sed") (text (codes "pass") ∷ []))
                    _
                    (debug_write-Total
                      (λ o.
                        (o.0.replies ≡ course_values c)
                        × IsString (o.2) bios_version (codes "System ROM Version " ++ c.version)
                        × (o.1 ≡ v ∷ rest))
                      _ _ (codes "Integrity check passed") refl (omega arith))
                    (λ _ m h.
                      let (m', e) =
                        trusted_main_starts calls files tables image v rest boots rounds original
                          (c.initializes) (c.unlocks) (c.opened) (c.closed) (c.replies_left)
                          (c.version) m (h.0) (h.1) (c.short) is_ps1 (h.2) in
                      (started (by_loader (offsets_at (data_buffer (boots.ps1)))), m', e, refl)))))

  -- An image that passes the integrity check starts the program of a disc by `DoExecute`, in the first round
  -- of `main`'s loop. The conditions: once .bss is cleared, the ROM has a version string with at most 41 bytes
  -- behind "System ROM Version "; the drive answers Init with interrupts 3 and 2, accepts the backdoor
  -- commands, and reports the lid opened and closed; the disc has no SYSTEM.CNF or one with all four settings;
  -- its executable is read without an error, is accepted, does not overlap the loader, and has a size below
  -- 2 ^ 31. It is assumed that the BIOS calls on the way return, that those of `bios_reinitialize` touch
  -- neither the ROM, the drive nor the GPU's status register, and that this register gives a value.
  pub run_image_boots :
      (rounds : ℕ) (c : Course) (m : Machine)
      → not (strncmp_zero (c.version) (codes "5.0") 3) ≡ boots.ps1
      → Behaves calls (at_start c (v ∷ rest))
      → (start (image.layout) (m.mem)).1 ≡ true
      → Has (at_start c (v ∷ rest)) (record m { mem = (start (image.layout) (m.mem)).0 })
      → (m' : Machine) × (run_image calls files tables image (suc rounds) m
          ≡ done (started (by_loader (offsets_at (data_buffer (boots.ps1))))) m')
  unfolding run_image
  run_image_boots rounds c m is_ps1 behaves passes powered =
      let (e, m', r, is_started) =
        main-Total rounds c is_ps1 behaves (record m { mem = (start (image.layout) (m.mem)).0 })
          powered in
      (m', rw passes (r ∙ ap (λ x. done x m') is_started))
