-- ===== src/Main/Refusal.antt =====
-- What `main` and `start` of loader/secondary.c do with an image that fails the integrity check.
use tonyhax.Base.{ℕ, ◌-◌, ◌≡◌, refl, arith, true, false, [], ◌∷◌, codes, Memory, IsBytes, load32}
use tonyhax.Str.{text, mini_vsprintf, vsprintf_loop, conversion}
use tonyhax.Machine.{Machine, Screen, done, ◌>>=◌}
use tonyhax.Machine.Sends.{sent}
use tonyhax.Debugscreen.{in_buffer}
use tonyhax.Debugscreen.Repeats.{debug_write_returns}
use tonyhax.Debugscreen.Draws.{debug_init-Draws}
use tonyhax.Audio.{audio_halt}
use tonyhax.Crc.Detect.{DiffersAt}
use tonyhax.Integrity.{ro_start, start}
use tonyhax.Integrity.Check.{IsLaidOut, start_refuses_burst}
use tonyhax.Patcher.{Tables}
use tonyhax.Bios.{Calls, bios_reinitialize}
use tonyhax.Boot.{Files}
use tonyhax.Main.{Image, halted, main, run_image}

module _ (calls : Calls) (files : Files) (tables : Tables) (image : Image) where
  main_refuses :
      (rounds original : ℕ) (m m1 : Machine)
      → bios_reinitialize calls m ≡ done original m1
      → (s : Screen) × (main calls files tables image false rounds m
          ≡ done halted (record m1 { mem = audio_halt (m1.mem); screen = s }))
  unfolding main in_buffer mini_vsprintf vsprintf_loop conversion
  main_refuses rounds original m m1 e =
      let muted = record m1 { mem = audio_halt (m1.mem) } in
      let (cs, drawn) = debug_init-Draws (image.tonyhax_version) (image.orca_image) muted in
      let (s, logged, l) =
        debug_write_returns (sent muted cs) (codes "Integrity check %sed")
          (text (codes "fail") ∷ []) (codes "Integrity check failed") refl (omega arith) in
      (s, rw (e, ◌>>=◌, drawn, logged) refl)

  -- An image that differs from one that passes the integrity check in some bits of four consecutive bytes
  -- before its CRC, and nowhere else up to the CRC and in it, is refused. When the BIOS calls of
  -- `bios_reinitialize` return, so does `main`, with no program started, with the drive as those calls have
  -- left it, and memory changed only by `audio_halt`.
  pub run_image_refuses :
      (rounds original : ℕ) (m m1 : Machine) (mem : Memory) (a : ℕ)
      → IsLaidOut (image.layout)
      → IsBytes mem
      → IsBytes (m.mem)
      → (start (image.layout) mem).1 ≡ true
      → DiffersAt mem (m.mem) ro_start (image.layout.crc_start - ro_start) a
      → load32 (m.mem) (image.layout.crc_start) ≡ load32 mem (image.layout.crc_start)
      → bios_reinitialize calls (record m { mem = (start (image.layout) (m.mem)).0 })
        ≡ done original m1
      → (s : Screen) × (run_image calls files tables image rounds m
          ≡ done halted (record m1 { mem = audio_halt (m1.mem); screen = s }))
  unfolding run_image
  run_image_refuses rounds original m m1 mem a laid bytes bytes' good differs same e =
      let refused : (start (image.layout) (m.mem)).1 ≡ false =
        start_refuses_burst (image.layout) laid mem (m.mem) a bytes bytes' good differs same in
      let (s, halts) =
        main_refuses rounds original (record m { mem = (start (image.layout) (m.mem)).0 }) m1 e in
      (s, rw refused halts)
