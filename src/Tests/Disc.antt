-- ===== src/Tests/Disc.antt =====
-- The whole loader on a console with a disc, from loader/secondary.c, at concrete inputs.
use tonyhax.Tests.Setup.{
  bios, disc, tables, image, buffer, loaded, powered, swapped, broken, tries-done,
}
use tonyhax.Tests.Runs.{runs}
use tonyhax.Boot.{patch_header}
use tonyhax.Main.{run_image}
use tonyhax.Base.{inl, arith, load32, ◌+◌, ◌≡◌, refl}
use tonyhax.Machine.{Screen, done}
use tonyhax.Integrity.{ro_start}
use tonyhax.Boot.{by_loader}
use tonyhax.Main.{halted}
use tonyhax.Audio.{audio_halt}
use tonyhax.Boot.Header.{patch_header_lem}
use tonyhax.Boot.Safe.{Loads}
use tonyhax.Boot.Started.{try_boot_cd_starts}
use tonyhax.Main.Trust.{Trusted, run_image_starts}
use tonyhax.Main.Refusal.{run_image_refuses}
use tonyhax.Tests.Data.{
  layout-IsLaidOut, good, good-IsBytes, good_passes, bad-IsBytes, bad-DiffersAt,
}

run_image_starts_example :
    Trusted bios disc tables image 1 powered (runs.0.0) (by_loader (buffer + 0x10))
run_image_starts_example =
    run_image_starts bios disc tables image 1 powered (runs.0.0) (by_loader (buffer + 0x10))
      (runs.0.1)

try_boot_cd_starts_example : Loads disc (buffer + 0x10)
try_boot_cd_starts_example =
    try_boot_cd_starts bios disc (image.blobs) tables 0 swapped (runs.1.0) (buffer + 0x10)
      (tries-done (by_loader (buffer + 0x10)) (runs.1.0) _ (runs.1.1))

run_image_refuses_example :
    (s : Screen) × (run_image bios disc tables image 1 broken
      ≡ done halted (record (runs.2.1) { mem = audio_halt (runs.2.1.mem); screen = s }))
run_image_refuses_example =
    run_image_refuses bios disc tables image 1 (runs.2.0) broken (runs.2.1) good (ro_start + 4)
      layout-IsLaidOut good-IsBytes bad-IsBytes good_passes bad-DiffersAt refl (runs.2.2)

patch_header_lem_example :
    (load32 (patch_header buffer 88 0x801FFF00 loaded) (buffer + 0x30) ≡ 0x801FFF00)
    × (load32 (patch_header buffer 88 0x801FFF00 loaded) (buffer + 0x34) ≡ 0)
    × (load32 (patch_header buffer 88 0x801FFF00 loaded) (buffer + 0x1C) ≡ 0x1000)
    × (patch_header buffer 88 0x801FFF00 loaded (buffer + 0x1A) ≡ 0x01)
patch_header_lem_example =
    patch_header_lem buffer 88 0x801FFF00 (buffer + 0x1A) loaded (inl (omega arith))
      (inl (omega arith)) (inl (omega arith))
