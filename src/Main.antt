-- ===== src/Main.antt =====
-- `main` and `start` of loader/secondary.c, over all the other parts. `SOFTUART_PATCH` is 0, as
-- variables.mk sets it.
pub mod Trust
pub mod Refusal
pub mod Boots
pub mod Starts
use tonyhax.Base.{
  ℕ, zero, suc, Bool, true, false, not, [], ◌∷◌, if◌then◌else◌, Bytes, codes, Memory,
}
use tonyhax.Str.{text}
use tonyhax.Machine.{Machine, Outcome, done, waits, fault, M, pure, ◌>>=◌, ◌>>◌}
use tonyhax.Debugscreen.{debug_write}
use tonyhax.Debugscreen.Init.{debug_init}
use tonyhax.Audio.{audio_halt}
use tonyhax.Integrity.{Layout, start}
use tonyhax.Rom.{log_bios_version}
use tonyhax.Cdrom.{cd_drive_init}
use tonyhax.Unlock.{unlock_drive}
use tonyhax.Patcher.{Blobs, Tables}
use tonyhax.Bios.{Calls, get_mem, change_mem, bios_reinitialize, bios_inject_disc_error}
use tonyhax.Boot.{Files, Ending, returned, by_bios, by_loader}
use tonyhax.Boot.Disc.{try_boot_cd}

-- What the build and the linker put into the image.
pub record Image : Type 0 where
  pub layout : Layout
  pub blobs : Blobs
  pub tonyhax_version : Bytes
  pub orca_image : Bytes

-- How a run comes to its end: `main` returns and `start` goes into its last loop, a program is
-- started, or the given number of calls of `try_boot_cd` have all returned.
pub data Run : Type 0 where
  halted : Run
  started : Ending → Run
  unfinished : Run

module _ (calls : Calls) (files : Files) (tables : Tables) (image : Image) where
  -- The rest of a round of `main`'s loop, with the rounds that follow it.
  unfoldable pub next_round : (ℕ → M Run) → Ending → M Run
  next_round rest returned = do
    debug_write (codes "Reinitializing kernel") []
    original ← bios_reinitialize calls
    change_mem (bios_inject_disc_error calls)
    rest original
  next_round rest (by_bios bootfile) = pure (started (by_bios bootfile))
  next_round rest (by_loader address) = pure (started (by_loader address))

  -- The loop of `main` for a number of rounds, with the value of `original_disc_error`.
  unfoldable pub boot_loop : ℕ → ℕ → M Run
  boot_loop zero original = pure unfinished
  boot_loop (suc rounds) original = do
    ending ← try_boot_cd calls files (image.blobs) tables original
    next_round (boot_loop rounds) ending

  -- From the unlocking of the drive on.
  unfoldable pub unlock_and_boot : ℕ → ℕ → M Run
  unlock_and_boot rounds original = do
    debug_write (codes "Unlocking drive") []
    unlocked ← unlock_drive
    if not unlocked then pure halted else boot_loop rounds original

  -- After an integrity check that passes.
  unfoldable pub trusted_main : ℕ → ℕ → M Run
  trusted_main rounds original = do
    change_mem (bios_inject_disc_error calls)
    log_bios_version
    debug_write (codes "Resetting drive") []
    reset ← cd_drive_init
    if not reset
        then (do debug_write (codes "Reset failed") []; pure halted)
        else unlock_and_boot rounds original

  unfoldable pub main : Bool → ℕ → M Run
  main integrity_ok rounds = do
    original ← bios_reinitialize calls
    change_mem audio_halt
    debug_init (image.tonyhax_version) (image.orca_image)
    debug_write (codes "Integrity check %sed")
        (text (if integrity_ok then codes "pass" else codes "fail") ∷ [])
    if not integrity_ok then pure halted else trusted_main rounds original

  -- `start`, whose first half is the one of the integrity check.
  unfoldable pub run_image : ℕ → M Run
  run_image rounds = do
    mem ← get_mem
    change_mem (λ _. (start (image.layout) mem).0)
    main ((start (image.layout) mem).1) rounds
