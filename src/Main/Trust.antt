-- ===== src/Main/Trust.antt =====
-- What `start` and `main` of loader/secondary.c have done when a program is started.
use tonyhax.Base.{
  ◌≡◌, sym, ℕ, zero, suc, Bool, true, false, not, refl, ap, [], ◌∷◌, codes, if◌then◌else◌,
}
use tonyhax.Str.{text}
use tonyhax.Machine.{Machine, done, M, pure, ◌>>=◌, ◌>>◌}
use tonyhax.Machine.Triple.{Triple, >>=-Triple, bind_inverts, done-injective}
use tonyhax.Debugscreen.{debug_write}
use tonyhax.Debugscreen.Init.{debug_init}
use tonyhax.Audio.{audio_halt}
use tonyhax.Integrity.{start}
use tonyhax.Rom.{log_bios_version}
use tonyhax.Cdrom.{cd_drive_init}
use tonyhax.Unlock.{unlock_drive}
use tonyhax.Patcher.{Tables}
use tonyhax.Bios.{Calls, change_mem, bios_reinitialize, bios_inject_disc_error}
use tonyhax.Boot.{Files, Ending, returned, by_bios, by_loader}
use tonyhax.Boot.Disc.{try_boot_cd}
use tonyhax.Boot.Safe.{Sound}
use tonyhax.Boot.Started.{try_boot_cd-Safe}
use tonyhax.Main.{
  Image, Run, halted, started, unfinished, next_round, boot_loop, unlock_and_boot, trusted_main,
  main, run_image,
}

-- The calls of `trusted_main` before the one of `unlock_drive`, with what `cd_drive_init` returns.
abbrev trusted_until_unlock : Calls → M Bool
trusted_until_unlock calls = do
  change_mem (bios_inject_disc_error calls)
  log_bios_version
  debug_write (codes "Resetting drive") []
  reset ← cd_drive_init
  debug_write (codes "Unlocking drive") []
  pure reset

-- The calls of `main` before the one of `unlock_drive` when the integrity check has passed, with what
-- `bios_reinitialize` and `cd_drive_init` return.
abbrev before_unlock : Calls → Image → M (ℕ × Bool)
before_unlock calls image = do
  original ← bios_reinitialize calls
  change_mem audio_halt
  debug_init (image.tonyhax_version) (image.orca_image)
  debug_write (codes "Integrity check %sed") (text (codes "pass") ∷ [])
  reset ← trusted_until_unlock calls
  pure (original, reset)

-- What holds of a run from `m` to `m'` that starts a program: the integrity check has passed, the calls before
-- `unlock_drive` have returned with the drive reset, `unlock_drive` has then returned `true`, and the rounds
-- of `try_boot_cd` have gone on from there and started the program.
pub record Trusted (calls : Calls) (files : Files) (tables : Tables) (image : Image) (rounds : ℕ)
    (m m' : Machine) (ending : Ending) : Type 0 where
  pub has_passed : (start (image.layout) (m.mem)).1 ≡ true
  pub original : ℕ
  pub before : Machine
  pub after : Machine
  pub prepares :
      before_unlock calls image (record m { mem = (start (image.layout) (m.mem)).0 })
      ≡ done (original, true) before
  pub unlocks : unlock_drive before ≡ done true after
  pub boots : boot_loop calls files tables image rounds original after ≡ done (started ending) m'
  pub sound : Sound files ending

abbrev Follows : Files → Run → Type 0
Follows files halted = Unit {0}
Follows files (started ending) = Sound files ending
Follows files unfinished = Unit {0}

abbrev Safe : Files → M Run → Type 0
Safe files p = Triple (λ m. Unit {0}) p (λ r m. Follows files r)

after-Safe {ℓ} :
    {A : Type ℓ} (files : Files) (p : M A) (f : A → M Run)
    → ((a : A) → Safe files (f a))
    → Safe files (p >>= f)
after-Safe files p f h = >>=-Triple p f {Q = λ a m. Unit {0}} (λ m m' a u e. tt) h

pure-Safe : (files : Files) (r : Run) → Follows files r → Safe files (pure r)
pure-Safe files r s m m' r' u h = let (same, same') = done-injective h in rw (sym same) s

pure_halted : (m m' : Machine) (ending : Ending) → ¬ (pure halted m ≡ done (started ending) m')
pure_halted m m' ending h = let (same, same') = done-injective h in cc

>>-inverts {ℓ} :
    {B : Type ℓ} (p : M (Unit {0})) (q : M B) (m m' : Machine) (b : B)
    → (p >> q) m ≡ done b m'
    → (m1 : Machine) × (p m ≡ done tt m1) × (q m1 ≡ done b m')
>>-inverts p q m m' b h = let (u, m1, e, e') = bind_inverts p (λ _. q) m m' b h in (m1, e, e')

module _ (calls : Calls) (files : Files) (tables : Tables) (image : Image) where
  next_round-Safe :
      (rest : ℕ → M Run) (ending : Ending)
      → ((original : ℕ) → Safe files (rest original))
      → Triple
          (λ m. Sound files ending)
          (next_round calls files tables image rest ending)
          (λ r m. Follows files r)
  unfolding next_round
  next_round-Safe rest returned h m m' r sound e =
      after-Safe files (debug_write (codes "Reinitializing kernel") []) _
        (λ u. after-Safe files (bios_reinitialize calls) _ (λ original.
          after-Safe files (change_mem (bios_inject_disc_error calls)) _ (λ u. h original)))
        m m' r tt e
  next_round-Safe rest (by_bios bootfile) h m m' r sound e =
      pure-Safe files (started (by_bios bootfile)) sound m m' r tt e
  next_round-Safe rest (by_loader address) h m m' r sound e =
      pure-Safe files (started (by_loader address)) sound m m' r tt e

  boot_loop-Safe :
      (rounds original : ℕ) → Safe files (boot_loop calls files tables image rounds original)
  unfolding boot_loop
  boot_loop-Safe zero original = pure-Safe files unfinished tt
  boot_loop-Safe (suc rounds) original =
      >>=-Triple (try_boot_cd calls files (image.blobs) tables original) _
        {Q = λ ending m. Sound files ending}
        (try_boot_cd-Safe calls files (image.blobs) tables original)
        (λ ending.
          next_round-Safe (boot_loop calls files tables image rounds) ending
            (λ original'. boot_loop-Safe rounds original'))

  unlocked_boots :
      (ok : Bool) (rounds original : ℕ) (m m' : Machine) (ending : Ending)
      → (if not ok then pure halted else boot_loop calls files tables image rounds original) m
        ≡ done (started ending) m'
      → (ok ≡ true)
        × (boot_loop calls files tables image rounds original m ≡ done (started ending) m')
  unlocked_boots false rounds original m m' ending e = absurd (pure_halted m m' ending e)
  unlocked_boots true rounds original m m' ending e = (refl, e)

  unlock_and_boot_starts :
      (rounds original : ℕ) (m m' : Machine) (ending : Ending)
      → unlock_and_boot calls files tables image rounds original m ≡ done (started ending) m'
      → (before : Machine) × (after : Machine) × (debug_write (codes "Unlocking drive") [] m
          ≡ done tt before)
        × (unlock_drive before ≡ done true after)
        × (boot_loop calls files tables image rounds original after ≡ done (started ending) m')
  unfolding unlock_and_boot
  unlock_and_boot_starts rounds original m m' ending e =
      let (before, writes, e1) = >>-inverts (debug_write _ _) _ m m' (started ending) e in
      let (ok, after, unlocks, e2) = bind_inverts unlock_drive _ before m' (started ending) e1 in
      let (is_true, boots) = unlocked_boots ok rounds original after m' ending e2 in
      (before, after, writes, rw (sym is_true) unlocks, boots)

  reset_goes_on :
      (reset : Bool) (rounds original : ℕ) (m m' : Machine) (ending : Ending)
      → (if not reset
            then debug_write (codes "Reset failed") [] >> pure halted
            else unlock_and_boot calls files tables image rounds original)
          m
        ≡ done (started ending) m'
      → (reset ≡ true)
        × (unlock_and_boot calls files tables image rounds original m ≡ done (started ending) m')
  reset_goes_on false rounds original m m' ending e =
      let (m1, writes, e1) = >>-inverts (debug_write _ _) _ m m' (started ending) e in
      absurd (pure_halted m1 m' ending e1)
  reset_goes_on true rounds original m m' ending e = (refl, e)

  passed_goes_on :
      (passed : Bool) (rounds original : ℕ) (m m' : Machine) (ending : Ending)
      → (if not passed then pure halted else trusted_main calls files tables image rounds original)
          m
        ≡ done (started ending) m'
      → (passed ≡ true)
        × (trusted_main calls files tables image rounds original m ≡ done (started ending) m')
  passed_goes_on false rounds original m m' ending e = absurd (pure_halted m m' ending e)
  passed_goes_on true rounds original m m' ending e = (refl, e)

  trusted_until_unlock_runs :
      (m m2 m3 m4 before : Machine)
      → log_bios_version (record m { mem = bios_inject_disc_error calls (m.mem) }) ≡ done tt m2
      → debug_write (codes "Resetting drive") [] m2 ≡ done tt m3
      → cd_drive_init m3 ≡ done true m4
      → debug_write (codes "Unlocking drive") [] m4 ≡ done tt before
      → trusted_until_unlock calls m ≡ done true before
  trusted_until_unlock_runs m m2 m3 m4 before logs writes resets names =
      rw (trusted_until_unlock, ◌>>◌, ◌>>=◌, logs, writes, resets, names) refl

  before_unlock_runs :
      (m m1 m3 m4 before : Machine) (original : ℕ)
      → bios_reinitialize calls m ≡ done original m1
      → debug_init
          (image.tonyhax_version)
          (image.orca_image)
          (record m1 { mem = audio_halt (m1.mem) })
        ≡ done tt m3
      → debug_write (codes "Integrity check %sed") (text (codes "pass") ∷ []) m3 ≡ done tt m4
      → trusted_until_unlock calls m4 ≡ done true before
      → before_unlock calls image m ≡ done (original, true) before
  before_unlock_runs m m1 m3 m4 before original enters inits said prepares =
      rw (before_unlock, ◌>>◌, ◌>>=◌, enters, inits, said, prepares) refl

  trusted_main_starts :
      (rounds original : ℕ) (m m' : Machine) (ending : Ending)
      → trusted_main calls files tables image rounds original m ≡ done (started ending) m'
      → (before : Machine) × (after : Machine) × (trusted_until_unlock calls m ≡ done true before)
        × (unlock_drive before ≡ done true after)
        × (boot_loop calls files tables image rounds original after ≡ done (started ending) m')
  unfolding trusted_main
  trusted_main_starts rounds original m m' ending e =
      let m1 = record m { mem = bios_inject_disc_error calls (m.mem) } in
      let (m2, logs, e2) = >>-inverts log_bios_version _ m1 m' (started ending) e in
      let (m3, writes, e3) =
        >>-inverts (debug_write (codes "Resetting drive") []) _ m2 m' (started ending) e2 in
      let (reset, m4, resets, e4) = bind_inverts cd_drive_init _ m3 m' (started ending) e3 in
      let (is_true, e5) = reset_goes_on reset rounds original m4 m' ending e4 in
      let (before, after, names, unlocks, boots) =
        unlock_and_boot_starts rounds original m4 m' ending e5 in
      (
        before,
        after,
        trusted_until_unlock_runs m m2 m3 m4 before logs writes (rw (sym is_true) resets) names,
        unlocks,
        boots,
      )

  main_starts :
      (passed : Bool) (rounds : ℕ) (m m' : Machine) (ending : Ending)
      → main calls files tables image passed rounds m ≡ done (started ending) m'
      → (passed ≡ true)
        × (original : ℕ) × (before : Machine) × (after : Machine) × (before_unlock calls image m
            ≡ done (original, true) before)
        × (unlock_drive before ≡ done true after)
        × (boot_loop calls files tables image rounds original after ≡ done (started ending) m')
  unfolding main
  main_starts passed rounds m m' ending e =
      let (original, m1, enters, e1) =
        bind_inverts (bios_reinitialize calls) _ m m' (started ending) e in
      let m2 = record m1 { mem = audio_halt (m1.mem) } in
      let (m3, inits, e3) =
        >>-inverts (debug_init (image.tonyhax_version) (image.orca_image)) _ m2 m' (started ending)
          e1 in
      let (m4, writes, e4) =
        >>-inverts (debug_write (codes "Integrity check %sed") _) _ m3 m' (started ending) e3 in
      let (is_true, e5) = passed_goes_on passed rounds original m4 m' ending e4 in
      let (before, after, prepares, unlocks, boots) =
        trusted_main_starts rounds original m4 m' ending e5 in
      let said : debug_write (codes "Integrity check %sed") (text (codes "pass") ∷ []) m3
          ≡ done tt m4 =
        rw
          (sym (
            ap
              (λ b.
                debug_write (codes "Integrity check %sed")
                  (text (if b then codes "pass" else codes "fail") ∷ []) m3)
              is_true))
          writes in
      (
        is_true,
        original,
        before,
        after,
        before_unlock_runs m m1 m3 m4 before original enters inits said prepares,
        unlocks,
        boots,
      )

  -- A run of the image starts a program only after its integrity check has passed and the calls of `main` up to
  -- `unlock_drive` have returned with the drive reset: `unlock_drive` has then returned `true`, and it is from
  -- the state in which it has left the console that the rounds of `try_boot_cd` have started the program. A
  -- program that the loader starts by `DoExecute` has been checked and read.
  pub run_image_starts :
      (rounds : ℕ) (m m' : Machine) (ending : Ending)
      → run_image calls files tables image rounds m ≡ done (started ending) m'
      → Trusted calls files tables image rounds m m' ending
  unfolding run_image
  run_image_starts rounds m m' ending e =
      let (passed, original, before, after, prepares, unlocks, boots) =
        main_starts ((start (image.layout) (m.mem)).1) rounds
          (record m { mem = (start (image.layout) (m.mem)).0 }) m' ending e in
      record {
        has_passed = passed;
        original = original;
        before = before;
        after = after;
        prepares = prepares;
        unlocks = unlocks;
        boots = boots;
        sound = boot_loop-Safe rounds original after m' (started ending) tt boots;
      }
