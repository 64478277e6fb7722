-- ===== src/Main/Boots.antt =====
-- The rest of `main` of loader/secondary.c after the integrity check, with a drive that is unlocked and a
-- disc that boots.
use tonyhax.Base.{
  false, ℕ, suc, ◌≤◌, ◌≡◌, ◌∙◌, refl, ap, arith, true, not, if◌then◌else◌, List, [], ◌∷◌, ◌++◌,
  Bytes, codes, length, Memory,
}
use tonyhax.Str.{mini_vsprintf, vsprintf_loop}
use tonyhax.Machine.{Machine, done, pure, ◌>>=◌, ◌>>◌}
use tonyhax.Machine.Total.{Total, >>=-Total}
use tonyhax.Debugscreen.{debug_write, in_buffer}
use tonyhax.Debugscreen.Quiet.{status}
use tonyhax.Libc.{strncmp_zero}
use tonyhax.Rom.{bios_version}
use tonyhax.Rom.Version.{
  IsString, IsString-below, string_at-version, log_bios_version_lem, log_bios_version-OnLog,
}
use tonyhax.Cdrom.{cd_drive_init}
use tonyhax.Cdrom.Polls.{Idles, Interrupts, code, init_values, init_accesses, cd_drive_init_lem}
use tonyhax.Cdrom.Runs.{after}
use tonyhax.Unlock.{backdoor_commands, unlock_drive}
use tonyhax.Unlock.Chain.{Answer, chain_accepted}
use tonyhax.Unlock.Region.{
  Region, Query, licensee, unlock_values, unlock_accesses, unlock_drive-Drives,
}
use tonyhax.Patcher.{Tables, a0_entry}
use tonyhax.Bios.{Calls, bios_inject_disc_error}
use tonyhax.Boot.{Files, by_loader, offsets_at}
use tonyhax.Boot.Disc.{data_buffer}
use tonyhax.Boot.Whole.{LidMoves, moves_values, IsPs1, Boots, debug_write-Total, try_boot_cd_boots}
use tonyhax.Main.{Image, started, halted, next_round, boot_loop, unlock_and_boot, trusted_main}

-- A drive that accepts all the backdoor commands of its region.
pub record Unlocks : Type 0 where
  pub region : Region
  pub query : Query region
  pub answers : List Answer
  pub enough : 7 ≤ length answers
  pub accepted : chain_accepted (backdoor_commands (licensee region)) answers ≡ true

abbrev pub query_values : Unlocks → List ℕ
query_values u = unlock_values (u.region) (u.query) (u.answers)

-- A drive that answers Init with interrupts 3 and 2.
pub record Initializes : Type 0 where
  pub before : Idles
  pub first_settled : Idles
  pub second_settled : Idles
  pub first : Interrupts
  pub second : Interrupts
  pub acknowledged : code first ≡ 3
  pub completed : code second ≡ 2

abbrev pub initial_values : Initializes → List ℕ
initial_values i = init_values (i.before) (i.first_settled) (i.second_settled) (i.first) (i.second)

cd_drive_init-Total :
    (i : Initializes) (left st : List ℕ) (P : Memory → Type 0)
    → Total
        (λ m. (m.cd.replies ≡ initial_values i ++ left) × P (m.mem) × (status m ≡ st))
        cd_drive_init
        (λ ok m. (ok ≡ true) × (m.cd.replies ≡ left) × P (m.mem) × (status m ≡ st))
cd_drive_init-Total i left st P m h = (
  _,
  after m (init_accesses (i.before) (i.first_settled) (i.second_settled) (i.first) (i.second)) left,
  cd_drive_init_lem (i.before) (i.first_settled) (i.second_settled) (i.first) (i.second) m left
      (h.0),
  (rw (i.acknowledged, i.completed) refl, refl, h.1, h.2),
)

unlock_drive-Total :
    (u : Unlocks) (left st : List ℕ) (P : Memory → Type 0)
    → Total
        (λ m. (m.cd.replies ≡ query_values u ++ left) × P (m.mem) × (status m ≡ st))
        unlock_drive
        (λ ok m. (ok ≡ true) × (m.cd.replies ≡ left) × P (m.mem) × (status m ≡ st))
unlock_drive-Total u left st P m h =
    let (s, r, same) =
      unlock_drive-Drives (u.region) (u.query) (u.answers) (u.enough) m left (h.0) in
    (
      _,
      record (after m (unlock_accesses (u.region) (u.query) (u.answers)) left) { screen = s },
      r,
      (u.accepted, refl, h.1, same ∙ h.2),
    )

module _ (calls : Calls) (files : Files) (tables : Tables) (image : Image) (v : ℕ) (rest : List ℕ)
    (boots : Boots calls files v rest) where
  boot_loop-Total :
      (rounds original : ℕ) (opened : LidMoves true) (closed : LidMoves false) (left : List ℕ)
      → Total
          (λ m.
            (m.cd.replies ≡ moves_values opened ++ (moves_values closed ++ left))
            × IsPs1 (boots.ps1) (m.mem)
            × (status m ≡ v ∷ rest))
          (boot_loop calls files tables image (suc rounds) original)
          (λ e m. e ≡ started (by_loader (offsets_at (data_buffer (boots.ps1)))))
  unfolding boot_loop next_round
  boot_loop-Total rounds original opened closed left m h =
      let (m', e) =
        try_boot_cd_boots calls files (image.blobs) tables original v rest boots opened closed left
          m (h.0) (h.1) (h.2) in
      (started (by_loader (offsets_at (data_buffer (boots.ps1)))), m', rw (e, ◌>>=◌) refl, refl)

  unlock_and_boot-Total :
      (rounds original : ℕ) (u : Unlocks) (opened : LidMoves true) (closed : LidMoves false)
      (left : List ℕ)
      → Total
          (λ m.
            (m.cd.replies
              ≡ query_values u ++ (moves_values opened ++ (moves_values closed ++ left)))
            × IsPs1 (boots.ps1) (m.mem)
            × (status m ≡ v ∷ rest))
          (unlock_and_boot calls files tables image (suc rounds) original)
          (λ e m. e ≡ started (by_loader (offsets_at (data_buffer (boots.ps1)))))
  unfolding unlock_and_boot in_buffer mini_vsprintf vsprintf_loop
  unlock_and_boot-Total rounds original u opened closed left =
      >>=-Total (debug_write (codes "Unlocking drive") []) _
        (debug_write-Total
          (λ o.
            (o.0.replies ≡ query_values u ++ (moves_values opened ++ (moves_values closed ++ left)))
            × IsPs1 (boots.ps1) (o.2)
            × (o.1 ≡ v ∷ rest))
          _ [] (codes "Unlocking drive") refl (omega arith))
        (λ _.
          >>=-Total unlock_drive _
            {R = λ e m1. e ≡ started (by_loader (offsets_at (data_buffer (boots.ps1))))}
            (unlock_drive-Total u (moves_values opened ++ (moves_values closed ++ left)) (v ∷ rest)
              (IsPs1 (boots.ps1)))
            (λ ok m1 h.
              rw (h.0) (boot_loop-Total rounds original opened closed left m1 (h.1, h.2, h.3))))

  initialized-Total :
      (rounds original : ℕ) (i : Initializes) (u : Unlocks) (opened : LidMoves true)
      (closed : LidMoves false) (left : List ℕ)
      → Total
          (λ m.
            (m.cd.replies
              ≡ initial_values i
                ++ (query_values u ++ (moves_values opened ++ (moves_values closed ++ left))))
            × IsPs1 (boots.ps1) (m.mem)
            × (status m ≡ v ∷ rest))
          (do
            debug_write (codes "Resetting drive") []
            reset ← cd_drive_init
            if not reset
                then (do debug_write (codes "Reset failed") []; pure halted)
                else unlock_and_boot calls files tables image (suc rounds) original)
          (λ e m. e ≡ started (by_loader (offsets_at (data_buffer (boots.ps1)))))
  unfolding in_buffer mini_vsprintf vsprintf_loop
  initialized-Total rounds original i u opened closed left =
      >>=-Total (debug_write (codes "Resetting drive") []) _
        (debug_write-Total
          (λ o.
            (o.0.replies
              ≡ initial_values i
                ++ (query_values u ++ (moves_values opened ++ (moves_values closed ++ left))))
            × IsPs1 (boots.ps1) (o.2)
            × (o.1 ≡ v ∷ rest))
          _ [] (codes "Resetting drive") refl (omega arith))
        (λ _.
          >>=-Total cd_drive_init _
            {R = λ e m1. e ≡ started (by_loader (offsets_at (data_buffer (boots.ps1))))}
            (cd_drive_init-Total i
              (query_values u ++ (moves_values opened ++ (moves_values closed ++ left))) (v ∷ rest)
              (IsPs1 (boots.ps1)))
            (λ ok m1 h.
              rw (h.0)
                (unlock_and_boot-Total rounds original u opened closed left m1 (h.1, h.2, h.3))))

  -- After an integrity check that passes, `main` comes to `DoExecute` in the first round of its loop: where the
  -- drive answers Init with interrupts 3 and 2, is one that is unlocked, and reports the lid opened and closed,
  -- and the BIOS then boots the disc. It is assumed that the BIOS calls on the way return, that the ROM has a
  -- version string, and that the GPU's status register gives a value.
  pub trusted_main_starts :
      (rounds original : ℕ) (i : Initializes) (u : Unlocks) (opened : LidMoves true)
      (closed : LidMoves false) (left : List ℕ) (version : Bytes) (m : Machine)
      → m.cd.replies
        ≡ initial_values i
          ++ (query_values u ++ (moves_values opened ++ (moves_values closed ++ left)))
      → IsString (m.mem) bios_version (codes "System ROM Version " ++ version)
      → length version ≤ 41
      → not (strncmp_zero version (codes "5.0") 3) ≡ boots.ps1
      → status m ≡ v ∷ rest
      → (m' : Machine) × (trusted_main calls files tables image (suc rounds) original m
          ≡ done (started (by_loader (offsets_at (data_buffer (boots.ps1))))) m')
  unfolding trusted_main bios_inject_disc_error
  trusted_main_starts rounds original i u opened closed left version m replies rom short is_ps1
        registers =
      let mem1 : Memory = bios_inject_disc_error calls (m.mem) in
      let rom1 : IsString mem1 bios_version (codes "System ROM Version " ++ version) =
        IsString-below (m.mem) (a0_entry 0xA1) (calls.disc_error_handler) bios_version
          (codes "System ROM Version " ++ version) (omega arith) rom in
      let (s, r, l) = log_bios_version_lem (record m { mem = mem1 }) version rom1 short in
      let kept : (m.cd, s.status, mem1) ≡ (m.cd, m.screen.status, mem1) =
        log_bios_version-OnLog (record m { mem = mem1 }) _ tt r in
      let (e, m', r', is_started) =
        initialized-Total rounds original i u opened closed left
          (record m { mem = mem1; screen = s })
          (
            replies,
            ap (λ t. not (strncmp_zero t (codes "5.0") 3))
                  (string_at-version mem1 version rom1 short)
                ∙ is_ps1,
            ap (λ o. o.1) kept ∙ registers,
          ) in
      (m', rw (r, ◌>>=◌) (r' ∙ ap (λ x. done x m') is_started))
