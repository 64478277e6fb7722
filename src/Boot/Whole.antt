-- ===== src/Boot/Whole.antt =====
-- `try_boot_cd` of loader/secondary.c from its first line to the start of a program.
use tonyhax.Base.{
  ℕ, ◌+◌, ◌≤◌, ◌≡◌, ◌∙◌, refl, ap, arith, Bool, true, false, not, ◌==◌, if◌then◌else◌, some, All,
  List, [], ◌∷◌, ◌++◌, Bytes, codes, length, Memory,
}
use tonyhax.Str.{Arg, text, mini_vsprintf, vsprintf_loop, conversion}
use tonyhax.Machine.{Machine, Cd, done, M, ◌>>=◌, ◌>>◌}
use tonyhax.Machine.Total.{Total, >>=-Total, kept-Total}
use tonyhax.Debugscreen.{debug_write, in_buffer}
use tonyhax.Debugscreen.State.{off_log, debug_write-OnLog}
use tonyhax.Debugscreen.Repeats.{debug_write_returns}
use tonyhax.Debugscreen.Quiet.{status, debug_write-Quiet}
use tonyhax.Cdrom.Runs.{after}
use tonyhax.Rom.{bios_version, string_at, bios_is_ps1}
use tonyhax.Libc.{strncmp_zero}
use tonyhax.Unlock.{wait_lid_status}
use tonyhax.Unlock.Lid.{Getstat, lid_is, lid_values, lid_accesses, wait_lid_status_lem}
use tonyhax.Patcher.{Blobs, Tables}
use tonyhax.Bios.{Calls, get_mem}
use tonyhax.Boot.{Files, Ending, by_loader, game_region, offsets_at}
use tonyhax.Boot.Config.{Settings, load_settings}
use tonyhax.Boot.Disc.{data_buffer, boot_configured, boot_region, boot_disc, give_up, try_boot_cd}
use tonyhax.Boot.Settled.{Configures, Configures-short, load_settings-Total}
use tonyhax.Boot.Boots.{Serves, boot_file_starts}

-- How the drive answers while the lid is on its way: at last as wanted.
pub record LidMoves (open_lid : Bool) : Type 0 where
  pub earlier : List Getstat
  pub last : Getstat
  pub others : All (λ g. lid_is (if open_lid then 0x10 else 0x00) g ≡ false) earlier
  pub arrives : lid_is (if open_lid then 0x10 else 0x00) last ≡ true

abbrev pub moves_values : {open_lid : Bool} → LidMoves open_lid → List ℕ
moves_values l = lid_values (l.earlier) (l.last)

-- The version of the ROM does not begin with 5.0 where this is a PS1.
abbrev pub IsPs1 : Bool → Memory → Type 0
IsPs1 ps1 mem = not (strncmp_zero (string_at 64 (bios_version + 0x13) mem) (codes "5.0") 3) ≡ ps1

-- What the BIOS does with a disc that boots: the drive comes up, the sector with the region is read, and the
-- disc settles the settings and serves the executable that they name.
pub record Boots (calls : Calls) (files : Files) (v : ℕ) (rest : List ℕ) : Type 1 where
  pub ps1 : Bool
  pub settings : Settings
  pub comes_up :
      Total
        (λ m. IsPs1 ps1 (m.mem) × (status m ≡ v ∷ rest))
        (files.cd_init)
        (λ ok m. (ok ≡ true) × IsPs1 ps1 (m.mem) × (status m ≡ v ∷ rest))
  pub reads_region :
      Total
        (λ m. status m ≡ v ∷ rest)
        (files.cd_read_sector 1 4 (data_buffer ps1))
        (λ sectors m. (sectors ≡ 1) × (status m ≡ v ∷ rest))
  pub configures : Configures files (data_buffer ps1) (v ∷ rest) settings
  pub serves : Serves calls files settings (data_buffer ps1) v rest

if_cases {ℓ κ} :
    {A : Type ℓ} (P : A → Type κ) (b : Bool) {x y : A} → P x → P y → P (if b then x else y)
if_cases P true p q = p
if_cases P false p q = q

-- The line of the log with the region.
abbrev RegionFits : Bytes × Bool → Type 0
RegionFits r =
    (t : Bytes) × (in_buffer (
        mini_vsprintf (codes "Game's region is %s. Using %s video.")
          (text (r.0) ∷ text (if r.1 then codes "PAL" else codes "NTSC") ∷ []))
      ≡ some t)
    × (length t ≤ 48)

game_region-RegionFits : (c : ℕ) → RegionFits (game_region c)
unfolding game_region in_buffer mini_vsprintf vsprintf_loop conversion
game_region-RegionFits c =
    if_cases RegionFits (c == b'E') (_, refl, omega arith)
      (if_cases RegionFits (c == b'A') (_, refl, omega arith)
        (if_cases RegionFits (c == b'I') (_, refl, omega arith) (_, refl, omega arith)))

-- A line of the log that fits, with what holds of the drive, the status register and memory.
pub debug_write-Total :
    (P : Cd × List ℕ × Memory → Type 0) (format : Bytes) (args : List Arg) (t : Bytes)
    → in_buffer (mini_vsprintf format args) ≡ some t
    → length t ≤ 48
    → Total (λ m. P (off_log m)) (debug_write format args) (λ u m. P (off_log m))
debug_write-Total P format args t e short =
    kept-Total off_log (debug_write format args) P
      (λ m.
        let (s, r, l) = debug_write_returns m format args t e short in
        (tt, record m { screen = s }, r))
      (debug_write-OnLog format args)

wait_lid_status-Total :
    (open_lid : Bool) (l : LidMoves open_lid) (left st : List ℕ) (P : Memory → Type 0)
    → Total
        (λ m. (m.cd.replies ≡ moves_values l ++ left) × P (m.mem) × (status m ≡ st))
        (wait_lid_status open_lid)
        (λ u m. (m.cd.replies ≡ left) × P (m.mem) × (status m ≡ st))
wait_lid_status-Total open_lid l left st P m h = (
  tt,
  after m (lid_accesses (l.earlier) (l.last)) left,
  wait_lid_status_lem open_lid (l.earlier) (l.last) m left (l.others) (l.arrives) (h.0),
  (refl, h.1, h.2),
)

module _ (calls : Calls) (files : Files) (blobs : Blobs) (tables : Tables) (original : ℕ) (v : ℕ)
    (rest : List ℕ) (boots : Boots calls files v rest) where
  -- The action comes to `DoExecute` with the header in the buffer.
  abbrev Executes : M Ending → Type 0
  Executes p =
      Total (λ m. status m ≡ v ∷ rest) p
        (λ e m. e ≡ by_loader (offsets_at (data_buffer (boots.ps1))))

  boot_region-Executes :
      (region : Bytes × Bool)
      → RegionFits region
      → Executes (
          boot_region calls files blobs tables original
            (region.0)
            (region.1)
            (data_buffer (boots.ps1)))
  unfolding boot_region boot_configured
  boot_region-Executes region (t, fits, short) =
      >>=-Total (debug_write _ _) _ (debug_write-Quiet _ _ t fits short (v ∷ rest)) (λ u.
        >>=-Total (load_settings files (data_buffer (boots.ps1))) _
          (load_settings-Total files (data_buffer (boots.ps1)) (v ∷ rest) (boots.settings)
            (boots.configures))
          (λ o m h. rw (h.0) (
            let (m', e) =
              boot_file_starts calls files blobs tables original (region.1) (boots.settings)
                (data_buffer (boots.ps1)) v rest m (boots.serves)
                (Configures-short files (data_buffer (boots.ps1)) (v ∷ rest) (boots.settings)
                  (boots.configures))
                (h.1) in
            (by_loader (offsets_at (data_buffer (boots.ps1))), m', e, refl))))

  boot_disc-Executes :
      Executes (boot_disc calls files blobs tables original (data_buffer (boots.ps1)))
  unfolding boot_disc in_buffer mini_vsprintf vsprintf_loop
  boot_disc-Executes =
      >>=-Total (debug_write (codes "Checking game region") []) _
        (debug_write-Quiet _ [] (codes "Checking game region") refl (omega arith) (v ∷ rest))
        (λ u.
          >>=-Total (files.cd_read_sector 1 4 (data_buffer (boots.ps1))) _ (boots.reads_region)
            (λ sectors m h. rw (h.0) (
              >>=-Total get_mem _ {Q = λ mem m1. status m1 ≡ v ∷ rest}
                (λ m1 h1. (m1.mem, m1, refl, h1))
                (λ mem.
                  boot_region-Executes (game_region (mem (data_buffer (boots.ps1) + 0x3C)))
                    (game_region-RegionFits (mem (data_buffer (boots.ps1) + 0x3C))))
                m (h.1))))

  booted-Total :
      Total
        (λ m. IsPs1 (boots.ps1) (m.mem) × (status m ≡ v ∷ rest))
        (do
          debug_write (codes "Initializing CD") []
          ok ← files.cd_init
          if not ok then give_up (codes "Init failed") [] else (do
            ps1 ← bios_is_ps1
            boot_disc calls files blobs tables original (data_buffer ps1)))
        (λ e m. e ≡ by_loader (offsets_at (data_buffer (boots.ps1))))
  unfolding bios_is_ps1 in_buffer mini_vsprintf vsprintf_loop
  booted-Total =
      >>=-Total (debug_write (codes "Initializing CD") []) _
        (debug_write-Total (λ o. IsPs1 (boots.ps1) (o.2) × (o.1 ≡ v ∷ rest)) _ []
          (codes "Initializing CD") refl (omega arith))
        (λ u. >>=-Total (files.cd_init) _ (boots.comes_up) (λ ok m h. rw (h.0) (
          >>=-Total bios_is_ps1
            (λ ps1. boot_disc calls files blobs tables original (data_buffer ps1))
            {Q = λ ps1 m1. (ps1 ≡ boots.ps1) × (status m1 ≡ v ∷ rest)} (λ m1 h1. (_, m1, refl, h1))
            (λ ps1 m1 h1. rw (h1.0) (boot_disc-Executes m1 (h1.1))) m (h.1, h.2))))

  -- When the drive has reported the lid opened and closed, `try_boot_cd` returns no error but comes to
  -- `DoExecute`, for a disc that has no SYSTEM.CNF or one with all four settings, and an executable that is
  -- read without an error, is accepted, does not overlap the loader, and has a size below 2 ^ 31. It is assumed
  -- that the BIOS calls on the way return, and that the GPU's status register gives a value.
  pub try_boot_cd_boots :
      (opened : LidMoves true) (closed : LidMoves false) (left : List ℕ) (m : Machine)
      → m.cd.replies ≡ moves_values opened ++ (moves_values closed ++ left)
      → IsPs1 (boots.ps1) (m.mem)
      → status m ≡ v ∷ rest
      → (m' : Machine) × (try_boot_cd calls files blobs tables original m
          ≡ done (by_loader (offsets_at (data_buffer (boots.ps1)))) m')
  unfolding try_boot_cd in_buffer mini_vsprintf vsprintf_loop
  try_boot_cd_boots opened closed left m replies is_ps1 registers =
      let (e, m', r, is_started) =
        >>=-Total (debug_write (codes "Swap CD now") []) _
          (debug_write-Total
            (λ o.
              (o.0.replies ≡ moves_values opened ++ (moves_values closed ++ left))
              × IsPs1 (boots.ps1) (o.2)
              × (o.1 ≡ v ∷ rest))
            _ [] (codes "Swap CD now") refl (omega arith))
          (λ u.
            >>=-Total (wait_lid_status true) _
              (wait_lid_status-Total true opened (moves_values closed ++ left) (v ∷ rest)
                (IsPs1 (boots.ps1)))
              (λ u.
                >>=-Total (wait_lid_status false) _
                  (wait_lid_status-Total false closed left (v ∷ rest) (IsPs1 (boots.ps1)))
                  (λ u m1 h. booted-Total m1 (h.1, h.2))))
          m (replies, is_ps1, registers) in
      (m', r ∙ ap (λ x. done x m') is_started)
