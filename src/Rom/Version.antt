-- ===== src/Rom/Version.antt =====
-- What loader/bios.c and loader/secondary.c take from the ROM's version string.
use tonyhax.Base.{
  store32, store32-outside, inr, ◌∙◌, ℕ, zero, suc, ◌+◌, ◌≤◌, ◌<◌, ◌≡◌, ◌≢◌, refl, arith, Bool,
  true, false, not, some, [], ◌∷◌, ◌++◌, if◌then◌else◌, Bytes, codes, length, Memory,
}
use tonyhax.Str.{mini_vsprintf, vsprintf_loop, conversion, text}
use tonyhax.Libc.{strncmp_zero, strncmp_zero-prefix}
use tonyhax.Machine.{Machine, Screen, done, ◌>>=◌}
use tonyhax.Debugscreen.{debug_write, in_buffer}
use tonyhax.Machine.Triple.{>>=-Keeps}
use tonyhax.Debugscreen.State.{off_log, OnLog, debug_write-OnLog}
use tonyhax.Debugscreen.Repeats.{debug_write_returns}
use tonyhax.Rom.{bios_version, string_at, bios_is_ps1, version_text, log_bios_version}

-- The text is stored at the address, with a NUL behind it.
abbrev pub IsString : Memory → ℕ → Bytes → Type 0
IsString mem a [] = mem a ≡ 0
IsString mem a (c ∷ t) = (mem a ≡ c) × (c ≢ 0) × IsString mem (a + 1) t

string_at_lem :
    (n a : ℕ) (mem : Memory) (t : Bytes) → IsString mem a t → length t < n → string_at n a mem ≡ t
unfolding string_at
string_at_lem zero a mem t h lt = absurd (omega arith)
string_at_lem (suc n) a mem [] h lt = rw h refl
string_at_lem (suc n) a mem (c ∷ t) h lt =
    ground (arith, h.0, h.1, string_at_lem n (a + 1) mem t h.2 (omega arith))

-- The rest of a stored text is stored behind its beginning.
IsString-append :
    (mem : Memory) (a : ℕ) (s t : Bytes) → IsString mem a (s ++ t) → IsString mem (a + length s) t
IsString-append mem a [] t h = let e : a + 0 ≡ a = omega arith in rw e h
IsString-append mem a (c ∷ s) t h =
    let e : a + suc (length s) ≡ a + 1 + length s = omega arith in
    rw e (IsString-append mem (a + 1) s t h.2)

-- What stands behind the version string's first words.
pub string_at-version :
    (mem : Memory) (v : Bytes)
    → IsString mem bios_version (codes "System ROM Version " ++ v)
    → length v ≤ 41
    → string_at 64 (bios_version + 19) mem ≡ v
string_at-version mem v h short =
    string_at_lem 64 (bios_version + 19) mem v
      (IsString-append mem bios_version (codes "System ROM Version ") v h) (omega arith)

-- A write below a stored text leaves it alone.
pub IsString-below :
    (mem : Memory) (p w a : ℕ) (t : Bytes)
    → p + 4 ≤ a
    → IsString mem a t
    → IsString (store32 p w mem) a t
IsString-below mem p w a [] below h = store32-outside p w a mem (inr below) ∙ h
IsString-below mem p w a (c ∷ t) below h = (
  store32-outside p w a mem (inr below) ∙ h.0,
  h.1,
  IsString-below mem p w (a + 1) t (omega arith) h.2,
)

version_text-IsString :
    (mem : Memory) (v : Bytes)
    → IsString mem bios_version (codes "System ROM Version " ++ v)
    → length v ≤ 41
    → version_text mem ≡ v
unfolding version_text
version_text-IsString mem v h short =
    rw
      (
        string_at_lem 64 (bios_version + 11) mem (codes "Version " ++ v)
            (IsString-append mem bios_version (codes "System ROM ") (codes "Version " ++ v) h)
            (omega arith),
        strncmp_zero-prefix (codes "Version " ++ v) (codes "Version") (codes " " ++ v) refl,
      )
      (string_at-version mem v h short)

console_logged :
    (ps1 : Bool) (m : Machine)
    → (s : Screen) × (debug_write
          (codes "Console: %s")
          (text (if ps1 then codes "PS1" else codes "PS2") ∷ [])
          m
        ≡ done tt (record m { screen = s }))
unfolding in_buffer mini_vsprintf vsprintf_loop conversion
console_logged true m =
    let (s, e, l) =
      debug_write_returns m (codes "Console: %s") (text (codes "PS1") ∷ []) (codes "Console: PS1")
        refl (omega arith) in
    (s, e)
console_logged false m =
    let (s, e, l) =
      debug_write_returns m (codes "Console: %s") (text (codes "PS2") ∷ []) (codes "Console: PS2")
        refl (omega arith) in
    (s, e)

version_in_buffer :
    (v : Bytes)
    → length v ≤ 41
    → in_buffer (mini_vsprintf (codes "BIOS: v%s") (text v ∷ [])) ≡ some (codes "BIOS: v" ++ v)
unfolding in_buffer mini_vsprintf vsprintf_loop conversion
version_in_buffer v short = ground arith

-- On a console whose ROM has a version string "System ROM Version " with at most 41 bytes behind it, the
-- last line that `log_bios_version` prints is "BIOS: v" with those bytes; it returns, and changes nothing
-- but the screen.
pub log_bios_version_lem :
    (m : Machine) (v : Bytes)
    → IsString (m.mem) bios_version (codes "System ROM Version " ++ v)
    → length v ≤ 41
    → (s : Screen) × (log_bios_version m ≡ done tt (record m { screen = s }))
      × (s.last_printed_line ≡ codes "BIOS: v" ++ v)
unfolding log_bios_version bios_is_ps1
log_bios_version_lem m v h short =
    let (s, e) =
      console_logged
        (not (strncmp_zero (string_at 64 (bios_version + 0x13) (m.mem)) (codes "5.0") 3)) m in
    let (s', e', l) =
      debug_write_returns (record m { screen = s }) (codes "BIOS: v%s") (text v ∷ [])
        (codes "BIOS: v" ++ v) (version_in_buffer v short) (omega arith) in
    (s', rw (e, ◌>>=◌, version_text-IsString (m.mem) v h short) e', l)

-- It leaves the drive, the values of the GPU's status register and memory alone.
pub log_bios_version-OnLog : OnLog log_bios_version
unfolding log_bios_version bios_is_ps1
log_bios_version-OnLog m m' a e =
    >>=-Keeps off_log
      (debug_write (codes "Console: %s") (
        text (
          if not (strncmp_zero (string_at 64 (bios_version + 0x13) (m.mem)) (codes "5.0") 3)
          then codes "PS1"
          else codes "PS2")
        ∷ []))
      (λ u. debug_write (codes "BIOS: v%s") (text (version_text (m.mem)) ∷ []))
      (debug_write-OnLog _ _) (λ u. debug_write-OnLog _ _) m m' a e
