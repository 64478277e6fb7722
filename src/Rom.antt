-- ===== src/Rom.antt =====
-- The version of the console's ROM: `bios_is_ps1` and `bios_is_european` of loader/bios.c, and
-- `log_bios_version` of loader/secondary.c.
pub mod Version
use tonyhax.Base.{
  ℕ, zero, suc, ◌+◌, Bool, true, false, not, [], ◌∷◌, ◌==◌, if◌then◌else◌, Bytes, codes, Memory,
}
use tonyhax.Libc.{strncmp_zero}
use tonyhax.Str.{text}
use tonyhax.Machine.{Machine, Outcome, done, waits, fault, M, pure, ◌>>=◌, ◌>>◌}
use tonyhax.Debugscreen.{debug_write}

-- `BIOS_VERSION`
abbrev pub bios_version : ℕ
bios_version = 0xBFC7FF32

-- The string at an address, or its first `n` bytes. With 64 it is long enough for each comparison
-- here, and a longer text overflows the log's buffer just as one of 64 bytes does.
unfoldable pub string_at : ℕ → ℕ → Memory → Bytes
string_at zero a mem = []
string_at (suc n) a mem = if mem a == 0 then [] else mem a ∷ string_at n (a + 1) mem

unfoldable pub bios_is_ps1 : M Bool
bios_is_ps1 m =
    done (not (strncmp_zero (string_at 64 (bios_version + 0x13) (m.mem)) (codes "5.0") 3)) m

unfoldable pub bios_is_european : M Bool
bios_is_european m = done (m.mem (bios_version + 0x20) == b'E') m

-- `version` of `log_bios_version`.
unfoldable pub version_text : Memory → Bytes
version_text mem =
    if strncmp_zero (string_at 64 (bios_version + 11) mem) (codes "Version") 7
    then string_at 64 (bios_version + 19) mem
    else codes "1.0 or older"

unfoldable pub log_bios_version : M (Unit {0})
log_bios_version = do
  m ← λ m. done m m
  ps1 ← bios_is_ps1
  debug_write (codes "Console: %s") (text (if ps1 then codes "PS1" else codes "PS2") ∷ [])
  debug_write (codes "BIOS: v%s") (text (version_text (m.mem)) ∷ [])
