-- ===== src/Integrity.antt =====
-- loader/integrity.c, and the first half of `start` in loader/secondary.c, which runs it. The link
-- script loader/secondary.ld fixes `__RO_START__`; the other symbols depend on the build.
pub mod Check
use tonyhax.Base.{ℕ, ◌-◌, Bool, ◌==◌, Memory, load32}
use tonyhax.Str.{bzero}
use tonyhax.Crc.{crc32}

-- `__RO_START__`
abbrev pub ro_start : ℕ
ro_start = 0x801FA100

-- The linker's symbols. `integrity_correct_crc` is the only word of `.crc`.
pub record Layout : Type 0 where
  pub crc_start : ℕ
  pub bss_start : ℕ
  pub bss_end : ℕ

-- `integrity_test`: the new value of `integrity_ok`.
unfoldable pub integrity_test : Layout → Memory → Bool
integrity_test l mem = crc32 mem ro_start (l.crc_start - ro_start) == load32 mem l.crc_start

-- `start` up to the call of `main`: the memory, and `integrity_ok`.
unfoldable pub start : Layout → Memory → Memory × Bool
start l mem =
    let cleared = bzero l.bss_start (l.bss_end - l.bss_start) mem in
    (cleared, integrity_test l cleared)
