-- ===== src/Boot/Lookup.antt =====
-- The settings that `try_boot_cd` of loader/secondary.c takes from SYSTEM.CNF.
use tonyhax.Base.{
  ℕ, ◌≡◌, ◌≢◌, arith, true, leb, All, some, ◌++◌, u32, Bytes, codes, length, if◌then◌else◌,
}
use tonyhax.Machine.{Machine, done, fault, ◌>>=◌}
use tonyhax.Cfgparse.Lines.{Finds}
use tonyhax.Cfgparse.HexValue.{Documented, Ends, line_value, config_get_hex_lem}
use tonyhax.Cfgparse.Words.{separates, IsWord, WordEnds, config_get_string_lem}
use tonyhax.Boot.{Files}
use tonyhax.Boot.Config.{parse_settings}

-- The line of a number: what follows its name up to the line's end.
pub record NumberLine (config wanted : Bytes) : Type 0 where
  pub line : Bytes
  pub tail : Bytes
  pub one_line : All (λ c. c ≢ b'\n') line
  pub ends : Ends tail
  pub found : Finds wanted config (some (line ++ tail))

-- The line of a word: `=` signs and white space, the word, and what ends it.
pub record WordLine (config wanted : Bytes) : Type 0 where
  pub gap : Bytes
  pub word : Bytes
  pub tail : Bytes
  pub separated : All (λ c. separates c ≡ true) gap
  pub is_word : IsWord word
  pub ends : WordEnds tail
  pub found : Finds wanted config (some (gap ++ word ++ tail))

-- The number that the line's hexadecimal digits form.
abbrev pub number_of : {config wanted : Bytes} → NumberLine config wanted → ℕ
number_of l = u32 (line_value 0 (l.line))

-- A SYSTEM.CNF with the four lines gives the numbers and the file's name in them, in any order of the lines
-- and with other lines between them, and leaves the machine alone. A name of 32 or more bytes is written
-- behind the end of `bootfilebuf`. It is assumed that `todigit` does what loader/bios.h documents.
pub parse_settings_lem :
    (files : Files) (config : Bytes) (m : Machine) (tcb : NumberLine config (codes "TCB"))
    (event : NumberLine config (codes "EVENT")) (stack : NumberLine config (codes "STACK"))
    (boot : WordLine config (codes "BOOT"))
    → Documented (files.todigit)
    → parse_settings files config m ≡ (
        if leb 32 (length (boot.word))
        then fault
        else done
            (record {
              tcb = number_of tcb;
              event = number_of event;
              stacktop = number_of stack;
              bootfile = boot.word;
            })
            m)
unfolding parse_settings
parse_settings_lem files config m tcb event stack boot documented =
    rw
      (
        config_get_hex_lem (files.todigit) documented config (codes "TCB") (tcb.line) (tcb.tail) m
            (tcb.found) (tcb.one_line) (tcb.ends),
        ◌>>=◌,
        config_get_hex_lem (files.todigit) documented config (codes "EVENT") (event.line)
            (event.tail) m (event.found) (event.one_line) (event.ends),
        config_get_hex_lem (files.todigit) documented config (codes "STACK") (stack.line)
            (stack.tail) m (stack.found) (stack.one_line) (stack.ends),
        config_get_string_lem config (codes "BOOT") (boot.gap) (boot.word) (boot.tail) 32 m
            (boot.found) (boot.separated) (boot.is_word) (boot.ends),
      )
      (ground arith)
