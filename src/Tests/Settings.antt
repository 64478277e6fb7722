-- ===== src/Tests/Settings.antt =====
-- The settings that loader/secondary.c takes from a SYSTEM.CNF, at a concrete input.
use tonyhax.Base.{◌≡◌, refl, some, suc, Option, Bytes, codes, length, sym, []}
use tonyhax.Libc.{strncmp_zero, strchr}
use tonyhax.Machine.{done}
use tonyhax.Cfgparse.{search_lines}
use tonyhax.Cfgparse.Lines.{Finds, search_lines_lem}
use tonyhax.Cfgparse.HexValue.{Ends, line_value, hex_digit}
use tonyhax.Cfgparse.Words.{WordEnds}
use tonyhax.Boot.{Files}
use tonyhax.Boot.Config.{parse_settings}
use tonyhax.Boot.Lookup.{NumberLine, WordLine, parse_settings_lem}
use tonyhax.Tests.Config.{
  system_cnf, console, one_line, digit_value, digit_value-Documented, boot_gap, boot-IsWord,
  carriage_return,
}
use tonyhax.Tests.Setup.{disc}

-- The lookup of a name, from a run of the search.
run-Finds :
    (config wanted : Bytes) (found : Option Bytes)
    → search_lines (suc (length config)) config wanted ≡ some found
    → Finds wanted config found
run-Finds config wanted found e =
    let (f, e', d) = search_lines_lem config wanted in let same : f ≡ found = cc in rw (sym same) d

abbrev files : Files
files = record disc { todigit = digit_value }

tcb : NumberLine system_cnf (codes "TCB")
unfolding search_lines strncmp_zero strchr
tcb = record {
  line = codes " = 4\r";
  tail = codes "\nEVENT = 10\r\nSTACK = 801FFF00\r\n";
  one_line = one_line (codes " = 4\r") refl;
  ends = Ends.line_ends (codes "EVENT = 10\r\nSTACK = 801FFF00\r\n");
  found =
      run-Finds system_cnf (codes "TCB") (some (codes " = 4\r\nEVENT = 10\r\nSTACK = 801FFF00\r\n"))
        refl;
}

event : NumberLine system_cnf (codes "EVENT")
unfolding search_lines strncmp_zero strchr
event = record {
  line = codes " = 10\r";
  tail = codes "\nSTACK = 801FFF00\r\n";
  one_line = one_line (codes " = 10\r") refl;
  ends = Ends.line_ends (codes "STACK = 801FFF00\r\n");
  found = run-Finds system_cnf (codes "EVENT") (some (codes " = 10\r\nSTACK = 801FFF00\r\n")) refl;
}

stack : NumberLine system_cnf (codes "STACK")
unfolding search_lines strncmp_zero strchr
stack = record {
  line = codes " = 801FFF00\r";
  tail = codes "\n";
  one_line = one_line (codes " = 801FFF00\r") refl;
  ends = Ends.line_ends [];
  found = run-Finds system_cnf (codes "STACK") (some (codes " = 801FFF00\r\n")) refl;
}

boot : WordLine system_cnf (codes "BOOT")
unfolding search_lines strncmp_zero strchr
boot = record {
  gap = codes " = ";
  word = codes "cdrom:PSX.EXE;1";
  tail = codes "\r\nTCB = 4\r\nEVENT = 10\r\nSTACK = 801FFF00\r\n";
  separated = boot_gap;
  is_word = boot-IsWord;
  ends =
      WordEnds.space b'\r' (codes "\nTCB = 4\r\nEVENT = 10\r\nSTACK = 801FFF00\r\n")
        carriage_return;
  found =
      run-Finds system_cnf (codes "BOOT")
        (some (codes " = cdrom:PSX.EXE;1\r\nTCB = 4\r\nEVENT = 10\r\nSTACK = 801FFF00\r\n")) refl;
}

parse_settings_lem_example :
    parse_settings files system_cnf console
    ≡ done
        (record {
          tcb = 4;
          event = 0x10;
          stacktop = 0x801FFF00;
          bootfile = codes "cdrom:PSX.EXE;1";
        })
        console
unfolding tcb event stack boot line_value hex_digit
parse_settings_lem_example =
    parse_settings_lem files system_cnf console tcb event stack boot digit_value-Documented
