-- ===== src/Tests/Config.antt =====
-- The theorems on loader/cfgparse.c at concrete inputs.
use tonyhax.Base.{
  not, Bool, Option, suc, ℕ, ◌+◌, ◌-◌, ◌≡◌, ◌≢◌, refl, arith, true, false, ◌&&◌, if◌then◌else◌, leb,
  All, ◌==◌, some, [], ◌∷◌, ◌++◌, Bytes, codes, length,
}
use tonyhax.Str.{isspace}
use tonyhax.Cfgparse.Words.{separates, IsWord, WordEnds, config_get_string_lem}
use tonyhax.Machine.{Machine, done}
use tonyhax.Cfgparse.{config_get_hex, search_lines, config_get_string}
use tonyhax.Cfgparse.Lines.{Finds, search_lines_lem}
use tonyhax.Cfgparse.HexValue.{hex_digit, Documented, Ends, line_value, config_get_hex_lem}

abbrev pub system_cnf : Bytes
system_cnf = codes "BOOT = cdrom:PSX.EXE;1\r\nTCB = 4\r\nEVENT = 10\r\nSTACK = 801FFF00\r\n"

search_lines_lem_example :
    (found : Option Bytes) × (search_lines (suc (length system_cnf)) system_cnf (codes "EVENT")
      ≡ some found)
    × Finds (codes "EVENT") system_cnf found
search_lines_lem_example = search_lines_lem system_cnf (codes "EVENT")

abbrev pub console : Machine
console = record {
  cd = record { replies = []; accesses = [] };
  screen = record {
    status = [];
    acknowledged = [];
    commands = [];
    last_printed_line = [];
    last_printed_count = 0;
  };
  mem = λ a. 0;
}

abbrev every : (ℕ → Bool) → Bytes → Bool
every p [] = true
every p (c ∷ cs) = p c && every p cs

every-All :
    (p : ℕ → Bool) (v : Bool) (cs : Bytes)
    → every (λ c. if v then p c else not (p c)) cs ≡ true
    → All (λ c. p c ≡ v) cs
every-All p v [] h = tt
every-All p true (c ∷ cs) h = (ground arith, every-All p true cs (ground arith))
every-All p false (c ∷ cs) h = (ground arith, every-All p false cs (ground arith))

pub one_line : (cs : Bytes) → every (λ c. not (c == b'\n')) cs ≡ true → All (λ c. c ≢ b'\n') cs
one_line [] h = tt
one_line (c ∷ cs) h = (ground arith, one_line cs (ground arith))

pub boot_gap : All (λ c. separates c ≡ true) (codes " = ")
unfolding isspace
boot_gap = every-All separates true (codes " = ") refl

pub boot-IsWord : IsWord (codes "cdrom:PSX.EXE;1")
unfolding isspace
boot-IsWord = (refl, every-All isspace false (codes "drom:PSX.EXE;1") refl)

line_feed : isspace b'\n' ≡ true
unfolding isspace
line_feed = refl

pub carriage_return : isspace b'\r' ≡ true
unfolding isspace
carriage_return = refl

no_boot : (r : Bytes) → codes "TCB = 4" ≢ codes "BOOT" ++ r
no_boot r e = ground arith

tcb_line : All (λ c. c ≢ b'\n') (codes "TCB = 4")
tcb_line = one_line (codes "TCB = 4") refl

config_get_string_lem_example :
    config_get_string (codes "BOOT = cdrom:PSX.EXE;1\n") (codes "BOOT") 32 console
    ≡ done (some (codes "cdrom:PSX.EXE;1")) console
config_get_string_lem_example =
    config_get_string_lem (codes "BOOT = cdrom:PSX.EXE;1\n") (codes "BOOT") (codes " = ")
      (codes "cdrom:PSX.EXE;1") (codes "\n") 32 console (Finds.here (codes " = cdrom:PSX.EXE;1\n"))
      boot_gap boot-IsWord (WordEnds.space b'\n' [] line_feed)

abbrev pub digit_value : ℕ → ℕ
digit_value c =
    if leb b'0' c && leb c b'9'
    then c - b'0'
    else if leb b'A' c && leb c b'Z'
    then 10 + (c - b'A')
    else if leb b'a' c && leb c b'z'
    then 10 + (c - b'a')
    else 9999999

pub digit_value-Documented : Documented digit_value
digit_value-Documented = record {
  digit = λ c h h'. ground arith;
  upper = λ c h h'. ground arith;
  lower = λ c h h'. ground arith;
  under = λ c h. ground arith;
  colon = λ c h h'. ground arith;
  bracket = λ c h h'. ground arith;
  over = λ c h. ground arith;
}

config_get_hex_lem_example :
    config_get_hex digit_value (codes "TCB = 1F\r\nEVENT = 10") (codes "TCB") console
    ≡ done (some 0x1F) console
unfolding line_value hex_digit
config_get_hex_lem_example =
    config_get_hex_lem digit_value digit_value-Documented (codes "TCB = 1F\r\nEVENT = 10")
      (codes "TCB") (codes " = 1F\r") (codes "\nEVENT = 10") console
      (Finds.here (codes " = 1F\r\nEVENT = 10")) (one_line (codes " = 1F\r") refl)
      (Ends.line_ends (codes "EVENT = 10"))
