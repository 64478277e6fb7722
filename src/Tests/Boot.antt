-- ===== src/Tests/Boot.antt =====
-- The theorems on loader/secondary.c, loader/bios.c, loader/audio.c and loader/util.c, and those on
-- repeated lines of the log, at concrete inputs.
use tonyhax.Base.{
  ℕ, ◌+◌, ◌-◌, not, ◌<◌, length, ◌≡◌, refl, sym, arith, Bool, true, some, List, [], ◌∷◌, append-nil,
  ◌==◌, if◌then◌else◌, Bytes, codes, get_or, Memory, leb, ◌&&◌,
}
use tonyhax.Str.{mini_vsprintf, vsprintf_loop}
use tonyhax.Machine.{Machine, Screen, done}
use tonyhax.Debugscreen.{debug_write, in_buffer}
use tonyhax.Debugscreen.Repeats.{debug_write_returns}
use tonyhax.Cdrom.Runs.{after}
use tonyhax.Debugscreen.State.{debug_write_remembers}
use tonyhax.Util.{delay_ds}
use tonyhax.Util.Frames.{Frame, frame_values, frame_writes, polled, delay_ds_lem}
use tonyhax.Rom.{bios_version}
use tonyhax.Rom.Version.{IsString}
use tonyhax.Exe.{ExeHeader, exe_file_okay}
use tonyhax.Exe.Segments.{exe_file_okay_lem}
use tonyhax.Unlock.{unlock_drive, wait_lid_status, backdoor_commands}
use tonyhax.Unlock.Chain.{Answer, chain_accepted}
use tonyhax.Unlock.Lid.{Getstat, lid_values, lid_accesses, wait_lid_status_lem}
use tonyhax.Unlock.Region.{Region, Query, unlock_values, unlock_accesses, unlock_drive_lem}
use tonyhax.Tests.Devices.{console, settles, acknowledges}

abbrev with_line : Bytes → ℕ → Machine
with_line line count = record (console []) {
  screen = record {
    status = [];
    acknowledged = [];
    commands = [];
    last_printed_line = line;
    last_printed_count = count;
  };
}

hello : in_buffer (mini_vsprintf (codes "Hello") []) ≡ some (codes "Hello")
unfolding in_buffer mini_vsprintf vsprintf_loop
hello = refl

debug_write_returns_example :
    (s : Screen) × (debug_write (codes "Hello") [] (with_line (codes "Hello") 0xFFFFFFFF)
      ≡ done tt (record (with_line (codes "Hello") 0xFFFFFFFF) { screen = s }))
    × (s.last_printed_line ≡ codes "Hello")
debug_write_returns_example =
    debug_write_returns (with_line (codes "Hello") 0xFFFFFFFF) (codes "Hello") [] (codes "Hello")
      hello (omega arith)

logged :
    (s : Screen) × (debug_write (codes "Hello") [] (console [])
      ≡ done tt (record (console []) { screen = s }))
    × (s.last_printed_line ≡ codes "Hello")
logged = debug_write_returns (console []) (codes "Hello") [] (codes "Hello") hello (omega arith)

debug_write_remembers_example :
    (in_buffer (mini_vsprintf (codes "Hello") []) ≡ some (logged.0.last_printed_line))
    × (length (logged.0.last_printed_line) < 64)
debug_write_remembers_example =
    debug_write_remembers (codes "Hello") [] (console [])
      (record (console []) { screen = logged.0 }) (logged.1)

-- A vertical blank that is there already, and one that comes at the second poll.
abbrev frame : Frame
frame = record { first = 1; quiet = 0 ∷ []; blank = 1; all_quiet = (refl, tt); is_blank = refl }

abbrev pal_console : Machine
pal_console = record (console []) {
  screen = record {
    status = 0x00100000 ∷ frame_values (frame ∷ frame ∷ frame ∷ frame ∷ frame ∷ []);
    acknowledged = [];
    commands = [];
    last_printed_line = [];
    last_printed_count = 0;
  };
}

delay_ds_lem_example :
    delay_ds 1 pal_console
    ≡ done tt (polled pal_console [] (frame_writes (frame ∷ frame ∷ frame ∷ frame ∷ frame ∷ [])))
delay_ds_lem_example =
    delay_ds_lem 1 0x00100000 (frame ∷ frame ∷ frame ∷ frame ∷ frame ∷ []) pal_console [] refl refl

abbrev pub is_stored : Memory → ℕ → Bytes → Bool
is_stored mem a [] = mem a == 0
is_stored mem a (c ∷ t) = (mem a == c && not (c == 0)) && is_stored mem (a + 1) t

pub is_stored-IsString :
    (mem : Memory) (a : ℕ) (t : Bytes) → is_stored mem a t ≡ true → IsString mem a t
is_stored-IsString mem a [] h = ground arith
is_stored-IsString mem a (c ∷ t) h =
    (ground arith, ground arith, is_stored-IsString mem (a + 1) t (ground arith))

abbrev pub rom : Memory
rom a =
    if leb bios_version a
    then get_or (codes "System ROM Version 4.1 12/16/97 E") (a - bios_version) 0
    else 0

rom-IsString : IsString rom bios_version (codes "System ROM Version 4.1 12/16/97 E")
rom-IsString = is_stored-IsString rom bios_version (codes "System ROM Version 4.1 12/16/97 E") refl

abbrev console_4_1 : Machine
console_4_1 = record (console []) { mem = rom }

abbrev header : ExeHeader
header = record {
  signature = codes "PS-X EXE";
  offsets = record {
    initial_pc = 0x80010000;
    initial_gp = 0;
    load_addr = 0x80010000;
    load_size = 0x800;
    memfill_start = 0;
    memfill_size = 0;
    initial_sp_base = 0x801FFF00;
    initial_sp_offset = 0;
  };
}

exe_file_okay_lem_example :
    (s : Screen) × (exe_file_okay header (console [])
      ≡ done true (record (console []) { screen = s }))
exe_file_okay_lem_example = exe_file_okay_lem header (console []) (omega arith) (omega arith)

-- The answer of a drive that takes a backdoor command: interrupt 5, and an error with code 0x40.
abbrev takes : Answer
takes = record {
  before = settles;
  settled = settles;
  raised = record { quiet = []; flag = 0xE5; all_quiet = tt; is_set = λ e. omega arith };
  reply = record {
    announced = (0x20, 0x11) ∷ (0x20, 0x40) ∷ [];
    end = 0x18;
    all_announced = (refl, (refl, tt));
    is_end = refl;
  };
  fits = omega arith;
}

abbrev pub american : Query Region.america
american = record {
  before = settles;
  settled = settles;
  raised = acknowledges;
  reply = record {
    announced =
        (0x20, b'f')
        ∷ (0x20, b'o')
        ∷ (0x20, b'r')
        ∷ (0x20, b' ')
        ∷ (0x20, b'U')
        ∷ (0x20, b'/')
        ∷ (0x20, b'C')
        ∷ [];
    end = 0x18;
    all_announced = (refl, (refl, (refl, (refl, (refl, (refl, (refl, tt)))))));
    is_end = refl;
  };
  succeeds = refl;
  names_region = refl;
}

abbrev pub seven : List Answer
seven = takes ∷ takes ∷ takes ∷ takes ∷ takes ∷ takes ∷ takes ∷ []

abbrev locked : Machine
locked = console (unlock_values Region.america american seven)

unlock_drive_lem_example :
    (s : Screen) × (unlock_drive locked
      ≡ done true
          (record (after locked (unlock_accesses Region.america american seven) []) { screen = s }))
unfolding chain_accepted backdoor_commands
unlock_drive_lem_example =
    unlock_drive_lem Region.america american seven locked [] (omega arith)
      (sym (append-nil (unlock_values Region.america american seven)))

abbrev pub reports : ℕ → Getstat
reports status = record {
  before = settles;
  settled = settles;
  raised = acknowledges;
  reply = record {
    announced = (0x20, status) ∷ [];
    end = 0x18;
    all_announced = (refl, tt);
    is_end = refl;
  };
  fits = omega arith;
  status = status;
  others = [];
  starts = refl;
}

abbrev lid : Machine
lid = console (lid_values (reports 0x02 ∷ reports 0x02 ∷ []) (reports 0x12))

wait_lid_status_lem_example :
    wait_lid_status true lid
    ≡ done tt (after lid (lid_accesses (reports 0x02 ∷ reports 0x02 ∷ []) (reports 0x12)) [])
wait_lid_status_lem_example =
    wait_lid_status_lem true (reports 0x02 ∷ reports 0x02 ∷ []) (reports 0x12) lid []
      (refl, (refl, tt)) refl
      (sym (append-nil (lid_values (reports 0x02 ∷ reports 0x02 ∷ []) (reports 0x12))))
