-- ===== src/Tests/Loading.antt =====
-- The boot of a disc without SYSTEM.CNF by loader/secondary.c, in `try_boot_cd` and in a whole run, at
-- concrete inputs.
use tonyhax.Base.{arith, codes, ◌∙◌, ◌+◌, ◌≡◌, refl, true, false, [], ◌∷◌, ◌++◌, ltb→lt}
use tonyhax.Libc.{strcmp_zero, strncmp_zero}
use tonyhax.Machine.{pure, Machine, done}
use tonyhax.Debugscreen.Quiet.{pure-Quiet}
use tonyhax.Rom.{string_at}
use tonyhax.Boot.{by_loader, cap_load_size, header_at, patch_header, overlaps}
use tonyhax.Boot.Config.{default_settings}
use tonyhax.Boot.Disc.{data_buffer, try_boot_cd}
use tonyhax.Boot.Settled.{Lacks, Configures}
use tonyhax.Boot.Boots.{Serves, Startable}
use tonyhax.Boot.Whole.{LidMoves, moves_values, Boots, try_boot_cd_boots}
use tonyhax.Unlock.{backdoor_commands}
use tonyhax.Unlock.Chain.{chain_accepted}
use tonyhax.Unlock.Region.{Region}
use tonyhax.Main.{started, run_image}
use tonyhax.Str.{bzero}
use tonyhax.Rom.{bios_version}
use tonyhax.Rom.Version.{IsString}
use tonyhax.Integrity.{start}
use tonyhax.Integrity.Check.{insert_crc, start-insert_crc}
use tonyhax.Bios.{Calls}
use tonyhax.Bios.Returns.{Steady, Behaves}
use tonyhax.Main.Starts.{Course, course_values, at_start, run_image_boots}
use tonyhax.Tests.Data.{layout, layout-IsLaidOut}
use tonyhax.Main.Boots.{Initializes, Unlocks}
use tonyhax.Tests.Devices.{settles, acknowledges, completes}
use tonyhax.Tests.Boot.{reports, american, seven, rom, is_stored-IsString}
use tonyhax.Tests.Setup.{bios, disc, tables, image, buffer, loaded, powered}

-- BIOS calls that leave memory alone.
abbrev calls : Calls
calls = record bios { init_a0_b0_c0_vectors = pure tt }

startable : Startable disc default_settings buffer 0 [] 2 88 loaded
unfolding header_at patch_header cap_load_size overlaps default_settings
startable = record {
  accepted = refl;
  apart = refl;
  small = ltb→lt _ _ refl;
  reads = λ m h. (0x1000, m, refl, (refl, h.1));
}

served : Serves calls disc default_settings buffer 0 []
unfolding strcmp_zero default_settings
served = record {
  Opened = λ mem. mem ≡ loaded;
  fd = 2;
  opens = refl;
  enters = pure-Quiet tt;
  configures = pure-Quiet tt;
  opens_file = λ m h. (2, record m { mem = loaded }, refl, (refl, refl, h));
  reads_header = λ mem opened m h.
      let same : m.mem ≡ loaded = h.0 ∙ opened in
      (2048, m, refl, (refl, rw (opened, same) startable, h.1));
  closes = pure-Quiet tt;
  flushes = pure-Quiet tt;
}

lacks : Lacks disc (0 ∷ [])
unfolding strcmp_zero
lacks = record {
  opens_file = λ m h. (0xFFFFFFFF, m, refl, (refl, h));
  fails = λ m h. (2, m, refl, (refl, h));
}

boots : Boots calls disc 0 []
unfolding data_buffer
boots = record {
  ps1 = true;
  settings = default_settings;
  comes_up = λ m h. (true, m, refl, (refl, h.0, h.1));
  reads_region = λ m h. (1, m, refl, (refl, h));
  configures = Configures.by_default lacks;
  serves = served;
}

-- The lid is opened after one look at it, and then closed.
abbrev opens_late : LidMoves true
opens_late = record {
  earlier = reports 0x02 ∷ [];
  last = reports 0x12;
  others = (refl, tt);
  arrives = refl;
}

abbrev closes_at_once : LidMoves false
closes_at_once = record { earlier = []; last = reports 0x02; others = tt; arrives = refl }

abbrev inserted : Machine
inserted = record powered {
  cd = record {
    replies = moves_values opens_late ++ (moves_values closes_at_once ++ []);
    accesses = [];
  };
}

try_boot_cd_boots_example :
    (m' : Machine) × (try_boot_cd calls disc (image.blobs) tables 0 inserted
      ≡ done (by_loader (buffer + 0x10)) m')
unfolding boots data_buffer string_at strncmp_zero
try_boot_cd_boots_example =
    try_boot_cd_boots calls disc (image.blobs) tables 0 0 [] boots opens_late closes_at_once []
      inserted refl refl refl

initializes : Initializes
initializes = record {
  before = settles;
  first_settled = settles;
  second_settled = settles;
  first = acknowledges;
  second = completes;
  acknowledged = refl;
  completed = refl;
}

unlocks : Unlocks
unfolding chain_accepted backdoor_commands
unlocks = record {
  region = Region.america;
  query = american;
  answers = seven;
  enough = omega arith;
  accepted = refl;
}

abbrev course : Course
course = record {
  initializes = initializes;
  unlocks = unlocks;
  opened = opens_late;
  closed = closes_at_once;
  replies_left = [];
  version = codes "4.1 12/16/97 E";
  short = omega arith;
}

abbrev powering : Machine
powering = record inserted {
  cd = record { replies = course_values course; accesses = [] };
  mem = insert_crc layout rom;
}

steady : {A : Type 0} (a : A) → Steady (at_start course (0 ∷ [])) (pure a)
steady a m h = (a, m, refl, h)

behaves : Behaves calls (at_start course (0 ∷ []))
behaves = record {
  enters = steady tt;
  exits = steady tt;
  calls_rom = λ a. steady tt;
  inits_vectors = steady tt;
  adjusts = steady tt;
  installs_handlers = steady tt;
  sets_exit = steady tt;
  installs_devices = λ tty. steady tt;
  configures = λ event tcb stacktop. steady tt;
  sets_size = λ n. steady tt;
  writes = λ w. steady tt;
  reads = steady 0;
}

rom_left :
    IsString
      ((start layout (powering.mem)).0)
      bios_version
      (codes "System ROM Version 4.1 12/16/97 E")
unfolding start bzero
rom_left =
    is_stored-IsString ((start layout (powering.mem)).0) bios_version
      (codes "System ROM Version 4.1 12/16/97 E") refl

run_image_boots_example :
    (m' : Machine) × (run_image calls disc tables image 1 powering
      ≡ done (started (by_loader (buffer + 0x10))) m')
unfolding boots data_buffer strncmp_zero
run_image_boots_example =
    run_image_boots calls disc tables image 0 [] boots 0 course powering refl behaves
      (start-insert_crc layout layout-IsLaidOut rom) (refl, rom_left, refl)
