-- ===== src/Tests/Setup.antt =====
-- A console with a disc, and how a run on it ends.
use tonyhax.Libc.{strcmp_zero}
use tonyhax.Base.{
  ==_iff, ℕ, ◌+◌, ◌-◌, ◌≡◌, refl, ◌==◌, Bool, true, false, List, [], ◌∷◌, codes, Memory, store32,
  if◌then◌else◌,
}
use tonyhax.Machine.{Machine, Outcome, done, waits, fault, pure, ◌>>◌}
use tonyhax.Integrity.Check.{insert_crc}
use tonyhax.Patcher.{Tables}
use tonyhax.Bios.{Calls, change_mem}
use tonyhax.Boot.{Files, Ending, returned, by_bios, by_loader}
use tonyhax.Main.{Image, Run, halted, started, unfinished}
use tonyhax.Tests.Data.{layout, bad}
use tonyhax.Tests.Devices.{console}

-- The kernel's memory, and the one with an executable's header in the buffer and its file control block.
abbrev pub kernel : Memory
kernel a = 0

abbrev pub buffer : ℕ
buffer = 0xA000B070

abbrev pub loaded : Memory
loaded = store32 (buffer + 0x10) 0x80010000 (
    store32 (buffer + 0x18) 0x80010000 (store32 (buffer + 0x1C) 0x4000 (store32 120 0x1800 kernel)))

abbrev pub bios : Calls
bios = record {
  enter_critical_section = pure tt;
  exit_critical_section = pure tt;
  call_rom = λ a. pure tt;
  init_a0_b0_c0_vectors = change_mem (λ mem. kernel);
  adjust_a0_table = pure tt;
  install_exception_handlers = pure tt;
  set_default_exit_from_exception = pure tt;
  install_devices = λ tty. pure tt;
  set_conf = λ event tcb stacktop. pure tt;
  set_mem_size = λ n. pure tt;
  write_tty = λ v. pure tt;
  read_tty = pure 0;
  fake_enqueue_cd_intr = 0x801FB000;
  disc_error_handler = 0x801FB100;
}

-- A disc without SYSTEM.CNF, of which all other files can be read.
abbrev pub disc : Files
disc = record {
  cd_init = pure true;
  cd_read_sector = λ count sector dst. pure 1;
  file_open = λ name mode.
      if strcmp_zero name (codes "cdrom:SYSTEM.CNF;1")
      then pure 0xFFFFFFFF
      else change_mem (λ mem. loaded) >> pure 2;
  file_read = λ fd dst len. pure len;
  file_close = λ fd. pure tt;
  get_last_error = pure 2;
  load_and_execute = λ name base offset. pure false;
  flush_cache = pure tt;
  todigit = λ c. c - b'0';
}

abbrev pub tables : Tables
tables = record { b0 = 0x1000; c0 = 0x2000 }

abbrev pub image : Image
image = record {
  layout = layout;
  blobs = record {
    ap = [];
    ap_skip = 0;
    ap_success = 0;
    vandal = [];
    vandal_return = 0;
    fpb = [];
    uartputc = [];
  };
  tonyhax_version = codes "v1.4.5";
  orca_image = [];
}

abbrev pub stored : Memory
stored = insert_crc layout kernel

abbrev pub replies : List ℕ
replies =
    24 ∷ 24 ∷ 3 ∷ 24 ∷ 2 ∷ 24 ∷ 24 ∷ 3 ∷ 32 ∷ 102 ∷ 32 ∷ 111 ∷ 32 ∷ 114 ∷ 32 ∷ 32 ∷ 32 ∷ 85 ∷ 32
    ∷ 47 ∷ 32 ∷ 67 ∷ 24 ∷ 24 ∷ 24 ∷ 5 ∷ 32 ∷ 17 ∷ 32 ∷ 64 ∷ 24 ∷ 24 ∷ 24 ∷ 5 ∷ 32 ∷ 17 ∷ 32 ∷ 64
    ∷ 24 ∷ 24 ∷ 24 ∷ 5 ∷ 32 ∷ 17 ∷ 32 ∷ 64 ∷ 24 ∷ 24 ∷ 24 ∷ 5 ∷ 32 ∷ 17 ∷ 32 ∷ 64 ∷ 24 ∷ 24 ∷ 24 ∷ 5
    ∷ 32 ∷ 17 ∷ 32 ∷ 64 ∷ 24 ∷ 24 ∷ 24 ∷ 5 ∷ 32 ∷ 17 ∷ 32 ∷ 64 ∷ 24 ∷ 24 ∷ 24 ∷ 5 ∷ 32 ∷ 17 ∷ 32
    ∷ 64 ∷ 24 ∷ 24 ∷ 24 ∷ 3 ∷ 32 ∷ 18 ∷ 24 ∷ 24 ∷ 24 ∷ 3 ∷ 32 ∷ 2 ∷ 24 ∷ []

abbrev pub lid_replies : List ℕ
lid_replies = 0x18 ∷ 0x18 ∷ 3 ∷ 0x20 ∷ 0x12 ∷ 0x18 ∷ 0x18 ∷ 0x18 ∷ 3 ∷ 0x20 ∷ 0x02 ∷ 0x18 ∷ []

abbrev pub powered : Machine
powered = record (console replies) {
  mem = stored;
  screen = record {
    status = 0 ∷ [];
    acknowledged = [];
    commands = [];
    last_printed_line = [];
    last_printed_count = 0;
  };
}

abbrev pub starts_at : ℕ → Outcome Run → Bool
starts_at a (done (started (by_loader b)) m) = a == b
starts_at a _ = false

pub run_of :
    (a : ℕ) (o : Outcome Run)
    → starts_at a o ≡ true
    → (m' : Machine) × (o ≡ done (started (by_loader a)) m')
run_of a (done halted m) h = absurd cc
run_of a (done (started returned) m) h = absurd cc
run_of a (done (started (by_bios bootfile)) m) h = absurd cc
run_of a (done (started (by_loader b)) m) h =
    let same : a ≡ b = (==_iff a b).0 h in (m, rw same refl)
run_of a (done unfinished m) h = absurd cc
run_of a waits h = absurd cc
run_of a fault h = absurd cc

abbrev pub is_done {ℓ} : {A : Type ℓ} → Outcome A → Bool
is_done (done a m) = true
is_done _ = false

pub result_of {ℓ} :
    {A : Type ℓ} (o : Outcome A) → is_done o ≡ true → (a : A) × (m' : Machine) × (o ≡ done a m')
result_of (done a m) h = (a, m, refl)
result_of waits h = absurd cc
result_of fault h = absurd cc

-- The drive's answers while the lid is opened and closed.
abbrev pub swapped : Machine
swapped = record powered { cd = record { replies = lid_replies; accesses = [] } }

abbrev pub tries : Outcome Ending → Outcome Run
tries (done e m) = done (started e) m
tries waits = waits
tries fault = fault

pub tries-done :
    (e : Ending) (m' : Machine) (o : Outcome Ending) → tries o ≡ done (started e) m' → o ≡ done e m'
tries-done e m' (done e' m) h = cc
tries-done e m' waits h = absurd cc
tries-done e m' fault h = absurd cc

-- The image of which a word has changed.
abbrev pub broken : Machine
broken = record (console []) { mem = bad }
