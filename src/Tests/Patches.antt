-- ===== src/Tests/Patches.antt =====
-- The theorems on loader/patcher.c at concrete inputs.
use tonyhax.Base.{ℕ, ◌≡◌, refl, arith, some, [], ◌∷◌, Bytes, Memory, load32, store32}
use tonyhax.Machine.{Machine}
use tonyhax.Patcher.{
  Blobs, Tables, encode_jal, encode_li, parse_warmboot_jal, a0_entry, bios_get_syscall_handler,
  verifier_lw,
}
use tonyhax.Patcher.Jumps.{parse_warmboot_jal-encode_jal, run_li, run_li-encode_li}
use tonyhax.Patcher.Hooks.{FitsPatch}
use tonyhax.Tests.Devices.{console}

abbrev pub zeros : Memory
zeros a = 0

abbrev warm : Memory
warm = store32 (a0_entry 0xA0) 0xBFC06000 zeros

parse_warmboot_jal-encode_jal_example :
    parse_warmboot_jal 12 (encode_jal 0xBFC06030 0xBFC00420 warm) ≡ 0xBFC00420
parse_warmboot_jal-encode_jal_example =
    parse_warmboot_jal-encode_jal 12 0xBFC00420 0xBFC06000 warm refl (omega arith) (omega arith)
      refl refl

run_li-encode_li_example :
    run_li
      (load32 (encode_li 0x9F0 8 0x801FA100 zeros) 0x9F0)
      (load32 (encode_li 0x9F0 8 0x801FA100 zeros) 0x9F4)
    ≡ some (8, 0x801FA100)
run_li-encode_li_example = run_li-encode_li 0x9F0 8 0x801FA100 zeros (omega arith) (omega arith)

abbrev pub patch : Bytes
patch = 1 ∷ 2 ∷ 3 ∷ 4 ∷ 5 ∷ 6 ∷ 7 ∷ 8 ∷ 9 ∷ 10 ∷ 11 ∷ 12 ∷ []

abbrev pub blobs : Blobs
blobs = record {
  ap = patch;
  ap_skip = 8;
  ap_success = 4;
  vandal = patch;
  vandal_return = 8;
  fpb = patch;
  uartputc = patch;
}

pub blobs-FitsPatch : FitsPatch blobs
blobs-FitsPatch = record { success_first = omega arith; inside = omega arith }

abbrev pub tables : Tables
tables = record { b0 = 0x874; c0 = 0x674 }

-- The kernel's code around the syscall verifier, with this word as its instruction 20: the table of
-- cases stands at 0x300, and leads to 0x1F00 and 0x1F40.
abbrev pub kernel : ℕ → Memory
kernel word = store32 0x678 0x1000 (
    store32 0x1010 0x24A56000 (
      store32 0x6008 0x1100
        (store32 0x1150 word (store32 0x304 0x1F40 (store32 0x300 0x1F00 zeros)))))

abbrev pub hooked_console : ℕ → Machine
hooked_console word = record (console []) { mem = kernel word }

pub reads_lw : verifier_lw blobs tables (kernel 0x8C390300) ≡ 0x8C390300
unfolding verifier_lw bios_get_syscall_handler
reads_lw = refl
