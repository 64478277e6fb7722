-- ===== src/Stubs.antt =====
-- loader/bios-asm.S, by which the C code calls the BIOS, and what loader/bios.h documents of the calls.
pub mod Documented
use tonyhax.Base.{ℕ, Option, none, some, List, [], ◌∷◌, ◌++◌}
use tonyhax.Cpu.{
  a0, t1, s1, s2, s3, s4, s5, s6, sp, ra, lw, addi, li, Code, j, jr, ◌⨾◌, Cpu, step, run,
}

pub data Call : Type 0 where
  todigit : Call
  strcmp : Call
  strncmp : Call
  strcpy : Call
  strlen : Call
  strchr : Call
  memcpy : Call
  std_out_puts : Call
  do_execute : Call
  flush_cache : Call
  init_a0_b0_c0_vectors : Call
  gpu_dw : Call
  send_gp1_command : Call
  gpu_cw : Call
  gpu_cwp : Call
  load_and_execute : Call
  cd_init : Call
  set_conf : Call
  set_mem_size : Call
  cd_read_sector : Call
  set_default_exit_from_exception : Call
  file_open : Call
  file_read : Call
  file_close : Call
  get_last_error : Call
  get_c0_table : Call
  get_b0_table : Call
  install_exception_handlers : Call
  install_devices : Call
  adjust_a0_table : Call

unfoldable pub stub : Call → Code
stub todigit = li t1 0x0A ⨾ j 0xA0
stub strcmp = li t1 0x17 ⨾ j 0xA0
stub strncmp = li t1 0x18 ⨾ j 0xA0
stub strcpy = li t1 0x19 ⨾ j 0xA0
stub strlen = li t1 0x1B ⨾ j 0xA0
stub strchr = li t1 0x1E ⨾ j 0xA0
stub memcpy = li t1 0x2A ⨾ j 0xA0
stub std_out_puts = li t1 0x3E ⨾ j 0xA0
stub do_execute = li s1 0 ⨾ li s2 0 ⨾ li s3 0 ⨾ li s4 0 ⨾ li s5 0 ⨾ li s6 0 ⨾ li t1 0x43 ⨾ j 0xA0
stub flush_cache = li t1 0x44 ⨾ j 0xA0
stub init_a0_b0_c0_vectors = li t1 0x45 ⨾ j 0xA0
stub gpu_dw = li t1 0x46 ⨾ j 0xA0
stub send_gp1_command = li t1 0x48 ⨾ j 0xA0
stub gpu_cw = li t1 0x49 ⨾ j 0xA0
stub gpu_cwp = li t1 0x4A ⨾ j 0xA0
stub load_and_execute = li t1 0x51 ⨾ j 0xA0
stub cd_init = li t1 0x54 ⨾ j 0xA0
stub set_conf = li t1 0x9C ⨾ j 0xA0
stub set_mem_size = li t1 0x9F ⨾ j 0xA0
stub cd_read_sector = li t1 0xA5 ⨾ j 0xA0
stub set_default_exit_from_exception = li t1 0x18 ⨾ j 0xB0
stub file_open = li t1 0x32 ⨾ j 0xB0
stub file_read = li t1 0x34 ⨾ j 0xB0
stub file_close = li t1 0x36 ⨾ j 0xB0
stub get_last_error = li t1 0x54 ⨾ j 0xB0
stub get_c0_table = li t1 0x56 ⨾ j 0xB0
stub get_b0_table = li t1 0x57 ⨾ j 0xB0
stub install_exception_handlers = li t1 0x07 ⨾ j 0xC0
stub install_devices = li t1 0x12 ⨾ j 0xC0
stub adjust_a0_table = li t1 0x1C ⨾ j 0xC0

-- Each call with the address of its table's dispatcher and its number, as the comments have them.
unfoldable pub program_calls : List (Call × ℕ × ℕ)
program_calls =
    (todigit, 0xA0, 0x0A)
    ∷ (do_execute, 0xA0, 0x43)
    ∷ (flush_cache, 0xA0, 0x44)
    ∷ (init_a0_b0_c0_vectors, 0xA0, 0x45)
    ∷ []

unfoldable pub gpu_calls : List (Call × ℕ × ℕ)
gpu_calls =
    (gpu_dw, 0xA0, 0x46)
    ∷ (send_gp1_command, 0xA0, 0x48)
    ∷ (gpu_cw, 0xA0, 0x49)
    ∷ (gpu_cwp, 0xA0, 0x4A)
    ∷ []

unfoldable pub system_calls : List (Call × ℕ × ℕ)
system_calls =
    (load_and_execute, 0xA0, 0x51)
    ∷ (cd_init, 0xA0, 0x54)
    ∷ (set_conf, 0xA0, 0x9C)
    ∷ (set_mem_size, 0xA0, 0x9F)
    ∷ (cd_read_sector, 0xA0, 0xA5)
    ∷ []

unfoldable pub b_calls : List (Call × ℕ × ℕ)
b_calls =
    (set_default_exit_from_exception, 0xB0, 0x18)
    ∷ (file_open, 0xB0, 0x32)
    ∷ (file_read, 0xB0, 0x34)
    ∷ (file_close, 0xB0, 0x36)
    ∷ (get_last_error, 0xB0, 0x54)
    ∷ (get_c0_table, 0xB0, 0x56)
    ∷ (get_b0_table, 0xB0, 0x57)
    ∷ []

unfoldable pub c_calls : List (Call × ℕ × ℕ)
c_calls =
    (install_exception_handlers, 0xC0, 0x07)
    ∷ (install_devices, 0xC0, 0x12)
    ∷ (adjust_a0_table, 0xC0, 0x1C)
    ∷ []

unfoldable pub documented : List (Call × ℕ × ℕ)
documented = program_calls ++ gpu_calls ++ system_calls ++ b_calls ++ c_calls

unfoldable pub fake_enqueue_cd_intr : Code
fake_enqueue_cd_intr = lw ra 0x14 sp ⨾ addi sp sp 0x18 ⨾ jr ra

-- With what the kernel does at a `syscall`.
module _ (kernel : Cpu → Option Cpu) where
  unfoldable pub enter_critical_section : Cpu → Option (ℕ × Cpu)
  enter_critical_section c = elim (step (li a0 0x01) c) [
    | none ↦ none
    | some called ↦ elim (kernel called) [ none ↦ none | some back ↦ run (jr ra) back ]
  ]

  unfoldable pub exit_critical_section : Cpu → Option (ℕ × Cpu)
  exit_critical_section c = elim (step (li a0 0x02) c) [
    | none ↦ none
    | some called ↦ elim (kernel called) [ none ↦ none | some back ↦ run (jr ra) back ]
  ]
