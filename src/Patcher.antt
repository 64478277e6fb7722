-- ===== src/Patcher.antt =====
-- loader/patcher.c, and the two functions of loader/bios.c that take addresses out of the kernel's code,
-- `parse_warmboot_jal` and `bios_get_syscall_handler`. Memory is read and written at the addresses that
-- the code has; the mirrors of RAM at other addresses are not modelled.
pub mod Jumps
pub mod Hooks
pub mod Copied
pub mod Writes
pub mod Returns
use tonyhax.Base.{
  ℕ, zero, suc, ◌+◌, ◌*◌, ◌/◌, ◌%◌, ◌^◌, bit_and, bit_or, Bool, true, false, not, List, [], ◌∷◌,
  ◌==◌, if◌then◌else◌, u32, ◌<<<◌, ◌>>>◌, Bytes, codes, length, Memory, store8, load32, store32,
}
use tonyhax.Libc.{strcmp_zero}
use tonyhax.Machine.{Machine, Outcome, done, waits, fault, M, pure, ◌>>=◌, ◌>>◌}
use tonyhax.Debugscreen.{debug_write}
use tonyhax.Rom.{bios_is_ps1}

-- `memcpy` of a blob of the image, given by its bytes.
unfoldable pub copy_bytes : ℕ → Bytes → Memory → Memory
copy_bytes dest [] mem = mem
copy_bytes dest (b ∷ bytes) mem = copy_bytes (dest + 1) bytes (store8 dest b mem)

-- The words that `encode_j`, `encode_jal` and `encode_li` store.
unfoldable pub j_word : ℕ → ℕ
j_word jump_dest = bit_or 0x08000000 (bit_and (jump_dest >>> 2) 0x3FFFFFF)

unfoldable pub jal_word : ℕ → ℕ
jal_word jump_dest = bit_or 0x0C000000 (bit_and (jump_dest >>> 2) 0x3FFFFFF)

unfoldable pub lui_word : ℕ → ℕ → ℕ
lui_word regnum value = bit_or (bit_or 0x3C000000 (u32 (regnum <<< 16))) (value >>> 16)

unfoldable pub ori_word : ℕ → ℕ → ℕ
ori_word regnum value =
    bit_or (bit_or (bit_or 0x34000000 (u32 (regnum <<< 21))) (u32 (regnum <<< 16)))
      (bit_and value 0xFFFF)

unfoldable pub encode_j : ℕ → ℕ → Memory → Memory
encode_j jump_location jump_dest mem = store32 jump_location (j_word jump_dest) mem

unfoldable pub encode_jal : ℕ → ℕ → Memory → Memory
encode_jal jump_location jump_dest mem = store32 jump_location (jal_word jump_dest) mem

unfoldable pub encode_li : ℕ → ℕ → ℕ → Memory → Memory
encode_li load_location regnum value mem =
    store32 (load_location + 4) (ori_word regnum value)
      (store32 load_location (lui_word regnum value) mem)

-- Entry `i` of `BIOS_A0_TABLE`, and `parse_warmboot_jal`.
abbrev pub a0_entry : ℕ → ℕ
a0_entry i = 0x200 + 4 * i

unfoldable pub parse_warmboot_jal : ℕ → Memory → ℕ
parse_warmboot_jal opcode mem =
    let warmboot_start = load32 mem (a0_entry 0xA0) in
    let prefix = bit_and warmboot_start 0xF0000000 in
    let jal = load32 mem (u32 (warmboot_start + 4 * opcode)) in
    bit_or prefix (bit_and jal 0x3FFFFFF <<< 2)

-- The symbols that the assembled patches export, as offsets from their starts.
pub record Blobs : Type 0 where
  pub ap : Bytes
  pub ap_skip : ℕ
  pub ap_success : ℕ
  pub vandal : Bytes
  pub vandal_return : ℕ
  pub fpb : Bytes
  pub uartputc : Bytes

-- What the BIOS calls `GetB0Table` and `GetC0Table` return.
pub record Tables : Type 0 where
  pub b0 : ℕ
  pub c0 : ℕ

get_mem : M Memory
get_mem m = done (m.mem) m

put_mem : Memory → M (Unit {0})
put_mem mem m = done tt (record m { mem = mem })

module _ (blobs : Blobs) (tables : Tables) where
  unfoldable pub bios_get_syscall_handler : Memory → ℕ
  bios_get_syscall_handler mem =
      let func_start = load32 mem (tables.c0 + 4) in bit_and (load32 mem (func_start + 16)) 0xFFFF

  -- `verifier[20]`; `verifier` stands at offset 8 of a `handler_info`.
  unfoldable pub verifier_lw : Memory → ℕ
  verifier_lw mem = load32 mem (load32 mem (bios_get_syscall_handler mem + 8) + 80)

  -- The writes of `install_generic_antipiracy_patch`.
  unfoldable pub hook_cases : ℕ → ℕ → Memory → Memory
  hook_cases cases_array install_addr mem =
      let copied = copy_bytes install_addr (blobs.ap) mem in
      let skips =
        encode_j (install_addr + blobs.ap_skip) (load32 copied (cases_array + 4)) copied in
      let exits = encode_j (install_addr + blobs.ap_success) (load32 skips cases_array) skips in
      store32 (cases_array + 4) install_addr exits

  generic_checked : ℕ → ℕ → Memory → M ℕ
  generic_checked lw_op install_addr mem =
      if not (lw_op >>> 16 == 0x8C39)
      then (do debug_write (codes "Aborted! Please report this!") []; pure install_addr)
      else (do
        put_mem (hook_cases (bit_and lw_op 0xFFFF) install_addr mem)
        pure (install_addr + length (blobs.ap)))

  unfoldable pub install_generic_antipiracy_patch : ℕ → M ℕ
  unfolding generic_checked get_mem put_mem
  install_generic_antipiracy_patch install_addr = do
    debug_write (codes " * Generic antipiracy") []
    mem ← get_mem
    generic_checked (verifier_lw mem) install_addr mem

  -- The writes of `install_vandal_patch`.
  unfoldable pub hook_buttons : ℕ → Memory → Memory
  hook_buttons install_addr mem =
      let copied = copy_bytes install_addr (blobs.vandal) mem in
      let returns =
        encode_j (install_addr + blobs.vandal_return) (load32 copied (tables.b0 + 4 * 0x16))
          copied in
      store32 (tables.b0 + 4 * 0x16) install_addr returns

  unfoldable pub install_vandal_patch : ℕ → M ℕ
  unfolding get_mem put_mem
  install_vandal_patch install_addr = do
    debug_write (codes " * Vandal Hearths 2 AP") []
    mem ← get_mem
    put_mem (hook_buttons install_addr mem)
    pure (install_addr + length (blobs.vandal))

  unfoldable pub install_fpb_patch : ℕ → M ℕ
  unfolding get_mem put_mem
  install_fpb_patch install_addr = do
    debug_write (codes " * FreePSXBoot") []
    mem ← get_mem
    put_mem (encode_jal 0x5B40 install_addr (copy_bytes install_addr (blobs.fpb) mem))
    pure (install_addr + length (blobs.fpb))

  -- `"cdrom:\\SLUS_009.40;1"` has one backslash.
  unfoldable pub patcher_apply : Bytes → M (Unit {0})
  patcher_apply boot_file = do
    debug_write (codes "Installing patches:") []
    install_addr ←
        (if strcmp_zero boot_file (codes "cdrom:\\SLUS_009.40;1")
          then install_vandal_patch (tables.b0 + 4 * 0x5E)
          else install_generic_antipiracy_patch (tables.b0 + 4 * 0x5E))
    ps1 ← bios_is_ps1
    if ps1 then (do end ← install_fpb_patch install_addr; pure tt) else pure tt

  unfoldable pub patcher_apply_softuart : M (Unit {0})
  unfolding get_mem put_mem
  patcher_apply_softuart = do
    mem ← get_mem
    put_mem (copy_bytes (load32 mem (a0_entry 0x3C)) (blobs.uartputc) mem)
