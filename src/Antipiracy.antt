-- ===== src/Antipiracy.antt =====
-- docs/ap_v2.c: the second version of the antipiracy check that games run, up to step 9; the file breaks
-- off in step 10. `curlen`, which it does not declare, is taken for `curints`, `cd_read_reply` for
-- `cd_check_op`, `ap_cur_step` for `ap_current_step`, `cd_req_buf` for `cd_req_buffer`, and `cd_send_cmd`
-- for `cd_start_op`. Of a buffer only the bytes that are written are determined; the rest is what the
-- buffer held before.
pub mod Loop
pub mod Bcd
pub mod Replies
pub mod Steps
pub mod Unreached
use tonyhax.Base.{
  ℕ, zero, suc, ◌+◌, ◌-◌, ◌*◌, ◌/◌, ◌%◌, bit_and, bit_or, Bool, true, false, not, ◌&&◌, ◌||◌, ◌==◌,
  ltb, if◌then◌else◌, List, [], ◌∷◌, u8, u32, ◌<<<◌, ◌>>>◌, Memory, store8, store32,
}
use tonyhax.Machine.{Machine, Outcome, done, waits, fault, M, pure, ◌>>=◌, ◌>>◌, read}
use tonyhax.Cdrom.{accessed, write_reg, cd_set_page, has}

unfoldable pub bcd_to_binary : ℕ → ℕ
bcd_to_binary val = u8 ((val >>> 4) * 10 + bit_and val 0xF)

unfoldable pub binary_to_bcd : ℕ → ℕ
binary_to_bcd val = u8 (bit_or ((val / 10) <<< 4) (val % 10))

-- `CD_RET_CONTINUE` and the other results of `cd_check_op`.
pub data Ret : Type 0 where
  tray_open : Ret
  fail : Ret
  continue : Ret
  success : Ret

-- `CD_OP_GET_STATUS` and the others.
pub data Op : Type 0 where
  get_status : Op
  get_tn : Op
  get_td : Op
  set_location : Op
  seek_audio : Op
  set_mode : Op
  init : Op
  mute : Op
  play : Op
  subfunc_x : Op
  subfunc_y : Op
  pause : Op
  read_toc : Op
  get_id : Op

-- The number of an operation in the enumeration.
unfoldable pub number : Op → ℕ
number get_status = 0
number get_tn = 1
number get_td = 2
number set_location = 3
number seek_audio = 4
number set_mode = 5
number init = 6
number mute = 7
number play = 8
number subfunc_x = 9
number subfunc_y = 10
number pause = 11
number read_toc = 12
number get_id = 13

-- `struct cd_operation_t`
pub record CdOperation : Type 0 where
  pub command : ℕ
  pub req_len : ℕ
  pub reply_len : ℕ
  pub expected_ints : ℕ

abbrev operation : ℕ → ℕ → ℕ → ℕ → CdOperation
operation command req_len reply_len expected_ints = record {
  command = command;
  req_len = req_len;
  reply_len = reply_len;
  expected_ints = expected_ints;
}

-- `CD_OPERATIONS`
unfoldable pub cd_operations : Op → CdOperation
cd_operations get_status = operation 0x01 0x00 0x01 0x03
cd_operations get_tn = operation 0x13 0x00 0x03 0x03
cd_operations get_td = operation 0x14 0x01 0x03 0x03
cd_operations set_location = operation 0x02 0x03 0x01 0x03
cd_operations seek_audio = operation 0x16 0x00 0x01 0x05
cd_operations set_mode = operation 0x0E 0x01 0x01 0x03
cd_operations init = operation 0x0A 0x00 0x01 0x05
cd_operations mute = operation 0x0B 0x00 0x01 0x03
cd_operations play = operation 0x03 0x00 0x01 0x03
cd_operations subfunc_x = operation 0x19 0x01 0x01 0x03
cd_operations subfunc_y = operation 0x19 0x01 0x02 0x03
cd_operations pause = operation 0x09 0x00 0x01 0x05
cd_operations read_toc = operation 0x1E 0x00 0x01 0x05
cd_operations get_id = operation 0x1A 0x00 0x01 0x05

-- `CD_REGS[reg]`
unfoldable pub read_next : ℕ → List ℕ → M ℕ
read_next reg [] m = waits
read_next reg (v ∷ vs) m = done v (accessed (read reg v) vs m)

unfoldable pub read_reg : ℕ → M ℕ
read_reg reg m = read_next reg m.cd.replies m

-- `*((uint32_t *) 0) = i`
abbrev pub waste_write : ℕ → M (Unit {0})
waste_write i m = done tt (record m { mem = store32 0 i (m.mem) })

-- The loop of four writes to address 0, with `n` writes left.
unfoldable pub waste_cycles : ℕ → ℕ → M (Unit {0})
waste_cycles zero i = pure tt
waste_cycles (suc n) i = do waste_write i; waste_cycles n (i + 1)

-- The loop that writes the request, with `n` bytes left.
unfoldable pub request_loop : ℕ → ℕ → Memory → M (Unit {0})
request_loop zero i cd_req_buffer = pure tt
request_loop (suc n) i cd_req_buffer = do
  write_reg 2 (cd_req_buffer i)
  request_loop n (i + 1) cd_req_buffer

unfoldable pub cd_start_op : Op → Memory → M (Unit {0})
cd_start_op op cd_req_buffer = do
  cd_set_page 1
  write_reg 3 0x07
  waste_cycles 4 0
  cd_set_page 1
  write_reg 2 0x18
  cd_set_page 0
  request_loop ((cd_operations op).req_len) 0 cd_req_buffer
  cd_set_page 0
  write_reg 1 ((cd_operations op).command)

-- `cd_ackd_ints` and `cd_reply_buf`.
pub record Drive : Type 0 where
  pub cd_ackd_ints : ℕ
  pub cd_reply_buf : Memory

-- The loop that reads the reply, with `n` bytes left.
unfoldable pub read_loop : ℕ → ℕ → Memory → M Memory
read_loop zero i cd_reply_buf = pure cd_reply_buf
read_loop (suc n) i cd_reply_buf = do b ← read_reg 1; read_loop n (i + 1) (store8 i b cd_reply_buf)

restore_interrupts : M (Unit {0})
restore_interrupts = do cd_set_page 1; write_reg 2 0x1F

-- After an INT5.
unfoldable pub failed_op : Memory → M (Ret × Drive)
unfolding restore_interrupts
failed_op buf = do
  buf' ← read_loop 2 0 buf
  restore_interrupts
  pure (
    (if has (buf' 0) 0x10 then tray_open else fail),
    record { cd_ackd_ints = 0; cd_reply_buf = buf' },
  )

-- After any other interrupt.
unfoldable pub completed_op : Op → Memory → M (Ret × Drive)
unfolding restore_interrupts
completed_op op buf = do
  buf' ← read_loop ((cd_operations op).reply_len) 0 buf
  restore_interrupts
  pure (
    (if not (number op == 0x0A) && has (buf' 0) 0x10 then tray_open else success),
    record { cd_ackd_ints = 0; cd_reply_buf = buf' },
  )

unfoldable pub acknowledged_op : Op → Drive → ℕ → M (Ret × Drive)
acknowledged_op op drive curints = do
  let ackd = u32 (drive.cd_ackd_ints + curints) in
      do
        cd_set_page 1
        write_reg 3 0x07
        waste_cycles 4 0
        if ltb ackd ((cd_operations op).expected_ints)
            then pure (continue, record drive { cd_ackd_ints = ackd })
            else if curints == 5
            then failed_op (drive.cd_reply_buf)
            else completed_op op (drive.cd_reply_buf)

unfoldable pub cd_check_op : Op → Drive → M (Ret × Drive)
cd_check_op op drive = do
  cd_set_page 1
  first ← read_reg 3
  second ← read_reg 3
  if not (bit_and first 7 == bit_and second 7) || bit_and first 7 == 0
      then pure (continue, drive)
      else acknowledged_op op drive (bit_and first 7)
