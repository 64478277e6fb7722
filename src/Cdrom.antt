-- ===== src/Cdrom.antt =====
-- loader/cdrom.c: the driver of the CD-ROM controller. `uint_fast8_t` is a byte. Each poll of a
-- register gives the next of the controller's replies; a loop ends where a reply lets it.
pub mod Runs
pub mod Polls
pub mod Replies
use tonyhax.Base.{
  ℕ, zero, suc, ◌+◌, bit_and, Bool, true, false, not, List, [], ◌∷◌, ◌++◌, ◌==◌, if◌then◌else◌, u8,
  Bytes, length,
}
use tonyhax.Machine.{
  Machine, Cd, Access, write, read, Outcome, done, waits, fault, M, pure, ◌>>=◌, ◌>>◌,
}

abbrev pub cd_cmd_getstat : ℕ
cd_cmd_getstat = 0x01

abbrev pub cd_cmd_init : ℕ
cd_cmd_init = 0x0A

abbrev pub cd_cmd_test : ℕ
cd_cmd_test = 0x19

abbrev pub cd_cmd_reset : ℕ
cd_cmd_reset = 0x1C

abbrev pub cd_test_region : ℕ
cd_test_region = 0x22

-- The machine after an access, with these replies left.
abbrev pub accessed : Access → List ℕ → Machine → Machine
accessed a left m = record m { cd = record { replies = left; accesses = m.cd.accesses ++ a ∷ [] } }

-- `CD_REGS[reg] = value`
unfoldable pub write_reg : ℕ → ℕ → M (Unit {0})
write_reg reg value m = done tt (accessed (write reg value) m.cd.replies m)

-- A bit of a register is set.
abbrev pub has : ℕ → ℕ → Bool
has value mask = not (bit_and value mask == 0)

unfoldable pub cd_set_page : ℕ → M (Unit {0})
cd_set_page page = write_reg 0 page

-- `while (CD_REGS[0] & 0x80);`
unfoldable pub busy_loop : List ℕ → M (Unit {0})
busy_loop [] m = waits
busy_loop (v ∷ vs) m =
    let rest = busy_loop vs (accessed (read 0 v) vs m) in
    if has v 0x80 then rest else done tt (accessed (read 0 v) vs m)

unfoldable pub wait_idle : M (Unit {0})
wait_idle m = busy_loop m.cd.replies m

-- The loop that copies the request: a parameter behind the end of the buffer is undefined.
unfoldable pub params_loop : ℕ → Bytes → M (Unit {0})
params_loop zero params = pure tt
params_loop (suc n) [] = λ m. fault
params_loop (suc n) (p ∷ params) = do write_reg 2 p; params_loop n params

unfoldable pub cd_command : ℕ → Bytes → ℕ → M (Unit {0})
cd_command cmd params params_len = do
  wait_idle
  cd_set_page 0
  write_reg 3 0xC0
  params_loop params_len params
  cd_set_page 1
  write_reg 2 0x00
  write_reg 3 0x07
  cd_set_page 0
  write_reg 1 cmd

-- The do-while loop that polls for an interrupt.
unfoldable pub int_loop : List ℕ → M ℕ
int_loop [] m = waits
int_loop (v ∷ vs) m =
    let rest = int_loop vs (accessed (read 3 v) vs m) in
    if bit_and v 0x07 == 0 then rest else done (bit_and v 0x07) (accessed (read 3 v) vs m)

unfoldable pub wait_int : M ℕ
wait_int m = int_loop m.cd.replies m

unfoldable pub cd_wait_int : M ℕ
cd_wait_int = do wait_idle; cd_set_page 1; interrupt ← wait_int; write_reg 3 0x07; pure interrupt

-- The loop of `cd_read_reply`, with `room` bytes left in the caller's buffer and `got` read: a
-- status, and while it has the FIFO bit a byte of the reply.
unfoldable pub reply_loop : List ℕ → ℕ → Bytes → M Bytes
reply_loop [] room got m = waits
reply_loop (s ∷ []) room got m = if has s 0x20 then waits else done got (accessed (read 0 s) [] m)
reply_loop (s ∷ b ∷ vs) zero got m =
    if has s 0x20 then fault else done got (accessed (read 0 s) (b ∷ vs) m)
reply_loop (s ∷ b ∷ vs) (suc room) got m =
    let rest =
      reply_loop vs room (got ++ b ∷ [])
        (accessed (read 1 b) vs (accessed (read 0 s) (b ∷ vs) m)) in
    if has s 0x20 then rest else done got (accessed (read 0 s) (b ∷ vs) m)

-- What a reply buffer holds, and the length that is returned.
pub record Reply : Type 0 where
  pub bytes : Bytes
  pub len : ℕ

-- `cd_read_reply` into a buffer of `room` bytes.
unfoldable pub cd_read_reply : ℕ → M Reply
cd_read_reply room = do
  cd_set_page 1
  got ← λ m. reply_loop m.cd.replies room [] m
  pure (record { bytes = got; len = u8 (length got) })

unfoldable pub cd_drive_init : M Bool
cd_drive_init = do
  cd_command cd_cmd_init [] 0
  first ← cd_wait_int
  if not (first == 3) then pure false else (do second ← cd_wait_int; pure (second == 2))

-- The delay loop at the end touches no device.
unfoldable pub cd_drive_reset : M Bool
cd_drive_reset = do cd_command cd_cmd_reset [] 0; first ← cd_wait_int; pure (first == 3)
