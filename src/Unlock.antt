-- ===== src/Unlock.antt =====
-- The unlocking of the drive in loader/secondary.c: `backdoor_cmd`, `unlock_drive`, and
-- `wait_lid_status`. The buffers `cd_reply` have 16 bytes.
pub mod Chain
pub mod Lid
pub mod Drives
pub mod Region
use tonyhax.Base.{
  ℕ, zero, suc, ◌+◌, bit_and, Bool, true, false, not, ◌&&◌, Option, none, some, List, [], ◌∷◌, ◌++◌,
  ◌==◌, ltb, if◌then◌else◌, u8, Bytes, codes, length, drop, get_elem?,
}
use tonyhax.Libc.{strcmp_zero}
use tonyhax.Str.{text}
use tonyhax.Machine.{Machine, Outcome, done, waits, fault, M, pure, ◌>>=◌, ◌>>◌, defined}
use tonyhax.Debugscreen.{debug_write}
use tonyhax.Cdrom.{
  Reply, cd_command, cd_wait_int, cd_read_reply, cd_cmd_test, cd_cmd_getstat, cd_test_region, has,
}

abbrev pub reply_room : ℕ
reply_room = 16

-- `cd_reply[i]` of a byte that the reply has set: any other is not determined.
abbrev pub reply_byte : Reply → ℕ → M ℕ
reply_byte reply i = defined (get_elem? (reply.bytes) i)

-- The checks of `backdoor_cmd` on the reply.
check_refusal : Reply → M Bool
check_refusal reply = do
  status ← reply_byte reply 0
  error ← reply_byte reply 1
  pure (has status 0x01 && error == 0x40)

check_length : Reply → M Bool
check_length reply = if not (reply.len == 2) then pure false else check_refusal reply

-- `strlen` of the BIOS gives 0 for `NULL`, which is the empty text here.
unfoldable pub backdoor_cmd : ℕ → Bytes → M Bool
unfolding check_length check_refusal
backdoor_cmd cmd string = do
  cd_command cmd string (u8 (length string))
  interrupt ← cd_wait_int
  if not (interrupt == 5)
      then pure false
      else (do reply ← cd_read_reply reply_room; check_length reply)

-- The operands of the `||` in `unlock_drive`, up to the first command that fails.
unfoldable pub backdoor_chain : List (ℕ × Bytes) → M Bool
backdoor_chain [] = pure true
backdoor_chain ((cmd, string) ∷ rest) = do
  ok ← backdoor_cmd cmd string
  if not ok then pure false else backdoor_chain rest

unfoldable pub backdoor_commands : Bytes → List (ℕ × Bytes)
backdoor_commands p5_localized =
    (0x50, [])
    ∷ (0x51, codes "Licensed by")
    ∷ (0x52, codes "Sony")
    ∷ (0x53, codes "Computer")
    ∷ (0x54, codes "Entertainment")
    ∷ (0x55, p5_localized)
    ∷ (0x56, [])
    ∷ []

-- The bytes before the first NUL.
unfoldable pub c_string : Bytes → Bytes
c_string [] = []
c_string (c ∷ s) = if c == 0 then [] else c ∷ c_string s

-- `region_name` and `p5_localized`.
unfoldable pub region_texts : Bytes → Option (Bytes × Bytes)
region_texts region =
    if strcmp_zero region (codes "for Europe")
    then some (codes "European", codes "(Europe)")
    else if strcmp_zero region (codes "for U/C")
    then some (codes "American", codes "of America")
    else if strcmp_zero region (codes "for NETEU")
    then some (codes "NetYaroze (EU)", codes "World wide")
    else if strcmp_zero region (codes "for NETNA")
    then some (codes "NetYaroze (US)", codes "World wide")
    else none

report_backdoor : Bool → M Bool
report_backdoor ok =
    if not ok then (do debug_write (codes "Backdoor failed") []; pure false) else pure true

-- `cd_reply + 4` is determined if the reply has at least four bytes.
unsupported : Bytes → M Bool
unsupported bytes = do
  rest ← defined (if ltb (length bytes) 4 then none else some (c_string (drop 4 bytes)))
  debug_write (codes "Unsupported region: %s") (text rest ∷ [])
  pure false

unlock_region : Bytes → Option (Bytes × Bytes) → M Bool
unlock_region bytes none = unsupported bytes
unlock_region bytes (some (region_name, p5_localized)) = do
  debug_write (codes "Drive region: %s") (text region_name ∷ [])
  ok ← backdoor_chain (backdoor_commands p5_localized)
  report_backdoor ok

-- `cd_reply[len] = 0` and what follows it.
check_region : Reply → M Bool
check_region reply =
    if ltb (reply.len) reply_room
    then unlock_region (reply.bytes) (region_texts (c_string (reply.bytes)))
    else (λ m. fault)

unfoldable pub unlock_drive : M Bool
unfolding check_region unlock_region unsupported report_backdoor
unlock_drive = do
  cd_command cd_cmd_test (cd_test_region ∷ []) 1
  interrupt ← cd_wait_int
  if not (interrupt == 3)
      then (do debug_write (codes "Region read failed") []; pure false)
      else (do reply ← cd_read_reply reply_room; check_region reply)

-- `cd_reply[0]` after a reply: an empty one leaves it alone.
abbrev pub first_byte : Bytes → Option ℕ → Option ℕ
first_byte [] status = status
first_byte (b ∷ bytes) status = some b

-- The loop of `wait_lid_status`, on fuel, with `cd_reply[0]` as far as it is determined. Fuel that has run
-- out is a wait, as replies that have run out are.
unfoldable pub lid_loop : ℕ → ℕ → Option ℕ → M (Unit {0})
lid_loop zero expected status = λ m. waits
lid_loop (suc n) expected status = do
  cd_command cd_cmd_getstat [] 0
  interrupt ← cd_wait_int
  reply ← cd_read_reply reply_room
  status' ← defined (first_byte (reply.bytes) status)
  if not (bit_and status' 0x10 == expected) then lid_loop n expected (some status') else pure tt

-- Each round takes a value at least, so the replies there are bound the rounds.
unfoldable pub wait_lid_status : Bool → M (Unit {0})
wait_lid_status open_lid m =
    lid_loop (suc (length (m.cd.replies))) (if open_lid then 0x10 else 0x00) none m
