-- ===== src/Unlock/Chain.antt =====
-- The backdoor commands of loader/secondary.c, one and in sequence, against the drive's answers.
use tonyhax.Base.{
  ℕ, ◌≤◌, ◌<◌, ◌≡◌, arith, Bool, true, false, not, ◌&&◌, inl, inr, Bool-cases, List, [], ◌∷◌, ◌++◌,
  append-nil, ◌==◌, if◌then◌else◌, u8, Bytes, length, All,
}
use tonyhax.Machine.{Access, write, M, pure, ◌>>=◌}
use tonyhax.Cdrom.{has, cd_read_reply}
use tonyhax.Cdrom.Runs.{Runs, >>=-Runs, Runs-used, Runs-made, pure-Runs}
use tonyhax.Cdrom.Polls.{
  Idles, Interrupts, idle_values, code, int_values, int_accesses, command_accesses, cd_command-Runs,
  cd_wait_int-Runs,
}
use tonyhax.Cdrom.Replies.{
  Replies, reply_bytes, announced_values, announced_reads, cd_read_reply-Runs,
}
use tonyhax.Unlock.{check_length, check_refusal, backdoor_cmd, backdoor_chain, reply_room}

-- How the drive answers one command.
pub record Answer : Type 0 where
  pub before : Idles
  pub settled : Idles
  pub raised : Interrupts
  pub reply : Replies
  pub fits : length reply.announced ≤ 16

-- The error reply of a drive that has taken a backdoor command.
abbrev pub is_refusal : Bytes → Bool
is_refusal (status ∷ error ∷ []) = has status 0x01 && error == 0x40
is_refusal _ = false

-- The drive takes the command: interrupt 5, with that reply.
abbrev pub accepted : Answer → Bool
accepted a = code a.raised == 5 && is_refusal (reply_bytes a.reply.announced)

abbrev pub answer_values : Answer → List ℕ
answer_values a =
    idle_values a.before
    ++ (int_values a.settled a.raised
        ++ (if code a.raised == 5 then announced_values a.reply.announced a.reply.end else []))

abbrev pub answer_accesses : ℕ → Bytes → Answer → List Access
answer_accesses cmd string a =
    command_accesses a.before cmd string
    ++ (int_accesses a.settled a.raised
        ++ (if code a.raised == 5
            then write 0 1 ∷ announced_reads a.reply.announced a.reply.end
            else []))

check_length-Runs :
    (rs : List (ℕ × ℕ))
    → Runs
        (check_length (record { bytes = reply_bytes rs; len = length rs }))
        []
        []
        (is_refusal (reply_bytes rs))
unfolding check_length check_refusal
check_length-Runs [] = pure-Runs false
check_length-Runs (r ∷ []) = pure-Runs false
check_length-Runs (r ∷ r' ∷ []) = pure-Runs _
check_length-Runs (r ∷ r' ∷ r'' ∷ rs) =
    let longer : (length (r ∷ r' ∷ r'' ∷ rs) == 2) ≡ false = ground arith in
    rw longer (pure-Runs false)

answered-Runs :
    (a : Answer)
    → Runs
        (if not (code a.raised == 5)
          then pure false
          else (do reply ← cd_read_reply reply_room; check_length reply))
        (if code a.raised == 5 then announced_values a.reply.announced a.reply.end else [])
        (if code a.raised == 5
          then write 0 1 ∷ announced_reads a.reply.announced a.reply.end
          else [])
        (accepted a)
answered-Runs a = elim (Bool-cases (code a.raised == 5)) [
  | inl five ↦ rw five (
      Runs-made _ (append-nil (write 0 1 ∷ announced_reads a.reply.announced a.reply.end)) (
        Runs-used (append-nil (announced_values a.reply.announced a.reply.end)) (
          >>=-Runs _ _ (announced_values a.reply.announced a.reply.end) [] _ [] _ _
            (cd_read_reply-Runs a.reply 16 a.fits (omega arith))
            (check_length-Runs a.reply.announced))))
  | inr other ↦ rw other (pure-Runs false)
]

pub backdoor_cmd-Runs :
    (cmd : ℕ) (string : Bytes) (a : Answer)
    → length string < 256
    → Runs (backdoor_cmd cmd string) (answer_values a) (answer_accesses cmd string a) (accepted a)
unfolding backdoor_cmd
backdoor_cmd-Runs cmd string a short =
    let whole : u8 (length string) ≡ length string = omega arith in
    rw whole (
      >>=-Runs _ _ (idle_values a.before) _ _ _ tt _ (cd_command-Runs a.before cmd string) (
        >>=-Runs _ _ (int_values a.settled a.raised) _ (int_accesses a.settled a.raised) _
          (code a.raised) _ (cd_wait_int-Runs a.settled a.raised) (answered-Runs a)))

-- What a sequence of commands uses up and does: it stops at the first one that is not accepted.
pub chain_values : List (ℕ × Bytes) → List Answer → List ℕ
chain_values ((cmd, string) ∷ rest) (a ∷ answers) =
    answer_values a ++ (if accepted a then chain_values rest answers else [])
chain_values _ _ = []

pub chain_accesses : List (ℕ × Bytes) → List Answer → List Access
chain_accesses ((cmd, string) ∷ rest) (a ∷ answers) =
    answer_accesses cmd string a ++ (if accepted a then chain_accesses rest answers else [])
chain_accesses _ _ = []

unfoldable pub chain_accepted : List (ℕ × Bytes) → List Answer → Bool
chain_accepted (command ∷ rest) (a ∷ answers) = accepted a && chain_accepted rest answers
chain_accepted _ _ = true

next-Runs :
    (ok more : Bool) (p : M Bool) (used : List ℕ) (made : List Access)
    → Runs p used made more
    → Runs
        (if not ok then pure false else p)
        (if ok then used else [])
        (if ok then made else [])
        (ok && more)
next-Runs true more p used made h = h
next-Runs false more p used made h = pure-Runs false

pub backdoor_chain-Runs :
    (commands : List (ℕ × Bytes)) (answers : List Answer)
    → All (λ c. length c.1 < 256) commands
    → length commands ≤ length answers
    → Runs
        (backdoor_chain commands)
        (chain_values commands answers)
        (chain_accesses commands answers)
        (chain_accepted commands answers)
unfolding backdoor_chain chain_values chain_accesses chain_accepted
backdoor_chain-Runs [] answers h enough = pure-Runs true
backdoor_chain-Runs (command ∷ rest) [] h enough = absurd (omega arith)
backdoor_chain-Runs ((cmd, string) ∷ rest) (a ∷ answers) h enough =
    >>=-Runs _ _ (answer_values a) _ (answer_accesses cmd string a) _ (accepted a) _
      (backdoor_cmd-Runs cmd string a h.0)
      (next-Runs (accepted a) (chain_accepted rest answers) (backdoor_chain rest)
        (chain_values rest answers) (chain_accesses rest answers)
        (backdoor_chain-Runs rest answers h.1 (omega arith)))
