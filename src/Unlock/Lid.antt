-- ===== src/Unlock/Lid.antt =====
-- `wait_lid_status` of loader/secondary.c against a lid that is at last as expected.
use tonyhax.Base.{
  ℕ, zero, suc, ◌≤◌, ◌<◌, ◌≡◌, ap, arith, Bool, true, false, not, Option, none, some, List, [], ◌∷◌,
  ◌++◌, append-nil, append_assoc, bit_and, ◌==◌, if◌then◌else◌, Bytes, length, length-append, All,
}
use tonyhax.Machine.{Machine, Access, write, done, pure}
use tonyhax.Cdrom.{cd_cmd_getstat}
use tonyhax.Cdrom.Runs.{after, Runs, >>=-Runs, Runs-used, Runs-made, pure-Runs}
use tonyhax.Cdrom.Polls.{
  Idles, Interrupts, idle_values, code, int_values, int_accesses, command_accesses, cd_command-Runs,
  cd_wait_int-Runs,
}
use tonyhax.Cdrom.Replies.{
  Replies, reply_bytes, announced_values, announced_reads, cd_read_reply-Runs,
}
use tonyhax.Unlock.{lid_loop, wait_lid_status}

-- How the drive answers one Getstat command, with the status first.
pub record Getstat : Type 0 where
  pub before : Idles
  pub settled : Idles
  pub raised : Interrupts
  pub reply : Replies
  pub fits : length reply.announced ≤ 16
  pub status : ℕ
  pub others : Bytes
  pub starts : reply_bytes reply.announced ≡ status ∷ others

abbrev pub getstat_values : Getstat → List ℕ
getstat_values g =
    idle_values g.before
    ++ (int_values g.settled g.raised ++ announced_values g.reply.announced g.reply.end)

abbrev pub getstat_accesses : Getstat → List Access
getstat_accesses g =
    command_accesses g.before cd_cmd_getstat []
    ++ (int_accesses g.settled g.raised
        ++ write 0 1 ∷ announced_reads g.reply.announced g.reply.end)

-- The lid's bit of the status is as expected.
abbrev pub lid_is : ℕ → Getstat → Bool
lid_is expected g = bit_and g.status 0x10 == expected

abbrev pub lid_values : List Getstat → Getstat → List ℕ
lid_values [] last = getstat_values last
lid_values (g ∷ gs) last = getstat_values g ++ lid_values gs last

abbrev pub lid_accesses : List Getstat → Getstat → List Access
lid_accesses [] last = getstat_accesses last
lid_accesses (g ∷ gs) last = getstat_accesses g ++ lid_accesses gs last

-- One round, with what follows it.
round-Runs :
    (n expected : ℕ) (status : Option ℕ) (g : Getstat) (u : List ℕ) (xs : List Access)
    → Runs
        (if not (lid_is expected g) then lid_loop n expected (some (g.status)) else pure tt)
        u
        xs
        tt
    → Runs (lid_loop (suc n) expected status) (getstat_values g ++ u) (getstat_accesses g ++ xs) tt
unfolding lid_loop
round-Runs n expected status g u xs h = Runs-made _ (simp append_assoc) (
    Runs-used used_eq (
      >>=-Runs _ _ (idle_values g.before) _ (command_accesses g.before cd_cmd_getstat []) _ tt tt
        (cd_command-Runs g.before cd_cmd_getstat [])
        (>>=-Runs _ _ (int_values g.settled g.raised) _ (int_accesses g.settled g.raised) _
          (code g.raised) tt (cd_wait_int-Runs g.settled g.raised)
          (>>=-Runs _ _ (announced_values g.reply.announced g.reply.end) u
            (write 0 1 ∷ announced_reads g.reply.announced g.reply.end) xs _ tt
            (cd_read_reply-Runs g.reply 16 g.fits (omega arith)) (rw (g.starts) h)))))
  where
    used_eq :
        idle_values g.before
          ++ (int_values g.settled g.raised
              ++ (announced_values g.reply.announced g.reply.end ++ u))
        ≡ getstat_values g ++ u
    used_eq = simp append_assoc

lid_loop-Runs :
    (n expected : ℕ) (status : Option ℕ) (gs : List Getstat) (last : Getstat)
    → All (λ g. lid_is expected g ≡ false) gs
    → lid_is expected last ≡ true
    → length gs < n
    → Runs (lid_loop n expected status) (lid_values gs last) (lid_accesses gs last) tt
lid_loop-Runs zero expected status gs last h h' lt = absurd (omega arith)
lid_loop-Runs (suc n) expected status [] last h h' lt =
    Runs-made _ (append-nil (getstat_accesses last)) (
      Runs-used (append-nil (getstat_values last))
        (round-Runs n expected status last [] [] (rw h' (pure-Runs tt))))
lid_loop-Runs (suc n) expected status (g ∷ gs) last h h' lt =
    round-Runs n expected status g (lid_values gs last) (lid_accesses gs last)
      (rw (h.0) (lid_loop-Runs n expected (some (g.status)) gs last (h.1) h' (omega arith)))

-- Each answer has a value at least.
lid_values-length : (gs : List Getstat) (last : Getstat) → length gs ≤ length (lid_values gs last)
lid_values-length [] last = omega arith
lid_values-length (g ∷ gs) last = omega (
  arith,
  length-append (getstat_values g) (lid_values gs last),
  length-append (idle_values g.before)
      (int_values g.settled g.raised ++ announced_values g.reply.announced g.reply.end),
  length-append (g.before.busy) (g.before.idle ∷ []),
  lid_values-length gs last,
)

-- `wait_lid_status` sends Getstat until the lid's bit of an answer is as wanted, whatever the earlier
-- answers: it returns after the first such answer, and makes no further access.
pub wait_lid_status_lem :
    (open_lid : Bool) (gs : List Getstat) (last : Getstat) (m : Machine) (left : List ℕ)
    → All (λ g. lid_is (if open_lid then 0x10 else 0x00) g ≡ false) gs
    → lid_is (if open_lid then 0x10 else 0x00) last ≡ true
    → m.cd.replies ≡ lid_values gs last ++ left
    → wait_lid_status open_lid m ≡ done tt (after m (lid_accesses gs last) left)
unfolding wait_lid_status
wait_lid_status_lem open_lid gs last m left h h' e =
    lid_loop-Runs (suc (length (m.cd.replies))) (if open_lid then 0x10 else 0x00) none gs last h h'
      (omega
        (arith, ap length e, length-append (lid_values gs last) left, lid_values-length gs last))
      m left e
