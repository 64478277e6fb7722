-- ===== src/Unlock/Region.antt =====
-- `unlock_drive` of loader/secondary.c: the drive's region chooses the commands.
use tonyhax.Base.{
  ℕ, ◌≤◌, ◌<◌, ◌≡◌, refl, ap, ◌∙◌, arith, Bool, true, false, some, List, [], ◌∷◌, ◌++◌, Bytes,
  codes, length, All, ltb,
}
use tonyhax.Str.{text, mini_vsprintf, vsprintf_loop, conversion}
use tonyhax.Libc.{strcmp_zero}
use tonyhax.Machine.{Machine, Screen, Access, write, done, M, ◌>>=◌}
use tonyhax.Debugscreen.{debug_write, in_buffer}
use tonyhax.Cdrom.{Reply, cd_read_reply, cd_cmd_test, cd_test_region}
use tonyhax.Cdrom.Runs.{after, pure-Runs}
use tonyhax.Cdrom.Polls.{
  Idles, Interrupts, idle_values, code, int_values, int_accesses, command_accesses, cd_command-Runs,
  cd_wait_int-Runs,
}
use tonyhax.Cdrom.Replies.{
  Replies, reply_bytes, announced_values, announced_reads, cd_read_reply-Runs, length-reply_bytes,
}
use tonyhax.Unlock.Drives.{Drives, Runs-Drives, >>=-Drives, Drives-nil, debug_write-Drives}
use tonyhax.Unlock.{
  c_string, region_texts, report_backdoor, unlock_region, check_region, unlock_drive,
  backdoor_commands, backdoor_chain,
}
use tonyhax.Unlock.Chain.{Answer, chain_values, chain_accesses, chain_accepted, backdoor_chain-Runs}

-- The regions, and what the drive and the commands call them.
pub data Region : Type 0 where
  europe : Region
  america : Region
  yaroze_europe : Region
  yaroze_america : Region

abbrev pub region_reply : Region → Bytes
region_reply Region.europe = codes "for Europe"
region_reply Region.america = codes "for U/C"
region_reply Region.yaroze_europe = codes "for NETEU"
region_reply Region.yaroze_america = codes "for NETNA"

abbrev pub licensee : Region → Bytes
licensee Region.europe = codes "(Europe)"
licensee Region.america = codes "of America"
licensee _ = codes "World wide"

region_name : Region → Bytes
region_name Region.europe = codes "European"
region_name Region.america = codes "American"
region_name Region.yaroze_europe = codes "NetYaroze (EU)"
region_name Region.yaroze_america = codes "NetYaroze (US)"

region_texts-region_reply :
    (r : Region) → region_texts (c_string (region_reply r)) ≡ some (region_name r, licensee r)
unfolding region_texts c_string region_name strcmp_zero
region_texts-region_reply Region.europe = refl
region_texts-region_reply Region.america = refl
region_texts-region_reply Region.yaroze_europe = refl
region_texts-region_reply Region.yaroze_america = refl

logged :
    (r : Region)
    → Drives (debug_write (codes "Drive region: %s") (text (region_name r) ∷ [])) [] [] tt
unfolding in_buffer mini_vsprintf vsprintf_loop conversion region_name
logged Region.europe = debug_write-Drives _ _ (codes "Drive region: European") refl (omega arith)
logged Region.america = debug_write-Drives _ _ (codes "Drive region: American") refl (omega arith)
logged Region.yaroze_europe =
    debug_write-Drives _ _ (codes "Drive region: NetYaroze (EU)") refl (omega arith)
logged Region.yaroze_america =
    debug_write-Drives _ _ (codes "Drive region: NetYaroze (US)") refl (omega arith)

report_backdoor-Drives : (ok : Bool) → Drives (report_backdoor ok) [] [] ok
unfolding report_backdoor in_buffer mini_vsprintf vsprintf_loop
report_backdoor-Drives true = Runs-Drives _ [] [] true (pure-Runs true)
report_backdoor-Drives false =
    >>=-Drives _ _ [] [] [] [] tt false
      (debug_write-Drives (codes "Backdoor failed") [] (codes "Backdoor failed") refl (omega arith))
      (Runs-Drives _ [] [] false (pure-Runs false))

short_commands : (r : Region) → All (λ c. length c.1 < 256) (backdoor_commands (licensee r))
unfolding backdoor_commands
short_commands Region.europe = ground arith
short_commands Region.america = ground arith
short_commands Region.yaroze_europe = ground arith
short_commands Region.yaroze_america = ground arith

unlock_region-Drives :
    (bytes : Bytes) (r : Region) (answers : List Answer)
    → 7 ≤ length answers
    → Drives
        (unlock_region bytes (some (region_name r, licensee r)))
        (chain_values (backdoor_commands (licensee r)) answers)
        (chain_accesses (backdoor_commands (licensee r)) answers)
        (chain_accepted (backdoor_commands (licensee r)) answers)
unfolding unlock_region
unlock_region-Drives bytes r answers enough = >>=-Drives _ _ [] _ [] _ tt _ (logged r) (
    Drives-nil _ _ _ _ (
      >>=-Drives (backdoor_chain commands) report_backdoor (chain_values commands answers) []
        (chain_accesses commands answers) [] (chain_accepted commands answers)
        (chain_accepted commands answers)
        (Runs-Drives _ _ _ _ (
          backdoor_chain-Runs commands answers (short_commands r)
            (unfold backdoor_commands in enough)))
        (report_backdoor-Drives (chain_accepted commands answers))))
  where
    commands : List (ℕ × Bytes)
    commands = backdoor_commands (licensee r)

-- The region of a drive that answers the query with it and interrupt 3.
pub record Query (r : Region) : Type 0 where
  pub before : Idles
  pub settled : Idles
  pub raised : Interrupts
  pub reply : Replies
  pub succeeds : code raised ≡ 3
  pub names_region : reply_bytes reply.announced ≡ region_reply r

pub unlock_values : (r : Region) → Query r → List Answer → List ℕ
unlock_values r q answers =
    idle_values q.before
    ++ (int_values q.settled q.raised
        ++ (announced_values q.reply.announced q.reply.end
            ++ chain_values (backdoor_commands (licensee r)) answers))

pub unlock_accesses : (r : Region) → Query r → List Answer → List Access
unlock_accesses r q answers =
    command_accesses q.before cd_cmd_test (cd_test_region ∷ [])
    ++ (int_accesses q.settled q.raised
        ++ (write 0 1 ∷ announced_reads q.reply.announced q.reply.end
            ++ chain_accesses (backdoor_commands (licensee r)) answers))

region_reply-length : (r : Region) → length (region_reply r) < 16
region_reply-length r = ground arith

check_region-region_reply :
    (reply : Reply) (r : Region)
    → reply.len < 16
    → reply.bytes ≡ region_reply r
    → check_region reply ≡ unlock_region (reply.bytes) (some (region_name r, licensee r))
unfolding check_region
check_region-region_reply reply r short e =
    let fits : ltb (reply.len) 16 ≡ true = ground arith in
    rw fits (
      ap (unlock_region (reply.bytes))
        (ap (λ (b : Bytes). region_texts (c_string b)) e ∙ region_texts-region_reply r))

check_region-Drives :
    (rs : List (ℕ × ℕ)) (r : Region) (answers : List Answer)
    → reply_bytes rs ≡ region_reply r
    → 7 ≤ length answers
    → Drives
        (check_region (record { bytes = reply_bytes rs; len = length rs }))
        (chain_values (backdoor_commands (licensee r)) answers)
        (chain_accesses (backdoor_commands (licensee r)) answers)
        (chain_accepted (backdoor_commands (licensee r)) answers)
check_region-Drives rs r answers e enough m left e' =
    let (s, done_so, same) = unlock_region-Drives (reply_bytes rs) r answers enough m left e' in
    (
      s,
      ap (λ (p : M Bool). p m)
            (check_region-region_reply (record { bytes = reply_bytes rs; len = length rs }) r
              (omega (arith, length-reply_bytes rs, ap length e, region_reply-length r)) e)
          ∙ done_so,
      same,
    )

checked-Drives :
    (q : Replies) (r : Region) (answers : List Answer)
    → reply_bytes q.announced ≡ region_reply r
    → 7 ≤ length answers
    → Drives
        (cd_read_reply 16 >>= check_region)
        (announced_values q.announced q.end
          ++ chain_values (backdoor_commands (licensee r)) answers)
        ((write 0 1 ∷ announced_reads q.announced q.end)
          ++ chain_accesses (backdoor_commands (licensee r)) answers)
        (chain_accepted (backdoor_commands (licensee r)) answers)
checked-Drives q r answers e enough =
    >>=-Drives _ check_region (announced_values q.announced q.end) _
      (write 0 1 ∷ announced_reads q.announced q.end) _
      (record { bytes = reply_bytes q.announced; len = length q.announced }) _
      (Runs-Drives _ _ _ _ (
        cd_read_reply-Runs q 16
          (omega (arith, length-reply_bytes (q.announced), ap length e, region_reply-length r))
          (omega arith)))
      (check_region-Drives q.announced r answers e enough)

pub unlock_drive-Drives :
    (r : Region) (q : Query r) (answers : List Answer)
    → 7 ≤ length answers
    → Drives unlock_drive
        (unlock_values r q answers)
        (unlock_accesses r q answers)
        (chain_accepted (backdoor_commands (licensee r)) answers)
unfolding unlock_drive unlock_values unlock_accesses
unlock_drive-Drives r q answers enough =
    >>=-Drives _ _ (idle_values q.before) _
      (command_accesses q.before cd_cmd_test (cd_test_region ∷ [])) _ tt _
      (Runs-Drives _ _ _ _ (cd_command-Runs q.before cd_cmd_test (cd_test_region ∷ [])))
      (>>=-Drives _ _ (int_values q.settled q.raised) _ (int_accesses q.settled q.raised) _
        (code q.raised) _ (Runs-Drives _ _ _ _ (cd_wait_int-Runs q.settled q.raised))
        (rw (q.succeeds) (checked-Drives q.reply r answers q.names_region enough)))

-- A drive that names one of the four regions is sent the seven backdoor commands, in order, with the
-- licensee of its region as the sixth, each when the drive has answered the one before, up to the first
-- command that the drive does not accept (interrupt 5, and the two bytes of an error reply with code
-- 0x40). `unlock_drive` returns whether all seven were accepted, and changes only the screen besides.
pub unlock_drive_lem :
    (r : Region) (q : Query r) (answers : List Answer) (m : Machine) (left : List ℕ)
    → 7 ≤ length answers
    → m.cd.replies ≡ unlock_values r q answers ++ left
    → (s : Screen) × (unlock_drive m
        ≡ done
            (chain_accepted (backdoor_commands (licensee r)) answers)
            (record (after m (unlock_accesses r q answers) left) { screen = s }))
unlock_drive_lem r q answers m left enough e =
    let (s, done_so, same) = unlock_drive-Drives r q answers enough m left e in (s, done_so)
