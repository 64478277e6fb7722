-- ===== src/Cdrom/Polls.antt =====
-- `cd_command`, `cd_wait_int` and `cd_drive_init` of loader/cdrom.c against a controller that is at
-- last idle, and at last raises an interrupt.
use tonyhax.Base.{
  not, ◌&&◌, Bool-cases, inl, inr, ℕ, ◌≤◌, ◌≡◌, ◌≢◌, refl, ap, ◌∙◌, arith, true, false, bit_and,
  List, [], ◌∷◌, ◌++◌, append-nil, append_assoc, ◌==◌, if◌then◌else◌, Bytes, length, All,
}
use mathlib.Core.List.{map}
use tonyhax.Base.Bits.{bit_and_mask}
use tonyhax.Cdrom.Runs.{
  after, after-append, Runs, >>=-Runs, Runs-used, Runs-made, pure-Runs, write_reg-Runs,
}
use tonyhax.Machine.{Machine, Access, write, read, done, pure, ◌>>=◌}
use tonyhax.Cdrom.{
  cd_drive_init, cd_cmd_init, has, busy_loop, wait_idle, params_loop, cd_command, int_loop,
  wait_int, cd_wait_int, cd_set_page,
}

-- The register is read once for each of these values, in order.
abbrev pub polls : ℕ → List ℕ → List Access
polls reg vs = map (read reg) vs

-- A run of values of the status register that find the controller busy, and then one that does not.
pub record Idles : Type 0 where
  pub busy : List ℕ
  pub idle : ℕ
  pub all_busy : All (λ v. has v 0x80 ≡ true) busy
  pub is_idle : has idle 0x80 ≡ false

abbrev pub idle_values : Idles → List ℕ
idle_values i = i.busy ++ i.idle ∷ []

busy_loop_lem :
    (busy : List ℕ) (idle : ℕ) (left : List ℕ) (m : Machine)
    → All (λ v. has v 0x80 ≡ true) busy
    → has idle 0x80 ≡ false
    → busy_loop (busy ++ idle ∷ left) m ≡ done tt (after m (polls 0 (busy ++ idle ∷ [])) left)
unfolding busy_loop
busy_loop_lem [] idle left m h h' = rw h' refl
busy_loop_lem (v ∷ busy) idle left m h h' = rw h.0 (
    busy_loop_lem busy idle left _ h.1 h'
    ∙ ap (done tt) (after-append m (read 0 v ∷ []) (polls 0 (busy ++ idle ∷ [])) left left))

wait_idle-Runs : (i : Idles) → Runs wait_idle (idle_values i) (polls 0 (idle_values i)) tt
unfolding wait_idle
wait_idle-Runs i m left e =
    ap (λ (l : List ℕ). busy_loop l m) (e ∙ append_assoc i.busy (i.idle ∷ []) left)
    ∙ busy_loop_lem i.busy i.idle left m i.all_busy i.is_idle

params_loop-Runs :
    (params : Bytes) → Runs (params_loop (length params) params) [] (map (write 2) params) tt
unfolding params_loop
params_loop-Runs [] = pure-Runs tt
params_loop-Runs (p ∷ params) =
    >>=-Runs _ _ [] [] _ _ tt tt (write_reg-Runs 2 p) (params_loop-Runs params)

-- What `cd_command` writes once the controller is idle.
abbrev pub command_writes : ℕ → Bytes → List Access
command_writes cmd params =
    write 0 0
    ∷ write 3 0xC0
    ∷ (map (write 2) params
        ++ write 0 1 ∷ write 2 0x00 ∷ write 3 0x07 ∷ write 0 0 ∷ write 1 cmd ∷ [])

pub cd_command-Runs :
    (i : Idles) (cmd : ℕ) (params : Bytes)
    → Runs
        (cd_command cmd params (length params))
        (idle_values i)
        (polls 0 (idle_values i) ++ command_writes cmd params)
        tt
unfolding cd_command cd_set_page
cd_command-Runs i cmd params = Runs-used (append-nil (idle_values i)) (
    >>=-Runs _ _ (idle_values i) [] _ _ tt tt (wait_idle-Runs i) (
      >>=-Runs _ _ [] [] _ _ tt tt (write_reg-Runs 0 0) (
        >>=-Runs _ _ [] [] _ _ tt tt (write_reg-Runs 3 0xC0) (
          >>=-Runs _ _ [] [] _ _ tt tt (params_loop-Runs params) (
            >>=-Runs _ _ [] [] _ _ tt tt (write_reg-Runs 0 1) (
              >>=-Runs _ _ [] [] _ _ tt tt (write_reg-Runs 2 0x00) (
                >>=-Runs _ _ [] [] _ _ tt tt (write_reg-Runs 3 0x07)
                  (>>=-Runs _ _ [] [] _ _ tt tt (write_reg-Runs 0 0) (write_reg-Runs 1 cmd)))))))))

-- Once the controller is idle, `cd_command` writes the parameters to the FIFO of page 0, disables and
-- acknowledges interrupts on page 1, and starts the command, in this order, and uses up no reply
-- but the ones it polls.
pub cd_command_lem :
    (i : Idles) (cmd : ℕ) (params : Bytes) (m : Machine) (left : List ℕ)
    → m.cd.replies ≡ idle_values i ++ left
    → cd_command cmd params (length params) m
      ≡ done tt (after m (polls 0 (idle_values i) ++ command_writes cmd params) left)
cd_command_lem i cmd params m left e = cd_command-Runs i cmd params m left e

-- A run of values of the interrupt register without an interrupt, and then one with one.
pub record Interrupts : Type 0 where
  pub quiet : List ℕ
  pub flag : ℕ
  pub all_quiet : All (λ v. bit_and v 0x07 ≡ 0) quiet
  pub is_set : bit_and flag 0x07 ≢ 0

abbrev pub flag_values : Interrupts → List ℕ
flag_values n = n.quiet ++ n.flag ∷ []

-- The code of the interrupt.
abbrev pub code : Interrupts → ℕ
code n = bit_and n.flag 0x07

int_loop_lem :
    (quiet : List ℕ) (flag : ℕ) (left : List ℕ) (m : Machine)
    → All (λ v. bit_and v 0x07 ≡ 0) quiet
    → bit_and flag 0x07 ≢ 0
    → int_loop (quiet ++ flag ∷ left) m
      ≡ done (bit_and flag 0x07) (after m (polls 3 (quiet ++ flag ∷ [])) left)
unfolding int_loop
int_loop_lem [] flag left m h h' =
    let no : (bit_and flag 0x07 == 0) ≡ false = ground arith in rw no refl
int_loop_lem (v ∷ quiet) flag left m h h' = rw h.0 (
    int_loop_lem quiet flag left _ h.1 h'
    ∙ ap (done (bit_and flag 0x07))
        (after-append m (read 3 v ∷ []) (polls 3 (quiet ++ flag ∷ [])) left left))

wait_int-Runs : (n : Interrupts) → Runs wait_int (flag_values n) (polls 3 (flag_values n)) (code n)
unfolding wait_int
wait_int-Runs n m left e =
    ap (λ (l : List ℕ). int_loop l m) (e ∙ append_assoc n.quiet (n.flag ∷ []) left)
    ∙ int_loop_lem n.quiet n.flag left m n.all_quiet n.is_set

-- What a wait for an interrupt uses up, and the accesses that it makes.
abbrev pub int_values : Idles → Interrupts → List ℕ
int_values i n = idle_values i ++ flag_values n

abbrev pub int_accesses : Idles → Interrupts → List Access
int_accesses i n =
    polls 0 (idle_values i) ++ (write 0 1 ∷ (polls 3 (flag_values n) ++ write 3 0x07 ∷ []))

pub cd_wait_int-Runs :
    (i : Idles) (n : Interrupts) → Runs cd_wait_int (int_values i n) (int_accesses i n) (code n)
unfolding cd_wait_int cd_set_page
cd_wait_int-Runs i n =
    Runs-used (ap (λ (l : List ℕ). idle_values i ++ l) (append-nil (flag_values n))) (
      >>=-Runs _ _ (idle_values i) (flag_values n ++ []) _ _ tt (code n) (wait_idle-Runs i) (
        >>=-Runs _ _ [] (flag_values n ++ []) _ _ tt (code n) (write_reg-Runs 0 1) (
          >>=-Runs _ _ (flag_values n) [] _ _ (code n) (code n) (wait_int-Runs n)
            (>>=-Runs _ _ [] [] _ _ tt (code n) (write_reg-Runs 3 0x07) (pure-Runs (code n))))))

-- Once the controller is idle, `cd_wait_int` polls the interrupt register of page 1 until an interrupt
-- is there, acknowledges it once, and returns its code, which is from 1 to 7.
pub cd_wait_int_lem :
    (i : Idles) (n : Interrupts) (m : Machine) (left : List ℕ)
    → m.cd.replies ≡ int_values i n ++ left
    → (cd_wait_int m ≡ done (code n) (after m (int_accesses i n) left))
      × (1 ≤ code n)
      × (code n ≤ 7)
cd_wait_int_lem i n m left e =
    (cd_wait_int-Runs i n m left e, ground (arith, n.is_set), omega (arith, bit_and_mask 3 n.flag))

abbrev pub command_accesses : Idles → ℕ → Bytes → List Access
command_accesses i cmd params = polls 0 (idle_values i) ++ command_writes cmd params

second_int :
    (k : Idles) (n n' : Interrupts)
    → Runs
        (if not (code n == 3) then pure false else (do second ← cd_wait_int; pure (second == 2)))
        (if code n == 3 then int_values k n' else [])
        (if code n == 3 then int_accesses k n' else [])
        (code n == 3 && code n' == 2)
second_int k n n' = elim (Bool-cases (code n == 3)) [
  | inl three ↦ rw three (
      Runs-made _ (append-nil (int_accesses k n')) (
        Runs-used (append-nil (int_values k n')) (
          >>=-Runs cd_wait_int (λ second. pure (second == 2)) (int_values k n') []
            (int_accesses k n') [] (code n') (code n' == 2) (cd_wait_int-Runs k n')
            (pure-Runs (code n' == 2)))))
  | inr other ↦ rw other (pure-Runs false)
]

abbrev pub init_values : Idles → Idles → Idles → Interrupts → Interrupts → List ℕ
init_values i j k n n' =
    idle_values i ++ (int_values j n ++ (if code n == 3 then int_values k n' else []))

abbrev pub init_accesses : Idles → Idles → Idles → Interrupts → Interrupts → List Access
init_accesses i j k n n' =
    command_accesses i cd_cmd_init []
    ++ (int_accesses j n ++ (if code n == 3 then int_accesses k n' else []))

cd_drive_init-Runs :
    (i j k : Idles) (n n' : Interrupts)
    → Runs cd_drive_init
        (init_values i j k n n')
        (init_accesses i j k n n')
        (code n == 3 && code n' == 2)
unfolding cd_drive_init
cd_drive_init-Runs i j k n n' =
    >>=-Runs _ _ (idle_values i) _ _ _ tt _ (cd_command-Runs i cd_cmd_init []) (
      >>=-Runs _ _ (int_values j n) _ (int_accesses j n) _ (code n) _ (cd_wait_int-Runs j n)
        (second_int k n n'))

-- `cd_drive_init` sends the Init command without parameters, and takes the drive for initialised
-- exactly if the first interrupt is 3 and the second 2. After another first interrupt it does not
-- wait for a second.
pub cd_drive_init_lem :
    (i j k : Idles) (n n' : Interrupts) (m : Machine) (left : List ℕ)
    → m.cd.replies ≡ init_values i j k n n' ++ left
    → cd_drive_init m ≡ done (code n == 3 && code n' == 2) (after m (init_accesses i j k n n') left)
cd_drive_init_lem i j k n n' m left e = cd_drive_init-Runs i j k n n' m left e
