-- ===== src/Tests/Protection.antt =====
-- The theorems on docs/ap_v2.c at concrete inputs.
use tonyhax.Base.{ℕ, ◌+◌, ◌*◌, ◌<◌, ◌≡◌, refl, arith, true, ◌==◌, if◌then◌else◌, [], ◌∷◌, Memory}
use tonyhax.Machine.{Machine, Outcome, done, pure}
use tonyhax.Cdrom.{cd_set_page, write_reg}
use tonyhax.Patcher.{copy_bytes}
use tonyhax.Antipiracy.{
  success, Op, cd_operations, request_loop, waste_cycles, cd_start_op, cd_check_op, bcd_to_binary,
  binary_to_bcd,
}
use tonyhax.Antipiracy.Loop.{Ap, start_op, set_center, ap_pass, antipiracy_main}
use tonyhax.Antipiracy.Bcd.{IsBcd, set_center_lem}
use tonyhax.Antipiracy.Replies.{finished, cd_check_op_completes}
use tonyhax.Antipiracy.Steps.{Moves, ap_pass-Moves}
use tonyhax.Antipiracy.Unreached.{antipiracy_main_never_triggers}
use tonyhax.Tests.Devices.{console}
use tonyhax.Tests.Setup.{result_of}

-- A drive that has replied with the end of a track at 70:30.
abbrev replied : Memory
replied i = if i == 1 then 0x70 else if i == 2 then 0x30 else 0

-- The check before its first step.
abbrev first : Ap
first = record {
  current_step = 1;
  track_count = 0;
  center_mm = 0;
  center_ss = 0;
  vsync = 0;
  cd_req_buffer = λ i. 0;
  drive = record { cd_ackd_ints = 3; cd_reply_buf = replied };
}

first_pass :
    (r : Ap × ℕ) × (m' : Machine) × (ap_pass (pure 0) (pure tt) first 0 (console []) ≡ done r m')
unfolding ap_pass start_op cd_start_op cd_set_page write_reg waste_cycles request_loop cd_operations
first_pass = result_of (ap_pass (pure 0) (pure tt) first 0 (console [])) refl

ap_pass-Moves_example : Moves 1 (first_pass.0.0.current_step)
ap_pass-Moves_example =
    ap_pass-Moves (pure 0) (pure tt) first (first_pass.0.0) 0 (first_pass.0.1) (console [])
      (first_pass.1) (first_pass.2)

antipiracy_main_never_triggers_example :
    antipiracy_main (pure 0) (λ m. Outcome.fault) 10 true first (console [])
    ≡ antipiracy_main (pure 0) (pure tt) 10 true first (console [])
antipiracy_main_never_triggers_example =
    antipiracy_main_never_triggers (pure 0) (λ m. Outcome.fault) (pure tt) 10 true first
      (console []) (omega arith)

bcd_70 : 0x70 ≡ binary_to_bcd 70
unfolding binary_to_bcd
bcd_70 = refl

bcd_30 : 0x30 ≡ binary_to_bcd 30
unfolding binary_to_bcd
bcd_30 = refl

set_center_lem_example :
    (60 * bcd_to_binary ((set_center first).center_mm)
        + bcd_to_binary ((set_center first).center_ss)
      ≡ 2115)
    × (bcd_to_binary ((set_center first).center_ss) < 60)
    × IsBcd ((set_center first).center_mm)
    × IsBcd ((set_center first).center_ss)
set_center_lem_example = set_center_lem first 70 30 (omega arith) (omega arith) bcd_70 bcd_30

-- `CD_OP_INIT` after its INT3, when the INT2 comes.
cd_check_op_completes_example :
    (m' : Machine) × (cd_check_op Op.init (first.drive) (console (0xE2 ∷ 0xE2 ∷ 0x02 ∷ []))
      ≡ done (finished success (copy_bytes 0 (0x02 ∷ []) replied)) m')
    × (m'.cd.replies ≡ [])
unfolding cd_operations
cd_check_op_completes_example =
    cd_check_op_completes Op.init (first.drive) 0xE2 (0x02 ∷ []) (console (0xE2 ∷ 0xE2 ∷ 0x02 ∷ []))
      [] (λ e. absurd cc) (omega arith) (omega arith) (omega arith) refl refl
