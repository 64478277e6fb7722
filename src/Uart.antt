-- ===== src/Uart.antt =====
-- loader/patch-uart.S, which sends a byte over the controller port, with a register of the code as a variable.
-- The timer's register gives a list of values.
pub mod Line
use tonyhax.Base.{
  ℕ, zero, suc, bit_and, bit_or, bit_xor, Bool, not, Option, none, some, List, [], ◌∷◌, ◌++◌, ◌==◌,
  if◌then◌else◌, u32, ◌<<<◌, ◌>>>◌,
}

-- The status register of the CPU, the values that the timer's mode register still gives, what was written to
-- the timer's target and mode, and what was written to the port's control register, each value with the
-- status register at that time.
pub record Port : Type 0 where
  pub sr : ℕ
  pub modes : List ℕ
  pub timer : List (ℕ × ℕ)
  pub controls : List (ℕ × ℕ)

abbrev pub timer_mode : ℕ
timer_mode = 0x1F801104

abbrev pub timer_target : ℕ
timer_target = 0x1F801108

-- A byte with its start and stop bits: `a0` as the code first has it.
unfoldable pub framed : ℕ → ℕ
framed a0 = bit_or (bit_and a0 0xFF <<< 1) 0x200

-- At `notnl`: `a0`, and the bits to send in `t1`. A carriage return goes before a line feed.
unfoldable pub prepared : ℕ → ℕ × ℕ
unfolding framed
prepared a0 =
    if framed a0 == bit_or (0x0A <<< 1) 0x200
    then (bit_or (u32 (framed a0 <<< 10)) (bit_or (0x0D <<< 1) 0x200), 20)
    else (framed a0, 10)

-- `writewait`: the flag when it is no longer `t2`, and the values left.
unfoldable pub writewait : ℕ → List ℕ → Option (ℕ × List ℕ)
writewait t2 [] = none
writewait t2 (mode ∷ modes) =
    if bit_and mode 0x0400 == t2 then writewait t2 modes else some (bit_and mode 0x0400, modes)

-- What `writebit` writes for a bit.
abbrev pub control_of : ℕ → ℕ
control_of a0 = bit_xor (bit_and a0 1 <<< 13) 0x2002

-- `writebit`, with `t1` bits left; `none` is an endless wait for the timer.
unfoldable pub writebit : ℕ → ℕ → ℕ → Port → Option Port
writebit zero a0 t2 p = some p
writebit (suc t1) a0 t2 p = elim (writewait t2 (p.modes)) [
  | none ↦ none
  | some (flag, modes) ↦
      writebit t1 (a0 >>> 1) flag
        (record p { modes = modes; controls = p.controls ++ (p.sr, control_of a0) ∷ [] })
]

unfoldable pub patch_uartputc_start : ℕ → Port → Option Port
patch_uartputc_start a0 p =
    let started = record p {
      sr = bit_and 0xFFFFFBFE (p.sr);
      timer = p.timer ++ (timer_target, 293) ∷ (timer_mode, 0x04D8) ∷ [];
    } in
    elim (writebit ((prepared a0).1) ((prepared a0).0) 0x0400 started) [
      | none ↦ none
      | some sent ↦ some (record sent { sr = p.sr })
    ]
