-- ===== src/Cpu.antt =====
-- The instructions of the CPU that loader/patch-ap.S, patch-fpb.S, patch-vandal-hearths-2.S and bios-asm.S use. The
-- assembler fills the delay slots, so a branch takes effect at once, and `li` and `la` are one step.
pub mod Steps
use tonyhax.Base.{
  ℕ, ◌+◌, ◌%◌, ◌^◌, bit_and, bit_xor, Bool, true, false, not, ◌&&◌, ◌==◌, leb, Option, none, some,
  if◌then◌else◌, u32, ◌>>>◌, Memory, load32, store32,
}

-- The registers by their numbers in `regdef.h`.
abbrev pub r0 : ℕ
r0 = 0

abbrev pub v0 : ℕ
v0 = 2

abbrev pub a0 : ℕ
a0 = 4

abbrev pub a1 : ℕ
a1 = 5

abbrev pub a2 : ℕ
a2 = 6

abbrev pub t0 : ℕ
t0 = 8

abbrev pub t1 : ℕ
t1 = 9

abbrev pub t2 : ℕ
t2 = 10

abbrev pub t3 : ℕ
t3 = 11

abbrev pub s1 : ℕ
s1 = 17

abbrev pub s2 : ℕ
s2 = 18

abbrev pub s3 : ℕ
s3 = 19

abbrev pub s4 : ℕ
s4 = 20

abbrev pub s5 : ℕ
s5 = 21

abbrev pub s6 : ℕ
s6 = 22

abbrev pub sp : ℕ
sp = 29

abbrev pub ra : ℕ
ra = 31

-- `mapped` tells the addresses where there is memory: others give a bus error.
pub record Cpu : Type 0 where
  pub regs : ℕ → ℕ
  pub mem : Memory
  pub mapped : ℕ → Bool

-- Register 0 is always zero.
abbrev pub get : Cpu → ℕ → ℕ
get c r = if r == 0 then 0 else c.regs r

abbrev pub put : ℕ → ℕ → Cpu → Cpu
put r v c = record c { regs = λ q. if q == r then v else c.regs q }

-- With the register first that is written, and the offset before the register of an address, as the
-- assembler has them.
pub data Op : Type 0 where
  lw : ℕ → ℕ → ℕ → Op
  sw : ℕ → ℕ → ℕ → Op
  addi : ℕ → ℕ → ℕ → Op
  xor : ℕ → ℕ → ℕ → Op
  and : ℕ → ℕ → ℕ → Op
  srl : ℕ → ℕ → ℕ → Op
  li : ℕ → ℕ → Op

-- Instructions up to a jump out of them. A branch is to the code at a label further on.
infixr 3 ◌⨾◌
pub data Code : Type 0 where
  j : ℕ → Code
  jr : ℕ → Code
  bne : ℕ → ℕ → Code → Code → Code
  beq : ℕ → ℕ → Code → Code → Code
  ◌⨾◌ : Op → Code → Code

-- The address of a load or a store.
abbrev pub address : ℕ → ℕ → Cpu → ℕ
address off base c = u32 (get c base + off)

-- `addi` of two words traps where the sum of the signed numbers does not fit.
abbrev pub overflows : ℕ → ℕ → Bool
overflows a b =
    let sum = u32 (a + b) in
    if leb 0x80000000 a
    then leb 0x80000000 b && not (leb 0x80000000 sum)
    else not (leb 0x80000000 b) && leb 0x80000000 sum

-- `none` is an exception: an address that is no multiple of four or has no memory, or a sum that overflows.
unfoldable pub step : Op → Cpu → Option Cpu
step (lw rt off base) c =
    if address off base c % 4 == 0 && c.mapped (address off base c)
    then some (put rt (load32 (c.mem) (address off base c)) c)
    else none
step (sw rt off base) c =
    if address off base c % 4 == 0 && c.mapped (address off base c)
    then some (record c { mem = store32 (address off base c) (get c rt) (c.mem) })
    else none
step (addi rt rs imm) c =
    if overflows (get c rs) imm then none else some (put rt (u32 (get c rs + imm)) c)
step (xor rd rs rt) c = some (put rd (bit_xor (get c rs) (get c rt)) c)
step (and rd rs rt) c = some (put rd (bit_and (get c rs) (get c rt)) c)
step (srl rd rt n) c = some (put rd (get c rt >>> n) c)
step (li rt v) c = some (put rt v c)

-- Where the code jumps to, with the registers and memory it leaves.
unfoldable pub run : Code → Cpu → Option (ℕ × Cpu)
unfolding step
run (j dest) c = some (dest, c)
run (jr rs) c = some (get c rs, c)
run (bne rs rt target code) c =
    let taken = run target c in
    let falls = run code c in if not (get c rs == get c rt) then taken else falls
run (beq rs rt target code) c =
    let taken = run target c in
    let falls = run code c in if get c rs == get c rt then taken else falls
run (op ⨾ code) c = elim (step op c) [ none ↦ none | some c' ↦ run code c' ]
