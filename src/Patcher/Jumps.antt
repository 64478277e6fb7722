-- ===== src/Patcher/Jumps.antt =====
-- The instructions that loader/patcher.c encodes, as the CPU takes them.
use mathlib.Core.Path.{ap₂}
use tonyhax.Base.{
  ℕ, ◌+◌, ◌*◌, ◌/◌, ◌%◌, ◌^◌, ◌≤◌, ◌<◌, ◌≡◌, ◌⊎◌, inl, Option, some, none, ◌&&◌, ◌==◌,
  if◌then◌else◌, ap, ◌∙◌, arith, bit_and, bit_or, u32, Memory, load32, store32, load32-store32,
}
use tonyhax.Base.Bits.{bit_and_mask, bit_and_fields, bit_and-zero, bit_or_sum, bit_or_aligned}
use tonyhax.Patcher.{
  j_word, jal_word, lui_word, ori_word, encode_j, encode_jal, encode_li, a0_entry,
  parse_warmboot_jal,
}

pub j_word_sum : (d : ℕ) → j_word d ≡ 2 * 2 ^ 26 + d / 4 % 2 ^ 26
unfolding j_word
j_word_sum d = ground (arith, bit_and_mask 26 (d / 4), bit_or_sum 26 2 (d / 4 % 2 ^ 26))

pub jal_word_sum : (d : ℕ) → jal_word d ≡ 3 * 2 ^ 26 + d / 4 % 2 ^ 26
unfolding jal_word
jal_word_sum d = ground (arith, bit_and_mask 26 (d / 4), bit_or_sum 26 3 (d / 4 % 2 ^ 26))

-- Where the CPU goes from a jump at `pc`, by the word of the instruction: the 26 bits of the
-- word are the address in words below the highest four bits of the place behind the jump.
abbrev pub jump_target : ℕ → ℕ → ℕ
jump_target pc w = (pc + 4) / 2 ^ 28 * 2 ^ 28 + w % 2 ^ 26 * 4

-- `encode_j` stores a jump to its destination: at the place of the jump stands the instruction J, and the
-- CPU goes on at the destination, if that is a multiple of four in the same 256 MiB as the place
-- behind the jump.
pub jump_target-encode_j :
    (at dest : ℕ) (mem : Memory)
    → dest % 4 ≡ 0
    → dest / 2 ^ 28 ≡ (at + 4) / 2 ^ 28
    → (load32 (encode_j at dest mem) at / 2 ^ 26 ≡ 2)
      × (jump_target at (load32 (encode_j at dest mem) at) ≡ dest)
unfolding encode_j
jump_target-encode_j at dest mem aligned near =
    let w = load32-store32 at (j_word dest) mem (omega (arith, j_word_sum dest)) in
    (rw w (omega (arith, j_word_sum dest)), rw w (omega (arith, j_word_sum dest)))

prefix_mask : (a : ℕ) → a < 2 ^ 32 → bit_and a 0xF0000000 ≡ a / 2 ^ 28 * 2 ^ 28
prefix_mask a h =
    let parts : a ≡ a / 2 ^ 28 * 2 ^ 28 + a % 2 ^ 28 = omega arith in
    ap (λ t. bit_and t 0xF0000000) parts
    ∙ bit_and_fields 28 (a / 2 ^ 28) 15 (a % 2 ^ 28) 0 (omega arith) (omega arith)
    ∙ omega (arith, bit_and_mask 4 (a / 2 ^ 28), bit_and-zero (a % 2 ^ 28))

pub load32_apart :
    (a b w : ℕ) (mem : Memory)
    → (b + 4 ≤ a) ⊎ (a + 4 ≤ b)
    → load32 (store32 a w mem) b ≡ load32 mem b
load32_apart a b w mem apart = ground arith

-- The prefix of WarmBoot and the suffix of the JAL make up the destination.
joined :
    (warmboot dest : ℕ)
    → warmboot < 2 ^ 32
    → dest % 4 ≡ 0
    → dest / 2 ^ 28 ≡ warmboot / 2 ^ 28
    → bit_or (bit_and warmboot 0xF0000000) (bit_and (jal_word dest) 0x3FFFFFF * 4) ≡ dest
joined warmboot dest small aligned near =
    rw (prefix_mask warmboot small, bit_and_mask 26 (jal_word dest))
      (bit_or_sum 28 (warmboot / 2 ^ 28) (jal_word dest % 2 ^ 26 * 4) (omega arith)
        ∙ omega (arith, jal_word_sum dest))

-- `parse_warmboot_jal` reads back what `encode_jal` stores: where WarmBoot has a JAL as its instruction
-- `opcode`, to a multiple of four in its own 256 MiB, that destination is found.
pub parse_warmboot_jal-encode_jal :
    (opcode dest warmboot : ℕ) (mem : Memory)
    → load32 mem (a0_entry 0xA0) ≡ warmboot
    → a0_entry 0xA0 + 4 ≤ warmboot
    → warmboot + 4 * opcode < 2 ^ 32
    → dest % 4 ≡ 0
    → dest / 2 ^ 28 ≡ warmboot / 2 ^ 28
    → parse_warmboot_jal opcode (encode_jal (warmboot + 4 * opcode) dest mem) ≡ dest
unfolding parse_warmboot_jal encode_jal
parse_warmboot_jal-encode_jal opcode dest warmboot mem e clear small aligned near =
    let at = warmboot + 4 * opcode in
    let start : load32 (store32 at (jal_word dest) mem) (a0_entry 0xA0) ≡ warmboot =
      load32_apart at (a0_entry 0xA0) (jal_word dest) mem (inl (omega arith)) ∙ e in
    let here : u32 at ≡ at = omega arith in
    rw (start, here, load32-store32 at (jal_word dest) mem (omega (arith, jal_word_sum dest)))
      (joined warmboot dest (omega arith) aligned near)

lui_word_sum :
    (r v : ℕ) → r < 32 → v < 2 ^ 32 → lui_word r v ≡ 15 * 2 ^ 26 + r * 2 ^ 16 + v / 2 ^ 16
unfolding lui_word
lui_word_sum r v hr hv = ground (
  arith,
  bit_or_aligned 26 15 0x3C000000 (r * 2 ^ 16) (omega arith) (omega arith),
  bit_or_aligned 16 (15 * 2 ^ 10 + r) (0x3C000000 + r * 2 ^ 16) (v / 2 ^ 16) (omega arith)
      (omega arith),
)

ori_word_sum :
    (r v : ℕ) → r < 32 → ori_word r v ≡ 13 * 2 ^ 26 + r * 2 ^ 21 + r * 2 ^ 16 + v % 2 ^ 16
unfolding ori_word
ori_word_sum r v hr = ground (
  arith,
  bit_and_mask 16 v,
  bit_or_aligned 26 13 0x34000000 (r * 2 ^ 21) (omega arith) (omega arith),
  bit_or_aligned 21 (13 * 2 ^ 5 + r) (0x34000000 + r * 2 ^ 21) (r * 2 ^ 16) (omega arith)
      (omega arith),
  bit_or_aligned 16 (13 * 2 ^ 10 + r * 2 ^ 5 + r) (0x34000000 + r * 2 ^ 21 + r * 2 ^ 16)
      (v % 2 ^ 16) (omega arith) (omega arith),
)

-- What the CPU does at LUI and then ORI on one register: the register, and the value it then has.
pub run_li : ℕ → ℕ → Option (ℕ × ℕ)
run_li w w' =
    if (w / 2 ^ 21 == 480 && w' / 2 ^ 26 == 13)
      && (w' / 2 ^ 21 % 32 == w / 2 ^ 16 % 32 && w' / 2 ^ 16 % 32 == w / 2 ^ 16 % 32)
    then some (w / 2 ^ 16 % 32, bit_or (w % 2 ^ 16 * 2 ^ 16) (w' % 2 ^ 16))
    else none

first_word :
    (at r v : ℕ) (mem : Memory)
    → r < 32
    → v < 2 ^ 32
    → load32 (encode_li at r v mem) at ≡ lui_word r v
unfolding encode_li
first_word at r v mem hr hv =
    load32_apart (at + 4) at (ori_word r v) (store32 at (lui_word r v) mem) (inl (omega arith))
    ∙ load32-store32 at (lui_word r v) mem (omega (arith, lui_word_sum r v hr hv))

second_word :
    (at r v : ℕ) (mem : Memory) → r < 32 → load32 (encode_li at r v mem) (at + 4) ≡ ori_word r v
unfolding encode_li
second_word at r v mem hr =
    load32-store32 (at + 4) (ori_word r v) (store32 at (lui_word r v) mem)
      (omega (arith, ori_word_sum r v hr))

run_li-lui_word :
    (r v : ℕ) → r < 32 → v < 2 ^ 32 → run_li (lui_word r v) (ori_word r v) ≡ some (r, v)
unfolding run_li
run_li-lui_word r v hr hv =
    rw (lui_word_sum r v hr hv, ori_word_sum r v hr)
      (ground (arith, bit_or_sum 16 (v / 2 ^ 16) (v % 2 ^ 16)))

-- The two instructions that `encode_li` stores load the value into the register, for each of the 32
-- registers and each 32-bit value.
pub run_li-encode_li :
    (at r v : ℕ) (mem : Memory)
    → r < 32
    → v < 2 ^ 32
    → run_li (load32 (encode_li at r v mem) at) (load32 (encode_li at r v mem) (at + 4))
      ≡ some (r, v)
run_li-encode_li at r v mem hr hv =
    ap₂ run_li (first_word at r v mem hr hv) (second_word at r v mem hr) ∙ run_li-lui_word r v hr hv
