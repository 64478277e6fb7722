-- ===== src/Crc/Detect.antt =====
-- What the CRC-32 of loader/crc.c detects, and its residue.
use native.Mathlib.Nat.{pow-suc}
use tonyhax.Base.{
  ℕ, ◌+◌, ◌-◌, ◌^◌, ◌≤◌, ◌<◌, bit_xor, ◌≡◌, ◌≢◌, refl, sym, ap, ◌∙◌, arith, Memory, IsBytes, load32,
  zero, suc, ◌/◌, low_mask,
}
use tonyhax.Base.Bits.{bit_xor_comm, bit_xor-lt, bit_xor_injective, bit_xor-step}
use tonyhax.Crc.{crc_bit, crc_bits, crc_loop, not32, crc32}
use tonyhax.Crc.Shift.{crc_bits-injective, crc_bits-lt}
use tonyhax.Crc.Words.{
  crc_loop-append, crc_loop-lt, crc_loop_congruent, crc_loop-injective, crc_loop_word,
}

-- The two memories agree on `[start, start + len)` but for the four bytes at `a`.
pub record DiffersAt (mem mem' : Memory) (start len a : ℕ) : Type 0 where
  pub from_start : start ≤ a
  pub to_end : a + 4 ≤ start + len
  pub same_below : (b : ℕ) → start ≤ b → b < a → mem b ≡ mem' b
  pub same_above : (b : ℕ) → a + 4 ≤ b → b < start + len → mem b ≡ mem' b
  pub differs : load32 mem a ≢ load32 mem' a

-- The loop over a range, split at a word in it.
crc_loop-split :
    (mem : Memory) (start len a crc : ℕ)
    → IsBytes mem
    → start ≤ a
    → a + 4 ≤ start + len
    → crc_loop mem len start crc
      ≡ crc_loop mem
          (start + len - (a + 4))
          (a + 4)
          (crc_bits 32 (bit_xor (crc_loop mem (a - start) start crc) (load32 mem a)))
crc_loop-split mem start len a crc bytes lo hi =
    ap (λ (t : ℕ). crc_loop mem t start crc) whole
    ∙ crc_loop-append mem (a - start) (4 + (start + len - (a + 4))) start a crc (omega arith)
    ∙ crc_loop-append mem 4 (start + len - (a + 4)) a (a + 4) _ refl
    ∙ ap (crc_loop mem (start + len - (a + 4)) (a + 4)) (crc_loop_word mem a _ bytes)
  where
    whole : len ≡ (a - start) + (4 + (start + len - (a + 4)))
    whole = omega arith

-- Where the register ends up equal, the words at `a` were equal.
words_equal :
    (mem mem' : Memory) (start len a crc : ℕ)
    → IsBytes mem
    → IsBytes mem'
    → crc < 2 ^ 32
    → DiffersAt mem mem' start len a
    → crc_loop mem len start crc ≡ crc_loop mem' len start crc
    → load32 mem a ≡ load32 mem' a
words_equal mem mem' start len a crc bytes bytes' h d e =
    bit_xor_injective (load32 mem a) (load32 mem' a) before
      (bit_xor_comm (load32 mem a) before ∙ inner ∙ bit_xor_comm before (load32 mem' a))
  where
    before : ℕ
    before = crc_loop mem (a - start) start crc

    before' : before ≡ crc_loop mem' (a - start) start crc
    before' =
        crc_loop_congruent mem mem' (a - start) start crc
          (λ b lo hi. d.same_below b lo (omega (arith, d.from_start)))

    fits : (m : Memory) → IsBytes m → bit_xor before (load32 m a) < 2 ^ 32
    fits m mb =
        bit_xor-lt 32 before (load32 m a) (crc_loop-lt mem (a - start) start crc bytes h)
          (omega (arith, mb a, mb (a + 1), mb (a + 2), mb (a + 3)))

    after : (m : Memory) → ℕ
    after m = crc_bits 32 (bit_xor before (load32 m a))

    ends :
        crc_loop mem (start + len - (a + 4)) (a + 4) (after mem)
        ≡ crc_loop mem (start + len - (a + 4)) (a + 4) (after mem')
    ends =
        sym (crc_loop-split mem start len a crc bytes d.from_start d.to_end)
        ∙ e
        ∙ crc_loop-split mem' start len a crc bytes' d.from_start d.to_end
        ∙ ap
            (λ (t : ℕ).
              crc_loop mem' (start + len - (a + 4)) (a + 4)
                (crc_bits 32 (bit_xor t (load32 mem' a))))
            (sym before')
        ∙ sym (
            crc_loop_congruent mem mem' (start + len - (a + 4)) (a + 4) (after mem')
              (λ b lo hi. d.same_above b lo (omega (arith, d.to_end))))

    inner : bit_xor before (load32 mem a) ≡ bit_xor before (load32 mem' a)
    inner = crc_bits-injective 32 _ _ (fits mem bytes) (fits mem' bytes') (
        crc_loop-injective mem (start + len - (a + 4)) (a + 4) (after mem) (after mem') bytes
          (crc_bits-lt 32 _ (fits mem bytes)) (crc_bits-lt 32 _ (fits mem' bytes')) ends)

pub crc32-lt : (mem : Memory) (start len : ℕ) → crc32 mem start len < 2 ^ 32
unfolding crc32
crc32-lt mem start len = omega arith

-- Two images that differ in some bits of four consecutive bytes, and nowhere else, have
-- different CRCs.
pub crc32_detects_burst :
    (mem mem' : Memory) (start len a : ℕ)
    → IsBytes mem
    → IsBytes mem'
    → DiffersAt mem mem' start len a
    → crc32 mem start len ≢ crc32 mem' start len
unfolding crc32
crc32_detects_burst mem mem' start len a bytes bytes' d e = d.differs (
    words_equal mem mem' start len a 0xFFFFFFFF bytes bytes' (omega arith) d (
      omega (
        arith,
        crc_loop-lt mem len start 0xFFFFFFFF bytes (omega arith),
        crc_loop-lt mem' len start 0xFFFFFFFF bytes' (omega arith),
      )))

-- A number and its complement on `k` bits give all ones.
complement : (k a : ℕ) → a < 2 ^ k → bit_xor a (low_mask k - a) ≡ low_mask k
complement zero a h = ground arith
complement (suc k) a h = ground (
  arith,
  pow-suc 2 k,
  bit_xor-step a (low_mask (suc k) - a),
  complement k (a / 2) (omega (arith, pow-suc 2 k)),
)

ones : crc_bits 32 0xFFFFFFFF ≡ 0xDEBB20E3
unfolding crc_bits crc_bit
ones = refl

-- Behind its own CRC, stored as a little-endian word, any image has the CRC 0x2144DF1C.
pub crc32_residue :
    (mem : Memory) (start len : ℕ)
    → IsBytes mem
    → load32 mem (start + len) ≡ crc32 mem start len
    → crc32 mem start (len + 4) ≡ 0x2144DF1C
unfolding crc32
crc32_residue mem start len bytes e = ap not32 (
    crc_loop-append mem len 4 start (start + len) 0xFFFFFFFF refl
    ∙ crc_loop_word mem (start + len) _ bytes
    ∙ ap (crc_bits 32) (ap (bit_xor register) e ∙ complement 32 register small)
    ∙ ones)
  where
    register : ℕ
    register = crc_loop mem len start 0xFFFFFFFF

    small : register < 2 ^ 32
    small = crc_loop-lt mem len start 0xFFFFFFFF bytes (omega arith)
