-- ===== src/Crc/Words.antt =====
-- The CRC loop over a range: it goes byte by byte, and takes four bytes as one word.
use native.Mathlib.Nat.{zero-add, one-le-pow}
use tonyhax.Base.{
  ℕ, zero, suc, ◌+◌, ◌*◌, ◌^◌, ◌≤◌, ◌<◌, bit_xor, ◌≡◌, refl, sym, ap, ◌∙◌, arith, Memory, IsBytes,
  load32,
}
use tonyhax.Base.Bits.{
  bit_xor_assoc, bit_xor_fields, bit_xor-lt, bit_xor_injective, bit_xor-zero, zero-bit_xor,
}
use tonyhax.Crc.{crc_bits, crc_loop}
use tonyhax.Crc.Shift.{crc_bits-lt, crc_bits-injective, crc_bits-xor, crc_bits-add}

pub crc_loop-append :
    (mem : Memory) (m n a b crc : ℕ)
    → a + m ≡ b
    → crc_loop mem (m + n) a crc ≡ crc_loop mem n b (crc_loop mem m a crc)
unfolding crc_loop
crc_loop-append mem zero n a b crc e = let e' : a ≡ b = omega arith in rw zero-add (rw e' refl)
crc_loop-append mem (suc m) n a b crc e =
    let s : suc m + n ≡ suc (m + n) = omega arith in
    rw s (crc_loop-append mem m n (a + 1) b (crc_bits 8 (bit_xor crc (mem a))) (omega arith))

pub crc_loop-lt :
    (mem : Memory) (n a crc : ℕ) → IsBytes mem → crc < 2 ^ 32 → crc_loop mem n a crc < 2 ^ 32
unfolding crc_loop
crc_loop-lt mem zero a crc bytes h = h
crc_loop-lt mem (suc n) a crc bytes h =
    crc_loop-lt mem n (a + 1) _ bytes
      (crc_bits-lt 8 _ (bit_xor-lt 32 crc (mem a) h (omega (arith, bytes a))))

-- Only the bytes of the range count.
pub crc_loop_congruent :
    (mem mem' : Memory) (n a crc : ℕ)
    → ((b : ℕ) → a ≤ b → b < a + n → mem b ≡ mem' b)
    → crc_loop mem n a crc ≡ crc_loop mem' n a crc
unfolding crc_loop
crc_loop_congruent mem mem' zero a crc same = refl
crc_loop_congruent mem mem' (suc n) a crc same =
    rw (same a (omega arith) (omega arith))
      (crc_loop_congruent mem mem' n (a + 1) _ (λ b h k. same b (omega arith) (omega arith)))

-- Over the same bytes, registers that differ stay different.
pub crc_loop-injective :
    (mem : Memory) (n a x y : ℕ)
    → IsBytes mem
    → x < 2 ^ 32
    → y < 2 ^ 32
    → crc_loop mem n a x ≡ crc_loop mem n a y
    → x ≡ y
unfolding crc_loop
crc_loop-injective mem zero a x y bytes hx hy e = e
crc_loop-injective mem (suc n) a x y bytes hx hy e = bit_xor_injective x y (mem a) (
    crc_bits-injective 8 _ _ (fits x hx) (fits y hy) (
      crc_loop-injective mem n (a + 1) _ _ bytes (crc_bits-lt 8 _ (fits x hx))
        (crc_bits-lt 8 _ (fits y hy)) e))
  where
    fits : (z : ℕ) → z < 2 ^ 32 → bit_xor z (mem a) < 2 ^ 32
    fits z hz = bit_xor-lt 32 z (mem a) hz (omega (arith, bytes a))

byte_pair :
    (x lo hi k : ℕ) → lo < 2 ^ k → bit_xor (bit_xor x lo) (2 ^ k * hi) ≡ bit_xor x (lo + 2 ^ k * hi)
byte_pair x lo hi k h = bit_xor_assoc x lo (2 ^ k * hi) ∙ ap (bit_xor x) joined
  where
    joined : bit_xor lo (2 ^ k * hi) ≡ lo + 2 ^ k * hi
    joined = ground (
      arith,
      bit_xor_fields k 0 hi lo 0 h (one-le-pow k 2 (omega arith)),
      zero-bit_xor hi,
      bit_xor-zero lo,
    )

absorb :
    (k crc w b : ℕ)
    → w < 2 ^ k
    → crc_bits 8 (bit_xor (crc_bits k (bit_xor crc w)) b)
      ≡ crc_bits (k + 8) (bit_xor crc (w + 2 ^ k * b))
absorb k crc w b h =
    ap (crc_bits 8) (sym (crc_bits-xor k (bit_xor crc w) b))
    ∙ crc_bits-add k 8 (bit_xor (bit_xor crc w) (2 ^ k * b))
    ∙ ap (crc_bits (k + 8)) (byte_pair crc w b k h)

-- Four bytes pass through the register as one little-endian word.
pub crc_loop_word :
    (mem : Memory) (a crc : ℕ)
    → IsBytes mem
    → crc_loop mem 4 a crc ≡ crc_bits 32 (bit_xor crc (load32 mem a))
unfolding crc_loop
crc_loop_word mem a crc bytes =
    let two : a + 1 + 1 ≡ a + 2 = omega arith in
    let three : a + 2 + 1 ≡ a + 3 = omega arith in
    rw two (
      rw three (
        rw (absorb 8 crc (mem a) (mem (a + 1)) (bytes a)) (
          rw
            (absorb 16 crc (mem a + 256 * mem (a + 1)) (mem (a + 2))
              (omega (arith, bytes a, bytes (a + 1))))
            (absorb 24 crc (mem a + 256 * mem (a + 1) + 65536 * mem (a + 2)) (mem (a + 3))
              (omega (arith, bytes a, bytes (a + 1), bytes (a + 2)))))))
