-- ===== src/Crc/Shift.antt =====
-- The rounds of the CRC register: bounds, injectivity, and how data bits pass through them.
use native.Mathlib.Nat.{pow-suc, zero-add}
use tonyhax.Base.{ℕ, zero, suc, ◌+◌, ◌*◌, ◌/◌, ◌%◌, ◌^◌, ◌≤◌, ◌<◌, bit_xor, ◌≡◌, ap, ◌∙◌, arith}
use tonyhax.Base.Bits.{
  bit_and-one, bit_xor_fields, bit_xor-lt, bit_xor_injective, bit_xor_right_comm, bit_xor-step,
  zero-bit_xor,
}
use tonyhax.Crc.{polynomial, crc_bit, crc_bits}

crc_bit-even : (crc : ℕ) → crc % 2 ≡ 0 → crc_bit crc ≡ crc / 2
unfolding crc_bit
crc_bit-even crc h = ground (arith, bit_and-one crc)

crc_bit-odd : (crc : ℕ) → crc % 2 ≡ 1 → crc_bit crc ≡ bit_xor (crc / 2) polynomial
unfolding crc_bit
crc_bit-odd crc h = ground (arith, bit_and-one crc)

pub crc_bit-lt : (crc : ℕ) → crc < 2 ^ 32 → crc_bit crc < 2 ^ 32
crc_bit-lt crc h = ground (
  arith,
  crc_bit-even crc,
  crc_bit-odd crc,
  bit_xor-lt 32 (crc / 2) polynomial (omega arith) (omega arith),
)

pub crc_bits-lt : (k crc : ℕ) → crc < 2 ^ 32 → crc_bits k crc < 2 ^ 32
unfolding crc_bits
crc_bits-lt zero crc h = h
crc_bits-lt (suc k) crc h = crc_bits-lt k (crc_bit crc) (crc_bit-lt crc h)

-- The polynomial has its top bit set, so the top bit of the new register is the bit that left.
top_bit : (a : ℕ) → a < 2 ^ 31 → 2 ^ 31 ≤ bit_xor a polynomial
top_bit a h = ground (arith, bit_xor_fields 31 0 1 a 0x6DB88320 h (omega arith), zero-bit_xor 1)

pub crc_bit-injective : (a b : ℕ) → a < 2 ^ 32 → b < 2 ^ 32 → crc_bit a ≡ crc_bit b → a ≡ b
crc_bit-injective a b ha hb e = ground (
  arith,
  crc_bit-even a,
  crc_bit-odd a,
  crc_bit-even b,
  crc_bit-odd b,
  top_bit (a / 2) (omega arith),
  top_bit (b / 2) (omega arith),
  bit_xor_injective (a / 2) (b / 2) polynomial,
)

pub crc_bits-injective : (k a b : ℕ) → a < 2 ^ 32 → b < 2 ^ 32 → crc_bits k a ≡ crc_bits k b → a ≡ b
unfolding crc_bits
crc_bits-injective zero a b ha hb e = e
crc_bits-injective (suc k) a b ha hb e =
    crc_bit-injective a b ha hb
      (crc_bits-injective k (crc_bit a) (crc_bit b) (crc_bit-lt a ha) (crc_bit-lt b hb) e)

-- Bits above the lowest pass through a round unchanged, one place down.
crc_bit-xor : (x y : ℕ) → crc_bit (bit_xor x (2 * y)) ≡ bit_xor (crc_bit x) y
crc_bit-xor x y = ground (
  arith,
  crc_bit-even x,
  crc_bit-odd x,
  crc_bit-even (bit_xor x (2 * y)),
  crc_bit-odd (bit_xor x (2 * y)),
  bit_xor-step x (2 * y),
  bit_xor_right_comm (x / 2) y polynomial,
)

double_pow : (y k : ℕ) → 2 ^ suc k * y ≡ 2 * (2 ^ k * y)
double_pow y k = omega (arith, ap (λ (t : ℕ). t * y) (pow-suc 2 k))

add-suc_left : (j k : ℕ) → suc j + k ≡ suc (j + k)
add-suc_left j k = omega arith

pub crc_bits-xor : (k x y : ℕ) → crc_bits k (bit_xor x (2 ^ k * y)) ≡ bit_xor (crc_bits k x) y
unfolding crc_bits
crc_bits-xor zero x y = ap (λ (t : ℕ). bit_xor x t) (omega arith)
crc_bits-xor (suc k) x y = ap (crc_bits k) first ∙ crc_bits-xor k (crc_bit x) y
  where
    first : crc_bit (bit_xor x (2 ^ suc k * y)) ≡ bit_xor (crc_bit x) (2 ^ k * y)
    first = ground (arith, pow-suc 2 k, double_pow y k, crc_bit-xor x (2 ^ k * y))

pub crc_bits-add : (j k crc : ℕ) → crc_bits k (crc_bits j crc) ≡ crc_bits (j + k) crc
unfolding crc_bits
crc_bits-add zero k crc = rw zero-add
crc_bits-add (suc j) k crc = crc_bits-add j k (crc_bit crc) ∙ rw (add-suc_left j k)
