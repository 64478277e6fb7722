-- ===== src/Crc.antt =====
-- loader/crc.c: the CRC-32 of a range of memory. `~crc` on 32 bits is `not32`.
pub mod Shift
pub mod Words
pub mod Detect
use tonyhax.Base.{
  ℕ, zero, suc, ◌+◌, ◌-◌, ◌^◌, bit_and, bit_xor, not, ◌==◌, if◌then◌else◌, ◌>>>◌, Memory,
}

abbrev pub polynomial : ℕ
polynomial = 0xEDB88320

-- One round of the inner loop.
unfoldable pub crc_bit : ℕ → ℕ
crc_bit crc = if not (bit_and crc 1 == 0) then bit_xor (crc >>> 1) polynomial else crc >>> 1

-- The inner loop, with `k` rounds left.
unfoldable pub crc_bits : ℕ → ℕ → ℕ
crc_bits zero crc = crc
crc_bits (suc k) crc = crc_bits k (crc_bit crc)

-- The outer loop, with `len` bytes left from the address `bytes` on.
unfoldable pub crc_loop : Memory → ℕ → ℕ → ℕ → ℕ
crc_loop mem zero bytes crc = crc
crc_loop mem (suc len) bytes crc =
    crc_loop mem len (bytes + 1) (crc_bits 8 (bit_xor crc (mem bytes)))

abbrev pub not32 : ℕ → ℕ
not32 n = 0xFFFFFFFF - n

unfoldable pub crc32 : Memory → ℕ → ℕ → ℕ
crc32 mem start len = not32 (crc_loop mem len start 0xFFFFFFFF)
