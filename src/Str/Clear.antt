-- ===== src/Str/Clear.antt =====
-- What `bzero` clears.
use tonyhax.Base.{
  ℕ, zero, suc, ◌+◌, ◌<◌, ◌&&◌, ◌≡◌, arith, leb, ltb, if◌then◌else◌, Memory, IsBytes, store8,
}
use tonyhax.Str.{bzero}

-- `bzero` sets every byte of the range to zero, and changes no other byte.
pub bzero_lem :
    (len start a : ℕ) (mem : Memory)
    → bzero start len mem a ≡ (if leb start a && ltb a (start + len) then 0 else mem a)
unfolding bzero
bzero_lem zero start a mem = ground arith
bzero_lem (suc len) start a mem = ground (arith, bzero_lem len (start + 1) a (store8 start 0 mem))

pub bzero-outside : (len start a : ℕ) (mem : Memory) → a < start → bzero start len mem a ≡ mem a
bzero-outside len start a mem h = ground (arith, bzero_lem len start a mem)

pub bzero-IsBytes : (len start : ℕ) (mem : Memory) → IsBytes mem → IsBytes (bzero start len mem)
bzero-IsBytes len start mem h a = ground (arith, h a, bzero_lem len start a mem)
