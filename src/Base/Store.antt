-- ===== src/Base/Store.antt =====
-- The console's memory, one byte to an address, and the little-endian words in it.
use Prim.Native.Nat.{ℕ, ◌+◌, ◌*◌, ◌/◌, ◌%◌, ◌^◌, ◌≤◌, ◌<◌}
use mathlib.Core.Path.{◌≡◌}
use mathlib.Core.Logic.{◌⊎◌}
use native.Mathlib.Omega.{arith}
use tonyhax.Base.Word.{◌==◌, if◌then◌else◌}

abbrev pub Memory : Type 0
Memory = ℕ → ℕ

abbrev pub IsBytes : Memory → Type 0
IsBytes mem = (a : ℕ) → mem a < 256

-- `*(uint8_t *) a = v`
abbrev pub store8 : ℕ → ℕ → Memory → Memory
store8 a v mem b = if a == b then v else mem b

-- `*(uint32_t *) a`
abbrev pub load32 : Memory → ℕ → ℕ
load32 mem a = mem a + 256 * mem (a + 1) + 65536 * mem (a + 2) + 16777216 * mem (a + 3)

-- `*(uint32_t *) a = w`
abbrev pub store32 : ℕ → ℕ → Memory → Memory
store32 a w mem =
    store8 (a + 3) (w / 16777216 % 256)
      (store8 (a + 2) (w / 65536 % 256) (store8 (a + 1) (w / 256 % 256) (store8 a (w % 256) mem)))

pub load32-store32 : (a w : ℕ) (mem : Memory) → w < 2 ^ 32 → load32 (store32 a w mem) a ≡ w
load32-store32 a w mem h = ground arith

-- A word is stored into its four bytes and no other.
pub store32-outside : (a w b : ℕ) (mem : Memory) → (b < a) ⊎ (a + 4 ≤ b) → store32 a w mem b ≡ mem b
store32-outside a w b mem h = ground arith

pub store32-IsBytes : (a w : ℕ) (mem : Memory) → IsBytes mem → IsBytes (store32 a w mem)
store32-IsBytes a w mem h b = ground (arith, h b)
