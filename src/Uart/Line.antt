-- ===== src/Uart/Line.antt =====
-- What loader/patch-uart.S sends, as a receiver at the port reads it.
use tonyhax.Base.{
  ℕ, zero, suc, ◌/◌, ◌%◌, ◌≡◌, ◌≢◌, bit_and, List, [], ◌∷◌, ◌++◌, ◌==◌, if◌then◌else◌,
}

-- The timer's flag changes so often: the values of its mode register, with those read while it stays.
pub data Toggles (left : List ℕ) : ℕ → ℕ → List ℕ → Type 0 where
  over : (flag : ℕ) → Toggles left zero flag left
  stays :
      (n flag mode : ℕ) (modes : List ℕ)
      → bit_and mode 0x0400 ≡ flag
      → Toggles left (suc n) flag modes
      → Toggles left (suc n) flag (mode ∷ modes)
  changes :
      (n flag mode : ℕ) (modes : List ℕ)
      → bit_and mode 0x0400 ≢ flag
      → Toggles left n (bit_and mode 0x0400) modes
      → Toggles left (suc n) flag (mode ∷ modes)

-- The bits of a number, lowest first, as the control register gets them: bit 13 pulls the line low.
abbrev pub levels : ℕ → ℕ → ℕ → List (ℕ × ℕ)
levels sr zero c = []
levels sr (suc n) c = (sr, if c % 2 == 0 then 0x2002 else 0x0002) ∷ levels sr n (c / 2)

-- A start bit, the eight bits of the byte, and a stop bit.
abbrev pub frame : ℕ → ℕ → List (ℕ × ℕ)
frame sr c = (sr, 0x2002) ∷ levels sr 8 c ++ (sr, 0x0002) ∷ []

-- What goes out for a byte: a carriage return stands before a line feed.
abbrev pub line_of : ℕ → ℕ → List (ℕ × ℕ)
line_of sr c = if c % 256 == 10 then frame sr 13 ++ frame sr 10 else frame sr c

abbrev pub bits_of : ℕ → ℕ
bits_of c = if c % 256 == 10 then 20 else 10
