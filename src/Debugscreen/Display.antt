-- ===== src/Debugscreen/Display.antt =====
-- What loader/debugscreen.c relies on of the GPU, for the packets of loader/gpu.c.
use tonyhax.Base.{ℕ, ◌+◌, ◌-◌, ◌≤◌, ◌<◌, ◌≡◌, Bool, false, ◌&&◌, ltb, leb, if◌then◌else◌, ◌⊎◌}
use tonyhax.Machine.{Command, gp0, gp0_list}
use tonyhax.Gpu.{Point, Size, SolidRect, TexRect, copy_packet, solid_packet, tex_packet}

-- The pixel at `x`, `y` lies in the rectangle.
abbrev pub inside : Point → Size → ℕ → ℕ → Bool
inside pos size x y =
    (leb pos.x x && ltb x (pos.x + size.width)) && (leb pos.y y && ltb y (pos.y + size.height))

-- A rectangle that is not empty and lies in the video memory of 1024 by 512 pixels.
pub record InVram (pos : Point) (size : Size) : Type 0 where
  pub columns : 0 < size.width
  pub rows : 0 < size.height
  pub to_right : pos.x + size.width ≤ 1024
  pub to_bottom : pos.y + size.height ≤ 512

-- A GPU: its states, what a command does, and the pixels of the video memory. A copy of lines that
-- do not overlap moves a rectangle; a filled or textured rectangle touches no pixel outside it; a
-- cache flush touches none. The rectangles lie in the video memory: it wraps around otherwise.
pub record Display : Type 1 where
  pub State : Type 0
  pub pixel : State → ℕ → ℕ → ℕ
  pub run : Command → State → State
  pub run_copy :
      (v : State) (src dst : Point) (size : Size) (x y : ℕ)
      → InVram src size
      → InVram dst size
      → (dst.y + size.height ≤ src.y) ⊎ (src.y + size.height ≤ dst.y)
      → pixel (run (gp0_list (copy_packet src dst size)) v) x y ≡ (
          if inside dst size x y
          then pixel v (src.x + (x - dst.x)) (src.y + (y - dst.y))
          else pixel v x y)
  pub run_solid :
      (v : State) (rect : SolidRect) (x y : ℕ)
      → InVram rect.pos rect.size
      → inside rect.pos rect.size x y ≡ false
      → pixel (run (gp0_list (solid_packet rect)) v) x y ≡ pixel v x y
  pub run_tex :
      (v : State) (rect : TexRect) (x y : ℕ)
      → InVram rect.pos rect.size
      → inside rect.pos rect.size x y ≡ false
      → pixel (run (gp0_list (tex_packet rect)) v) x y ≡ pixel v x y
  pub run_flush : (v : State) (x y : ℕ) → pixel (run (gp0 0x01000000) v) x y ≡ pixel v x y
