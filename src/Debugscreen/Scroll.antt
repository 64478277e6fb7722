-- ===== src/Debugscreen/Scroll.antt =====
-- What `debug_write` of loader/debugscreen.c does to the picture, for any GPU that copies and draws
-- rectangles as documented.
use mathlib.Core.Path.{ap₂}
use tonyhax.Base.{
  length, Option-cases, ℕ, zero, suc, ◌+◌, ◌-◌, ◌*◌, ◌≤◌, ◌<◌, ◌≡◌, ◌≢◌, refl, ap, ◌∙◌, arith, ◌&&◌,
  Option, none, some, List, [], ◌∷◌, ◌++◌, ltb, leb, if◌then◌else◌, u32, Bytes, inl, inr,
}
use tonyhax.Str.{Arg, mini_vsprintf, vsprintf_loop}
use tonyhax.Machine.{Machine, done, Command, gp0, gp0_list}
use tonyhax.Gpu.{copy_packet}
use tonyhax.Debugscreen.{
  char_rect, log_line, line_size, glyph, last_line_pos, black_box, debug_write, in_buffer,
}
use tonyhax.Debugscreen.Display.{Display, InVram}
use tonyhax.Debugscreen.Commands.{
  scroll_commands, char_commands, text_commands, line_commands, new_line_commands, printed,
  debug_write_new,
}

log_line-InVram : (line : ℕ) → line < 22 → InVram (log_line line) line_size
log_line-InVram line h = record {
  columns = omega arith;
  rows = omega arith;
  to_right = omega arith;
  to_bottom = omega arith;
}

char-InVram :
    (at top i : ℕ)
    → at ≤ 1016
    → top < 480
    → InVram ((char_rect at top i).pos) ((char_rect at top i).size)
char-InVram at top i h h' = record {
  columns = omega arith;
  rows = omega arith;
  to_right = omega arith;
  to_bottom = omega arith;
}

module _ (gpu : Display) where
  open gpu use {State, pixel, run}

  abbrev pub run_all : List Command → State → State
  run_all [] v = v
  run_all (c ∷ cs) v = run_all cs (run c v)

  run_all-append :
      (cs ds : List Command) (v : State) → run_all (cs ++ ds) v ≡ run_all ds (run_all cs v)
  run_all-append [] ds v = refl
  run_all-append (c ∷ cs) ds v = run_all-append cs ds (run c v)

  copy_line :
      (line x y : ℕ) (v : State)
      → 1 ≤ line
      → line < 22
      → 32 ≤ x
      → x < 640
      → pixel (run (gp0_list (copy_packet (log_line line) (log_line (line - 1)) line_size)) v) x y
        ≡ (if leb (64 + 16 * line) y && ltb y (80 + 16 * line)
            then pixel v x (y + 16)
            else pixel v x y)
  copy_line line x y v lo hi hx hx' =
      gpu.run_copy v (log_line line) (log_line (line - 1)) line_size x y (log_line-InVram line hi)
        (log_line-InVram (line - 1) (omega arith)) (inl (omega arith))
      ∙ ground (arith, moved)
    where
      moved :
          64 + 16 * line ≤ y
          → pixel v (32 + (x - 32)) (80 + 16 * line + (y - (80 + 16 * (line - 1))))
            ≡ pixel v x (y + 16)
      moved h = ap₂ (pixel v) (omega arith) (omega arith)

  -- Each copy moves a line up; the later ones do not touch the lines above.
  scroll_pixels :
      (n line x y : ℕ) (v : State)
      → 1 ≤ line
      → line + n ≤ 22
      → 32 ≤ x
      → x < 640
      → pixel (run_all (scroll_commands n line) v) x y ≡ (
          if leb (64 + 16 * line) y && ltb y (64 + 16 * (line + n))
          then pixel v x (y + 16)
          else pixel v x y)
  unfolding scroll_commands
  scroll_pixels zero line x y v lo hi hx hx' = ground arith
  scroll_pixels (suc n) line x y v lo hi hx hx' = ground (
    arith,
    scroll_pixels n (line + 1) x y first (omega arith) (omega arith) hx hx',
    copy_line line x y v lo (omega arith) hx hx',
    copy_line line x (y + 16) v lo (omega arith) hx hx',
  )
    where
      first : State
      first = run (gp0_list (copy_packet (log_line line) (log_line (line - 1)) line_size)) v

  char_pixels :
      (g : Option ℕ) (at top x y : ℕ) (v : State)
      → at ≤ 1015
      → top < 480
      → y < top
      → pixel (run_all (char_commands at top g) v) x y ≡ pixel v x y
  unfolding char_commands
  char_pixels none at top x y v right fits above = refl
  char_pixels (some i) at top x y v right fits above =
      gpu.run_tex _ (char_rect (at + 1) top i) x y (char-InVram (at + 1) top i (omega arith) fits)
        (ground arith)
      ∙ gpu.run_tex v (char_rect at top i) x y (char-InVram at top i (omega arith) fits)
          (ground arith)

  -- Text is drawn only on its own lines.
  text_pixels :
      (s : Bytes) (at top x y : ℕ) (v : State)
      → at + 10 * length s ≤ 1015
      → top < 480
      → y < top
      → pixel (run_all (text_commands at top s) v) x y ≡ pixel v x y
  unfolding text_commands
  text_pixels [] at top x y v right fits above = refl
  text_pixels (c ∷ s) at top x y v right fits above =
      ap (λ (w : State). pixel w x y)
        (run_all-append (char_commands at top (glyph c)) (text_commands (u32 (at + 10)) top s) v)
      ∙ text_pixels s (u32 (at + 10)) top x y _ (omega arith) fits above
      ∙ char_pixels (glyph c) at top x y v (omega arith) fits above

box-InVram : InVram (black_box.pos) (black_box.size)
unfolding last_line_pos
box-InVram = record {
  columns = omega arith;
  rows = omega arith;
  to_right = omega arith;
  to_bottom = omega arith;
}

-- A text in a buffer of 64 bytes has its NUL there too.
in_buffer-length :
    (format : Bytes) (args : List Arg) (t : Bytes)
    → in_buffer (mini_vsprintf format args) ≡ some t
    → length t < 64
unfolding in_buffer mini_vsprintf
in_buffer-length format args t e = elim (Option-cases (vsprintf_loop format args [])) [
  | inl failed ↦ ground (arith, failed, e)
  | inr (out, written) ↦ ground (arith, written, e)
]

new_line_pixels :
    (gpu : Display) (v : Display.State gpu) (t : Bytes) (x y : ℕ)
    → length t < 64
    → 32 ≤ x
    → x < 640
    → y < 416
    → gpu.pixel (run_all gpu (new_line_commands t) v) x y
      ≡ (if leb 80 y then gpu.pixel v x (y + 16) else gpu.pixel v x y)
unfolding new_line_commands line_commands last_line_pos
new_line_pixels gpu v t x y short hx hx' hy =
    ap (λ w. gpu.pixel w x y) (run_all-append gpu (scroll_commands 21 1) (line_commands t) flushed)
    ∙ text_pixels gpu t 32 416 x y _ (omega arith) (omega arith) hy
    ∙ gpu.run_solid _ black_box x y box-InVram (ground arith)
    ∙ scroll_pixels gpu 21 1 x y flushed (omega arith) (omega arith) hx hx'
    ∙ ground (arith, gpu.run_flush v x y, gpu.run_flush v x (y + 16))
  where
    flushed : Display.State gpu
    flushed = gpu.run (gp0 0x01000000) v

-- A text that differs from the line printed last is remembered with count 1, and moves the log up: in
-- the columns from 32 on, each pixel of the 21 lines above the last one is the pixel that stood 16
-- lower, and what stands above the log is left alone.
pub debug_write_scrolls :
    (gpu : Display) (v : Display.State gpu) (m : Machine) (format : Bytes) (args : List Arg)
    (t : Bytes) (x y : ℕ)
    → in_buffer (mini_vsprintf format args) ≡ some t
    → m.screen.last_printed_line ≢ t
    → 32 ≤ x
    → x < 640
    → y < 416
    → (cs : List Command) × (debug_write format args m ≡ done tt (printed m t 1 cs))
      × (gpu.pixel (run_all gpu cs v) x y
          ≡ (if leb 80 y then gpu.pixel v x (y + 16) else gpu.pixel v x y))
debug_write_scrolls gpu v m format args t x y e ne hx hx' hy = (
  new_line_commands t,
  debug_write_new m format args t e ne,
  new_line_pixels gpu v t x y (in_buffer-length format args t e) hx hx' hy,
)
