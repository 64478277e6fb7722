-- ===== src/Debugscreen.antt =====
-- loader/debugscreen.c: the text log on the screen. `formatted` and `formatted_repeated` hold 64
-- bytes with the NUL: a longer text is a write out of bounds.
pub mod Font
pub mod Display
pub mod Commands
pub mod Scroll
pub mod Init
pub mod State
pub mod Draws
pub mod Quiet
pub mod Repeats
use tonyhax.Base.{
  ℕ, zero, suc, ◌+◌, ◌-◌, ◌*◌, ◌/◌, ◌%◌, bit_and, bit_or, Bool, true, false, not, ◌||◌, Option,
  none, some, List, [], ◌∷◌, ◌++◌, ◌==◌, ltb, leb, if◌then◌else◌, u8, u16, u32, ◌<<<◌, Bytes, codes,
  Memory,
}
use tonyhax.Libc.{strcmp_zero}
use tonyhax.Str.{Arg, int, text, Printed, mini_vsprintf, mini_sprintf}
use tonyhax.Machine.{
  Machine, Outcome, done, fault, M, pure, ◌>>=◌, ◌>>◌, defined, load, gp0, send, Screen,
}
use tonyhax.Gpu.{
  Point, Size, SolidRect, TexRect, gpu_copy_rectangle, gpu_draw_solid_rect, gpu_draw_tex_rect,
  gpu_flush_cache, gpu_reset, gpu_display_mode, gpu_set_hrange, gpu_set_vrange,
  gpu_set_drawing_area, gpu_display_enable,
}

abbrev pub screen_width : ℕ
screen_width = 640

abbrev pub screen_height : ℕ
screen_height = 480

abbrev pub char_height : ℕ
char_height = 15

abbrev pub char_draw_width : ℕ
char_draw_width = 10

abbrev pub char_vram_width : ℕ
char_vram_width = 8

abbrev pub font_x : ℕ
font_x = 640

abbrev pub clut_x : ℕ
clut_x = 640

abbrev pub clut_y : ℕ
clut_y = 6 * char_height

abbrev pub orca_width : ℕ
orca_width = 40

abbrev pub orca_height : ℕ
orca_height = 20

abbrev pub orca_texcoord_x : ℕ
orca_texcoord_x = char_vram_width * 16

abbrev pub th_margin : ℕ
th_margin = 40

abbrev pub log_lines : ℕ
log_lines = 22

abbrev pub log_margin : ℕ
log_margin = 32

abbrev pub log_start_y : ℕ
log_start_y = 80

abbrev pub log_line_height : ℕ
log_line_height = 16

-- The bytes of `PALETTE`, which is sent as 16-bit words.
abbrev pub palette_bytes : Bytes
palette_bytes =
    0x00 ∷ 0x00 ∷ 0x42 ∷ 0x08 ∷ 0x84 ∷ 0x10 ∷ 0xC6 ∷ 0x18 ∷ 0x08 ∷ 0x21 ∷ 0x4A ∷ 0x29 ∷ 0x8C ∷ 0x31
    ∷ 0xCE ∷ 0x39 ∷ 0x31 ∷ 0x46 ∷ 0x73 ∷ 0x4E ∷ 0xB5 ∷ 0x56 ∷ 0xF7 ∷ 0x5E ∷ 0x39 ∷ 0x67 ∷ 0x7B
    ∷ 0x6F ∷ 0xBD ∷ 0x77 ∷ 0xFF ∷ 0x7F ∷ []

-- The columns of one line of a character, two to a byte, with `n` bytes left.
unfoldable pub expand_row : ℕ → ℕ → Bytes
expand_row zero char1bpp = []
expand_row (suc n) char1bpp =
    bit_or (bit_or 0 (if not (bit_and char1bpp 0x80 == 0) then 0x0F else 0))
      (if not (bit_and char1bpp 0x40 == 0) then 0xF0 else 0)
    ∷ expand_row n (u8 (char1bpp <<< 2))

-- `charbuf` of the character at `rom_charset`, with `n` lines left.
unfoldable pub expand_char : ℕ → ℕ → Memory → Bytes
expand_char zero rom_charset mem = []
expand_char (suc n) rom_charset mem =
    expand_row 4 (mem rom_charset) ++ expand_char n (rom_charset + 1) mem

-- The loop over `tablex`, with `n` characters left.
unfoldable pub font_row : ℕ → ℕ → ℕ → ℕ → M ℕ
font_row zero tablex tabley rom_charset = pure rom_charset
font_row (suc n) tablex tabley rom_charset = do
  m ← λ m. done m m
  send (
      load (font_x + tablex * char_vram_width * 4 / 16) (tabley * char_height)
        (char_vram_width * 4 / 16) char_height (expand_char 15 rom_charset (m.mem)))
  font_row n (tablex + 1) tabley (rom_charset + 15)

-- The loop over `tabley`, with `n` rows of the table left.
unfoldable pub font_table : ℕ → ℕ → ℕ → M (Unit {0})
font_table zero tabley rom_charset = pure tt
font_table (suc n) tabley rom_charset = do
  next ← font_row 16 0 tabley rom_charset
  font_table n (tabley + 1) next

unfoldable pub decompressfont : M (Unit {0})
decompressfont = font_table 6 0 0xBFC7F8DE

-- `tex_idx`, if it is drawn. `char` is signed, so from 128 on the index is negative. The font has a
-- yen sign in the place of the backslash.
unfoldable pub glyph : ℕ → Option ℕ
glyph c =
    if leb 128 c || ltb c b'!'
    then none
    else if ltb (c - b'!') 96
    then some (if c - b'!' == b'\\' - b'!' then 95 else c - b'!')
    else none

abbrev pub char_rect : ℕ → ℕ → ℕ → TexRect
char_rect x y tex_idx = record {
  pos = record { x = u16 x; y = u16 y };
  size = record { width = char_vram_width; height = char_height };
  texcoord = record { x = tex_idx % 16 * char_vram_width; y = tex_idx / 16 * char_height };
  clut = record { x = clut_x; y = clut_y };
  color = 0;
  semi_transp = 0;
  raw_tex = 1;
}

-- A character is drawn twice, the second time one pixel further.
unfoldable pub draw_char : ℕ → ℕ → Option ℕ → M (Unit {0})
draw_char x_pos y_pos none = pure tt
draw_char x_pos y_pos (some tex_idx) = do
  gpu_draw_tex_rect (char_rect x_pos y_pos tex_idx)
  gpu_draw_tex_rect (char_rect (x_pos + 1) y_pos tex_idx)

unfoldable pub debug_text_at : ℕ → ℕ → Bytes → M (Unit {0})
debug_text_at x_pos y_pos [] = pure tt
debug_text_at x_pos y_pos (c ∷ rest) = do
  draw_char x_pos y_pos (glyph c)
  debug_text_at (u32 (x_pos + char_draw_width)) y_pos rest

abbrev pub log_line : ℕ → Point
log_line line = record { x = log_margin; y = log_start_y + log_line_height * line }

abbrev pub line_size : Size
line_size = record { width = screen_width - log_margin; height = log_line_height }

-- The loop that moves each line up, with `n` lines left.
unfoldable pub scroll : ℕ → ℕ → M (Unit {0})
scroll zero line = pure tt
scroll (suc n) line = do
  gpu_copy_rectangle (log_line line) (log_line (line - 1)) line_size
  scroll n (line + 1)

-- The text of a buffer of 64 bytes.
unfoldable pub in_buffer : Option Printed → Option Bytes
in_buffer none = none
in_buffer (some p) = if ltb p.count 64 then some p.str else none

abbrev set_last_printed : Bytes → ℕ → M (Unit {0})
set_last_printed line count m = done tt (record m {
  screen = record (m.screen) { last_printed_line = line; last_printed_count = count };
})

-- `last_printed_line` differs from the new text: scroll, and start a new count.
unfoldable pub print_new : Bytes → M Bytes
print_new formatted = do scroll (log_lines - 1) 1; set_last_printed formatted 1; pure formatted

-- The same text once more: print it with its count.
unfoldable pub print_repeated : M Bytes
print_repeated = do
  m ← λ m. done m m
  let count = u32 (m.screen.last_printed_count + 1)
  set_last_printed (m.screen.last_printed_line) count
  defined (
      in_buffer
        (mini_sprintf (codes "%s (x%d)") (text (m.screen.last_printed_line) ∷ int count ∷ [])))

unfoldable pub last_line_pos : ℕ
last_line_pos = log_start_y + (log_lines - 1) * log_line_height

abbrev pub black_box : SolidRect
black_box = record {
  pos = record { x = log_margin; y = last_line_pos };
  size = record { width = screen_width - log_margin; height = char_height };
  color = 0x000000;
  semi_transp = 0;
}

unfoldable pub choose_line : Bytes → M Bytes
choose_line formatted m =
    if not (strcmp_zero (m.screen.last_printed_line) formatted)
    then print_new formatted m
    else print_repeated m

unfoldable pub debug_write : Bytes → List Arg → M (Unit {0})
debug_write format args = do
  formatted ← defined (in_buffer (mini_vsprintf format args))
  gpu_flush_cache
  to_print ← choose_line formatted
  gpu_draw_solid_rect black_box
  debug_text_at log_margin last_line_pos to_print

abbrev pub display_mode : Bool → ℕ
display_mode pal =
    bit_or (bit_or (bit_or 3 (bit_or (1 <<< 2) (1 <<< 5))) 0) (if pal then 1 <<< 3 else 0)

unfoldable pub debug_switch_standard : Bool → M (Unit {0})
debug_switch_standard pal = do
  gpu_reset
  gpu_display_mode (display_mode pal)
  if pal
      then (do gpu_set_hrange 638 3198; gpu_set_vrange 43 282)
      else (do gpu_set_hrange 608 3168; gpu_set_vrange 16 255)
  gpu_set_drawing_area (record { x = 0; y = 0 }) (record { width = 640; height = 480 })
  gpu_display_enable
  send (gp0 0xE100040A)
  send (gp0 0xE2000000)
