-- ===== src/Tests/Devices.antt =====
-- The theorems on loader/cdrom.c, loader/gpu.c and loader/debugscreen.c at concrete inputs.
use tonyhax.Base.{
  ℕ, ◌+◌, ◌-◌, ◌*◌, ◌/◌, ◌%◌, ◌^◌, ◌<◌, ◌≡◌, refl, ap, arith, if◌then◌else◌, ◌==◌, some, List, [],
  ◌∷◌, codes, get_elem?,
}
use tonyhax.Str.{text, mini_vsprintf, vsprintf_loop, conversion}
use tonyhax.Machine.{fault, Machine, Command, gp0_list, load, done, write, read}
use tonyhax.Base.Bits.{bit_or-lt}
use tonyhax.Machine.Sends.{sent}
use tonyhax.Gpu.{
  Point, Size, TexRect, copy_packet, solid_packet, tex_packet, tex_command, color_word,
}
use tonyhax.Gpu.Fields.{
  halves_sum, color_word_sum, vertex, extent, decode_tex, decode_tex-tex_packet,
}
use tonyhax.Debugscreen.{char_rect, expand_char, decompressfont, debug_write, in_buffer}
use tonyhax.Debugscreen.Display.{Display, InVram, inside}
use tonyhax.Debugscreen.Commands.{printed}
use tonyhax.Debugscreen.Scroll.{run_all, debug_write_scrolls}
use tonyhax.Debugscreen.Font.{glyph_loaded_where_drawn}
use tonyhax.Cdrom.{cd_command, cd_read_reply}
use tonyhax.Cdrom.Runs.{after}
use tonyhax.Cdrom.Polls.{Idles, Interrupts, init_values, cd_command_lem}
use tonyhax.Cdrom.Replies.{Replies, cd_read_reply_overflows}

-- A GPU that copies, and draws nothing else.
abbrev Pixels : Type 0
Pixels = ℕ → ℕ → ℕ

abbrev copied : Point → Point → Size → Pixels → Pixels
copied src dst size v x y =
    if inside dst size x y then v (src.x + (x - dst.x)) (src.y + (y - dst.y)) else v x y

abbrev run_command : Command → Pixels → Pixels
run_command (gp0_list (c ∷ src ∷ dst ∷ size ∷ [])) v =
    if c == 0x80000000 then copied (vertex src) (vertex dst) (extent size) v else v
run_command _ v = v

low_half : (h l : ℕ) → l < 2 ^ 16 → (h * 2 ^ 16 + l) % 2 ^ 16 ≡ l
low_half h l lt = omega arith

high_half : (h l : ℕ) → l < 2 ^ 16 → (h * 2 ^ 16 + l) / 2 ^ 16 ≡ h
high_half h l lt = omega arith

run_command-copy_packet :
    (v : Pixels) (src dst : Point) (size : Size) (x y : ℕ)
    → InVram src size
    → InVram dst size
    → run_command (gp0_list (copy_packet src dst size)) v x y ≡ copied src dst size v x y
unfolding copy_packet
run_command-copy_packet v src dst size x y fs fd =
    rw
      (
        halves_sum src.y src.x (omega (arith, fs.to_bottom)) (omega (arith, fs.to_right)),
        halves_sum dst.y dst.x (omega (arith, fd.to_bottom)) (omega (arith, fd.to_right)),
        halves_sum size.height size.width (omega (arith, fd.to_bottom))
            (omega (arith, fd.to_right)),
        low_half src.y src.x (omega (arith, fs.to_right)),
        low_half dst.y dst.x (omega (arith, fd.to_right)),
        low_half size.height size.width (omega (arith, fd.to_right)),
        high_half src.y src.x (omega (arith, fs.to_right)),
        high_half dst.y dst.x (omega (arith, fd.to_right)),
        high_half size.height size.width (omega (arith, fd.to_right)),
      )
      refl

tex_command-lt : (rect : TexRect) → tex_command rect < 2 ^ 31
unfolding tex_command
tex_command-lt rect = ground (
  arith,
  color_word_sum 0x64 rect.color,
  bit_or-lt 31 0x65000000 0x02000000 (omega arith) (omega arith),
  bit_or-lt 31 (color_word 0x64000000 rect.color) 0x02000000,
)

run_command-tex_packet :
    (v : Pixels) (rect : TexRect) → run_command (gp0_list (tex_packet rect)) v ≡ v
unfolding tex_packet
run_command-tex_packet v rect = ground (arith, tex_command-lt rect)

abbrev copier : Display
copier = record {
  State = Pixels;
  pixel = λ v x y. v x y;
  run = run_command;
  run_copy = λ v src dst size x y fs fd apart. run_command-copy_packet v src dst size x y fs fd;
  run_solid = λ v rect x y fits h. unfold solid_packet in refl;
  run_tex = λ v rect x y fits h. ap (λ (w : Pixels). w x y) (run_command-tex_packet v rect);
  run_flush = λ v x y. refl;
}

abbrev pub console : List ℕ → Machine
console replies = record {
  cd = record { replies = replies; accesses = [] };
  screen = record {
    status = [];
    acknowledged = [];
    commands = [];
    last_printed_line = [];
    last_printed_count = 0;
  };
  mem = λ a. a % 251;
}

-- Pixels that differ between lines.
abbrev striped : Pixels
striped x y = y

hello :
    in_buffer (mini_vsprintf (codes "Hello %s") (text (codes "PSX") ∷ []))
    ≡ some (codes "Hello PSX")
unfolding in_buffer mini_vsprintf vsprintf_loop conversion
hello = refl

debug_write_scrolls_example :
    (cs : List Command) × (debug_write (codes "Hello %s") (text (codes "PSX") ∷ []) (console [])
      ≡ done tt (printed (console []) (codes "Hello PSX") 1 cs))
    × (run_all copier cs striped 100 200 ≡ 216)
debug_write_scrolls_example =
    debug_write_scrolls copier striped (console []) (codes "Hello %s") (text (codes "PSX") ∷ [])
      (codes "Hello PSX") 100 200 hello (λ e. cc) (omega arith) (omega arith) (omega arith)

glyph_loaded_where_drawn_example :
    (cs : List Command) × (decompressfont (console []) ≡ done tt (sent (console []) cs))
    × (get_elem? cs 33
        ≡ some (load 642 30 2 15 (expand_char 15 (0xBFC7F8DE + 15 * 33) (λ a. a % 251))))
glyph_loaded_where_drawn_example = glyph_loaded_where_drawn (console []) 33 0 0 (omega arith)

abbrev rect : TexRect
rect = char_rect 32 416 33

decode_tex-tex_packet_example : decode_tex (tex_packet rect) ≡ some rect
decode_tex-tex_packet_example = decode_tex-tex_packet rect (record {
  fits_pos = (omega arith, omega arith);
  fits_size = (omega arith, omega arith);
  fits_texcoord = (omega arith, omega arith);
  fits_clut = (omega arith, omega arith);
  clut_aligned = refl;
  fits_color = omega arith;
  semi_flag = omega arith;
  raw_flag = omega arith;
  raw_uncolored = λ e. refl;
})

-- The controller is busy for one poll, and raises an interrupt at the second.
abbrev pub settles : Idles
settles = record { busy = 0x98 ∷ []; idle = 0x18; all_busy = (refl, tt); is_idle = refl }

-- The interrupt register is quiet once, and then holds interrupt 3, or 2.
abbrev pub acknowledges : Interrupts
acknowledges = record {
  quiet = 0xE0 ∷ [];
  flag = 0xE3;
  all_quiet = (refl, tt);
  is_set = λ e. omega arith;
}

abbrev pub completes : Interrupts
completes = record {
  quiet = 0xE0 ∷ [];
  flag = 0xE2;
  all_quiet = (refl, tt);
  is_set = λ e. omega arith;
}

abbrev pub polled : List ℕ
polled = 0x98 ∷ 0x18 ∷ []

cd_command_lem_example :
    cd_command 0x19 (0x20 ∷ []) 1 (console polled)
    ≡ done tt (
        after
          (console polled)
          (read 0 0x98
            ∷ read 0 0x18
            ∷ write 0 0
            ∷ write 3 0xC0
            ∷ write 2 0x20
            ∷ write 0 1
            ∷ write 2 0
            ∷ write 3 7
            ∷ write 0 0
            ∷ write 1 0x19
            ∷ [])
          [])
cd_command_lem_example = cd_command_lem settles 0x19 (0x20 ∷ []) (console polled) [] refl

abbrev starts : Machine
starts = console (init_values settles settles settles acknowledges completes)

abbrev pub two_bytes : Replies
two_bytes = record {
  announced = (0x20, 0x02) ∷ (0x20, 0x94) ∷ [];
  end = 0x18;
  all_announced = (refl, (refl, tt));
  is_end = refl;
}

cd_read_reply_overflows_example :
    cd_read_reply 1 (console (0x20 ∷ 0x02 ∷ 0x20 ∷ 0x94 ∷ 0x18 ∷ [])) ≡ fault
cd_read_reply_overflows_example =
    cd_read_reply_overflows two_bytes 1 (console (0x20 ∷ 0x02 ∷ 0x20 ∷ 0x94 ∷ 0x18 ∷ [])) []
      (omega arith) refl
