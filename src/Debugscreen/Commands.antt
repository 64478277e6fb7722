-- ===== src/Debugscreen/Commands.antt =====
-- The commands that `debug_write` of loader/debugscreen.c sends for a new line.
use tonyhax.Base.{
  ℕ, zero, suc, ◌+◌, ◌-◌, ◌≡◌, ◌≢◌, refl, ap, ◌∙◌, false, Option, none, some, List, [], ◌∷◌, ◌++◌,
  append_assoc, Bool-cases, u32, Bytes, inl, inr,
}
use tonyhax.Libc.{strcmp_zero, strcmp_zero_iff}
use tonyhax.Str.{Arg, mini_vsprintf}
use tonyhax.Machine.{Machine, done, ◌>>=◌, ◌>>◌, Command, gp0, gp0_list}
use tonyhax.Machine.Sends.{sent, Sends, send-Sends, pure-Sends, >>-Sends}
use tonyhax.Gpu.{
  copy_packet, solid_packet, tex_packet, gpu_copy_rectangle, gpu_draw_tex_rect, gpu_draw_solid_rect,
  gpu_flush_cache,
}
use tonyhax.Debugscreen.{
  char_rect, draw_char, debug_text_at, log_line, line_size, scroll, glyph, last_line_pos, black_box,
  debug_write, in_buffer, print_new, choose_line,
}

-- The commands of each function.
unfoldable pub scroll_commands : ℕ → ℕ → List Command
scroll_commands zero line = []
scroll_commands (suc n) line =
    gp0_list (copy_packet (log_line line) (log_line (line - 1)) line_size)
    ∷ scroll_commands n (line + 1)

unfoldable pub char_commands : ℕ → ℕ → Option ℕ → List Command
char_commands x y none = []
char_commands x y (some i) =
    gp0_list (tex_packet (char_rect x y i)) ∷ gp0_list (tex_packet (char_rect (x + 1) y i)) ∷ []

unfoldable pub text_commands : ℕ → ℕ → Bytes → List Command
text_commands x y [] = []
text_commands x y (c ∷ s) = char_commands x y (glyph c) ++ text_commands (u32 (x + 10)) y s

pub scroll-Sends : (n line : ℕ) → Sends (scroll n line) (scroll_commands n line)
unfolding scroll gpu_copy_rectangle scroll_commands
scroll-Sends zero line = pure-Sends
scroll-Sends (suc n) line = >>-Sends _ _ (send-Sends _) (scroll-Sends n (line + 1))

draw_char-Sends : (x y : ℕ) (g : Option ℕ) → Sends (draw_char x y g) (char_commands x y g)
unfolding draw_char gpu_draw_tex_rect char_commands
draw_char-Sends x y none = pure-Sends
draw_char-Sends x y (some i) = >>-Sends _ _ (send-Sends _) (send-Sends _)

pub debug_text_at-Sends : (x y : ℕ) (s : Bytes) → Sends (debug_text_at x y s) (text_commands x y s)
unfolding debug_text_at text_commands
debug_text_at-Sends x y [] = pure-Sends
debug_text_at-Sends x y (c ∷ s) =
    >>-Sends _ _ (draw_char-Sends x y (glyph c)) (debug_text_at-Sends (u32 (x + 10)) y s)

-- What is sent after the line is chosen, and for a text that differs from the last one.
unfoldable pub line_commands : Bytes → List Command
line_commands t = gp0_list (solid_packet black_box) ∷ text_commands 32 last_line_pos t

unfoldable pub new_line_commands : Bytes → List Command
new_line_commands t = gp0 0x01000000 ∷ (scroll_commands 21 1 ++ line_commands t)

-- The machine after a line is printed with these commands.
abbrev pub printed : Machine → Bytes → ℕ → List Command → Machine
printed m line count cs = record m {
  screen = record (m.screen) {
    commands = m.screen.commands ++ cs;
    last_printed_line = line;
    last_printed_count = count;
  };
}

pub gpu_flush_cache-Sends : Sends gpu_flush_cache (gp0 0x01000000 ∷ [])
unfolding gpu_flush_cache
gpu_flush_cache-Sends = send-Sends (gp0 0x01000000)

pub draw_line-Sends :
    (t : Bytes)
    → Sends (gpu_draw_solid_rect black_box >> debug_text_at 32 last_line_pos t) (line_commands t)
unfolding gpu_draw_solid_rect line_commands
draw_line-Sends t = >>-Sends _ _ (send-Sends _) (debug_text_at-Sends 32 last_line_pos t)

strcmp_zero_ne : (a b : Bytes) → a ≢ b → strcmp_zero a b ≡ false
strcmp_zero_ne a b ne = elim (Bool-cases (strcmp_zero a b)) [
  | inl same ↦ absurd (ne ((strcmp_zero_iff a b).0 same))
  | inr differs ↦ differs
]

-- `print_new` sends the copies and sets the two variables.
print_new_lem :
    (m : Machine) (t : Bytes) → print_new t m ≡ done t (printed m t 1 (scroll_commands 21 1))
unfolding print_new
print_new_lem m t = rw (scroll-Sends 21 1 m, ◌>>=◌) refl

choose_line_new :
    (m : Machine) (t : Bytes)
    → m.screen.last_printed_line ≢ t
    → choose_line t m ≡ done t (printed m t 1 (scroll_commands 21 1))
unfolding choose_line
choose_line_new m t ne = rw (strcmp_zero_ne _ _ ne) (print_new_lem m t)

pub debug_write_new :
    (m : Machine) (format : Bytes) (args : List Arg) (t : Bytes)
    → in_buffer (mini_vsprintf format args) ≡ some t
    → m.screen.last_printed_line ≢ t
    → debug_write format args m ≡ done tt (printed m t 1 (new_line_commands t))
unfolding debug_write new_line_commands
debug_write_new m format args t e ne = rw e (
    rw (gpu_flush_cache-Sends m, ◌>>=◌)
      (rw (choose_line_new (sent m (gp0 0x01000000 ∷ [])) t ne, ◌>>=◌)
        (draw_line-Sends t _ ∙ ap (λ (cs : List Command). done tt (with_commands cs)) regrouped)))
  where
    with_commands : List Command → Machine
    with_commands cs = record m {
      screen = record (m.screen) { commands = cs; last_printed_line = t; last_printed_count = 1 };
    }

    regrouped :
        ((m.screen.commands ++ gp0 0x01000000 ∷ []) ++ scroll_commands 21 1) ++ line_commands t
        ≡ m.screen.commands ++ new_line_commands t
    regrouped = simp append_assoc
