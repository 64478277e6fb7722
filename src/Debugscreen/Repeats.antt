-- ===== src/Debugscreen/Repeats.antt =====
-- `debug_write` of loader/debugscreen.c for a text that is printed again, and the texts that its two
-- buffers always hold.
use tonyhax.Base.{
  ℕ, ◌+◌, ◌^◌, ◌≤◌, ◌<◌, ◌≡◌, refl, sym, ap, ◌∙◌, arith, inl, inr, Bool-cases, some, List, [], ◌∷◌,
  ◌++◌, append_assoc, append-nil, u32, Bytes, codes, length,
}
use tonyhax.Libc.{strcmp_zero, strcmp_zero_iff}
use tonyhax.Str.{Arg, int, text, mini_vsprintf, mini_sprintf}
use tonyhax.Str.Bound.{Fits, mini_vsprintf-Fits}
use tonyhax.Machine.{Machine, Screen, done, ◌>>=◌, Command, gp0}
use tonyhax.Machine.Sends.{sent}
use tonyhax.Debugscreen.{debug_write, in_buffer, choose_line, print_repeated}
use tonyhax.Debugscreen.Commands.{
  printed, line_commands, new_line_commands, debug_write_new, draw_line-Sends,
  gpu_flush_cache-Sends,
}

abbrev pub repeat_format : Bytes
repeat_format = codes "%s (x%d)"

abbrev pub repeat_count : Machine → ℕ
repeat_count m = u32 (m.screen.last_printed_count + 1)

choose_line_repeated :
    (m : Machine) (t : Bytes)
    → in_buffer
        (mini_sprintf repeat_format (text (m.screen.last_printed_line) ∷ int (repeat_count m) ∷ []))
      ≡ some t
    → choose_line (m.screen.last_printed_line) m
      ≡ done t (printed m (m.screen.last_printed_line) (repeat_count m) [])
unfolding choose_line print_repeated
choose_line_repeated m t e =
    rw
      (
        (strcmp_zero_iff (m.screen.last_printed_line) (m.screen.last_printed_line)).1 refl,
        e,
        append-nil,
      )
      refl

-- A text equal to the line printed last is printed over it with its count, which goes up by one: the
-- log does not move, and the text remembered is the one without the count.
pub debug_write_repeats :
    (m : Machine) (format : Bytes) (args : List Arg) (t : Bytes)
    → in_buffer (mini_vsprintf format args) ≡ some (m.screen.last_printed_line)
    → in_buffer
        (mini_sprintf repeat_format (text (m.screen.last_printed_line) ∷ int (repeat_count m) ∷ []))
      ≡ some t
    → debug_write format args m
      ≡ done tt (
          printed m
            (m.screen.last_printed_line)
            (repeat_count m)
            (gp0 0x01000000 ∷ line_commands t))
unfolding debug_write
debug_write_repeats m format args t e e' = rw e (
    rw (gpu_flush_cache-Sends m, ◌>>=◌)
      (rw (choose_line_repeated (sent m (gp0 0x01000000 ∷ [])) t e', ◌>>=◌)
        (draw_line-Sends t _ ∙ ap (λ (cs : List Command). done tt (printed_with cs)) regrouped)))
  where
    printed_with : List Command → Machine
    printed_with cs = record m {
      screen = record (m.screen) { commands = cs; last_printed_count = repeat_count m };
    }

    regrouped :
        ((m.screen.commands ++ gp0 0x01000000 ∷ []) ++ []) ++ line_commands t
        ≡ m.screen.commands ++ gp0 0x01000000 ∷ line_commands t
    regrouped = simp (append_assoc, append-nil)

-- A text with its count has at most 15 bytes more than the text.
repeated_fits :
    (t : Bytes) (count : ℕ)
    → length t ≤ 48
    → count < 2 ^ 32
    → (t' : Bytes) × (in_buffer (mini_sprintf repeat_format (text t ∷ int count ∷ [])) ≡ some t')
unfolding in_buffer mini_sprintf
repeated_fits t count short word =
    let (p, e, l, h) = mini_vsprintf-Fits {f = repeat_format} fits in (p.str, rw e (ground arith))
  where
    fits : Fits repeat_format (text t ∷ int count ∷ []) (length t + (1 + (1 + (1 + (11 + 1)))))
    fits = Fits.str t (
        Fits.literal b' ' (omega arith) (omega arith) (
          Fits.literal b'(' (omega arith) (omega arith)
            (Fits.literal b'x' (omega arith) (omega arith) (Fits.dec count word (Fits.last b')')))))

-- A text of at most 48 bytes is printed whatever was printed before, how often so ever: with its
-- count it still fits the second buffer, only the screen changes, and the text is remembered.
pub debug_write_returns :
    (m : Machine) (format : Bytes) (args : List Arg) (t : Bytes)
    → in_buffer (mini_vsprintf format args) ≡ some t
    → length t ≤ 48
    → (s : Screen) × (debug_write format args m ≡ done tt (record m { screen = s }))
      × (s.last_printed_line ≡ t)
debug_write_returns m format args t e short =
    elim (Bool-cases (strcmp_zero (m.screen.last_printed_line) t)) [
      | inl same ↦
          let again : m.screen.last_printed_line ≡ t =
            (strcmp_zero_iff (m.screen.last_printed_line) t).0 same in
          let (t', e') =
            repeated_fits (m.screen.last_printed_line) (repeat_count m) (rw again short)
              (omega arith) in
          (
            (printed m (m.screen.last_printed_line) (repeat_count m)
                (gp0 0x01000000 ∷ line_commands t')).screen,
            debug_write_repeats m format args t' (e ∙ ap some (sym again)) e',
            again,
          )
      | inr differs ↦ (
        (printed m t 1 (new_line_commands t)).screen,
        debug_write_new m format args t e
            (λ again. ground (arith, (strcmp_zero_iff (m.screen.last_printed_line) t).1 again)),
        refl,
      )
    ]
