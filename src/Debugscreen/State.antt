-- ===== src/Debugscreen/State.antt =====
-- What `debug_write` of loader/debugscreen.c and what draws for it leave alone, whenever they return.
use tonyhax.Base.{
  ℕ, ◌<◌, ◌≡◌, sym, ap, ◌∙◌, arith, Bool, true, false, not, Option, some, List, [], Bool-cases,
  Option-cases, inl, inr, if◌then◌else◌, Bytes, length, Memory,
}
use tonyhax.Libc.{strcmp_zero, strcmp_zero_iff}
use tonyhax.Str.{Arg, mini_vsprintf, vsprintf_loop}
use tonyhax.Machine.{Machine, Cd, Outcome, done, M, Command, send, defined}
use tonyhax.Machine.Sends.{Sends, send-Sends}
use tonyhax.Machine.Triple.{
  Triple, >>=-Triple, defined-Triple, Keeps-Triple, Keeps, >>=-Keeps, if-Keeps, defined-Keeps,
  done-injective, bind_inverts,
}
use tonyhax.Gpu.{gpu_flush_cache, gpu_draw_solid_rect}
use tonyhax.Debugscreen.{
  scroll, print_new, print_repeated, choose_line, last_line_pos, in_buffer, debug_write, log_margin,
}
use tonyhax.Debugscreen.Commands.{scroll-Sends, debug_text_at-Sends}

-- The console without what drawing changes: the values of the GPU's registers are part of it.
abbrev pub off_log : Machine → Cd × List ℕ × Memory
off_log m = (m.cd, m.screen.status, m.mem)

-- The action changes only the commands sent and the text remembered.
abbrev pub OnLog {ℓ} : {A : Type ℓ} → M A → Type ℓ
OnLog p = Keeps off_log p

-- The text remembered.
abbrev remembered : Machine → Bytes
remembered m = m.screen.last_printed_line

Sends-remembered : (p : M (Unit {0})) (cs : List Command) → Sends p cs → Keeps remembered p
Sends-remembered p cs h m m' a e =
    let (e', e'') = done-injective (sym (h m) ∙ e) in ap remembered (sym e'')

pub Sends-OnLog : (p : M (Unit {0})) (cs : List Command) → Sends p cs → OnLog p
Sends-OnLog p cs h m m' a e = let (e', e'') = done-injective (sym (h m) ∙ e) in ap off_log (sym e'')

send-OnLog : (c : Command) → OnLog (send c)
unfolding send
send-OnLog c m m' a e = let (e', e'') = done-injective e in ap off_log (sym e'')

print_new-OnLog : (t : Bytes) → OnLog (print_new t)
unfolding print_new
print_new-OnLog t =
    >>=-Keeps off_log _ _ (Sends-OnLog (scroll 21 1) _ (scroll-Sends 21 1))
      (λ _ m m' a e. let (e', e'') = done-injective e in ap off_log (sym e''))

print_repeated-OnLog : OnLog print_repeated
unfolding print_repeated
print_repeated-OnLog m m' a e = defined-Keeps off_log _ _ _ a e

choose_line-OnLog : (t : Bytes) → OnLog (choose_line t)
unfolding choose_line
choose_line-OnLog t m m' a e =
    let same = strcmp_zero (m.screen.last_printed_line) t in
    if-Keeps off_log (not same) (print_new t) print_repeated (print_new-OnLog t)
      print_repeated-OnLog m m' a (distributes (not same) e)
  where
    distributes :
        (b : Bool) {o : Outcome Bytes}
        → (if b then print_new t m else print_repeated m) ≡ o
        → (if b then print_new t else print_repeated) m ≡ o
    distributes true e = e
    distributes false e = e

pub debug_write-OnLog : (format : Bytes) (args : List Arg) → OnLog (debug_write format args)
unfolding debug_write gpu_flush_cache gpu_draw_solid_rect
debug_write-OnLog format args = >>=-Keeps off_log _ _ (defined-Keeps off_log _) (λ t.
    >>=-Keeps off_log _ _ (send-OnLog _) (λ _. >>=-Keeps off_log _ _ (choose_line-OnLog t) (λ t'.
      >>=-Keeps off_log _ _ (send-OnLog _)
        (λ _. Sends-OnLog _ _ (debug_text_at-Sends log_margin last_line_pos t')))))

print_new_remembers : (t a : Bytes) (m m' : Machine) → print_new t m ≡ done a m' → remembered m' ≡ t
unfolding print_new
print_new_remembers t a m m' e =
    let (u, m1, scrolled, e') = bind_inverts (scroll 21 1) _ m m' a e in
    let (a', e'') = done-injective e' in ap remembered (sym e'')

print_repeated_remembers :
    (a : Bytes) (m m' : Machine) → print_repeated m ≡ done a m' → remembered m' ≡ remembered m
unfolding print_repeated
print_repeated_remembers a m m' e = defined-Keeps remembered _ _ _ a e

choose_line_remembers :
    (t a : Bytes) (m m' : Machine) → choose_line t m ≡ done a m' → remembered m' ≡ t
unfolding choose_line
choose_line_remembers t a m m' e = elim (Bool-cases (strcmp_zero (remembered m) t)) [
  | inl same ↦
      print_repeated_remembers a m m' (rw same at e) ∙ (strcmp_zero_iff (remembered m) t).0 same
  | inr differs ↦ print_new_remembers t a m m' (rw differs at e)
]

in_buffer_fits :
    (format : Bytes) (args : List Arg) (t : Bytes)
    → in_buffer (mini_vsprintf format args) ≡ some t
    → length t < 64
unfolding in_buffer mini_vsprintf
in_buffer_fits format args t e = elim (Option-cases (vsprintf_loop format args [])) [
  | inl broken ↦ absurd (let e' = rw broken at e in cc)
  | inr (out, fits) ↦ let e' = rw fits at e in ground arith
]

debug_write_formatted :
    (format : Bytes) (args : List Arg)
    → Triple
        (λ m. Unit {0})
        (debug_write format args)
        (λ u m. in_buffer (mini_vsprintf format args) ≡ some (remembered m))
unfolding debug_write gpu_draw_solid_rect
debug_write_formatted format args =
    let formatted : Option Bytes = in_buffer (mini_vsprintf format args) in
    >>=-Triple (defined formatted) _ {Q = λ t m. formatted ≡ some t}
      (λ m m' t u e. (defined-Triple formatted (λ m. Unit {0}) m m' t u e).1)
      (λ t.
        >>=-Triple gpu_flush_cache _ {Q = λ u m. formatted ≡ some t} (λ m m' u q e. q)
          (λ u.
            >>=-Triple (choose_line t) _ {Q = λ t' m. formatted ≡ some (remembered m)}
              (λ m m' t' q e. rw (choose_line_remembers t t' m m' e) q)
              (λ t'.
                >>=-Triple (send _) _ {Q = λ t' m. formatted ≡ some (remembered m)}
                  (Keeps-Triple remembered (send _) (λ r. formatted ≡ some r)
                    (Sends-remembered _ _ (send-Sends _)))
                  (λ u'.
                    Keeps-Triple remembered _ (λ r. formatted ≡ some r)
                      (Sends-remembered _ _ (debug_text_at-Sends log_margin last_line_pos t'))))))

-- Whatever was remembered before, a call of `debug_write` that returns remembers the text that it has
-- formatted, without a count, and this text fits the buffer `last_printed_line`.
pub debug_write_remembers :
    (format : Bytes) (args : List Arg) (m m' : Machine)
    → debug_write format args m ≡ done tt m'
    → (in_buffer (mini_vsprintf format args) ≡ some (m'.screen.last_printed_line))
      × (length (m'.screen.last_printed_line) < 64)
debug_write_remembers format args m m' e =
    let formatted = debug_write_formatted format args m m' tt tt e in
    (formatted, in_buffer_fits format args (m'.screen.last_printed_line) formatted)
