-- ===== src/Debugscreen/Draws.antt =====
-- The drawing functions of loader/debugscreen.c return, and only send commands to the GPU.
use tonyhax.Base.{ℕ, ◌≡◌, ◌∙◌, ap, Bool, true, false, if◌then◌else◌, List, [], ◌∷◌, ◌++◌, Bytes}
use tonyhax.Machine.{Machine, done, M, ◌>>=◌, ◌>>◌, Command, send}
use tonyhax.Machine.Sends.{sent, Sends, send-Sends, sent-append}
use tonyhax.Gpu.{
  Point, Size, SolidRect, TexRect, gpu_reset, gpu_display_mode, gpu_display_enable, gpu_set_hrange,
  gpu_set_vrange, gpu_set_drawing_area, gpu_draw_solid_rect, gpu_draw_tex_rect, gpu_flush_cache,
}
use tonyhax.Rom.{bios_is_european}
use tonyhax.Debugscreen.{decompressfont, debug_text_at, debug_switch_standard}
use tonyhax.Debugscreen.Commands.{debug_text_at-Sends}
use tonyhax.Debugscreen.Font.{font_commands, decompressfont_lem}
use tonyhax.Debugscreen.Init.{debug_init}

-- The action returns, and sends some commands, which may depend on memory.
abbrev pub Draws : M (Unit {0}) → Type 0
Draws p = (m : Machine) → (cs : List Command) × (p m ≡ done tt (sent m cs))

pub Sends-Draws : (p : M (Unit {0})) (cs : List Command) → Sends p cs → Draws p
Sends-Draws p cs h m = (cs, h m)

pub >>-Draws : (p q : M (Unit {0})) → Draws p → Draws q → Draws (p >> q)
>>-Draws p q h k m =
    let (cs, e) = h m in
    let (ds, e') = k (sent m cs) in
    (cs ++ ds, rw (e, ◌>>=◌) (e' ∙ ap (done tt) (sent-append m cs ds)))

send-Draws : (c : Command) → Draws (send c)
send-Draws c = Sends-Draws (send c) (c ∷ []) (send-Sends c)

if-Draws : (b : Bool) (p q : M (Unit {0})) → Draws p → Draws q → Draws (if b then p else q)
if-Draws true p q h k = h
if-Draws false p q h k = k

solid-Draws : (r : SolidRect) → Draws (gpu_draw_solid_rect r)
unfolding gpu_draw_solid_rect
solid-Draws r = send-Draws _

tex-Draws : (r : TexRect) → Draws (gpu_draw_tex_rect r)
unfolding gpu_draw_tex_rect
tex-Draws r = send-Draws _

text-Draws : (x y : ℕ) (s : Bytes) → Draws (debug_text_at x y s)
text-Draws x y s = Sends-Draws _ _ (debug_text_at-Sends x y s)

ranges-Draws : (x1 x2 y1 y2 : ℕ) → Draws (gpu_set_hrange x1 x2 >> gpu_set_vrange y1 y2)
unfolding gpu_set_hrange gpu_set_vrange
ranges-Draws x1 x2 y1 y2 = >>-Draws (send _) (send _) (send-Draws _) (send-Draws _)

area-Draws : (pos : Point) (size : Size) → Draws (gpu_set_drawing_area pos size)
unfolding gpu_set_drawing_area
area-Draws pos size = >>-Draws (send _) (send _) (send-Draws _) (send-Draws _)

pub debug_switch_standard-Draws : (pal : Bool) → Draws (debug_switch_standard pal)
unfolding debug_switch_standard gpu_reset gpu_display_mode gpu_display_enable
debug_switch_standard-Draws pal = >>-Draws (send _) _ (send-Draws _) (
    >>-Draws (send _) _ (send-Draws _) (
      >>-Draws _ _
        (if-Draws pal (gpu_set_hrange 638 3198 >> gpu_set_vrange 43 282)
          (gpu_set_hrange 608 3168 >> gpu_set_vrange 16 255) (ranges-Draws _ _ _ _)
          (ranges-Draws _ _ _ _))
        (>>-Draws (gpu_set_drawing_area _ _) _ (area-Draws _ _) (
          >>-Draws (send _) _ (send-Draws _)
            (>>-Draws (send _) (send _) (send-Draws _) (send-Draws _))))))

european-Draws :
    (k : Bool → M (Unit {0})) → ((b : Bool) → Draws (k b)) → Draws (bios_is_european >>= k)
unfolding bios_is_european
european-Draws k h m = h _ m

-- `debug_init` returns, and only sends commands to the GPU.
pub debug_init-Draws :
    (tonyhax_version orca_image : Bytes) → Draws (debug_init tonyhax_version orca_image)
unfolding debug_init gpu_flush_cache
debug_init-Draws tonyhax_version orca_image = european-Draws _ (λ pal.
    >>-Draws (debug_switch_standard _) _ (debug_switch_standard-Draws _) (
      >>-Draws (gpu_draw_solid_rect _) _ (solid-Draws _) (
        >>-Draws decompressfont _ (λ m1. (font_commands (m1.mem), decompressfont_lem m1))
          (>>-Draws (send _) _ (send-Draws _) (
            >>-Draws (send _) _ (send-Draws _) (
              >>-Draws (send _) _ (send-Draws _) (
                >>-Draws (debug_text_at _ _ _) _ (text-Draws _ _ _) (
                  >>-Draws (gpu_draw_solid_rect _) _ (solid-Draws _) (
                    >>-Draws (debug_text_at _ _ _) (gpu_draw_tex_rect _) (text-Draws _ _ _)
                      (tex-Draws _))))))))))
