-- ===== src/Debugscreen/Init.antt =====
-- `debug_init` of loader/debugscreen.c. The version's text and the bytes of the orca's image are set by the
-- build, and are parameters.
use tonyhax.Base.{◌+◌, ◌-◌, ◌*◌, ◌/◌, Bytes, codes, ◌++◌}
use tonyhax.Machine.{M, ◌>>=◌, ◌>>◌, load, send}
use tonyhax.Gpu.{SolidRect, TexRect, gpu_draw_solid_rect, gpu_draw_tex_rect, gpu_flush_cache}
use tonyhax.Rom.{bios_is_european}
use tonyhax.Debugscreen.{
  screen_width, screen_height, char_draw_width, font_x, clut_x, clut_y, orca_width, orca_height,
  orca_texcoord_x, th_margin, palette_bytes, decompressfont, debug_text_at, debug_switch_standard,
}

abbrev background : SolidRect
background = record {
  pos = record { x = 0; y = 0 };
  size = record { width = screen_width; height = screen_height };
  color = 0x000000;
  semi_transp = 0;
}

abbrev band : SolidRect
band = record {
  pos = record { x = 0; y = 65 };
  size = record { width = screen_width; height = 2 };
  color = 0xFFFFFF;
  semi_transp = 0;
}

-- A field that the initialiser leaves out is 0.
abbrev orca_rect : TexRect
orca_rect = record {
  pos = record { x = screen_width - 8 * char_draw_width - th_margin - 10 - orca_width; y = 40 };
  size = record { width = orca_width; height = orca_height };
  texcoord = record { x = orca_texcoord_x; y = 0 };
  clut = record { x = clut_x; y = clut_y };
  color = 0;
  semi_transp = 0;
  raw_tex = 1;
}

module _ (tonyhax_version orca_image : Bytes) where
  unfoldable pub debug_init : M (Unit {0})
  debug_init = do
    pal ← bios_is_european
    debug_switch_standard pal
    gpu_draw_solid_rect background
    decompressfont
    send (load (font_x + orca_texcoord_x / 4) 0 (orca_width / 4) orca_height orca_image)
    send (load clut_x clut_y 16 1 palette_bytes)
    gpu_flush_cache
    debug_text_at th_margin 40 (codes "tonyhax " ++ tonyhax_version)
    gpu_draw_solid_rect band
    debug_text_at (screen_width - 8 * char_draw_width - th_margin) 40 (codes "orca.pet")
    gpu_draw_tex_rect orca_rect
