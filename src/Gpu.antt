-- ===== src/Gpu.antt =====
-- loader/gpu.c and loader/gpu.h: GPU commands. The packets are plain functions; each operation
-- sends its packet.
pub mod Fields
use tonyhax.Base.{
  ℕ, ◌+◌, ◌-◌, ◌*◌, ◌/◌, ◌%◌, ◌^◌, bit_and, bit_or, Bool, true, false, not, List, [], ◌∷◌, ◌++◌,
  ◌==◌, if◌then◌else◌, u8, u16, u32, ◌<<<◌, ◌>>>◌,
}
use tonyhax.Machine.{
  Machine, Outcome, done, waits, M, pure, ◌>>=◌, ◌>>◌, Command, gp1, gp0, gp0_list, send, Screen,
}

pub record Point : Type 0 where
  pub x : ℕ
  pub y : ℕ

pub record Size : Type 0 where
  pub width : ℕ
  pub height : ℕ

pub record SolidRect : Type 0 where
  pub pos : Point
  pub size : Size
  pub color : ℕ
  pub semi_transp : ℕ

pub record TexRect : Type 0 where
  pub pos : Point
  pub size : Size
  pub texcoord : Point
  pub clut : Point
  pub color : ℕ
  pub semi_transp : ℕ
  pub raw_tex : ℕ

-- A read of `GPU_STAT` or `I_STAT`, which gives the next value of the list.
unfoldable pub take_status : List ℕ → M ℕ
take_status [] m = waits
take_status (v ∷ vs) m = done v (record m { screen = record (m.screen) { status = vs } })

unfoldable pub read_status : M ℕ
unfolding take_status
read_status m = take_status m.screen.status m

-- `I_STAT = v`
unfoldable pub write_i_stat : ℕ → M (Unit {0})
write_i_stat v m =
    done tt
      (record m { screen = record (m.screen) { acknowledged = m.screen.acknowledged ++ v ∷ [] } })

unfoldable pub gpu_is_pal : M Bool
gpu_is_pal = do stat ← read_status; pure (not (bit_and stat (1 <<< 20) == 0))

abbrev pub int_vblank : ℕ
int_vblank = 1 <<< 0

-- `while (!(I_STAT & INT_VBLANK));` over the values that `I_STAT` gives.
unfoldable pub vblank_loop : List ℕ → M (Unit {0})
vblank_loop [] m = waits
vblank_loop (v ∷ vs) m =
    let rest = vblank_loop vs m in
    if not (bit_and v int_vblank == 0)
    then done tt (record m { screen = record (m.screen) { status = vs } })
    else rest

unfoldable pub acknowledge_vblank : ℕ → M (Unit {0})
acknowledge_vblank stat =
    if not (bit_and stat int_vblank == 0) then write_i_stat (0xFFFFFFFF - int_vblank) else pure tt

unfoldable pub gpu_wait_vblank : M (Unit {0})
unfolding acknowledge_vblank
gpu_wait_vblank = do stat ← read_status; acknowledge_vblank stat; λ m. vblank_loop m.screen.status m

unfoldable pub gpu_reset : M (Unit {0})
gpu_reset = send (gp1 (0x00 <<< 24))

unfoldable pub gpu_display_mode : ℕ → M (Unit {0})
gpu_display_mode mode = send (gp1 (bit_or (0x08 <<< 24) mode))

unfoldable pub gpu_display_enable : M (Unit {0})
gpu_display_enable = send (gp1 (bit_or (0x03 <<< 24) 0))

unfoldable pub gpu_display_disable : M (Unit {0})
gpu_display_disable = send (gp1 (bit_or (0x03 <<< 24) 1))

-- `(uint32_t) hi << 16 | lo`
abbrev pub halves : ℕ → ℕ → ℕ
halves hi lo = bit_or (u32 (hi <<< 16)) lo

unfoldable pub copy_packet : Point → Point → Size → List ℕ
copy_packet src dst size =
    (0x80 <<< 24) ∷ halves src.y src.x ∷ halves dst.y dst.x ∷ halves size.height size.width ∷ []

unfoldable pub gpu_copy_rectangle : Point → Point → Size → M (Unit {0})
gpu_copy_rectangle src dst size = send (gp0_list (copy_packet src dst size))

-- `command | b << 16 | g << 8 | r`, with the bytes of a colour 0xRRGGBB.
unfoldable pub color_word : ℕ → ℕ → ℕ
color_word command color =
    let r = u8 (color >>> 16) in
    let g = u8 (color >>> 8) in
    let b = u8 (color >>> 0) in bit_or (bit_or (bit_or command (b <<< 16)) (g <<< 8)) r

unfoldable pub solid_packet : SolidRect → List ℕ
solid_packet rect =
    color_word 0x60000000 rect.color
    ∷ halves rect.pos.y rect.pos.x
    ∷ halves rect.size.height rect.size.width
    ∷ []

unfoldable pub gpu_draw_solid_rect : SolidRect → M (Unit {0})
gpu_draw_solid_rect rect = send (gp0_list (solid_packet rect))

-- `buf[0]` of `gpu_draw_tex_rect`.
unfoldable pub tex_command : TexRect → ℕ
tex_command rect =
    let plain = if not (rect.raw_tex == 0) then 0x65000000 else color_word 0x64000000 rect.color in
    if not (rect.semi_transp == 0) then bit_or plain 0x02000000 else plain

-- `buf[2]` of `gpu_draw_tex_rect`.
unfoldable pub clut_word : Point → Point → ℕ
clut_word clut texcoord =
    bit_or
      (bit_or (bit_or (u32 (clut.y <<< 22)) (u32 ((clut.x / 16) <<< 16))) (u32 (texcoord.y <<< 8)))
      texcoord.x

unfoldable pub tex_packet : TexRect → List ℕ
tex_packet rect =
    tex_command rect
    ∷ halves rect.pos.y rect.pos.x
    ∷ clut_word rect.clut rect.texcoord
    ∷ halves rect.size.height rect.size.width
    ∷ []

unfoldable pub gpu_draw_tex_rect : TexRect → M (Unit {0})
gpu_draw_tex_rect rect = send (gp0_list (tex_packet rect))

-- The sums are `int`s, shifted and then taken as `unsigned`; 2 ^ 32 stands in for a carry from below.
unfoldable pub gpu_set_drawing_area : Point → Size → M (Unit {0})
gpu_set_drawing_area pos size = do
  send (gp0 (bit_or (bit_or 0xE3000000 (u32 (pos.y <<< 10))) pos.x))
  send (
      gp0 (
        bit_or (bit_or 0xE4000000 (u32 (u32 (pos.y + size.height + 0xFFFFFFFF) <<< 10)))
          (u32 (pos.x + size.width + 0xFFFFFFFF))))

unfoldable pub gpu_flush_cache : M (Unit {0})
gpu_flush_cache = send (gp0 (0x01 <<< 24))

unfoldable pub gpu_set_hrange : ℕ → ℕ → M (Unit {0})
gpu_set_hrange x1 x2 = send (gp1 (bit_or (bit_or (0x06 <<< 24) (u32 (x2 <<< 12))) x1))

unfoldable pub gpu_set_vrange : ℕ → ℕ → M (Unit {0})
gpu_set_vrange y1 y2 = send (gp1 (bit_or (bit_or (0x07 <<< 24) (u32 (y2 <<< 10))) y1))
