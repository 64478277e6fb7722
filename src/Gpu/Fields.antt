-- ===== src/Gpu/Fields.antt =====
-- The packets of loader/gpu.c, read back field by field as the GPU takes them.
use tonyhax.Base.{
  ℕ, ◌+◌, ◌*◌, ◌/◌, ◌%◌, ◌^◌, ◌≤◌, ◌<◌, ◌≡◌, refl, arith, bit_or, Option, none, some, List, [], ◌∷◌,
  ◌==◌, if◌then◌else◌,
}
use tonyhax.Base.Bits.{bit_or_sum, bit_or_aligned, bit_or_fields, bit_or-zero}
use tonyhax.Gpu.{Point, Size, TexRect, halves, color_word, clut_word, tex_command, tex_packet}

abbrev pub FitsPoint : Point → Type 0
FitsPoint p = (p.x < 2 ^ 16) × (p.y < 2 ^ 16)

abbrev pub FitsSize : Size → Type 0
FitsSize s = (s.width < 2 ^ 16) × (s.height < 2 ^ 16)

pub halves_sum : (hi lo : ℕ) → hi < 2 ^ 16 → lo < 2 ^ 16 → halves hi lo ≡ hi * 2 ^ 16 + lo
halves_sum hi lo h k = ground (arith, bit_or_sum 16 hi lo k)

-- Three bytes below a command byte.
bytes_sum :
    (c b g r : ℕ)
    → b < 2 ^ 8
    → g < 2 ^ 8
    → r < 2 ^ 8
    → bit_or (bit_or (bit_or (c * 2 ^ 24) (b * 2 ^ 16)) (g * 2 ^ 8)) r
      ≡ c * 2 ^ 24 + b * 2 ^ 16 + g * 2 ^ 8 + r
bytes_sum c b g r hb hg hr =
    rw
      (
        bit_or_sum 24 c (b * 2 ^ 16) (omega arith),
        bit_or_aligned 16 (c * 2 ^ 8 + b) (c * 2 ^ 24 + b * 2 ^ 16) (g * 2 ^ 8) (omega arith)
            (omega arith),
        bit_or_aligned 8 (c * 2 ^ 16 + b * 2 ^ 8 + g) (c * 2 ^ 24 + b * 2 ^ 16 + g * 2 ^ 8) r
            (omega arith) hr,
      )
      refl

pub color_word_sum :
    (c color : ℕ)
    → color_word (c * 2 ^ 24) color
      ≡ c * 2 ^ 24 + color % 2 ^ 8 * 2 ^ 16 + color / 2 ^ 8 % 2 ^ 8 * 2 ^ 8 + color / 2 ^ 16 % 2 ^ 8
unfolding color_word
color_word_sum c color =
    rw
      (bytes_sum c (color / 1 % 2 ^ 8) (color / 2 ^ 8 % 2 ^ 8) (color / 2 ^ 16 % 2 ^ 8)
        (omega arith) (omega arith) (omega arith))
      (omega arith)

pub clut_word_sum :
    (clut texcoord : Point)
    → clut.y < 2 ^ 9
    → clut.x < 2 ^ 10
    → texcoord.x < 2 ^ 8
    → texcoord.y < 2 ^ 8
    → clut_word clut texcoord
      ≡ clut.y * 2 ^ 22 + clut.x / 16 * 2 ^ 16 + texcoord.y * 2 ^ 8 + texcoord.x
unfolding clut_word
clut_word_sum clut texcoord hy hx tx ty = ground (
  arith,
  bit_or_sum 22 clut.y (clut.x / 16 * 2 ^ 16),
  bit_or_aligned 16 (clut.y * 2 ^ 6 + clut.x / 16) (clut.y * 2 ^ 22 + clut.x / 16 * 2 ^ 16)
      (texcoord.y * 2 ^ 8),
  bit_or_aligned 8 (clut.y * 2 ^ 14 + clut.x / 16 * 2 ^ 8 + texcoord.y)
      (clut.y * 2 ^ 22 + clut.x / 16 * 2 ^ 16 + texcoord.y * 2 ^ 8) texcoord.x,
)

-- How the GPU takes the parameter words of a rectangle command.
abbrev pub vertex : ℕ → Point
vertex w = record { x = w % 2 ^ 16; y = w / 2 ^ 16 }

abbrev pub extent : ℕ → Size
extent w = record { width = w % 2 ^ 16; height = w / 2 ^ 16 }

abbrev pub texel : ℕ → Point
texel w = record { x = w % 2 ^ 8; y = w / 2 ^ 8 % 2 ^ 8 }

abbrev pub palette : ℕ → Point
palette w = record { x = w / 2 ^ 16 % 2 ^ 6 * 16; y = w / 2 ^ 22 }

-- The colour of a command word, as 0xRRGGBB: the GPU has red in the low byte.
abbrev pub tint : ℕ → ℕ
tint w = w % 2 ^ 8 * 2 ^ 16 + w / 2 ^ 8 % 2 ^ 8 * 2 ^ 8 + w / 2 ^ 16 % 2 ^ 8

-- A textured rectangle of a GP0 list: commands 0x64 to 0x67, where bit 0 of the command says that
-- the texture is raw (without a colour), and bit 1 that it is semi-transparent.
pub decode_tex : List ℕ → Option TexRect
decode_tex (w ∷ at ∷ source ∷ extents ∷ []) =
    if w / 2 ^ 26 == 25
    then some (record {
      pos = vertex at;
      size = extent extents;
      texcoord = texel source;
      clut = palette source;
      color = if w / 2 ^ 24 % 2 == 1 then 0 else tint w;
      semi_transp = w / 2 ^ 25 % 2;
      raw_tex = w / 2 ^ 24 % 2;
    })
    else none
decode_tex _ = none

-- The fields fit their places in the packet, the palette starts at a multiple of 16, the flags are
-- 0 or 1, and a raw rectangle has no colour.
pub record FitsTexRect (rect : TexRect) : Type 0 where
  pub fits_pos : FitsPoint rect.pos
  pub fits_size : FitsSize rect.size
  pub fits_texcoord : (rect.texcoord.x < 2 ^ 8) × (rect.texcoord.y < 2 ^ 8)
  pub fits_clut : (rect.clut.x < 2 ^ 10) × (rect.clut.y < 2 ^ 9)
  pub clut_aligned : rect.clut.x % 16 ≡ 0
  pub fits_color : rect.color < 2 ^ 24
  pub semi_flag : rect.semi_transp ≤ 1
  pub raw_flag : rect.raw_tex ≤ 1
  pub raw_uncolored : rect.raw_tex ≡ 1 → rect.color ≡ 0

or_semi : (low : ℕ) → low < 2 ^ 24 → bit_or (0x64 * 2 ^ 24 + low) 0x02000000 ≡ 0x66 * 2 ^ 24 + low
or_semi low h = ground (arith, bit_or_fields 24 0x64 2 low 0, bit_or-zero low)

tex_command_sum :
    (rect : TexRect)
    → FitsTexRect rect
    → tex_command rect
      ≡ (0x64 + 2 * rect.semi_transp + rect.raw_tex) * 2 ^ 24
        + rect.color % 2 ^ 8 * 2 ^ 16
        + rect.color / 2 ^ 8 % 2 ^ 8 * 2 ^ 8
        + rect.color / 2 ^ 16 % 2 ^ 8
unfolding tex_command
tex_command_sum rect fits = ground (
  arith,
  color_word_sum 0x64 rect.color,
  or_semi (
      rect.color % 2 ^ 8 * 2 ^ 16
      + rect.color / 2 ^ 8 % 2 ^ 8 * 2 ^ 8
      + rect.color / 2 ^ 16 % 2 ^ 8),
)

-- The GPU takes from the packet of a textured rectangle that fits it exactly that rectangle.
pub decode_tex-tex_packet :
    (rect : TexRect) → FitsTexRect rect → decode_tex (tex_packet rect) ≡ some rect
unfolding decode_tex tex_packet
decode_tex-tex_packet rect fits = ground (
  arith,
  tex_command_sum rect fits,
  halves_sum rect.pos.y rect.pos.x,
  halves_sum rect.size.height rect.size.width,
  clut_word_sum rect.clut rect.texcoord,
)
