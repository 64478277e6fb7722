-- ===== src/Debugscreen/Font.antt =====
-- The font of loader/debugscreen.c: what `decompressfont` loads, and where `debug_text_at` finds it.
use mathlib.Core.Path.{ap₂}
use tonyhax.Base.{
  ℕ, zero, suc, ◌+◌, ◌-◌, ◌*◌, ◌/◌, ◌%◌, ◌^◌, ◌<◌, ◌≡◌, refl, sym, ap, ◌∙◌, arith, true, some, List,
  [], ◌∷◌, ◌++◌, ◌==◌, ==_iff, if◌then◌else◌, Bytes, Memory, get_or, get_elem?, all_below,
  all_below-apply,
}
use tonyhax.Machine.{Machine, done, ◌>>=◌, Command, load, send}
use tonyhax.Machine.Sends.{sent, sent-nil, sent-append}
use tonyhax.Debugscreen.{
  font_x, char_rect, expand_row, expand_char, font_row, font_table, decompressfont,
}

-- The pixel in column `j` of a line of two pixels to a byte, the left one in the low half.
abbrev pub column : Bytes → ℕ → ℕ
column line j = let b = get_or line (j / 2) 0 in if j % 2 == 0 then b % 16 else b / 16

expand_row_table :
    all_below 256 (λ c. all_below 8 (λ j. column (expand_row 4 c) j == 15 * (c / 2 ^ (7 - j) % 2)))
    ≡ true
unfolding all_below expand_row
expand_row_table = refl

-- Column `j` of a line of a character is lit, in the brightest colour, exactly where bit `7 - j` of
-- the ROM's byte is set.
pub column-expand_row :
    (c j : ℕ) → c < 256 → j < 8 → column (expand_row 4 c) j ≡ 15 * (c / 2 ^ (7 - j) % 2)
column-expand_row c j hc hj =
    (==_iff _ _).0 (all_below-apply 8 _ j (all_below-apply 256 _ c expand_row_table hc) hj)

-- The command that loads character number `k` of the font.
abbrev pub glyph_load : ℕ → Memory → Command
glyph_load k mem =
    load (640 + k % 16 * 2) (k / 16 * 15) 2 15 (expand_char 15 (0xBFC7F8DE + 15 * k) mem)

-- The commands that load `n` characters, from number `k` on.
glyph_loads : ℕ → ℕ → Memory → List Command
glyph_loads zero k mem = []
glyph_loads (suc n) k mem = glyph_load k mem ∷ glyph_loads n (k + 1) mem

pub font_commands : Memory → List Command
font_commands = glyph_loads 96 0

glyph_loads-append :
    (n n' k : ℕ) (mem : Memory)
    → glyph_loads (n + n') k mem ≡ glyph_loads n k mem ++ glyph_loads n' (k + n) mem
unfolding glyph_loads
glyph_loads-append zero n' k mem = ap₂ (λ a b. glyph_loads a b mem) (omega arith) (omega arith)
glyph_loads-append (suc n) n' k mem =
    let s : suc n + n' ≡ suc (n + n') = omega arith in
    let k' : k + suc n ≡ k + 1 + n = omega arith in
    rw s (rw k' (ap (◌∷◌ (glyph_load k mem)) (glyph_loads-append n n' (k + 1) mem)))

font_row_lem :
    (n tablex tabley : ℕ) (m : Machine)
    → tablex + n ≡ 16
    → font_row n tablex tabley (0xBFC7F8DE + 15 * (tabley * 16 + tablex)) m
      ≡ done
          (0xBFC7F8DE + 15 * (tabley * 16 + 16))
          (sent m (glyph_loads n (tabley * 16 + tablex) m.mem))
unfolding font_row glyph_loads send
font_row_lem zero tablex tabley m e =
    let e' : tablex ≡ 16 = omega arith in
    rw e' (ap (done (0xBFC7F8DE + 15 * (tabley * 16 + 16))) (sent-nil m))
font_row_lem (suc n) tablex tabley m e =
    let next : 0xBFC7F8DE + 15 * (tabley * 16 + tablex) + 15
        ≡ 0xBFC7F8DE + 15 * (tabley * 16 + (tablex + 1)) =
      omega arith in
    rw next (
      font_row_lem n (tablex + 1) tabley _ (omega arith)
      ∙ ap (done (0xBFC7F8DE + 15 * (tabley * 16 + 16)))
          (sent-append m (here ∷ []) _ ∙ ap (sent m) (ap₂ ◌∷◌ here_eq rest_eq)))
  where
    here : Command
    here =
        load (640 + tablex * 8 * 4 / 16) (tabley * 15) 2 15
          (expand_char 15 (0xBFC7F8DE + 15 * (tabley * 16 + tablex)) m.mem)

    here_eq :
        here
        ≡ load
            (640 + (tabley * 16 + tablex) % 16 * 2)
            ((tabley * 16 + tablex) / 16 * 15)
            2
            15
            (expand_char 15 (0xBFC7F8DE + 15 * (tabley * 16 + tablex)) m.mem)
    here_eq = ground arith

    rest_eq :
        glyph_loads n (tabley * 16 + (tablex + 1)) m.mem
        ≡ glyph_loads n (tabley * 16 + tablex + 1) m.mem
    rest_eq = ap (λ (k : ℕ). glyph_loads n k m.mem) (omega arith)

font_table_lem :
    (n tabley : ℕ) (m : Machine)
    → font_table n tabley (0xBFC7F8DE + 15 * (tabley * 16)) m
      ≡ done tt (sent m (glyph_loads (n * 16) (tabley * 16) m.mem))
unfolding font_table
font_table_lem zero tabley m = unfold glyph_loads in ap (done tt) (sent-nil m)
font_table_lem (suc n) tabley m =
    let at : 0xBFC7F8DE + 15 * (tabley * 16) ≡ 0xBFC7F8DE + 15 * (tabley * 16 + 0) = omega arith in
    let next : 0xBFC7F8DE + 15 * (tabley * 16 + 16) ≡ 0xBFC7F8DE + 15 * ((tabley + 1) * 16) =
      omega arith in
    rw at (
      rw (font_row_lem 16 0 tabley m refl, ◌>>=◌)
        (rw next (
          font_table_lem n (tabley + 1) _ ∙ ap (done tt) (sent-append m _ _ ∙ ap (sent m) joined))))
  where
    joined :
        glyph_loads 16 (tabley * 16 + 0) m.mem ++ glyph_loads (n * 16) ((tabley + 1) * 16) m.mem
        ≡ glyph_loads (suc n * 16) (tabley * 16) m.mem
    joined =
        let k : tabley * 16 + 0 ≡ tabley * 16 = omega arith in
        let k' : (tabley + 1) * 16 ≡ tabley * 16 + 16 = omega arith in
        let l : suc n * 16 ≡ 16 + n * 16 = omega arith in
        rw k (rw k' (rw l (sym (glyph_loads-append 16 (n * 16) (tabley * 16) m.mem))))

-- `decompressfont` sends the 96 characters of the ROM's font, in order, and nothing else.
pub decompressfont_lem : (m : Machine) → decompressfont m ≡ done tt (sent m (font_commands m.mem))
unfolding decompressfont font_commands
decompressfont_lem m = font_table_lem 6 0 m

get_elem?-glyph_loads :
    (n k i : ℕ) (mem : Memory)
    → i < n
    → get_elem? (glyph_loads n k mem) i ≡ some (glyph_load (k + i) mem)
unfolding glyph_loads
get_elem?-glyph_loads zero k i mem h = absurd (omega arith)
get_elem?-glyph_loads (suc n) k zero mem h = ap (λ (j : ℕ). some (glyph_load j mem)) (omega arith)
get_elem?-glyph_loads (suc n) k (suc i) mem h =
    get_elem?-glyph_loads n (k + 1) i mem (omega arith)
    ∙ ap (λ (j : ℕ). some (glyph_load j mem)) (omega arith)

-- The texture that `debug_text_at` draws for glyph `i` is the one that `decompressfont` has loaded
-- for character `i` of the ROM's font: its texture coordinates, at four pixels to a 16-bit word,
-- are the place of that load.
pub glyph_loaded_where_drawn :
    (m : Machine) (i x y : ℕ)
    → i < 96
    → (cs : List Command) × (decompressfont m ≡ done tt (sent m cs))
      × (get_elem? cs i
          ≡ some (
              load
                (font_x + (char_rect x y i).texcoord.x / 4)
                (char_rect x y i).texcoord.y
                2
                15
                (expand_char 15 (0xBFC7F8DE + 15 * i) m.mem)))
unfolding font_commands
glyph_loaded_where_drawn m i x y h =
    (font_commands m.mem, decompressfont_lem m, get_elem?-glyph_loads 96 0 i m.mem h ∙ ground arith)
