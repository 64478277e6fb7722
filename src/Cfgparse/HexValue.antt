-- ===== src/Cfgparse/HexValue.antt =====
-- The number that `config_get_hex` of loader/cfgparse.c reads from a line.
use tonyhax.Base.{
  length, ℕ, zero, suc, ◌+◌, ◌-◌, ◌*◌, ◌%◌, ◌^◌, ◌≤◌, ◌<◌, ◌≡◌, ◌≢◌, refl, sym, ap, ◌∙◌, arith,
  true, false, ◌&&◌, inl, inr, Bool-cases, Option, none, some, bit_and, Option-cases, ◌/◌, [], ◌∷◌,
  ◌++◌, ltb, leb, if◌then◌else◌, bit_or, u32, ◌<<<◌, Bytes, All,
}
use tonyhax.Base.Bits.{bit_or_aligned, bit_and_mask}
use tonyhax.Str.{hex_loop, hex_char}
use tonyhax.Str.Hex.{hex_loop-snoc, pow_four}
use tonyhax.Machine.{Machine, done, ◌>>=◌}
use tonyhax.Cfgparse.{report_missing, find_wanted, parse_value, hex_value_loop, config_get_hex}
use tonyhax.Cfgparse.Lines.{Finds, search_lines-Finds}

-- What loader/bios.h documents of the BIOS function `todigit`.
pub record Documented (todigit : ℕ → ℕ) : Type 0 where
  pub digit : (c : ℕ) → b'0' ≤ c → c ≤ b'9' → todigit c ≡ c - b'0'
  pub upper : (c : ℕ) → b'A' ≤ c → c ≤ b'Z' → todigit c ≡ 10 + (c - b'A')
  pub lower : (c : ℕ) → b'a' ≤ c → c ≤ b'z' → todigit c ≡ 10 + (c - b'a')
  pub under : (c : ℕ) → c < b'0' → todigit c ≡ 9999999
  pub colon : (c : ℕ) → b'9' < c → c < b'A' → todigit c ≡ 9999999
  pub bracket : (c : ℕ) → b'Z' < c → c < b'a' → todigit c ≡ 9999999
  pub over : (c : ℕ) → b'z' < c → todigit c ≡ 9999999

-- The value of a hexadecimal digit, in either case.
unfoldable pub hex_digit : ℕ → Option ℕ
hex_digit c =
    if leb b'0' c && leb c b'9'
    then some (c - b'0')
    else if leb b'A' c && leb c b'F'
    then some (c - b'A' + 10)
    else if leb b'a' c && leb c b'f'
    then some (c - b'a' + 10)
    else none

-- The number that the hexadecimal digits of a line form behind `m`, whatever stands between them.
unfoldable pub line_value : ℕ → Bytes → ℕ
line_value m [] = m
line_value m (c ∷ line) = elim (hex_digit c) [
  | none ↦ line_value m line
  | some d ↦ line_value (16 * m + d) line
]

pub data Ends : Bytes → Type 0 where
  text_ends : Ends []
  line_ends : (rest : Bytes) → Ends (b'\n' ∷ rest)

push_digit : (m d : ℕ) → d < 16 → bit_or (u32 (u32 m <<< 4)) d ≡ u32 (16 * m + d)
push_digit m d h = bit_or_aligned 4 (m % 2 ^ 28) (u32 (u32 m <<< 4)) d (omega arith) h ∙ omega arith

line_value-append : (m : ℕ) (a b : Bytes) → line_value m (a ++ b) ≡ line_value (line_value m a) b
unfolding line_value
line_value-append m [] b = refl
line_value-append m (c ∷ a) b = elim (Option-cases (hex_digit c)) [
  | inl other ↦ rw (line_value, other) (line_value-append m a b)
  | inr (d, hex) ↦ rw (line_value, hex) (line_value-append (16 * m + d) a b)
]

hex_char-value : (d : ℕ) → d < 16 → hex_digit (hex_char d) ≡ some d
unfolding hex_digit
hex_char-value d h = ground arith

hex_char-line_value : (m d : ℕ) → d < 16 → line_value m (hex_char d ∷ []) ≡ 16 * m + d
unfolding line_value
hex_char-line_value m d h = rw (line_value, hex_char-value d h) refl

-- The digits that `%x` prints are those of the value.
hex_loop-line_value : (k w : ℕ) → w < 2 ^ (4 * k) → line_value 0 (hex_loop k w) ≡ w
hex_loop-line_value zero w h = unfold line_value hex_loop in omega arith
hex_loop-line_value (suc k) w h =
    let below : w / 16 < 2 ^ (4 * k) = omega (arith, pow_four k) in
    let parts : w ≡ 16 * (w / 16) + w % 16 = omega arith in
    ap (λ t. line_value 0 (hex_loop (suc k) t)) parts
    ∙ rw (hex_loop-snoc k (w / 16) (w % 16) (omega arith)) (
        line_value-append 0 (hex_loop k (w / 16)) (hex_char (w % 16) ∷ [])
        ∙ rw (hex_loop-line_value k (w / 16) below)
            (hex_char-line_value (w / 16) (w % 16) (omega arith) ∙ sym parts))

hex_char-ne : (d : ℕ) → d < 16 → hex_char d ≢ b'\n'
hex_char-ne d h = ground arith

hex_loop-All : (k w : ℕ) → All (λ c. c ≢ b'\n') (hex_loop k w)
unfolding hex_loop
hex_loop-All zero w = tt
hex_loop-All (suc k) w = (
  hex_char-ne (bit_and (w / 2 ^ (4 * k)) 0xF) (omega (arith, bit_and_mask 4 (w / 2 ^ (4 * k)))),
  hex_loop-All k w,
)

module _ (todigit : ℕ → ℕ) (doc : Documented todigit) where
  hex_digit-todigit :
      (c : ℕ) → hex_digit c ≡ (if ltb (todigit c) 16 then some (todigit c) else none)
  unfolding hex_digit
  hex_digit-todigit c = ground (
    arith,
    doc.digit c,
    doc.upper c,
    doc.lower c,
    doc.under c,
    doc.colon c,
    doc.bracket c,
    doc.over c,
  )

  line_value-digit :
      (m c : ℕ) (line : Bytes)
      → ltb (todigit c) 16 ≡ true
      → line_value m (c ∷ line) ≡ line_value (16 * m + todigit c) line
  unfolding line_value
  line_value-digit m c line h = rw (line_value, hex_digit-todigit c, h) refl

  line_value-other :
      (m c : ℕ) (line : Bytes)
      → ltb (todigit c) 16 ≡ false
      → line_value m (c ∷ line) ≡ line_value m line
  unfolding line_value
  line_value-other m c line h = rw (line_value, hex_digit-todigit c, h) refl

  -- A line read behind the number `m` gives the number that its digits form, modulo 2 ^ 32.
  hex_value_loop-line_value :
      (line tail : Bytes) (m : ℕ)
      → All (λ c. c ≢ b'\n') line
      → Ends tail
      → hex_value_loop todigit (line ++ tail) (u32 m) ≡ u32 (line_value m line)
  unfolding hex_value_loop
  hex_value_loop-line_value [] [] m h text_ends = unfold line_value in refl
  hex_value_loop-line_value [] tail m h (line_ends rest) = unfold line_value in refl
  hex_value_loop-line_value (c ∷ line) tail m h e = elim (Bool-cases (ltb (todigit c) 16)) [
    | inl hex ↦ rw (line_value-digit m c line hex) (
        ground (
          arith,
          h.0,
          push_digit m (todigit c) (ground arith),
          hex_value_loop-line_value line tail (16 * m + todigit c) h.1 e,
        ))
    | inr other ↦
        rw (line_value-other m c line other)
          (ground (arith, h.0, hex_value_loop-line_value line tail m h.1 e))
  ]

  pub hex_value_loop_lem :
      (line tail : Bytes)
      → All (λ c. c ≢ b'\n') line
      → Ends tail
      → hex_value_loop todigit (line ++ tail) 0 ≡ u32 (line_value 0 line)
  hex_value_loop_lem line tail h e = hex_value_loop-line_value line tail 0 h e

  -- The configuration reader takes back what the formatter's `%x` prints: a 32-bit value, up to the
  -- line feed or the end of the text.
  pub hex_value_loop-hex_loop :
      (w : ℕ) (tail : Bytes)
      → w < 2 ^ 32
      → Ends tail
      → hex_value_loop todigit (hex_loop 8 w ++ tail) 0 ≡ w
  hex_value_loop-hex_loop w tail h e =
      hex_value_loop_lem (hex_loop 8 w) tail (hex_loop-All 8 w) e
      ∙ ap u32 (hex_loop-line_value 8 w h)
      ∙ omega arith

  -- Where `todigit` does what loader/bios.h documents, and the first line that begins with the name goes
  -- on with `line` up to its line feed or the end of the text, `config_get_hex` gives the number that the
  -- hexadecimal digits of `line` form, modulo 2 ^ 32: every other character is passed over.
  pub config_get_hex_lem :
      (config wanted line tail : Bytes) (m : Machine)
      → Finds wanted config (some (line ++ tail))
      → All (λ c. c ≢ b'\n') line
      → Ends tail
      → config_get_hex todigit config wanted m ≡ done (some (u32 (line_value 0 line))) m
  unfolding config_get_hex find_wanted report_missing parse_value
  config_get_hex_lem config wanted line tail m f h e =
      rw
        (
          search_lines-Finds (suc (length config)) f (omega arith),
          ◌>>=◌,
          hex_value_loop_lem line tail h e,
        )
        refl
