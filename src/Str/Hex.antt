-- ===== src/Str/Hex.antt =====
-- The `%x` conversion of loader/str.c against hexadecimal numerals of fixed width.
use native.Mathlib.Nat.{pow-suc, div-div-eq-div-mul}
use tonyhax.Base.{
  ℕ, zero, suc, ◌+◌, ◌*◌, ◌/◌, ◌^◌, ◌<◌, bit_and, ◌≡◌, refl, sym, ap, ◌∙◌, arith, [], ◌∷◌, ◌++◌,
  codes, get_or, ◌==◌, ==_iff, all_below, all_below-apply, true, Bytes, length,
}
use tonyhax.Base.Bits.{bit_and_mask}
use tonyhax.Str.{hex_char, hex_loop}

abbrev pub upper_digits : Bytes
upper_digits = codes "0123456789ABCDEF"

-- The numerals of `k` upper-case hexadecimal digits, of the numbers they stand for.
pub data HexNumeral : ℕ → ℕ → Bytes → Type 0 where
  nil : HexNumeral 0 0 []
  snoc :
      {k m : ℕ} {t : Bytes} (d : ℕ)
      → HexNumeral k m t
      → d < 16
      → HexNumeral (suc k) (16 * m + d) (t ++ get_or upper_digits d 0 ∷ [])

hex_char_table : all_below 16 (λ d. hex_char d == get_or upper_digits d 0) ≡ true
unfolding all_below
hex_char_table = refl

pub hex_char-get_or : (d : ℕ) → d < 16 → hex_char d ≡ get_or upper_digits d 0
hex_char-get_or d h = (==_iff _ _).0 (all_below-apply 16 _ d hex_char_table h)

pub pow_four : (k : ℕ) → 2 ^ (4 * suc k) ≡ 16 * 2 ^ (4 * k)
pow_four k =
    let e : 4 * suc k ≡ suc (suc (suc (suc (4 * k)))) = omega arith in
    rw e (
      omega (
        arith,
        pow-suc 2 (suc (suc (suc (4 * k)))),
        pow-suc 2 (suc (suc (4 * k))),
        pow-suc 2 (suc (4 * k)),
        pow-suc 2 (4 * k),
      ))

pub shift_suc : (k m : ℕ) → m / 2 ^ (4 * suc k) ≡ m / 16 / 2 ^ (4 * k)
shift_suc k m = rw (pow_four k) (sym (div-div-eq-div-mul m 16 (2 ^ (4 * k))))

pub hex_loop-snoc :
    (k m d : ℕ) → d < 16 → hex_loop (suc k) (16 * m + d) ≡ hex_loop k m ++ hex_char d ∷ []
unfolding hex_loop
hex_loop-snoc zero m d h =
    let low : bit_and ((16 * m + d) / 2 ^ 0) 0xF ≡ d =
      bit_and_mask 4 ((16 * m + d) / 2 ^ 0) ∙ omega arith in
    rw low refl
hex_loop-snoc (suc k) m d h =
    let high : (16 * m + d) / 2 ^ (4 * suc k) ≡ m / 2 ^ (4 * k) =
      shift_suc k (16 * m + d) ∙ ap (λ (t : ℕ). t / 2 ^ (4 * k)) (omega arith) in
    rw high (ap (◌∷◌ (hex_char (bit_and (m / 2 ^ (4 * k)) 0xF))) (hex_loop-snoc k m d h))

pub hex_loop-HexNumeral : {k w : ℕ} {t : Bytes} → HexNumeral k w t → hex_loop k w ≡ t
hex_loop-HexNumeral nil = unfold hex_loop in refl
hex_loop-HexNumeral (snoc {k} {m} d n h) =
    hex_loop-snoc k m d h ∙ rw (hex_loop-HexNumeral n, hex_char-get_or d h)

pub length-hex_loop : (k w : ℕ) → length (hex_loop k w) ≡ k
unfolding hex_loop
length-hex_loop zero w = refl
length-hex_loop (suc k) w = ap suc (length-hex_loop k w)
