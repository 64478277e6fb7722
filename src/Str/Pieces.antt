-- ===== src/Str/Pieces.antt =====
-- The formatter of loader/str.c on a format with two numbers.
use tonyhax.Base.{
  ℕ, ◌+◌, ◌^◌, ◌≤◌, ◌<◌, ◌≡◌, refl, sym, ap, ◌∙◌, arith, Bool, true, not, ◌&&◌, ◌==◌, some, List,
  [], ◌∷◌, ◌++◌, append-nil, append_assoc, Bytes, length, length-append,
}
use tonyhax.Str.{Arg, int, hex_loop, vsprintf_loop}
use tonyhax.Str.Decimal.{print_int_reads}
use tonyhax.Str.Hex.{length-hex_loop}
use tonyhax.Str.Format.{
  vsprintf_loop-literal, vsprintf_loop-conversion, conversion_int, conversion_hex,
}

-- Characters that stand for themselves.
abbrev pub literal_only : Bytes → Bool
literal_only [] = true
literal_only (c ∷ cs) = (not (c == b'\\') && not (c == b'%')) && literal_only cs

vsprintf_loop-literals :
    (cs f : Bytes) (args : List Arg) (out : Bytes)
    → literal_only cs ≡ true
    → vsprintf_loop (cs ++ f) args out ≡ vsprintf_loop f args (out ++ cs)
vsprintf_loop-literals [] f args out h = ap (vsprintf_loop f args) (sym (append-nil out))
vsprintf_loop-literals (c ∷ cs) f args out h =
    vsprintf_loop-literal c (cs ++ f) args out (ground arith) (ground arith)
    ∙ vsprintf_loop-literals cs f args (out ++ c ∷ []) (ground arith)
    ∙ ap (vsprintf_loop f args) (append_assoc out (c ∷ []) cs)

-- A format with a `%d` and a `%x` between characters that stand for themselves prints a text, of at most 18
-- bytes more than these.
pub vsprintf_loop_numbers :
    (a b c : Bytes) (w x : ℕ)
    → literal_only a ≡ true
    → literal_only b ≡ true
    → literal_only c ≡ true
    → w < 2 ^ 31
    → (t : Bytes) × (vsprintf_loop
          (a ++ b'%' ∷ b'd' ∷ (b ++ b'%' ∷ b'x' ∷ (c ++ [])))
          (int w ∷ int x ∷ [])
          []
        ≡ some t)
      × (length t ≤ length a + length b + length c + 18)
vsprintf_loop_numbers a b c w x ha hb hc h =
    let (d, e, r, l) = print_int_reads w h in
    let t = (((a ++ d) ++ b) ++ hex_loop 8 x) ++ c in
    (
      t,
      vsprintf_loop-literals a _ _ [] ha
          ∙ vsprintf_loop-conversion b'd' _ d _ _ a (conversion_int w d _ e)
          ∙ vsprintf_loop-literals b _ _ (a ++ d) hb
          ∙ vsprintf_loop-conversion b'x' _ _ _ _ ((a ++ d) ++ b) (conversion_hex x [])
          ∙ vsprintf_loop-literals c [] [] _ hc
          ∙ unfold vsprintf_loop in refl,
      omega (
        arith,
        l,
        length-hex_loop 8 x,
        length-append a d,
        length-append (a ++ d) b,
        length-append ((a ++ d) ++ b) (hex_loop 8 x),
        length-append (((a ++ d) ++ b) ++ hex_loop 8 x) c,
      ),
    )
