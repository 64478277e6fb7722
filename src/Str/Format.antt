-- ===== src/Str/Format.antt =====
-- `mini_vsprintf` of loader/str.c against the meaning of its format strings.
use tonyhax.Base.{
  ℕ, ◌^◌, ◌<◌, ◌≡◌, ◌≢◌, refl, sym, ap, ◌∙◌, arith, Option, some, List, [], ◌∷◌, ◌++◌, append-nil,
  append_assoc, Bytes, length, u8,
}
use tonyhax.Str.{
  Arg, int, text, print_int, hex_loop, backslash, conversion, vsprintf_loop, mini_vsprintf,
}
use tonyhax.Str.Decimal.{Numeral, print_int-Numeral}
use tonyhax.Str.Hex.{HexNumeral, hex_loop-HexNumeral}

-- No conversion of the formatter.
abbrev pub IsPlain : ℕ → Type 0
IsPlain d = (d ≢ b'c') × (d ≢ b's') × (d ≢ b'd') × (d ≢ b'x')

-- `Prints format args t`: the format means the text `t` at these arguments.
pub data Prints : Bytes → List Arg → Bytes → Type 0 where
  done : {args : List Arg} → Prints [] args []
  literal :
      {f t : Bytes} {args : List Arg} (c : ℕ)
      → c ≢ b'\\'
      → c ≢ b'%'
      → Prints f args t
      → Prints (c ∷ f) args (c ∷ t)
  newline :
      {f t : Bytes} {args : List Arg} → Prints f args t → Prints (b'\\' ∷ b'n' ∷ f) args (b'\n' ∷ t)
  return :
      {f t : Bytes} {args : List Arg} → Prints f args t → Prints (b'\\' ∷ b'r' ∷ f) args (b'\r' ∷ t)
  escape :
      {f t : Bytes} {args : List Arg} (d : ℕ)
      → d ≢ b'n'
      → d ≢ b'r'
      → Prints f args t
      → Prints (b'\\' ∷ d ∷ f) args (b'\\' ∷ d ∷ t)
  char :
      {f t : Bytes} {args : List Arg} (w : ℕ)
      → Prints f args t
      → Prints (b'%' ∷ b'c' ∷ f) (int w ∷ args) (u8 w ∷ t)
  str :
      {f t : Bytes} {args : List Arg} (s : Bytes)
      → Prints f args t
      → Prints (b'%' ∷ b's' ∷ f) (text s ∷ args) (s ++ t)
  dec :
      {f t s : Bytes} {args : List Arg} {w : ℕ}
      → Numeral w s
      → w < 2 ^ 31
      → Prints f args t
      → Prints (b'%' ∷ b'd' ∷ f) (int w ∷ args) (s ++ t)
  hex :
      {f t s : Bytes} {args : List Arg} {w : ℕ}
      → HexNumeral 8 w s
      → Prints f args t
      → Prints (b'%' ∷ b'x' ∷ f) (int w ∷ args) (s ++ t)
  unknown :
      {f t : Bytes} {args : List Arg} (d : ℕ)
      → IsPlain d
      → Prints f args t
      → Prints (b'%' ∷ d ∷ f) args (b'%' ∷ d ∷ t)

pub vsprintf_loop-literal :
    (c : ℕ) (f : Bytes) (args : List Arg) (out : Bytes)
    → c ≢ b'\\'
    → c ≢ b'%'
    → vsprintf_loop (c ∷ f) args out ≡ vsprintf_loop f args (out ++ c ∷ [])
unfolding vsprintf_loop
vsprintf_loop-literal c [] args out h k = ground arith
vsprintf_loop-literal c (d ∷ f) args out h k = ground arith

pub vsprintf_loop-backslash :
    (d : ℕ) (f s : Bytes) (args : List Arg) (out : Bytes)
    → backslash d ≡ s
    → vsprintf_loop (b'\\' ∷ d ∷ f) args out ≡ vsprintf_loop f args (out ++ s)
unfolding vsprintf_loop
vsprintf_loop-backslash d f s args out e = rw e refl

pub backslash-n : backslash b'n' ≡ b'\n' ∷ []
unfolding backslash
backslash-n = refl

pub backslash-r : backslash b'r' ≡ b'\r' ∷ []
unfolding backslash
backslash-r = refl

pub backslash_other : (d : ℕ) → d ≢ b'n' → d ≢ b'r' → backslash d ≡ b'\\' ∷ d ∷ []
unfolding backslash
backslash_other d h k = ground arith

pub vsprintf_loop-conversion :
    (d : ℕ) (f s : Bytes) (args left : List Arg) (out : Bytes)
    → conversion d args ≡ some (s, left)
    → vsprintf_loop (b'%' ∷ d ∷ f) args out ≡ vsprintf_loop f left (out ++ s)
unfolding vsprintf_loop
vsprintf_loop-conversion d f s args left out e = rw e refl

pub conversion_int :
    (w : ℕ) (s : Bytes) (args : List Arg)
    → print_int w ≡ some s
    → conversion b'd' (int w ∷ args) ≡ some (s, args)
unfolding conversion
conversion_int w s args e = rw e refl

pub conversion_char :
    (w : ℕ) (args : List Arg) → conversion b'c' (int w ∷ args) ≡ some (u8 w ∷ [], args)
unfolding conversion
conversion_char w args = refl

pub conversion_text :
    (s : Bytes) (args : List Arg) → conversion b's' (text s ∷ args) ≡ some (s, args)
unfolding conversion
conversion_text s args = refl

pub conversion_hex :
    (w : ℕ) (args : List Arg) → conversion b'x' (int w ∷ args) ≡ some (hex_loop 8 w, args)
unfolding conversion
conversion_hex w args = refl

pub conversion_unknown :
    (d : ℕ) (args : List Arg) → IsPlain d → conversion d args ≡ some (b'%' ∷ d ∷ [], args)
unfolding conversion
conversion_unknown d args h = ground arith

-- One piece of the format, and what follows it.
then_rest :
    (out s t : Bytes) {r r' : Option Bytes}
    → r ≡ r'
    → r' ≡ some ((out ++ s) ++ t)
    → r ≡ some (out ++ (s ++ t))
then_rest out s t e e' = e ∙ e' ∙ ap some (append_assoc out s t)

vsprintf_loop-Prints :
    {f t : Bytes} {args : List Arg} (out : Bytes)
    → Prints f args t
    → vsprintf_loop f args out ≡ some (out ++ t)
vsprintf_loop-Prints out done = unfold vsprintf_loop in ap some (sym (append-nil out))
vsprintf_loop-Prints out (literal {f} {t} {args} c h k p) =
    then_rest out (c ∷ []) t (vsprintf_loop-literal c f args out h k) (vsprintf_loop-Prints _ p)
vsprintf_loop-Prints out (newline {f} {t} {args} p) =
    then_rest out (b'\n' ∷ []) t (vsprintf_loop-backslash b'n' f _ args out backslash-n)
      (vsprintf_loop-Prints _ p)
vsprintf_loop-Prints out (return {f} {t} {args} p) =
    then_rest out (b'\r' ∷ []) t (vsprintf_loop-backslash b'r' f _ args out backslash-r)
      (vsprintf_loop-Prints _ p)
vsprintf_loop-Prints out (escape {f} {t} {args} d h k p) =
    then_rest out (b'\\' ∷ d ∷ []) t
      (vsprintf_loop-backslash d f _ args out (backslash_other d h k)) (vsprintf_loop-Prints _ p)
vsprintf_loop-Prints out (char {f} {t} {args} w p) =
    then_rest out (u8 w ∷ []) t
      (vsprintf_loop-conversion b'c' f _ _ args out (conversion_char w args))
      (vsprintf_loop-Prints _ p)
vsprintf_loop-Prints out (str {f} {t} {args} s p) =
    then_rest out s t (vsprintf_loop-conversion b's' f s _ args out (conversion_text s args))
      (vsprintf_loop-Prints _ p)
vsprintf_loop-Prints out (dec {f} {t} {s} {args} {w} n h p) =
    then_rest out s t
      (vsprintf_loop-conversion b'd' f s _ args out
        (conversion_int w s args (print_int-Numeral w n h)))
      (vsprintf_loop-Prints _ p)
vsprintf_loop-Prints out (hex {f} {t} {s} {args} {w} n p) =
    then_rest out s t
      (vsprintf_loop-conversion b'x' f s _ args out
        (conversion_hex w args ∙ ap (λ (x : Bytes). some (x, args)) (hex_loop-HexNumeral n)))
      (vsprintf_loop-Prints _ p)
vsprintf_loop-Prints out (unknown {f} {t} {args} d h p) =
    then_rest out (b'%' ∷ d ∷ []) t
      (vsprintf_loop-conversion d f _ _ args out (conversion_unknown d args h))
      (vsprintf_loop-Prints _ p)

-- The formatter writes the text that the format means, and returns its length.
pub mini_vsprintf-Prints :
    {f t : Bytes} {args : List Arg}
    → Prints f args t
    → mini_vsprintf f args ≡ some (record { str = t; count = length t })
unfolding mini_vsprintf
mini_vsprintf-Prints p = rw (vsprintf_loop-Prints [] p) refl
