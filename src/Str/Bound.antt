-- ===== src/Str/Bound.antt =====
-- `mini_vsprintf` of loader/str.c has no bound of its own: how much it writes at most.
use tonyhax.Base.{
  ℕ, ◌+◌, ◌^◌, ◌≤◌, ◌<◌, ◌≡◌, ◌≢◌, refl, sym, ap, ◌∙◌, arith, Option, some, List, [], ◌∷◌, ◌++◌,
  append-nil, append_assoc, inl, inr, ltb, Bool-cases, Bytes, length, length-append, ◌||◌, ◌==◌,
  ltb→lt,
}
use tonyhax.Str.{
  Arg, int, text, print_int, backslash, vsprintf_loop, mini_vsprintf, Printed, hex_loop,
}
use tonyhax.Str.Decimal.{print_int_reads, print_int_negative}
use tonyhax.Str.Hex.{length-hex_loop}
use tonyhax.Str.Format.{
  IsPlain, vsprintf_loop-literal, vsprintf_loop-conversion, vsprintf_loop-backslash, conversion_int,
  conversion_char, conversion_text, conversion_hex, conversion_unknown,
}

-- `Fits format args n`: every conversion has its argument, and the text has at most `n` bytes.
-- The format may end in a backslash or a `%`.
pub data Fits : Bytes → List Arg → ℕ → Type 0 where
  done : {args : List Arg} → Fits [] args 0
  last : {args : List Arg} (c : ℕ) → Fits (c ∷ []) args 1
  literal :
      {f : Bytes} {args : List Arg} {n : ℕ} (c : ℕ)
      → c ≢ b'\\'
      → c ≢ b'%'
      → Fits f args n
      → Fits (c ∷ f) args (1 + n)
  escape :
      {f : Bytes} {args : List Arg} {n : ℕ} (d : ℕ)
      → Fits f args n
      → Fits (b'\\' ∷ d ∷ f) args (2 + n)
  char :
      {f : Bytes} {args : List Arg} {n : ℕ} (w : ℕ)
      → Fits f args n
      → Fits (b'%' ∷ b'c' ∷ f) (int w ∷ args) (1 + n)
  str :
      {f : Bytes} {args : List Arg} {n : ℕ} (s : Bytes)
      → Fits f args n
      → Fits (b'%' ∷ b's' ∷ f) (text s ∷ args) (length s + n)
  dec :
      {f : Bytes} {args : List Arg} {n : ℕ} (w : ℕ)
      → w < 2 ^ 32
      → Fits f args n
      → Fits (b'%' ∷ b'd' ∷ f) (int w ∷ args) (11 + n)
  hex :
      {f : Bytes} {args : List Arg} {n : ℕ} (w : ℕ)
      → Fits f args n
      → Fits (b'%' ∷ b'x' ∷ f) (int w ∷ args) (8 + n)
  unknown :
      {f : Bytes} {args : List Arg} {n : ℕ} (d : ℕ)
      → IsPlain d
      → Fits f args n
      → Fits (b'%' ∷ d ∷ f) args (2 + n)

-- The loop returns `out` and at most `n` bytes more.
abbrev Writes : Option Bytes → Bytes → ℕ → Type 0
Writes r out n = (t : Bytes) × (r ≡ some (out ++ t)) × (length t ≤ n)

Writes-then :
    (out s : Bytes) {r r' : Option Bytes} {k n : ℕ}
    → r ≡ r'
    → length s ≤ k
    → Writes r' (out ++ s) n
    → Writes r out (k + n)
Writes-then out s e h (t, e', h') =
    (s ++ t, e ∙ e' ∙ ap some (append_assoc out s t), omega (arith, length-append s t))

print_int-length : (w : ℕ) → w < 2 ^ 32 → (t : Bytes) × (print_int w ≡ some t) × (length t ≤ 11)
print_int-length w h = elim (Bool-cases (ltb w (2 ^ 31))) [
  | inl small ↦ let (t, e, r, l) = print_int_reads w (ltb→lt _ _ small) in (t, e, omega arith)
  | inr large ↦
      let (t, e, r, l) = print_int_negative w (ground arith) h in (b'-' ∷ t, e, omega arith)
]

backslash-length : (d : ℕ) → length (backslash d) ≤ 2
unfolding backslash
backslash-length d = ground arith

vsprintf_loop_last :
    (c : ℕ) (args : List Arg) (out : Bytes) → Writes (vsprintf_loop (c ∷ []) args out) out 1
unfolding vsprintf_loop
vsprintf_loop_last c args out = elim (Bool-cases (c == b'\\' || c == b'%')) [
  | inl special ↦ (b'\\' ∷ [], rw special refl, omega arith)
  | inr plain ↦ (c ∷ [], rw plain refl, omega arith)
]

vsprintf_loop-Writes :
    {f : Bytes} {args : List Arg} {n : ℕ} (out : Bytes)
    → Fits f args n
    → Writes (vsprintf_loop f args out) out n
vsprintf_loop-Writes out done =
    ([], unfold vsprintf_loop in ap some (sym (append-nil out)), omega arith)
vsprintf_loop-Writes out (last {args} c) = vsprintf_loop_last c args out
vsprintf_loop-Writes out (literal {f} {args} c h k p) =
    Writes-then out (c ∷ []) (vsprintf_loop-literal c f args out h k) (omega arith)
      (vsprintf_loop-Writes _ p)
vsprintf_loop-Writes out (escape {f} {args} d p) =
    Writes-then out (backslash d) (vsprintf_loop-backslash d f _ args out refl) (backslash-length d)
      (vsprintf_loop-Writes _ p)
vsprintf_loop-Writes out (char {f} {args} w p) =
    Writes-then out _ (vsprintf_loop-conversion b'c' f _ _ args out (conversion_char w args))
      (omega arith) (vsprintf_loop-Writes _ p)
vsprintf_loop-Writes out (str {f} {args} s p) =
    Writes-then out s (vsprintf_loop-conversion b's' f s _ args out (conversion_text s args))
      (omega arith) (vsprintf_loop-Writes _ p)
vsprintf_loop-Writes out (dec {f} {args} w h p) =
    let (s, e, l) = print_int-length w h in
    Writes-then out s (vsprintf_loop-conversion b'd' f s _ args out (conversion_int w s args e)) l
      (vsprintf_loop-Writes _ p)
vsprintf_loop-Writes out (hex {f} {args} w p) =
    Writes-then out (hex_loop 8 w)
      (vsprintf_loop-conversion b'x' f _ _ args out (conversion_hex w args))
      (omega (arith, length-hex_loop 8 w)) (vsprintf_loop-Writes _ p)
vsprintf_loop-Writes out (unknown {f} {args} d h p) =
    Writes-then out _ (vsprintf_loop-conversion d f _ _ args out (conversion_unknown d args h))
      (omega arith) (vsprintf_loop-Writes _ p)

-- At arguments that fit the format, the formatter succeeds, never writes behind its `digits`
-- buffer, and writes no more bytes than the format allows.
pub mini_vsprintf-Fits :
    {f : Bytes} {args : List Arg} {n : ℕ}
    → Fits f args n
    → (p : Printed) × (mini_vsprintf f args ≡ some p) × (p.count ≡ length p.str) × (p.count ≤ n)
unfolding mini_vsprintf
mini_vsprintf-Fits p =
    let (t, e, l) = vsprintf_loop-Writes [] p in
    (record { str = t; count = length t }, rw e refl, refl, l)
