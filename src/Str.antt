-- ===== src/Str.antt =====
-- loader/str.c: `isspace`, `bzero`, and the formatter `mini_vsprintf`. A string is the list of its
-- bytes before the NUL; `va_list` is the list of the arguments not yet taken.
pub mod Clear
pub mod Decimal
pub mod Hex
pub mod Format
pub mod Bound
pub mod Pieces
use tonyhax.Base.{
  ℕ, zero, suc, ◌+◌, ◌-◌, ◌*◌, ◌/◌, ◌%◌, ◌^◌, bit_and, Bool, true, false, ◌||◌, Option, none, some,
  List, [], ◌∷◌, ◌++◌, ◌==◌, ltb, if◌then◌else◌, ◌>>>◌, Bytes, Memory, store8, length, u8,
}

unfoldable pub isspace : ℕ → Bool
isspace c = c == b' ' || c == b'\r' || c == b'\n' || c == b'\t' || c == 0x0B || c == 0x0C

-- `len` bytes are left to clear, from `bytes` on.
unfoldable pub bzero : ℕ → ℕ → Memory → Memory
bzero bytes zero mem = mem
bzero bytes (suc len) mem = bzero (bytes + 1) len (store8 bytes 0 mem)

infixl 5 ◌>>=◌
abbrev pub ◌>>=◌ {ℓ κ} : {A : Type ℓ} {B : Type κ} → Option A → (A → Option B) → Option B
none >>= f = none
some a >>= f = f a

-- An argument of the formatter: an `int` or `unsigned` as its 32 bits, or a string.
pub data Arg : Type 0 where
  int : ℕ → Arg
  text : Bytes → Arg

-- A digit of a value of the given sign: `'0' + val % 10`, where C's `%` has the sign of `val`.
abbrev pub digit_char : Bool → ℕ → ℕ
digit_char negative m = if negative then b'0' - m % 10 else b'0' + m % 10

-- The do-while loop that fills `digits`, with `room` places left in it, and the copy backwards: the
-- last digit found comes first. `val` is a sign and a magnitude, since C's `/` and `%` go towards
-- zero. `none` is a write behind the end of `digits`.
unfoldable pub digits_loop : ℕ → Bool → ℕ → Bytes → Option Bytes
digits_loop zero negative m found = none
digits_loop (suc room) negative m found =
    let found' = digit_char negative m ∷ found in
    let rest = digits_loop room negative (m / 10) found' in
    if m / 10 == 0 then some found' else rest

-- `%d`, of a value given by its 32 bits.
unfoldable pub print_int : ℕ → Option Bytes
print_int w =
    if w == 0
    then some (b'0' ∷ [])
    else if ltb w (2 ^ 31)
    then digits_loop 10 false w []
    else do digits ← digits_loop 10 true (2 ^ 32 - w) []; some (b'-' ∷ digits)

abbrev pub hex_char : ℕ → ℕ
hex_char c = if ltb c 10 then c + b'0' else c + (b'A' - 0xA)

-- `%x`: the loop over the shifts 28, 24, …, 0, with `k` of them left.
unfoldable pub hex_loop : ℕ → ℕ → Bytes
hex_loop zero val = []
hex_loop (suc k) val = hex_char (bit_and (val >>> (4 * k)) 0xF) ∷ hex_loop k val

-- `case` of the backslash, at the character behind it.
unfoldable pub backslash : ℕ → Bytes
backslash d = if d == b'n' then b'\n' ∷ [] else if d == b'r' then b'\r' ∷ [] else b'\\' ∷ d ∷ []

abbrev take_char : List Arg → Option (Bytes × List Arg)
take_char (int c ∷ args) = some (u8 c ∷ [], args)
take_char _ = none

abbrev take_text : List Arg → Option (Bytes × List Arg)
take_text (text t ∷ args) = some (t, args)
take_text _ = none

abbrev take_int : List Arg → Option (Bytes × List Arg)
take_int (int w ∷ args) = do t ← print_int w; some (t, args)
take_int _ = none

abbrev take_hex : List Arg → Option (Bytes × List Arg)
take_hex (int w ∷ args) = some (hex_loop 8 w, args)
take_hex _ = none

-- `case '%'`, at the character behind it: what is written, and the arguments left. `none` is a
-- missing argument, one of the other kind, or a write behind the end of `digits`.
unfoldable pub conversion : ℕ → List Arg → Option (Bytes × List Arg)
conversion d args =
    if d == b'c'
    then take_char args
    else if d == b's'
    then take_text args
    else if d == b'd'
    then take_int args
    else if d == b'x'
    then take_hex args
    else some (b'%' ∷ d ∷ [], args)

-- The loop of `mini_vsprintf` at `format`, with `out` written so far. Both a backslash and a `%` at the
-- end of the format write a backslash.
unfoldable pub vsprintf_loop : Bytes → List Arg → Bytes → Option Bytes
vsprintf_loop [] args out = some out
vsprintf_loop (c ∷ []) args out =
    if c == b'\\' || c == b'%' then some (out ++ b'\\' ∷ []) else some (out ++ c ∷ [])
vsprintf_loop (c ∷ d ∷ format) args out = elim (c == b'\\') [
  | true ↦ vsprintf_loop format args (out ++ backslash d)
  | false ↦ elim (c == b'%') [
    | true ↦ do (written, left) ← conversion d args; vsprintf_loop format left (out ++ written)
    | false ↦ vsprintf_loop (d ∷ format) args (out ++ c ∷ [])
  ]
]

-- What the formatter leaves: the string in the buffer and the value returned.
pub record Printed : Type 0 where
  pub str : Bytes
  pub count : ℕ

unfoldable pub mini_vsprintf : Bytes → List Arg → Option Printed
mini_vsprintf format args = do
  out ← vsprintf_loop format args []
  some (record { str = out; count = length out })

-- The variadic front end hands its arguments on.
unfoldable pub mini_sprintf : Bytes → List Arg → Option Printed
mini_sprintf format args = mini_vsprintf format args
