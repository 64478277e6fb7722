-- ===== src/Cfgparse/Words.antt =====
-- The word that `config_get_string` of loader/cfgparse.c copies, and the size of the buffer.
use tonyhax.Base.{
  ℕ, zero, suc, ◌≡◌, refl, arith, Bool, true, false, ◌||◌, Option, none, some, [], ◌∷◌, ◌++◌,
  append-nil, append_assoc, ◌==◌, if◌then◌else◌, Bytes, length, leb, All, codes,
}
use tonyhax.Str.{isspace, text}
use tonyhax.Machine.{Machine, done, fault, ◌>>=◌, ◌>>◌, pure}
use tonyhax.Debugscreen.{debug_write}
use tonyhax.Cfgparse.{
  report_missing, find_wanted, skip_loop, copy_loop, copy_value, config_get_string,
}
use tonyhax.Cfgparse.Lines.{Finds, search_lines-Finds}

-- `=` signs and white space stand between the name and the word.
abbrev pub separates : ℕ → Bool
separates c = c == b'=' || isspace c

-- A word is not empty, has no white space, and does not begin with `=`.
abbrev pub IsWord : Bytes → Type 0
IsWord [] = ⊥
IsWord (c ∷ word) = (separates c ≡ false) × All (λ d. isspace d ≡ false) word

-- A word ends where the text does, or at white space.
pub data WordEnds : Bytes → Type 0 where
  text_ends : WordEnds []
  space : (c : ℕ) (rest : Bytes) → isspace c ≡ true → WordEnds (c ∷ rest)

skip_loop-append :
    (gap word tail : Bytes)
    → All (λ c. separates c ≡ true) gap
    → IsWord word
    → skip_loop (gap ++ word ++ tail) ≡ word ++ tail
unfolding skip_loop
skip_loop-append [] [] tail h w = absurd w
skip_loop-append [] (c ∷ word) tail h w = rw (w.0) refl
skip_loop-append (c ∷ gap) word tail h w = rw (h.0) (skip_loop-append gap word tail (h.1) w)

-- The result of a copy of `n` bytes and a NUL into a buffer with `room` bytes left.
abbrev pub bounded : ℕ → ℕ → Bytes → Option Bytes
bounded n room out = if leb room n then none else some out

copy_loop-ends :
    (room : ℕ) (tail out : Bytes) → WordEnds tail → copy_loop room tail out ≡ bounded 0 room out
unfolding copy_loop
copy_loop-ends zero tail out e = ground arith
copy_loop-ends (suc room) [] out text_ends = ground arith
copy_loop-ends (suc room) tail out (space c rest h) = rw h (ground arith)

copy_loop-bounded :
    (room : ℕ) (word tail out : Bytes)
    → All (λ c. isspace c ≡ false) word
    → WordEnds tail
    → copy_loop room (word ++ tail) out ≡ bounded (length word) room (out ++ word)
unfolding copy_loop
copy_loop-bounded room [] tail out h e = rw (append-nil out) (copy_loop-ends room tail out e)
copy_loop-bounded zero (c ∷ word) tail out h e = ground arith
copy_loop-bounded (suc room) (c ∷ word) tail out h e = rw (h.0) (
    ground (
      arith,
      append_assoc out (c ∷ []) word,
      copy_loop-bounded room word tail (out ++ c ∷ []) (h.1) e,
    ))

IsWord-All : (word : Bytes) → IsWord word → All (λ d. isspace d ≡ false) word
IsWord-All [] w = tt
IsWord-All (c ∷ word) w = (ground (arith, w.0), w.1)

-- Where the first line that begins with the name goes on with `=` signs and white space and then a
-- word, `config_get_string` stores the word and leaves the machine alone if the word and a NUL fit
-- the buffer, and writes behind the buffer's end if they do not: it does not know the buffer's size.
pub config_get_string_lem :
    (config wanted gap word tail : Bytes) (room : ℕ) (m : Machine)
    → Finds wanted config (some (gap ++ word ++ tail))
    → All (λ c. separates c ≡ true) gap
    → IsWord word
    → WordEnds tail
    → config_get_string config wanted room m
      ≡ (if leb room (length word) then fault else done (some word) m)
unfolding config_get_string find_wanted report_missing copy_value
config_get_string_lem config wanted gap word tail room m f h w e =
    rw
      (
        search_lines-Finds (suc (length config)) f (omega arith),
        ◌>>=◌,
        skip_loop-append gap word tail h w,
        copy_loop-bounded room word tail [] (IsWord-All word w) e,
      )
      (ground arith)

-- Where no line begins with the name, `config_get_string` reports the name as missing and stores
-- nothing, and the report's outcome is its own.
pub config_get_string_missing :
    (config wanted : Bytes) (room : ℕ) (m : Machine)
    → Finds wanted config none
    → config_get_string config wanted room m
      ≡ (debug_write (codes "Missing %s") (text wanted ∷ []) >> pure none) m
unfolding config_get_string find_wanted report_missing copy_value
config_get_string_missing config wanted room m f =
    rw (search_lines-Finds (suc (length config)) f (omega arith), ◌>>=◌) (ground arith)
