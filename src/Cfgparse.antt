-- ===== src/Cfgparse.antt =====
-- loader/cfgparse.c: the parser of SYSTEM.CNF. A pointer into the text is the rest of the text from
-- there on.
pub mod Lines
pub mod HexValue
pub mod Words
use tonyhax.Base.{
  ℕ, zero, suc, ◌+◌, bit_or, Bool, true, false, not, ◌&&◌, ◌||◌, Option, none, some, List, [], ◌∷◌,
  ◌++◌, ◌==◌, ltb, if◌then◌else◌, u32, ◌<<<◌, Bytes, codes, length, drop,
}
use tonyhax.Libc.{strncmp_zero, strchr}
use tonyhax.Str.{isspace, text}
use tonyhax.Machine.{Machine, M, pure, ◌>>=◌, ◌>>◌, Outcome, done, waits, fault, defined}
use tonyhax.Debugscreen.{debug_write}

-- The loop of `find_wanted`, on fuel: `none` is fuel that has run out, `some none` a `NULL`.
unfoldable pub search_lines : ℕ → Bytes → Bytes → Option (Option Bytes)
search_lines zero config wanted = none
search_lines (suc n) config wanted = elim (strncmp_zero config wanted (length wanted)) [
  | true ↦ some (some (drop (length wanted) config))
  | false ↦ elim (strchr config b'\n') [
    | none ↦ some none
    | some rest ↦ search_lines n (drop 1 rest) wanted
  ]
]

report_missing : Bytes → Option Bytes → M (Option Bytes)
report_missing wanted (some rest) = pure (some rest)
report_missing wanted none = do debug_write (codes "Missing %s") (text wanted ∷ []); pure none

-- The fuel is one round for each byte and one more.
unfoldable pub find_wanted : Bytes → Bytes → M (Option Bytes)
unfolding report_missing
find_wanted config wanted = do
  found ← defined (search_lines (suc (length config)) config wanted)
  report_missing wanted found

-- The loops of `config_get_string`, the second into a buffer with `room` bytes left. `none` is a
-- write behind its end.
unfoldable pub skip_loop : Bytes → Bytes
skip_loop [] = []
skip_loop (c ∷ s) = if c == b'=' || isspace c then skip_loop s else c ∷ s

unfoldable pub copy_loop : ℕ → Bytes → Bytes → Option Bytes
copy_loop zero config out = none
copy_loop (suc room) [] out = some out
copy_loop (suc room) (c ∷ s) out =
    if not (isspace c) then copy_loop room s (out ++ c ∷ []) else some out

copy_value : ℕ → Option Bytes → M (Option Bytes)
copy_value room none = pure none
copy_value room (some rest) = do
  value ← defined (copy_loop room (skip_loop rest) [])
  pure (some value)

-- `none` is `false`, which leaves `*value` alone.
unfoldable pub config_get_string : Bytes → Bytes → ℕ → M (Option Bytes)
unfolding copy_value
config_get_string config wanted room = do found ← find_wanted config wanted; copy_value room found

-- `todigit` is a function of the BIOS.
module _ (todigit : ℕ → ℕ) where
  -- The loop of `config_get_hex` up to the end of the line or of the text.
  unfoldable pub hex_value_loop : Bytes → ℕ → ℕ
  hex_value_loop [] parsed = parsed
  hex_value_loop (c ∷ s) parsed =
      let digit = todigit c in
      let parsed' = if ltb digit 0x10 then bit_or (u32 (parsed <<< 4)) digit else parsed in
      let rest = hex_value_loop s parsed' in if c == b'\n' then parsed else rest

  parse_value : Option Bytes → M (Option ℕ)
  parse_value none = pure none
  parse_value (some rest) = pure (some (hex_value_loop rest 0))

  -- `none` is `false`, which leaves `*value` alone.
  unfoldable pub config_get_hex : Bytes → Bytes → M (Option ℕ)
  unfolding parse_value
  config_get_hex config wanted = do found ← find_wanted config wanted; parse_value found
