-- ===== src/Cfgparse/Lines.antt =====
-- Which line `find_wanted` of loader/cfgparse.c finds.
use tonyhax.Base.{
  ℕ, zero, suc, ◌<◌, ◌≡◌, ◌≢◌, refl, ◌∙◌, arith, false, Bool-cases, inl, inr, Option, none, some,
  [], ◌∷◌, ◌++◌, Bytes, length, length-append, drop-append, All,
}
use native.Mathlib.Decide.{ℕ_discrete}
use tonyhax.Libc.{strncmp_zero, strchr, strncmp_zero-prefix, prefix-strncmp_zero}
use tonyhax.Cfgparse.{search_lines}

-- `r` follows the name `wanted` at the start of the first line that begins with it.
pub data Finds (wanted : Bytes) : Bytes → Option Bytes → Type 0 where
  here : (r : Bytes) → Finds wanted (wanted ++ r) (some r)
  next_line :
      (line : Bytes) {rest : Bytes} {found : Option Bytes}
      → ((r : Bytes) → line ++ b'\n' ∷ rest ≢ wanted ++ r)
      → All (λ c. c ≢ b'\n') line
      → Finds wanted rest found
      → Finds wanted (line ++ b'\n' ∷ rest) found
  missing :
      (line : Bytes)
      → ((r : Bytes) → line ≢ wanted ++ r)
      → All (λ c. c ≢ b'\n') line
      → Finds wanted line none

strchr_line :
    (line rest : Bytes)
    → All (λ c. c ≢ b'\n') line
    → strchr (line ++ b'\n' ∷ rest) b'\n' ≡ some (b'\n' ∷ rest)
unfolding strchr
strchr_line [] rest h = refl
strchr_line (c ∷ line) rest h = ground (arith, h.0, strchr_line line rest h.1)

strchr-none : (line : Bytes) → All (λ c. c ≢ b'\n') line → strchr line b'\n' ≡ none
unfolding strchr
strchr-none [] h = refl
strchr-none (c ∷ line) h = ground (arith, h.0, strchr-none line h.1)

not_prefix :
    (config wanted : Bytes)
    → ((r : Bytes) → config ≢ wanted ++ r)
    → strncmp_zero config wanted (length wanted) ≡ false
not_prefix config wanted h = elim (Bool-cases (strncmp_zero config wanted (length wanted))) [
  | inl same ↦ let (r, e) = prefix-strncmp_zero config wanted same in absurd (h r e)
  | inr differs ↦ differs
]

-- One round of the loop, on each of its branches.
search_here : (n : ℕ) (wanted r : Bytes) → search_lines (suc n) (wanted ++ r) wanted ≡ some (some r)
unfolding search_lines
search_here n wanted r =
    rw (search_lines, strncmp_zero-prefix (wanted ++ r) wanted r refl, drop-append wanted r) refl

search_next :
    (n : ℕ) (wanted line rest : Bytes)
    → ((r : Bytes) → line ++ b'\n' ∷ rest ≢ wanted ++ r)
    → All (λ c. c ≢ b'\n') line
    → search_lines (suc n) (line ++ b'\n' ∷ rest) wanted ≡ search_lines n rest wanted
unfolding search_lines
search_next n wanted line rest other h =
    rw (search_lines, not_prefix (line ++ b'\n' ∷ rest) wanted other, strchr_line line rest h) refl

search_missing :
    (n : ℕ) (wanted line : Bytes)
    → ((r : Bytes) → line ≢ wanted ++ r)
    → All (λ c. c ≢ b'\n') line
    → search_lines (suc n) line wanted ≡ some none
unfolding search_lines
search_missing n wanted line other h =
    rw (search_lines, not_prefix line wanted other, strchr-none line h) refl

pub search_lines-Finds :
    {wanted config : Bytes} {found : Option Bytes} (n : ℕ)
    → Finds wanted config found
    → length config < n
    → search_lines n config wanted ≡ some found
search_lines-Finds zero f h = absurd (omega arith)
search_lines-Finds {wanted} (suc n) (here r) h = search_here n wanted r
search_lines-Finds {wanted} (suc n) (next_line line {rest} other all f) h =
    search_next n wanted line rest other all
    ∙ search_lines-Finds n f (omega (arith, length-append line (b'\n' ∷ rest)))
search_lines-Finds {wanted} (suc n) (missing line other all) h =
    search_missing n wanted line other all

-- A text is one line, or a line and what follows its line feed.
data IsSplit : Bytes → Type 0 where
  one : (line : Bytes) → All (λ c. c ≢ b'\n') line → IsSplit line
  more : (line rest : Bytes) → All (λ c. c ≢ b'\n') line → IsSplit (line ++ b'\n' ∷ rest)

IsSplit-cons : (c : ℕ) {config : Bytes} → c ≢ b'\n' → IsSplit config → IsSplit (c ∷ config)
IsSplit-cons c h (one line all) = one (c ∷ line) (h, all)
IsSplit-cons c h (more line rest all) = more (c ∷ line) rest (h, all)

IsSplit-lines : (config : Bytes) → IsSplit config
IsSplit-lines [] = one [] tt
IsSplit-lines (c ∷ config) = elim (ℕ_discrete c b'\n') [
  | yes e ↦ rw e (more [] config tt)
  | no h ↦ IsSplit-cons c h (IsSplit-lines config)
]

differs-prefix :
    (config wanted : Bytes)
    → strncmp_zero config wanted (length wanted) ≡ false
    → (r : Bytes) → config ≢ wanted ++ r
differs-prefix config wanted h r e =
    let same = strncmp_zero-prefix config wanted r e in ground arith

abbrev Found : Bytes → Bytes → Type 0
Found wanted config = (found : Option Bytes) × Finds wanted config found

Finds_mismatch :
    (wanted : Bytes) {config : Bytes}
    → ((rest : Bytes) → length rest < length config → Found wanted rest)
    → strncmp_zero config wanted (length wanted) ≡ false
    → IsSplit config
    → Found wanted config
Finds_mismatch wanted later differs (one line all) =
    (none, missing line (differs-prefix line wanted differs) all)
Finds_mismatch wanted later differs (more line rest all) =
    let (found, f) = later rest (omega (arith, length-append line (b'\n' ∷ rest))) in
    (found, next_line line (differs-prefix (line ++ b'\n' ∷ rest) wanted differs) all f)

Finds_within : (n : ℕ) (wanted config : Bytes) → length config < n → Found wanted config
Finds_within zero wanted config h = absurd (omega arith)
Finds_within (suc n) wanted config h =
    elim (Bool-cases (strncmp_zero config wanted (length wanted))) [
      | inl same ↦ let (r, e) = prefix-strncmp_zero config wanted same in (some r, rw e (here r))
      | inr differs ↦
          Finds_mismatch wanted (λ rest shorter. Finds_within n wanted rest (omega arith)) differs
            (IsSplit-lines config)
    ]

-- Whatever the text and the name, the search ends within one round for each byte and one more, and
-- its result is the one that `Finds` describes: what follows the name on the first line that begins
-- with it, or `NULL` where no line does.
pub search_lines_lem :
    (config wanted : Bytes)
    → (found : Option Bytes) × (search_lines (suc (length config)) config wanted ≡ some found)
      × Finds wanted config found
search_lines_lem config wanted =
    let (found, f) = Finds_within (suc (length config)) wanted config (omega arith) in
    (found, search_lines-Finds (suc (length config)) f (omega arith), f)
