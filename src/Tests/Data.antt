-- ===== src/Tests/Data.antt =====
-- The theorems on loader/crc.c, loader/integrity.c and loader/str.c at concrete
-- inputs.
use tonyhax.Base.{
  sym, ◌%◌, ◌^◌, ◌∙◌, load32-store32, store32-outside, inl, inr, List, suc, ℕ, ◌+◌, ◌≤◌, ◌<◌, ◌≡◌,
  ◌≢◌, refl, arith, true, false, ◌==◌, none, some, [], ◌∷◌, ◌++◌, Bytes, codes, length, Memory,
  IsBytes, load32, store32, store32-IsBytes,
}
use tonyhax.Crc.{crc32}
use tonyhax.Crc.Detect.{DiffersAt, crc32_detects_burst}
use tonyhax.Integrity.{Layout, start, ro_start}
use tonyhax.Integrity.Check.{IsLaidOut, insert_crc, start-insert_crc, start_refuses_burst}
use tonyhax.Str.{Arg, print_int, mini_vsprintf, int, text, Printed}
use tonyhax.Str.Pieces.{literal_only}
use tonyhax.Str.Decimal.{read_decimal, print_int_reads, print_int_negative}
use tonyhax.Str.Format.{mini_vsprintf-Prints}
use tonyhax.Str.Bound.{mini_vsprintf-Fits}
use tonyhax.Str.Format.{Prints}
use tonyhax.Str.Bound.{Fits}
use tonyhax.Str.Decimal.{Numeral}

abbrev plain : Memory
plain a = a % 251

plain-IsBytes : IsBytes plain
plain-IsBytes a = omega arith

-- A memory with another word at `a`.
changed-DiffersAt :
    (mem : Memory) (from len a v : ℕ)
    → from ≤ a
    → a + 4 ≤ from + len
    → v < 2 ^ 32
    → (load32 mem a == v) ≡ false
    → DiffersAt mem (store32 a v mem) from len a
changed-DiffersAt mem from len a v lo hi fits differs = record {
  from_start = lo;
  to_end = hi;
  same_below = λ b h h'. sym (store32-outside a v b mem (inl h'));
  same_above = λ b h h'. sym (store32-outside a v b mem (inr h));
  differs = λ e. let same = e ∙ load32-store32 a v mem fits in ground arith;
}

crc32_detects_burst_example : crc32 plain 0 16 ≢ crc32 (store32 4 0xDEADBEEF plain) 0 16
crc32_detects_burst_example =
    crc32_detects_burst plain (store32 4 0xDEADBEEF plain) 0 16 4 plain-IsBytes
      (store32-IsBytes 4 0xDEADBEEF plain plain-IsBytes)
      (changed-DiffersAt plain 0 16 4 0xDEADBEEF (omega arith) (omega arith) (omega arith) refl)

abbrev pub layout : Layout
layout = record { crc_start = ro_start + 16; bss_start = ro_start + 20; bss_end = ro_start + 28 }

pub layout-IsLaidOut : IsLaidOut layout
layout-IsLaidOut = record { image_first = omega arith; crc_next = omega arith }

abbrev pub good : Memory
good = insert_crc layout plain

pub good-IsBytes : IsBytes good
good-IsBytes = store32-IsBytes (ro_start + 16) _ plain plain-IsBytes

abbrev pub bad : Memory
bad = store32 (ro_start + 4) 0xDEADBEEF good

pub bad-IsBytes : IsBytes bad
bad-IsBytes = store32-IsBytes (ro_start + 4) 0xDEADBEEF good good-IsBytes

pub bad-DiffersAt : DiffersAt good bad ro_start 16 (ro_start + 4)
bad-DiffersAt =
    changed-DiffersAt good ro_start 16 (ro_start + 4) 0xDEADBEEF (omega arith) (omega arith)
      (omega arith) refl

pub good_passes : (start layout good).1 ≡ true
good_passes = start-insert_crc layout layout-IsLaidOut plain

start_refuses_burst_example : (start layout bad).1 ≡ false
start_refuses_burst_example =
    start_refuses_burst layout layout-IsLaidOut good bad (ro_start + 4) good-IsBytes bad-IsBytes
      good_passes bad-DiffersAt refl

print_int_reads_example :
    (t : Bytes) × (print_int 1997 ≡ some t) × (read_decimal 0 t ≡ some 1997) × (length t ≤ 10)
print_int_reads_example = print_int_reads 1997 (omega arith)

print_int_negative_example :
    (t : Bytes) × (print_int 0xFFFFFFFB ≡ some (b'-' ∷ t))
    × (read_decimal 0 t ≡ none)
    × (length t ≤ 10)
print_int_negative_example = print_int_negative 0xFFFFFFFB (omega arith) (omega arith)

literals-Prints :
    (cs : Bytes) {f t : Bytes} {args : List Arg}
    → literal_only cs ≡ true
    → Prints f args t
    → Prints (cs ++ f) args (cs ++ t)
literals-Prints [] h p = p
literals-Prints (c ∷ cs) h p =
    Prints.literal c (ground arith) (ground arith) (literals-Prints cs (ground arith) p)

literals-Fits :
    (cs : Bytes) {f : Bytes} {args : List Arg} {n : ℕ}
    → literal_only cs ≡ true
    → Fits f args n
    → Fits (cs ++ f) args (length cs + n)
literals-Fits [] {f} {args} {n} h p = let e : 0 + n ≡ n = omega arith in rw e p
literals-Fits (c ∷ cs) {f} {args} {n} h p =
    let e : suc (length cs) + n ≡ 1 + (length cs + n) = omega arith in
    rw e (Fits.literal c (ground arith) (ground arith) (literals-Fits cs (ground arith) p))

-- "Boot %s: %d" with a file's name and a number of two digits.
abbrev boot_format : Bytes
boot_format = codes "Boot %s: %d"

abbrev boot_args : List Arg
boot_args = text (codes "PSX.EXE") ∷ int 42 ∷ []

mini_vsprintf-Prints_example :
    mini_vsprintf boot_format boot_args
    ≡ some (record { str = codes "Boot PSX.EXE: 42"; count = 16 })
mini_vsprintf-Prints_example = mini_vsprintf-Prints {t = codes "Boot PSX.EXE: 42"} boot_text
  where
    boot_text : Prints boot_format boot_args (codes "Boot PSX.EXE: 42")
    boot_text = literals-Prints (codes "Boot ") refl (
        Prints.str (codes "PSX.EXE") (
          literals-Prints (codes ": ") refl (
            Prints.dec
              (Numeral.more {m = 4} 2 (Numeral.digit 4 (omega arith)) (omega arith) (omega arith))
              (omega arith) Prints.done)))

mini_vsprintf-Fits_example :
    (p : Printed) × (mini_vsprintf boot_format boot_args ≡ some p)
    × (p.count ≡ length p.str)
    × (p.count ≤ 25)
mini_vsprintf-Fits_example = mini_vsprintf-Fits boot_fits
  where
    boot_fits : Fits boot_format boot_args 25
    boot_fits = literals-Fits (codes "Boot ") refl (
        Fits.str (codes "PSX.EXE")
          (literals-Fits (codes ": ") refl (Fits.dec 42 (omega arith) Fits.done)))
