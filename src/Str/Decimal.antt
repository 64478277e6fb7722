-- ===== src/Str/Decimal.antt =====
-- The `%d` conversion of loader/str.c against decimal numerals.
use native.Mathlib.Nat.{pow-suc}
use tonyhax.Base.{
  ℕ, zero, suc, ◌+◌, ◌-◌, ◌*◌, ◌/◌, ◌%◌, ◌^◌, ◌≤◌, ◌<◌, ◌≡◌, refl, sym, ap, ◌∙◌, arith, true, false,
  ◌&&◌, Option, none, some, [], ◌∷◌, ◌++◌, append-nil, append_assoc, inl, inr, leb, ◌==◌, ==_iff,
  if◌then◌else◌, Bool-cases, Bytes, length,
}
use tonyhax.Str.{digits_loop, print_int}

-- The decimal numerals with no leading zero, of the numbers they stand for.
pub data Numeral : ℕ → Bytes → Type 0 where
  digit : (d : ℕ) → d < 10 → Numeral d ((b'0' + d) ∷ [])
  more :
      {m : ℕ} {t : Bytes} (d : ℕ)
      → Numeral m t
      → 0 < m
      → d < 10
      → Numeral (10 * m + d) (t ++ (b'0' + d) ∷ [])

-- Reading a run of decimal digits behind the number `n`.
pub read_decimal : ℕ → Bytes → Option ℕ
read_decimal n [] = some n
read_decimal n (c ∷ s) =
    if leb b'0' c && leb c b'9' then read_decimal (n * 10 + (c - b'0')) s else none

-- The digits of a positive value fit `room` places, stand for it, and need no leading zero.
digits_loop-Numeral :
    {m : ℕ} {t : Bytes} (room : ℕ) (found : Bytes)
    → Numeral m t
    → m < 10 ^ suc room
    → digits_loop (suc room) false m found ≡ some (t ++ found)
unfolding digits_loop
digits_loop-Numeral room found (digit d h) fits = ground arith
digits_loop-Numeral zero found (more d n pos h) fits = absurd (omega arith)
digits_loop-Numeral (suc room) found (more {m} {t} d n pos h) fits = ground (
  arith,
  pow-suc 10 (suc room),
  append_assoc t ((b'0' + d) ∷ []) found,
  digits_loop-Numeral room ((b'0' + d) ∷ found) n (omega (arith, pow-suc 10 (suc room))),
)

digits_loop-reads :
    (room m : ℕ) (found : Bytes)
    → m < 10 ^ suc room
    → (out : Bytes) × (digits_loop (suc room) false m found ≡ some out)
      × (read_decimal 0 out ≡ read_decimal m found)
      × (length out ≤ suc room + length found)
unfolding digits_loop read_decimal
digits_loop-reads zero m found h =
    ((b'0' + m % 10) ∷ found, ground arith, ground arith, omega arith)
digits_loop-reads (suc room) m found h = elim (Bool-cases (m / 10 == 0)) [
  | inl done ↦ ((b'0' + m % 10) ∷ found, rw done refl, ground arith, omega arith)
  | inr left ↦
      let (out, e, r, l) =
        digits_loop-reads room (m / 10) ((b'0' + m % 10) ∷ found)
          (omega (arith, pow-suc 10 (suc room))) in
      (out, rw left e, r ∙ ground arith, omega arith)
]

digits_loop_negative :
    (room m : ℕ) (found : Bytes)
    → 0 < m
    → m < 10 ^ suc room
    → (out : Bytes) × (digits_loop (suc room) true m found ≡ some out)
      × (read_decimal 0 out ≡ none)
      × (length out ≤ suc room + length found)
unfolding digits_loop read_decimal
digits_loop_negative zero m found pos h =
    ((b'0' - m % 10) ∷ found, ground arith, ground arith, omega arith)
digits_loop_negative (suc room) m found pos h = elim (Bool-cases (m / 10 == 0)) [
  | inl done ↦ ((b'0' - m % 10) ∷ found, rw done refl, ground arith, omega arith)
  | inr left ↦
      let (out, e, r, l) =
        digits_loop_negative room (m / 10) ((b'0' - m % 10) ∷ found) (ground arith)
          (omega (arith, pow-suc 10 (suc room))) in
      (out, rw left e, r, omega arith)
]

Numeral-zero : (w : ℕ) {t : Bytes} → Numeral w t → w ≡ 0 → t ≡ b'0' ∷ []
Numeral-zero w (digit d h) e = ground arith
Numeral-zero w (more d n pos h) e = absurd (omega arith)

pub print_int-Numeral : {t : Bytes} (w : ℕ) → Numeral w t → w < 2 ^ 31 → print_int w ≡ some t
unfolding print_int
print_int-Numeral {t} w n h = elim (Bool-cases (w == 0)) [
  | inl zero_value ↦ rw zero_value (ap some (sym (Numeral-zero w n ((==_iff w 0).0 zero_value))))
  | inr positive ↦
      rw positive (ground (arith, append-nil t, digits_loop-Numeral 9 [] n (omega arith)))
]

-- A value that is not negative is printed as decimal digits, at most ten, that read back as the
-- value.
pub print_int_reads :
    (w : ℕ)
    → w < 2 ^ 31
    → (t : Bytes) × (print_int w ≡ some t) × (read_decimal 0 t ≡ some w) × (length t ≤ 10)
unfolding print_int
print_int_reads w h = elim (Bool-cases (w == 0)) [
  | inl zero_value ↦
      (b'0' ∷ [], rw zero_value refl, unfold read_decimal in ground arith, omega arith)
  | inr positive ↦
      let (out, e, r, l) = digits_loop-reads 9 w [] (omega arith) in
      (out, rw positive (ground arith), r ∙ unfold read_decimal in refl, omega arith)
]

-- A negative value is printed as a minus sign and at most ten characters that are no decimal
-- number.
pub print_int_negative :
    (w : ℕ)
    → 2 ^ 31 ≤ w
    → w < 2 ^ 32
    → (t : Bytes) × (print_int w ≡ some (b'-' ∷ t)) × (read_decimal 0 t ≡ none) × (length t ≤ 10)
unfolding print_int
print_int_negative w lo hi =
    let (out, e, r, l) = digits_loop_negative 9 (2 ^ 32 - w) [] (omega arith) (omega arith) in
    (out, ground arith, r, omega arith)
