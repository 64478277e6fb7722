-- ===== src/Libc.antt =====
-- The string functions of C that loader/str.h declares and the BIOS provides, as the sources use
-- them: on strings that are lists of the bytes before the NUL.
use tonyhax.Base.{
  ℕ, zero, suc, ◌≡◌, refl, ◌↔◌, arith, Bool, true, false, ◌&&◌, Option, none, some, [], ◌∷◌, ◌++◌,
  ◌==◌, if◌then◌else◌, Bytes, length,
}

-- `strcmp(a, b) == 0`
unfoldable pub strcmp_zero : Bytes → Bytes → Bool
strcmp_zero [] [] = true
strcmp_zero (x ∷ a) (y ∷ b) = x == y && strcmp_zero a b
strcmp_zero _ _ = false

-- `strncmp(a, b, n) == 0`
unfoldable pub strncmp_zero : Bytes → Bytes → ℕ → Bool
strncmp_zero a b zero = true
strncmp_zero [] [] (suc n) = true
strncmp_zero (x ∷ a) (y ∷ b) (suc n) = x == y && strncmp_zero a b n
strncmp_zero _ _ (suc n) = false

-- `strchr(s, c)` for a byte that is not NUL: the rest of the string from the first `c` on.
unfoldable pub strchr : Bytes → ℕ → Option Bytes
strchr [] c = none
strchr (x ∷ s) c = if x == c then some (x ∷ s) else strchr s c

pub strcmp_zero_iff : (a b : Bytes) → (strcmp_zero a b ≡ true) ↔ (a ≡ b)
unfolding strcmp_zero
strcmp_zero_iff (x ∷ a) (y ∷ b) = ground (arith, strcmp_zero_iff a b)
strcmp_zero_iff _ _ = ground arith

-- A comparison of as many bytes as the second string has is a test for a prefix.
pub strncmp_zero-prefix : (a b r : Bytes) → a ≡ b ++ r → strncmp_zero a b (length b) ≡ true
unfolding strncmp_zero
strncmp_zero-prefix a [] r e = refl
strncmp_zero-prefix [] (y ∷ b) r e = cc
strncmp_zero-prefix (x ∷ a) (y ∷ b) r e = ground (arith, strncmp_zero-prefix a b r)

pub prefix-strncmp_zero :
    (a b : Bytes) → strncmp_zero a b (length b) ≡ true → (r : Bytes) × (a ≡ b ++ r)
unfolding strncmp_zero
prefix-strncmp_zero a [] h = (a, refl)
prefix-strncmp_zero [] (y ∷ b) h = ground arith
prefix-strncmp_zero (x ∷ a) (y ∷ b) h =
    let (r, e) = prefix-strncmp_zero a b (ground arith) in (r, ground arith)
