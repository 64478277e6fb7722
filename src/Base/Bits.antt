-- ===== src/Base/Bits.antt =====
-- The bit operations at variables: one equation for the lowest digit, and what follows from it.
use Prim.Native.Nat.{
  ℕ, zero, suc, ◌+◌, ◌*◌, ◌/◌, ◌%◌, ◌^◌, ◌≤◌, ◌<◌, bit_and, bit_or, bit_xor, digits, bitwise,
  differ, bit_and-bitwise, bit_or-bitwise, bit_xor-bitwise, min, max,
}
use mathlib.Core.Path.{◌≡◌, refl, ap, ◌∙◌}
use native.Mathlib.Nat.{le_refl, pow-suc, one-le-pow}
use native.Mathlib.Omega.{arith}
use tonyhax.Base.Word.{low_mask}

-- `digits` recurs on fuel; any fuel from the first number up gives the same result.
module _ (z : ℕ → ℕ) (f : ℕ → ℕ → ℕ) where
  digits_enough : (n m a b : ℕ) → a ≤ n → a ≤ m → digits z f n a b ≡ digits z f m a b
  digits_enough zero zero a b h k = refl
  digits_enough zero (suc m) zero b h k = refl
  digits_enough (suc n) zero zero b h k = refl
  digits_enough (suc n) (suc m) zero b h k = refl
  digits_enough zero m (suc a) b h k = absurd (omega arith)
  digits_enough (suc n) zero (suc a) b h k = absurd (omega arith)
  digits_enough (suc n) (suc m) (suc a) b h k =
      rw (digits_enough n m (suc a / 2) (b / 2) (omega arith) (omega arith))

  bitwise-step :
      (a b : ℕ)
      → z b ≡ z (b / 2) * 2 + f 0 (b % 2)
      → bitwise z f a b ≡ bitwise z f (a / 2) (b / 2) * 2 + f (a % 2) (b % 2)
  bitwise-step zero b e = e
  bitwise-step (suc a) b e =
      omega (arith, digits_enough a (suc a / 2) (suc a / 2) (b / 2) (omega arith) (le_refl _))

pub bit_and-step : (a b : ℕ) → bit_and a b ≡ bit_and (a / 2) (b / 2) * 2 + min (a % 2) (b % 2)
bit_and-step a b = simp bit_and-bitwise (bitwise-step (λ _. 0) min a b (omega arith))

pub bit_or-step : (a b : ℕ) → bit_or a b ≡ bit_or (a / 2) (b / 2) * 2 + max (a % 2) (b % 2)
bit_or-step a b = simp bit_or-bitwise (bitwise-step (λ y. y) max a b (omega arith))

differ-add : (x y : ℕ) → x < 2 → y < 2 → differ x y ≡ (x + y) % 2
differ-add zero zero h k = refl
differ-add zero (suc zero) h k = refl
differ-add zero (suc (suc y)) h k = absurd (omega arith)
differ-add (suc zero) zero h k = refl
differ-add (suc zero) (suc zero) h k = refl
differ-add (suc zero) (suc (suc y)) h k = absurd (omega arith)
differ-add (suc (suc x)) y h k = absurd (omega arith)

differ_zero : (b : ℕ) → differ 0 (b % 2) ≡ b % 2
differ_zero b = differ-add 0 (b % 2) (omega arith) (omega arith) ∙ omega arith

pub bit_xor-step : (a b : ℕ) → bit_xor a b ≡ bit_xor (a / 2) (b / 2) * 2 + (a % 2 + b % 2) % 2
bit_xor-step a b = simp bit_xor-bitwise (
    rw (← differ-add (a % 2) (b % 2) (omega arith) (omega arith))
      (bitwise-step (λ y. y) differ a b (omega (arith, differ_zero b))))

pub double : (q k : ℕ) → q * 2 ^ suc k ≡ 2 * (q * 2 ^ k)
double q k = omega (arith, ap (λ (t : ℕ). q * t) (pow-suc 2 k))

-- What the three operations share: the low and the high parts of the numbers do not meet.
module _ (op : ℕ → ℕ → ℕ) (f : ℕ → ℕ → ℕ)
    (step : (a b : ℕ) → op a b ≡ op (a / 2) (b / 2) * 2 + f (a % 2) (b % 2))
    (none : op 0 0 ≡ 0) where
  op_fields :
      (k q p r s : ℕ)
      → r < 2 ^ k
      → s < 2 ^ k
      → op (q * 2 ^ k + r) (p * 2 ^ k + s) ≡ op q p * 2 ^ k + op r s
  op_fields zero q p r s hr hs = ground (arith, none)
  op_fields (suc k) q p r s hr hs = ground (
    arith,
    step (q * 2 ^ suc k + r) (p * 2 ^ suc k + s),
    step r s,
    double q k,
    double p k,
    double (op q p) k,
    op_fields k q p (r / 2) (s / 2) (omega (arith, pow-suc 2 k)) (omega (arith, pow-suc 2 k)),
  )

  op-zero : ((x : ℕ) → x < 2 → f x 0 ≡ x) → (n a : ℕ) → a ≤ n → op a 0 ≡ a
  op-zero keep n zero h = none
  op-zero keep zero (suc a) h = absurd (omega arith)
  op-zero keep (suc n) (suc a) h =
      omega (arith, step (suc a) 0, op-zero keep n (suc a / 2) (omega arith), keep (suc a % 2))

  op_absorbs : ((x : ℕ) → x < 2 → f x 0 ≡ 0) → (bound a : ℕ) → a ≤ bound → op a 0 ≡ 0
  op_absorbs drop bound zero h = none
  op_absorbs drop zero (suc a) h = absurd (omega arith)
  op_absorbs drop (suc bound) (suc a) h =
      let half = op_absorbs drop bound (suc a / 2) (omega arith) in
      omega (arith, half, step (suc a) 0, drop (suc a % 2))

  op-lt :
      ((x y : ℕ) → x < 2 → y < 2 → f x y < 2) → (k a b : ℕ) → a < 2 ^ k → b < 2 ^ k → op a b < 2 ^ k
  op-lt fits zero a b ha hb = ground (arith, none)
  op-lt fits (suc k) a b ha hb = omega (
    arith,
    step a b,
    pow-suc 2 k,
    fits (a % 2) (b % 2) (omega arith) (omega arith),
    op-lt fits k (a / 2) (b / 2) (omega (arith, pow-suc 2 k)) (omega (arith, pow-suc 2 k)),
  )

pub bit_or-zero : (a : ℕ) → bit_or a 0 ≡ a
bit_or-zero a = op-zero bit_or max bit_or-step refl (λ x h. omega arith) a a (le_refl a)

pub zero-bit_or : (a : ℕ) → bit_or 0 a ≡ a
zero-bit_or a = bit_or-bitwise 0 a

pub bit_xor-zero : (a : ℕ) → bit_xor a 0 ≡ a
bit_xor-zero a =
    op-zero bit_xor (λ x y. (x + y) % 2) bit_xor-step refl (λ x h. omega arith) a a (le_refl a)

pub zero-bit_xor : (a : ℕ) → bit_xor 0 a ≡ a
zero-bit_xor a = bit_xor-bitwise 0 a

pub bit_and-zero : (a : ℕ) → bit_and a 0 ≡ 0
bit_and-zero a = op_absorbs bit_and min bit_and-step refl (λ x h. omega arith) a a (le_refl a)

pub bit_and_fields :
    (k q p r s : ℕ)
    → r < 2 ^ k
    → s < 2 ^ k
    → bit_and (q * 2 ^ k + r) (p * 2 ^ k + s) ≡ bit_and q p * 2 ^ k + bit_and r s
bit_and_fields = op_fields bit_and min bit_and-step refl

pub bit_or_fields :
    (k q p r s : ℕ)
    → r < 2 ^ k
    → s < 2 ^ k
    → bit_or (q * 2 ^ k + r) (p * 2 ^ k + s) ≡ bit_or q p * 2 ^ k + bit_or r s
bit_or_fields = op_fields bit_or max bit_or-step refl

pub bit_xor_fields :
    (k q p r s : ℕ)
    → r < 2 ^ k
    → s < 2 ^ k
    → bit_xor (q * 2 ^ k + r) (p * 2 ^ k + s) ≡ bit_xor q p * 2 ^ k + bit_xor r s
bit_xor_fields = op_fields bit_xor (λ x y. (x + y) % 2) bit_xor-step refl

pub bit_xor-lt : (k a b : ℕ) → a < 2 ^ k → b < 2 ^ k → bit_xor a b < 2 ^ k
bit_xor-lt = op-lt bit_xor (λ x y. (x + y) % 2) bit_xor-step refl (λ x y h h'. omega arith)

pub bit_or-lt : (k a b : ℕ) → a < 2 ^ k → b < 2 ^ k → bit_or a b < 2 ^ k
bit_or-lt = op-lt bit_or max bit_or-step refl (λ x y h h'. omega arith)

-- A field of `k` bits beside one above it: `|` is a sum.
pub bit_or_sum : (k q r : ℕ) → r < 2 ^ k → bit_or (q * 2 ^ k) r ≡ q * 2 ^ k + r
bit_or_sum k q r h = ground (
  arith,
  one-le-pow k 2,
  bit_or_fields k q 0 0 r (one-le-pow k 2 (omega arith)) h,
  bit_or-zero q,
  zero-bit_or r,
)

-- The same, of a number whose `k` low bits are clear.
pub bit_or_aligned : (k q a b : ℕ) → a ≡ q * 2 ^ k → b < 2 ^ k → bit_or a b ≡ a + b
bit_or_aligned k q a b e h = rw e (bit_or_sum k q b h)

-- A mask of `k` low bits is the remainder by `2 ^ k`.
bit_and_mask_low : (k a : ℕ) → a < 2 ^ k → bit_and a (low_mask k) ≡ a
bit_and_mask_low zero a h = ground (arith, bit_and-zero a)
bit_and_mask_low (suc k) a h = ground (
  arith,
  bit_and-step a (low_mask (suc k)),
  pow-suc 2 k,
  one-le-pow k 2,
  bit_and_mask_low k (a / 2) (omega (arith, pow-suc 2 k)),
)

pub bit_and_mask : (k a : ℕ) → bit_and a (low_mask k) ≡ a % 2 ^ k
bit_and_mask k a = ground (
  arith,
  one-le-pow k 2,
  bit_and_fields k (a / 2 ^ k) 0 (a % 2 ^ k) (low_mask k),
  bit_and-zero (a / 2 ^ k),
  bit_and_mask_low k (a % 2 ^ k),
)

-- A number is undone by a second `^` with it.
bit_xor_cancel_fuel : (n a b : ℕ) → a ≤ n → b ≤ n → bit_xor (bit_xor a b) b ≡ a
bit_xor_cancel_fuel zero a b h h' = ground arith
bit_xor_cancel_fuel (suc n) a b h h' = ground (
  arith,
  bit_xor-step a b,
  bit_xor-step (bit_xor a b) b,
  bit_xor_cancel_fuel n (a / 2) (b / 2) (omega arith) (omega arith),
)

pub bit_xor_cancel : (a b : ℕ) → bit_xor (bit_xor a b) b ≡ a
bit_xor_cancel a b = bit_xor_cancel_fuel (a + b) a b (omega arith) (omega arith)

-- The order of two numbers combined by `^` does not matter.
bit_xor_right_comm_fuel :
    (n a b c : ℕ) → a ≤ n → b ≤ n → c ≤ n → bit_xor (bit_xor a b) c ≡ bit_xor (bit_xor a c) b
bit_xor_right_comm_fuel zero a b c ha hb hc = ground arith
bit_xor_right_comm_fuel (suc n) a b c ha hb hc = ground (
  arith,
  bit_xor-step a b,
  bit_xor-step a c,
  bit_xor-step (bit_xor a b) c,
  bit_xor-step (bit_xor a c) b,
  bit_xor_right_comm_fuel n (a / 2) (b / 2) (c / 2) (omega arith) (omega arith) (omega arith),
)

pub bit_xor_right_comm : (a b c : ℕ) → bit_xor (bit_xor a b) c ≡ bit_xor (bit_xor a c) b
bit_xor_right_comm a b c =
    bit_xor_right_comm_fuel (a + b + c) a b c (omega arith) (omega arith) (omega arith)

-- Two numbers that `^` with a third makes equal are equal.
pub bit_xor_injective : (a b c : ℕ) → bit_xor a c ≡ bit_xor b c → a ≡ b
bit_xor_injective a b c h = ground (arith, bit_xor_cancel a c, bit_xor_cancel b c)

pub bit_xor_comm : (a b : ℕ) → bit_xor a b ≡ bit_xor b a
bit_xor_comm a b = ground (arith, zero-bit_xor a, zero-bit_xor b, bit_xor_right_comm 0 a b)

pub bit_xor_assoc : (a b c : ℕ) → bit_xor (bit_xor a b) c ≡ bit_xor a (bit_xor b c)
bit_xor_assoc a b c =
    bit_xor_right_comm a b c
    ∙ ap (λ (t : ℕ). bit_xor t b) (bit_xor_comm a c)
    ∙ bit_xor_right_comm c a b
    ∙ ap (λ (t : ℕ). bit_xor t a) (bit_xor_comm c b)
    ∙ bit_xor_comm (bit_xor b c) a

pub bit_and-one : (a : ℕ) → bit_and a 1 ≡ a % 2
bit_and-one a = bit_and_mask 1 a

bit_and_comm_fuel : (n a b : ℕ) → a ≤ n → b ≤ n → bit_and a b ≡ bit_and b a
bit_and_comm_fuel zero a b h h' = ground arith
bit_and_comm_fuel (suc n) a b h h' = ground (
  arith,
  bit_and-step a b,
  bit_and-step b a,
  bit_and_comm_fuel n (a / 2) (b / 2) (omega arith) (omega arith),
)

pub bit_and_comm : (a b : ℕ) → bit_and a b ≡ bit_and b a
bit_and_comm a b = bit_and_comm_fuel (a + b) a b (omega arith) (omega arith)
