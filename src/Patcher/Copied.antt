-- ===== src/Patcher/Copied.antt =====
-- Where the bytes of a patch of loader/patcher.c stand in memory.
use tonyhax.Base.{
  ℕ, ◌+◌, ◌≤◌, ◌<◌, ◌≡◌, ◌∙◌, arith, Bool, true, false, refl, ◌||◌, ◌&&◌, [], ◌∷◌, ltb, leb, Bytes,
  length, Memory, store8, if◌then◌else◌,
}
use tonyhax.Patcher.{Blobs, copy_bytes}

-- A copy leaves what stands before it alone.
pub copy_bytes-before :
    (dest : ℕ) (bytes : Bytes) (mem : Memory) (a : ℕ)
    → a < dest
    → copy_bytes dest bytes mem a ≡ mem a
unfolding copy_bytes
copy_bytes-before dest [] mem a h = refl
copy_bytes-before dest (b ∷ bytes) mem a h =
    copy_bytes-before (dest + 1) bytes (store8 dest b mem) a (omega arith) ∙ ground arith

-- The bytes stand at the address, but where they have been replaced.
abbrev pub Copied : (ℕ → Bool) → ℕ → Bytes → Memory → Type 0
Copied replaced at [] mem = Unit {0}
Copied replaced at (b ∷ bytes) mem =
    (mem at ≡ (if replaced at then mem at else b)) × Copied replaced (at + 1) bytes mem

-- The address belongs to one of the two jumps of the patch at `at`.
abbrev pub in_jumps : Blobs → ℕ → ℕ → Bool
in_jumps blobs at a =
    leb (at + blobs.ap_success) a && ltb a (at + blobs.ap_success + 4)
    || leb (at + blobs.ap_skip) a && ltb a (at + blobs.ap_skip + 4)

abbrev pub nowhere : ℕ → Bool
nowhere a = false

kept_or : (r : Bool) (v b : ℕ) → (r ≡ false → v ≡ b) → v ≡ (if r then v else b)
kept_or true v b h = refl
kept_or false v b h = h refl

pub Copied-copy_bytes :
    (replaced : ℕ → Bool) (at : ℕ) (bytes : Bytes) (mem : Memory)
    → Copied replaced at bytes (copy_bytes at bytes mem)
unfolding copy_bytes
Copied-copy_bytes replaced at [] mem = tt
Copied-copy_bytes replaced at (b ∷ bytes) mem =
    let first = copy_bytes-before (at + 1) bytes (store8 at b mem) at (omega arith) in
    (
      kept_or (replaced at) _ b (λ h. first ∙ ground arith),
      Copied-copy_bytes replaced (at + 1) bytes (store8 at b mem),
    )

-- What leaves the other bytes of the patch alone leaves it in place.
pub Copied-kept :
    (replaced : ℕ → Bool) (at : ℕ) (bytes : Bytes) (mem mem' : Memory)
    → ((a : ℕ) → at ≤ a → a < at + length bytes → replaced a ≡ false → mem' a ≡ mem a)
    → Copied replaced at bytes mem
    → Copied replaced at bytes mem'
Copied-kept replaced at [] mem mem' same h = tt
Copied-kept replaced at (b ∷ bytes) mem mem' same h = (
  kept_or (replaced at) (mem' at) b (λ e. same at (omega arith) (omega arith) e ∙ h.0 ∙ rw e refl),
  Copied-kept replaced (at + 1) bytes mem mem' (λ a lo hi e. same a (omega arith) (omega arith) e)
      (h.1),
)
