-- ===== src/Cpu/Steps.antt =====
-- The instructions that may trap, where they do not.
use tonyhax.Base.{
  Bool, ◌&&◌, ℕ, ◌+◌, ◌%◌, ◌^◌, ◌≤◌, ◌<◌, ◌≡◌, ◌⊎◌, if◌then◌else◌, refl, arith, true, false, ◌==◌,
  some, u32, load32, store32,
}
use tonyhax.Cpu.{Cpu, get, put, overflows, lw, sw, addi, Op, Code, ◌⨾◌, step, run}

-- An address of a word that does not wrap around.
pub record IsPlace (a : ℕ) : Type 0 where
  pub aligned : a % 4 ≡ 0
  pub small : a < 2 ^ 32

-- The test of a load or a store.
reaches :
    (a : ℕ) (mapped : ℕ → Bool)
    → IsPlace a
    → mapped a ≡ true
    → (u32 a % 4 == 0 && mapped (u32 a)) ≡ true
reaches a mapped place there =
    let e : u32 a ≡ a = omega (arith, place.small) in
    let word : (a % 4 == 0) ≡ true = ground (arith, place.aligned) in rw (e, word) there

IsPlace-u32 : (a : ℕ) → IsPlace a → u32 a ≡ a
IsPlace-u32 a place = omega (arith, place.small)

run-step :
    (op : Op) (code : Code) (c c' : Cpu) → step op c ≡ some c' → run (op ⨾ code) c ≡ run code c'
unfolding run
run-step op code c c' e = rw (e, run) refl

pub run-lw :
    (rt off base : ℕ) (code : Code) (c : Cpu)
    → IsPlace (get c base + off)
    → c.mapped (get c base + off) ≡ true
    → run (lw rt off base ⨾ code) c ≡ run code (put rt (load32 (c.mem) (get c base + off)) c)
unfolding step
run-lw rt off base code c place there =
    let e = IsPlace-u32 (get c base + off) place in
    let ok = reaches (get c base + off) (c.mapped) place there in
    run-step (lw rt off base) code c _ (rw (ok, if◌then◌else◌, e) refl)

pub run-sw :
    (rt off base : ℕ) (code : Code) (c : Cpu)
    → IsPlace (get c base + off)
    → c.mapped (get c base + off) ≡ true
    → run (sw rt off base ⨾ code) c
      ≡ run code (record c { mem = store32 (get c base + off) (get c rt) (c.mem) })
unfolding step
run-sw rt off base code c place there =
    let e = IsPlace-u32 (get c base + off) place in
    let ok = reaches (get c base + off) (c.mapped) place there in
    run-step (sw rt off base) code c _ (rw (ok, if◌then◌else◌, e) refl)

no_overflow :
    (a imm : ℕ) → imm < 2 ^ 15 → (a + imm < 2 ^ 31) ⊎ (2 ^ 31 ≤ a) → overflows a imm ≡ false
no_overflow a imm small apart = ground arith

-- A small positive number is added without an overflow, but just below 2 ^ 31.
pub run-addi :
    (rt rs imm : ℕ) (code : Code) (c : Cpu)
    → imm < 2 ^ 15
    → (get c rs + imm < 2 ^ 31) ⊎ (2 ^ 31 ≤ get c rs)
    → run (addi rt rs imm ⨾ code) c ≡ run code (put rt (u32 (get c rs + imm)) c)
unfolding step
run-addi rt rs imm code c small apart =
    run-step (addi rt rs imm) code c _ (rw (no_overflow (get c rs) imm small apart) refl)
