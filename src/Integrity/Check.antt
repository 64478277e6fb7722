-- ===== src/Integrity/Check.antt =====
-- What the integrity check of loader/integrity.c accepts and refuses.
use mathlib.Core.Path.{ap₂}
use tonyhax.Base.{
  ℕ, ◌+◌, ◌-◌, ◌≤◌, ◌<◌, ◌≡◌, sym, ap, ◌∙◌, arith, true, false, ◌==◌, ==_iff, Memory, IsBytes,
  load32, store32, load32-store32, store32-outside, inl,
}
use tonyhax.Str.{bzero}
use tonyhax.Str.Clear.{bzero-outside}
use tonyhax.Crc.{not32, crc32}
use tonyhax.Crc.Words.{crc_loop_congruent}
use tonyhax.Crc.Detect.{DiffersAt, crc32-lt, crc32_detects_burst}
use tonyhax.Integrity.{ro_start, Layout, integrity_test, start}

-- The sections follow one another as loader/secondary.ld places them.
pub record IsLaidOut (l : Layout) : Type 0 where
  pub image_first : ro_start ≤ l.crc_start
  pub crc_next : l.crc_start + 4 ≤ l.bss_start

-- What loader/insert-tonyhax-crc.sh does to the image: it stores the CRC of the sections before
-- `.crc` there.
abbrev pub insert_crc : Layout → Memory → Memory
insert_crc l mem = store32 l.crc_start (crc32 mem ro_start (l.crc_start - ro_start)) mem

pub crc32_congruent :
    (mem mem' : Memory) (from len : ℕ)
    → ((b : ℕ) → from ≤ b → b < from + len → mem b ≡ mem' b)
    → crc32 mem from len ≡ crc32 mem' from len
unfolding crc32
crc32_congruent mem mem' from len same =
    ap not32 (crc_loop_congruent mem mem' len from 0xFFFFFFFF same)

load32_congruent :
    (mem mem' : Memory) (a : ℕ)
    → ((b : ℕ) → a ≤ b → b < a + 4 → mem b ≡ mem' b)
    → load32 mem a ≡ load32 mem' a
load32_congruent mem mem' a same = omega (
  arith,
  same a (omega arith) (omega arith),
  same (a + 1) (omega arith) (omega arith),
  same (a + 2) (omega arith) (omega arith),
  same (a + 3) (omega arith) (omega arith),
)

module _ (l : Layout) (laid : IsLaidOut l) where
  -- Clearing `.bss` changes nothing that the check reads.
  integrity_test-bzero :
      (len : ℕ) (mem : Memory) → integrity_test l (bzero l.bss_start len mem) ≡ integrity_test l mem
  unfolding integrity_test
  integrity_test-bzero len mem =
      ap₂ ◌==◌
        (crc32_congruent cleared mem ro_start (l.crc_start - ro_start)
          (λ b lo hi. untouched b (omega (arith, laid.image_first, laid.crc_next))))
        (load32_congruent cleared mem l.crc_start
          (λ b lo hi. untouched b (omega (arith, laid.crc_next))))
    where
      cleared : Memory
      cleared = bzero l.bss_start len mem

      untouched : (b : ℕ) → b < l.bss_start → cleared b ≡ mem b
      untouched b h = bzero-outside len l.bss_start b mem h

  -- An image with the CRC that the build inserts passes the check at start.
  pub start-insert_crc : (mem : Memory) → (start l (insert_crc l mem)).1 ≡ true
  unfolding start
  start-insert_crc mem =
      integrity_test-bzero (l.bss_end - l.bss_start) (insert_crc l mem) ∙ inserted
    where
      crc : ℕ
      crc = crc32 mem ro_start (l.crc_start - ro_start)

      kept : crc32 (insert_crc l mem) ro_start (l.crc_start - ro_start) ≡ crc
      kept =
          crc32_congruent (insert_crc l mem) mem ro_start (l.crc_start - ro_start) (λ b lo hi.
            store32-outside l.crc_start crc b mem (inl (omega (arith, laid.image_first))))

      inserted : integrity_test l (insert_crc l mem) ≡ true
      inserted =
          unfold integrity_test in
          (==_iff _ _).1 (
            kept
            ∙ sym (
                load32-store32 l.crc_start crc mem
                  (crc32-lt mem ro_start (l.crc_start - ro_start))))

  -- An image that differs from a good one in some bits of four consecutive bytes before the CRC,
  -- and nowhere else up to the CRC and in it, fails the check at start, where the sections follow
  -- one another as the link script places them.
  pub start_refuses_burst :
      (mem mem' : Memory) (a : ℕ)
      → IsBytes mem
      → IsBytes mem'
      → (start l mem).1 ≡ true
      → DiffersAt mem mem' ro_start (l.crc_start - ro_start) a
      → load32 mem' l.crc_start ≡ load32 mem l.crc_start
      → (start l mem').1 ≡ false
  unfolding start
  start_refuses_burst mem mem' a bytes bytes' good d same =
      integrity_test-bzero (l.bss_end - l.bss_start) mem' ∙ refused
    where
      passed : integrity_test l mem ≡ true
      passed = sym (integrity_test-bzero (l.bss_end - l.bss_start) mem) ∙ good

      refused : integrity_test l mem' ≡ false
      refused =
          unfold integrity_test in
          ground (
            arith,
            passed,
            same,
            crc32_detects_burst mem mem' ro_start (l.crc_start - ro_start) a bytes bytes' d,
          )
