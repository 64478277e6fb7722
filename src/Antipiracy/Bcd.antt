-- ===== src/Antipiracy/Bcd.antt =====
-- The conversions of docs/ap_v2.c, and the centre of the data track.
use tonyhax.Base.{
  ℕ, ◌+◌, ◌*◌, ◌/◌, ◌%◌, ◌<◌, ◌≡◌, refl, ap, arith, ◌&&◌, ◌==◌, all_below, all_below-apply, ltb,
}
use tonyhax.Antipiracy.{bcd_to_binary, binary_to_bcd}
use tonyhax.Antipiracy.Loop.{Ap, center, set_center}

-- The number's two nibbles are decimal digits.
abbrev pub IsBcd : ℕ → Type 0
IsBcd b = (b / 16 < 10) × (b % 16 < 10)

binary_to_bcd-IsBcd : (n : ℕ) → n < 100 → IsBcd (binary_to_bcd n)
unfolding all_below binary_to_bcd
binary_to_bcd-IsBcd n h =
    let ok =
      all_below-apply 100 (λ k. ltb (binary_to_bcd k / 16) 10 && ltb (binary_to_bcd k % 16) 10) n
        refl h in
    (ground arith, ground arith)

-- A number of two decimal digits comes back from BCD, and its BCD is a byte.
pub bcd_to_binary-binary_to_bcd :
    (n : ℕ) → n < 100 → (bcd_to_binary (binary_to_bcd n) ≡ n) × (binary_to_bcd n < 256)
unfolding all_below bcd_to_binary binary_to_bcd
bcd_to_binary-binary_to_bcd n h =
    let ok =
      all_below-apply 100 (λ k. bcd_to_binary (binary_to_bcd k) == k && ltb (binary_to_bcd k) 256) n
        refl h in
    ground arith

center_parts :
    (mm ss : ℕ)
    → mm < 100
    → ss < 60
    → center (binary_to_bcd mm) (binary_to_bcd ss) ≡ (60 * mm + ss) / 2
unfolding center
center_parts mm ss h h' =
    omega (arith, bcd_to_binary-binary_to_bcd mm h, bcd_to_binary-binary_to_bcd ss (omega arith))

-- When the drive has replied that the data track ends at minute `mm` and second `ss`, in BCD, the centre
-- that `antipiracy_main` keeps is half of that time in whole seconds: its minutes and seconds are BCD
-- numbers, with two nibbles below 10, and its seconds are below 60.
pub set_center_lem :
    (ap : Ap) (mm ss : ℕ)
    → mm < 100
    → ss < 60
    → ap.drive.cd_reply_buf 1 ≡ binary_to_bcd mm
    → ap.drive.cd_reply_buf 2 ≡ binary_to_bcd ss
    → (60 * bcd_to_binary ((set_center ap).center_mm) + bcd_to_binary ((set_center ap).center_ss)
        ≡ (60 * mm + ss) / 2)
      × (bcd_to_binary ((set_center ap).center_ss) < 60)
      × IsBcd ((set_center ap).center_mm)
      × IsBcd ((set_center ap).center_ss)
unfolding set_center
set_center_lem ap mm ss h h' e e' =
    let half = (60 * mm + ss) / 2 in
    let c = center_parts mm ss h h' in
    let minutes = bcd_to_binary-binary_to_bcd (half / 60) (omega arith) in
    let seconds = bcd_to_binary-binary_to_bcd (half % 60) (omega arith) in
    rw (e, e', c)
      (
        omega (arith, minutes, seconds),
        omega (arith, minutes, seconds),
        binary_to_bcd-IsBcd (half / 60) (omega arith),
        binary_to_bcd-IsBcd (half % 60) (omega arith),
      )
