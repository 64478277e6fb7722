-- ===== src/Antipiracy/Unreached.antt =====
-- `antipiracy_triggered` in docs/ap_v2.c.
use tonyhax.Base.{
  ℕ, zero, suc, ◌≡◌, ◌≢◌, refl, arith, Bool, true, false, not, ◌&&◌, ◌==◌, if◌then◌else◌,
}
use tonyhax.Machine.{Machine, Outcome, done, waits, fault, M, ◌>>=◌}
use tonyhax.Antipiracy.Loop.{Ap, case_8, case_9, ap_pass, passes, antipiracy_main}
use tonyhax.Antipiracy.Steps.{Moves, ap_pass-Moves}

-- No arrow leads to step 6.
Moves-not_6 : {n n' : ℕ} → Moves n n' → n ≢ 6 → n' ≢ 6
Moves-not_6 (Moves.stays n) h = h
Moves-not_6 Moves.starts h = omega arith
Moves-not_6 Moves.counted h = omega arith
Moves-not_6 Moves.initialised h = omega arith
Moves-not_6 Moves.centred h = omega arith
Moves-not_6 Moves.toc_read h = omega arith
Moves-not_6 Moves.identified h = omega arith
Moves-not_6 Moves.located h = omega arith
Moves-not_6 Moves.mode_set h = omega arith
Moves-not_6 Moves.seeks h = omega arith
Moves-not_6 (Moves.restarts lo hi) h = omega arith
Moves-not_6 (Moves.opened lo hi) h = omega arith

-- Two continuations that agree on what the two equal actions can give.
outcome_congruent {ℓ κ} :
    {A : Type ℓ} {B : Type κ} (o : Outcome A) (f g : A → M B)
    → ((a : A) (m' : Machine) → o ≡ done a m' → f a m' ≡ g a m')
    → elim o [ done a m' ↦ f a m' | waits ↦ waits | fault ↦ fault ]
      ≡ elim o [ done a m' ↦ g a m' | waits ↦ waits | fault ↦ fault ]
outcome_congruent (done a m') f g h = h a m' refl
outcome_congruent waits f g h = refl
outcome_congruent fault f g h = refl

bind_congruent {ℓ κ} :
    {A : Type ℓ} {B : Type κ} (p p' : M A) (f g : A → M B) (m : Machine)
    → p m ≡ p' m
    → ((a : A) (m' : Machine) → p' m ≡ done a m' → f a m' ≡ g a m')
    → (p >>= f) m ≡ (p' >>= g) m
bind_congruent p p' f g m e h = rw (e, ◌>>=◌) (outcome_congruent (p' m) f g h)

again-congruent {ℓ} :
    {A : Type ℓ} (again : Bool) (p p' q : M A) (m : Machine)
    → p m ≡ p' m
    → (if again then p else q) m ≡ (if again then p' else q) m
again-congruent true p p' q m h = h
again-congruent false p p' q m h = refl

module _ (vsync : M ℕ) (triggered triggered' : M (Unit {0})) where
  ap_pass-triggered :
      (ap : Ap) (retval : ℕ) (m : Machine)
      → ap.current_step ≢ 6
      → ap_pass vsync triggered ap retval m ≡ ap_pass vsync triggered' ap retval m
  unfolding ap_pass case_8 case_9
  ap_pass-triggered ap retval m h =
      let other : (ap.current_step == 6) ≡ false = ground arith in rw other refl

  passes-triggered :
      (fuel : ℕ) (blocking : Bool) (ap : Ap) (retval : ℕ) (m : Machine)
      → ap.current_step ≢ 6
      → passes vsync triggered fuel blocking ap retval m
        ≡ passes vsync triggered' fuel blocking ap retval m
  unfolding passes
  passes-triggered zero blocking ap retval m h = refl
  passes-triggered (suc n) blocking ap retval m h =
      bind_congruent (ap_pass vsync triggered ap retval) (ap_pass vsync triggered' ap retval) _ _ m
        (ap_pass-triggered ap retval m h)
        (λ r m' e. again-congruent (blocking && not (r.1 == 0)) _ _ _ m' (
          passes-triggered n blocking (r.0) (r.1) m'
            (Moves-not_6 (ap_pass-Moves vsync triggered' ap (r.0) retval (r.1) m m' e) h)))

  -- From every step but 6, whatever the drive answers, the check never calls `antipiracy_triggered`: with
  -- any two functions in its place `antipiracy_main` does the same, for any number of passes.
  pub antipiracy_main_never_triggers :
      (fuel : ℕ) (blocking : Bool) (ap : Ap) (m : Machine)
      → ap.current_step ≢ 6
      → antipiracy_main vsync triggered fuel blocking ap m
        ≡ antipiracy_main vsync triggered' fuel blocking ap m
  unfolding antipiracy_main
  antipiracy_main_never_triggers fuel blocking ap m h = passes-triggered fuel blocking ap 0 m h
