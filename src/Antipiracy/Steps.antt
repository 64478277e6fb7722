-- ===== src/Antipiracy/Steps.antt =====
-- The steps that docs/ap_v2.c goes through.
use tonyhax.Base.{
  ℕ, ◌≤◌, ◌+◌, ◌-◌, ◌^◌, u32, ◌≡◌, refl, sym, ap, arith, not, ◌&&◌, ◌==◌, ==_iff, leb, ltb,
  if◌then◌else◌,
}
use tonyhax.Machine.{Machine, done, M, pure, ◌>>=◌}
use tonyhax.Machine.Triple.{Triple, >>=-Triple, if-Triple, done-injective}
use tonyhax.Cdrom.{has}
use tonyhax.Antipiracy.{
  Ret, tray_open, fail, continue, success, Op, get_status, get_tn, get_td, set_location, seek_audio,
  set_mode, init, read_toc, get_id, cd_start_op, cd_check_op,
}
use tonyhax.Antipiracy.Loop.{
  Ap, to_step, start_op, ap_reply, returning, case_2, case_3, case_4, locate, case_5, case_6,
  case_7, case_8, case_9, ap_pass,
}

-- The diagram of the steps.
pub data Moves : ℕ → ℕ → Type 0 where
  stays : (n : ℕ) → Moves n n
  starts : Moves 1 2
  counted : Moves 2 3
  initialised : Moves 3 4
  centred : Moves 4 5
  toc_read : Moves 5 7
  identified : Moves 6 7
  located : Moves 7 8
  mode_set : Moves 8 9
  seeks : Moves 9 10
  restarts : {n : ℕ} → 3 ≤ n → n ≤ 8 → Moves n 1
  opened : {n : ℕ} → 2 ≤ n → n ≤ 8 → Moves n 17

-- The action ends at a step that one move leads to from `n`.
abbrev MovesFrom : ℕ → M (Ap × ℕ) → Type 0
MovesFrom n p = Triple (λ m. Unit {0}) p (λ r m. Moves n (r.0.current_step))

pure-MovesFrom :
    (n : ℕ) (ap : Ap) (retval : ℕ) → Moves n (ap.current_step) → MovesFrom n (pure (ap, retval))
pure-MovesFrom n ap retval h m m' r u e = let (same, same') = done-injective e in rw (sym same) h

after-MovesFrom {ℓ} :
    {A : Type ℓ} (n : ℕ) (p : M A) (f : A → M (Ap × ℕ))
    → ((a : A) → MovesFrom n (f a))
    → MovesFrom n (p >>= f)
after-MovesFrom n p f h = >>=-Triple p f {Q = λ a m. Unit {0}} (λ m m' a u e. tt) h

start_op-MovesFrom :
    (n retval : ℕ) (op : Op) (to : ℕ) (ap : Ap)
    → Moves n to
    → MovesFrom n (returning retval (start_op op to ap))
unfolding start_op
start_op-MovesFrom n retval op to ap h =
    >>=-Triple (start_op op to ap) _ {Q = λ ap' m. ap'.current_step ≡ to}
      (>>=-Triple (cd_start_op op (ap.cd_req_buffer)) _ {Q = λ u m. Unit {0}} (λ m m' a u e. tt)
        (λ u m m' ap' u' e. let (same, same') = done-injective e in rw (sym same) refl))
      (λ ap' m m' r at e. let (same, same') = done-injective e in rw (sym same) (rw at h))

ap_reply-MovesFrom :
    (n : ℕ) (op : Op) (k : Ret → Ap → M (Ap × ℕ)) (ap : Ap)
    → ap.current_step ≡ n
    → ((ret : Ret) (ap' : Ap) → ap'.current_step ≡ n → MovesFrom n (k ret ap'))
    → MovesFrom n (ap_reply op k ap)
unfolding ap_reply
ap_reply-MovesFrom n op k ap at h =
    after-MovesFrom n (cd_check_op op (ap.drive)) _ (λ r. h (r.0) (record ap { drive = r.1 }) at)

stay : (n : ℕ) (ap : Ap) (retval : ℕ) → ap.current_step ≡ n → MovesFrom n (pure (ap, retval))
stay n ap retval at = pure-MovesFrom n ap retval (rw at (stays n))

case_2-MovesFrom : (ret : Ret) (ap : Ap) → ap.current_step ≡ 2 → MovesFrom 2 (case_2 ret ap)
unfolding case_2
case_2-MovesFrom fail ap at = start_op-MovesFrom 2 2 get_tn _ ap (rw at (stays 2))
case_2-MovesFrom tray_open ap at =
    start_op-MovesFrom 2 2 get_status 17 ap (opened (omega arith) (omega arith))
case_2-MovesFrom success ap at = start_op-MovesFrom 2 2 init 3 _ counted
case_2-MovesFrom continue ap at = stay 2 ap 2 at

case_3-MovesFrom : (ret : Ret) (ap : Ap) → ap.current_step ≡ 3 → MovesFrom 3 (case_3 ret ap)
unfolding case_3
case_3-MovesFrom fail ap at =
    pure-MovesFrom 3 (to_step 1 ap) 3 (restarts (omega arith) (omega arith))
case_3-MovesFrom tray_open ap at =
    start_op-MovesFrom 3 3 get_status 17 ap (opened (omega arith) (omega arith))
case_3-MovesFrom success ap at = start_op-MovesFrom 3 3 get_td 4 _ initialised
case_3-MovesFrom continue ap at = stay 3 ap 3 at

case_4-MovesFrom : (ret : Ret) (ap : Ap) → ap.current_step ≡ 4 → MovesFrom 4 (case_4 ret ap)
unfolding case_4
case_4-MovesFrom fail ap at =
    pure-MovesFrom 4 (to_step 1 ap) 7 (restarts (omega arith) (omega arith))
case_4-MovesFrom tray_open ap at =
    start_op-MovesFrom 4 7 get_status 17 ap (opened (omega arith) (omega arith))
case_4-MovesFrom success ap at = start_op-MovesFrom 4 7 read_toc 5 _ centred
case_4-MovesFrom continue ap at = stay 4 ap 7 at

case_5-MovesFrom : (ret : Ret) (ap : Ap) → ap.current_step ≡ 5 → MovesFrom 5 (case_5 ret ap)
unfolding case_5 locate
case_5-MovesFrom fail ap at =
    if-Triple (not (has (ap.drive.cd_reply_buf 0) 1)) _ _
      (λ h. pure-MovesFrom 5 (to_step 1 ap) _ (restarts (omega arith) (omega arith)))
      (λ h.
        if-Triple (has (ap.drive.cd_reply_buf 1) 0x40) _ _
          (λ h'. start_op-MovesFrom 5 5 set_location 7 _ toc_read) (λ h'. stay 5 ap _ at))
case_5-MovesFrom tray_open ap at =
    start_op-MovesFrom 5 5 get_status 17 ap (opened (omega arith) (omega arith))
case_5-MovesFrom success ap at = start_op-MovesFrom 5 5 get_id 7 ap toc_read
case_5-MovesFrom continue ap at = stay 5 ap 5 at

case_7-MovesFrom : (ret : Ret) (ap : Ap) → ap.current_step ≡ 7 → MovesFrom 7 (case_7 ret ap)
unfolding case_7
case_7-MovesFrom fail ap at =
    pure-MovesFrom 7 (to_step 1 ap) _ (restarts (omega arith) (omega arith))
case_7-MovesFrom tray_open ap at =
    start_op-MovesFrom 7 7 get_status 17 ap (opened (omega arith) (omega arith))
case_7-MovesFrom success ap at = start_op-MovesFrom 7 7 set_mode 8 _ located
case_7-MovesFrom continue ap at = stay 7 ap 7 at

-- A case for step `n`.
at_step :
    (ap : Ap) (n : ℕ) (p q : M (Ap × ℕ))
    → (ap.current_step ≡ n → MovesFrom n p)
    → MovesFrom (ap.current_step) q
    → MovesFrom (ap.current_step) (if ap.current_step == n then p else q)
at_step ap n p q h k =
    if-Triple (ap.current_step == n) p q
      (λ e. let at = (==_iff (ap.current_step) n).0 e in rw at (h at)) (λ e. k)

module _ (vsync : M ℕ) (antipiracy_triggered : M (Unit {0})) where
  case_6-MovesFrom :
      (ret : Ret) (ap : Ap)
      → ap.current_step ≡ 6
      → MovesFrom 6 (case_6 vsync antipiracy_triggered ret ap)
  unfolding case_6 locate
  case_6-MovesFrom fail ap at = after-MovesFrom 6 antipiracy_triggered _ (λ u. stay 6 ap _ at)
  case_6-MovesFrom tray_open ap at =
      start_op-MovesFrom 6 6 get_status 17 ap (opened (omega arith) (omega arith))
  case_6-MovesFrom success ap at = start_op-MovesFrom 6 6 set_location 7 _ identified
  case_6-MovesFrom continue ap at = stay 6 ap 6 at

  case_8-MovesFrom :
      (ret : Ret) (ap : Ap)
      → ap.current_step ≡ 8
      → MovesFrom 8 (case_8 vsync antipiracy_triggered ret ap)
  unfolding case_8
  case_8-MovesFrom fail ap at =
      pure-MovesFrom 8 (to_step 1 ap) _ (restarts (omega arith) (omega arith))
  case_8-MovesFrom tray_open ap at =
      start_op-MovesFrom 8 8 get_status 17 ap (opened (omega arith) (omega arith))
  case_8-MovesFrom success ap at = after-MovesFrom 8 vsync _ (λ now. pure-MovesFrom 8 _ 8 mode_set)
  case_8-MovesFrom continue ap at = stay 8 ap 8 at

  case_9-MovesFrom :
      (ap : Ap) → ap.current_step ≡ 9 → MovesFrom 9 (case_9 vsync antipiracy_triggered ap)
  unfolding case_9
  case_9-MovesFrom ap at = after-MovesFrom 9 vsync _ (λ now.
      if-Triple
        (leb 3 (u32 (now + (2 ^ 32 - ap.vsync)))
          && ltb (u32 (now + (2 ^ 32 - ap.vsync))) 0x80000000)
        _ _ (λ h. start_op-MovesFrom 9 9 seek_audio 10 ap seeks) (λ h. stay 9 ap 9 at))

  -- Each pass of `antipiracy_main` through its loop that returns moves along the diagram: by one arrow, or by
  -- none.
  pub ap_pass-Moves :
      (ap ap' : Ap) (retval retval' : ℕ) (m m' : Machine)
      → ap_pass vsync antipiracy_triggered ap retval m ≡ done (ap', retval') m'
      → Moves (ap.current_step) (ap'.current_step)
  unfolding ap_pass
  ap_pass-Moves ap ap' retval retval' m m' e =
      at_step ap 0 _ _ (λ at. stay 0 ap 0 at)
        (at_step ap 1 _ _ (λ at. start_op-MovesFrom 1 1 get_tn 2 ap starts)
          (at_step ap 2 _ _ (λ at. ap_reply-MovesFrom 2 get_tn case_2 ap at case_2-MovesFrom)
            (at_step ap 3 _ _ (λ at. ap_reply-MovesFrom 3 init case_3 ap at case_3-MovesFrom)
              (at_step ap 4 _ _ (λ at. ap_reply-MovesFrom 4 get_td case_4 ap at case_4-MovesFrom)
                (at_step ap 5 _ _
                  (λ at. ap_reply-MovesFrom 5 read_toc case_5 ap at case_5-MovesFrom)
                  (at_step ap 6 _ _ (λ at. ap_reply-MovesFrom 6 get_id _ ap at case_6-MovesFrom)
                    (at_step ap 7 _ _
                      (λ at. ap_reply-MovesFrom 7 set_location case_7 ap at case_7-MovesFrom)
                      (at_step ap 8 _ _
                        (λ at. ap_reply-MovesFrom 8 set_mode _ ap at case_8-MovesFrom)
                        (at_step ap 9 _ _ (λ at. case_9-MovesFrom ap at)
                          (pure-MovesFrom (ap.current_step) ap retval
                            (stays (ap.current_step))))))))))))
        m m' (ap', retval') tt e
