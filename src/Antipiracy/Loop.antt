-- ===== src/Antipiracy/Loop.antt =====
-- `antipiracy_main` of docs/ap_v2.c. `VSync(-1)` and `antipiracy_triggered` are functions of the game.
use tonyhax.Base.{
  ℕ, zero, suc, ◌+◌, ◌-◌, ◌*◌, ◌/◌, ◌%◌, ◌^◌, Bool, not, ◌&&◌, ◌==◌, ltb, leb, if◌then◌else◌,
  Option, none, some, u32, Memory, store8,
}
use tonyhax.Machine.{M, pure, ◌>>=◌, ◌>>◌}
use tonyhax.Cdrom.{has}
use tonyhax.Antipiracy.{
  Ret, tray_open, fail, continue, success, Op, get_status, get_tn, get_td, set_location, seek_audio,
  set_mode, init, read_toc, get_id, Drive, cd_start_op, cd_check_op, bcd_to_binary, binary_to_bcd,
}

-- The file's variables. `vsync` is `dword_800738F8`.
pub record Ap : Type 0 where
  pub current_step : ℕ
  pub track_count : ℕ
  pub center_mm : ℕ
  pub center_ss : ℕ
  pub vsync : ℕ
  pub cd_req_buffer : Memory
  pub drive : Drive

-- The value of an enumerator as an `int`'s 32 bits.
unfoldable pub ret_code : Ret → ℕ
ret_code tray_open = 0xFFFFFFFE
ret_code fail = 0xFFFFFFFF
ret_code continue = 0
ret_code success = 1

abbrev pub to_step : ℕ → Ap → Ap
to_step n ap = record ap { current_step = n }

-- `cd_start_op` and the step after it.
unfoldable pub start_op : Op → ℕ → Ap → M Ap
start_op op n ap = do cd_start_op op (ap.cd_req_buffer); pure (to_step n ap)

-- The lid is open.
abbrev pub lid_opened : Ap → M Ap
lid_opened ap = start_op get_status 17 ap

-- `cd_read_reply`, whose result and buffers a case then looks at.
unfoldable pub ap_reply : Op → (Ret → Ap → M (Ap × ℕ)) → Ap → M (Ap × ℕ)
ap_reply op k ap = do (ret, drive) ← cd_check_op op (ap.drive); k ret (record ap { drive = drive })

abbrev pub returning : ℕ → M Ap → M (Ap × ℕ)
returning retval p = do ap ← p; pure (ap, retval)

unfoldable pub case_2 : Ret → Ap → M (Ap × ℕ)
case_2 fail ap = returning 2 (start_op get_tn (ap.current_step) ap)
case_2 tray_open ap = returning 2 (lid_opened ap)
case_2 success ap =
    returning 2 (start_op init 3 (record ap { track_count = ap.drive.cd_reply_buf 2 }))
case_2 continue ap = pure (ap, 2)

-- The end of the first track.
unfoldable pub case_3 : Ret → Ap → M (Ap × ℕ)
case_3 fail ap = pure (to_step 1 ap, 3)
case_3 tray_open ap = returning 3 (lid_opened ap)
case_3 success ap = returning 3 (
    start_op get_td 4 (record ap {
      cd_req_buffer = store8 0 (if ltb (ap.track_count) 2 then 0 else 2) (ap.cd_req_buffer);
    }))
case_3 continue ap = pure (ap, 3)

-- `center` from the two bytes of the reply.
unfoldable pub center : ℕ → ℕ → ℕ
center mm ss = (60 * bcd_to_binary mm + bcd_to_binary ss) / 2

unfoldable pub set_center : Ap → Ap
set_center ap =
    let c = center (ap.drive.cd_reply_buf 1) (ap.drive.cd_reply_buf 2) in
    record ap { center_mm = binary_to_bcd (c / 60); center_ss = binary_to_bcd (c % 60) }

unfoldable pub case_4 : Ret → Ap → M (Ap × ℕ)
case_4 fail ap = pure (to_step 1 ap, 7)
case_4 tray_open ap = returning 7 (lid_opened ap)
case_4 success ap = returning 7 (start_op read_toc 5 (set_center ap))
case_4 continue ap = pure (ap, 7)

-- The request for the centre of the track.
unfoldable pub locate : Ap → M Ap
locate ap = start_op set_location 7 (record ap {
  cd_req_buffer = store8 2 0 (store8 1 (ap.center_ss) (store8 0 (ap.center_mm) (ap.cd_req_buffer)));
})

-- A drive that cannot read the table of contents refuses with error 0x40.
unfoldable pub case_5 : Ret → Ap → M (Ap × ℕ)
case_5 fail ap =
    if not (has (ap.drive.cd_reply_buf 0) 1)
    then pure (to_step 1 ap, ret_code fail)
    else if has (ap.drive.cd_reply_buf 1) 0x40
    then returning 5 (locate ap)
    else pure (ap, ret_code fail)
case_5 tray_open ap = returning 5 (lid_opened ap)
case_5 success ap = returning 5 (start_op get_id 7 ap)
case_5 continue ap = pure (ap, 5)

unfoldable pub case_7 : Ret → Ap → M (Ap × ℕ)
case_7 fail ap = pure (to_step 1 ap, ret_code fail)
case_7 tray_open ap = returning 7 (lid_opened ap)
case_7 success ap =
    returning 7 (start_op set_mode 8 (record ap { cd_req_buffer = store8 0 1 (ap.cd_req_buffer) }))
case_7 continue ap = pure (ap, 7)

module _ (vsync : M ℕ) (antipiracy_triggered : M (Unit {0})) where
  unfoldable pub case_6 : Ret → Ap → M (Ap × ℕ)
  case_6 fail ap = do antipiracy_triggered; pure (ap, ret_code fail)
  case_6 tray_open ap = returning 6 (lid_opened ap)
  case_6 success ap = returning 6 (locate ap)
  case_6 continue ap = pure (ap, 6)

  unfoldable pub case_8 : Ret → Ap → M (Ap × ℕ)
  case_8 fail ap = pure (to_step 1 ap, ret_code fail)
  case_8 tray_open ap = returning 8 (lid_opened ap)
  case_8 success ap = do now ← vsync; pure (to_step 9 (record ap { vsync = now }), 8)
  case_8 continue ap = pure (ap, 8)

  -- The difference is an `int`.
  unfoldable pub case_9 : Ap → M (Ap × ℕ)
  case_9 ap = do
    now ← vsync
    let waited = u32 (now + (2 ^ 32 - ap.vsync)) in
        if leb 3 waited && ltb waited 0x80000000
        then returning 9 (start_op seek_audio 10 ap)
        else pure (ap, 9)

  -- The body of the loop, with the value of `retval` before it. Step 10 is the last one that the file
  -- names, with no statement; no case is there for 17.
  unfoldable pub ap_pass : Ap → ℕ → M (Ap × ℕ)
  ap_pass ap retval =
      if ap.current_step == 0
      then pure (ap, 0)
      else if ap.current_step == 1
      then returning 1 (start_op get_tn 2 ap)
      else if ap.current_step == 2
      then ap_reply get_tn case_2 ap
      else if ap.current_step == 3
      then ap_reply init case_3 ap
      else if ap.current_step == 4
      then ap_reply get_td case_4 ap
      else if ap.current_step == 5
      then ap_reply read_toc case_5 ap
      else if ap.current_step == 6
      then ap_reply get_id case_6 ap
      else if ap.current_step == 7
      then ap_reply set_location case_7 ap
      else if ap.current_step == 8
      then ap_reply set_mode case_8 ap
      else if ap.current_step == 9
      then case_9 ap
      else pure (ap, retval)

  -- The do-while loop, on fuel, with `retval` before a pass. `none` is fuel that has run out.
  unfoldable pub passes : ℕ → Bool → Ap → ℕ → M (Option (Ap × ℕ))
  passes zero blocking ap retval = pure none
  passes (suc n) blocking ap retval = do
    (ap', retval') ← ap_pass ap retval
    if blocking && not (retval' == 0)
        then passes n blocking ap' retval'
        else pure (some (ap', retval'))

  unfoldable pub antipiracy_main : ℕ → Bool → Ap → M (Option (Ap × ℕ))
  antipiracy_main fuel blocking ap = passes fuel blocking ap 0
