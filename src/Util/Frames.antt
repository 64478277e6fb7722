-- ===== src/Util/Frames.antt =====
-- How many frames `delay_ds` of loader/util.c waits for.
use tonyhax.Base.{
  ℕ, ◌*◌, ◌≡◌, refl, ap, ◌∙◌, arith, Bool, true, false, not, List, [], ◌∷◌, ◌++◌, append-nil,
  append_assoc, bit_and, ◌==◌, if◌then◌else◌, u32, length, All, Bool-cases, inl, inr,
}
use tonyhax.Machine.{Machine, done, ◌>>=◌}
use tonyhax.Gpu.{
  take_status, read_status, write_i_stat, vblank_loop, acknowledge_vblank, gpu_is_pal,
  gpu_wait_vblank,
}
use tonyhax.Util.{frames_loop, delay_ds}

-- A value of `I_STAT` with the interrupt of the vertical blank.
abbrev pub blanks : ℕ → Bool
blanks v = not (bit_and v 1 == 0)

-- What the reads of `I_STAT` give during one wait: one value, then some without the interrupt, and
-- one with it.
pub record Frame : Type 0 where
  pub first : ℕ
  pub quiet : List ℕ
  pub blank : ℕ
  pub all_quiet : All (λ v. blanks v ≡ false) quiet
  pub is_blank : blanks blank ≡ true

abbrev pub frame_values : List Frame → List ℕ
frame_values [] = []
frame_values (f ∷ fs) = f.first ∷ (f.quiet ++ f.blank ∷ frame_values fs)

-- The value written to `I_STAT` to acknowledge an interrupt that is there at the start of a wait.
abbrev pub frame_writes : List Frame → List ℕ
frame_writes [] = []
frame_writes (f ∷ fs) = (if blanks (f.first) then 0xFFFFFFFE ∷ [] else []) ++ frame_writes fs

-- The machine with these values left to read, and these written.
abbrev pub polled : Machine → List ℕ → List ℕ → Machine
polled m left written = record m {
  screen = record (m.screen) { status = left; acknowledged = m.screen.acknowledged ++ written };
}

vblank_loop_lem :
    (quiet : List ℕ) (blank : ℕ) (left : List ℕ) (m : Machine)
    → All (λ v. blanks v ≡ false) quiet
    → blanks blank ≡ true
    → vblank_loop (quiet ++ blank ∷ left) m
      ≡ done tt (record m { screen = record (m.screen) { status = left } })
unfolding vblank_loop
vblank_loop_lem [] blank left m h h' = rw h' refl
vblank_loop_lem (v ∷ quiet) blank left m h h' =
    rw (h.0) (vblank_loop_lem quiet blank left m (h.1) h')

read_status_lem :
    (v : ℕ) (left : List ℕ) (m : Machine)
    → m.screen.status ≡ v ∷ left
    → read_status m ≡ done v (record m { screen = record (m.screen) { status = left } })
unfolding read_status take_status
read_status_lem v left m e = rw e refl

acknowledge_vblank_lem :
    (v : ℕ) (m : Machine)
    → acknowledge_vblank v m
      ≡ done tt (polled m (m.screen.status) (if blanks v then 0xFFFFFFFE ∷ [] else []))
unfolding acknowledge_vblank write_i_stat
acknowledge_vblank_lem v m = elim (Bool-cases (blanks v)) [
  | inl set ↦ rw set refl
  | inr clear ↦ rw (clear, append-nil) refl
]

gpu_wait_vblank_lem :
    (f : Frame) (left : List ℕ) (m : Machine)
    → m.screen.status ≡ f.first ∷ (f.quiet ++ f.blank ∷ left)
    → gpu_wait_vblank m ≡ done tt (polled m left (if blanks (f.first) then 0xFFFFFFFE ∷ [] else []))
unfolding gpu_wait_vblank
gpu_wait_vblank_lem f left m e =
    rw (read_status_lem (f.first) (f.quiet ++ f.blank ∷ left) m e, ◌>>=◌)
      (rw
        (
          acknowledge_vblank_lem (f.first)
              (record m { screen = record (m.screen) { status = f.quiet ++ f.blank ∷ left } }),
          ◌>>=◌,
        )
        (vblank_loop_lem (f.quiet) (f.blank) left _ (f.all_quiet) (f.is_blank)))

frames_loop_lem :
    (fs : List Frame) (left : List ℕ) (m : Machine)
    → m.screen.status ≡ frame_values fs ++ left
    → frames_loop (length fs) m ≡ done tt (polled m left (frame_writes fs))
unfolding frames_loop
frames_loop_lem [] left m e =
    rw append-nil
      (ap (λ (l : List ℕ). done tt (record m { screen = record (m.screen) { status = l } })) e)
frames_loop_lem (f ∷ fs) left m e =
    rw (gpu_wait_vblank_lem f (frame_values fs ++ left) m (e ∙ regrouped), ◌>>=◌)
      (frames_loop_lem fs left _ refl
        ∙ ap
            (λ (l : List ℕ).
              done tt (record m { screen = record (m.screen) { status = left; acknowledged = l } }))
            (append_assoc (m.screen.acknowledged) (if blanks (f.first) then 0xFFFFFFFE ∷ [] else [])
              (frame_writes fs)))
  where
    regrouped :
        frame_values (f ∷ fs) ++ left ≡ f.first ∷ (f.quiet ++ f.blank ∷ (frame_values fs ++ left))
    regrouped = ap (◌∷◌ (f.first)) (append_assoc (f.quiet) (f.blank ∷ frame_values fs) left)

-- `delay_ds` waits for five vertical blanks a decisecond on a PAL console and for six on an NTSC one, in
-- 32-bit arithmetic, and then returns. It acknowledges the interrupt just where it is already there at
-- the start of a wait.
pub delay_ds_lem :
    (deciseconds stat : ℕ) (fs : List Frame) (m : Machine) (left : List ℕ)
    → m.screen.status ≡ stat ∷ (frame_values fs ++ left)
    → length fs ≡ u32 (deciseconds * (if bit_and stat 0x100000 == 0 then 6 else 5))
    → delay_ds deciseconds m ≡ done tt (polled m left (frame_writes fs))
unfolding delay_ds gpu_is_pal
delay_ds_lem deciseconds stat fs m left e count =
    rw (read_status_lem stat (frame_values fs ++ left) m e, ◌>>=◌)
      (ap
          (λ (n : ℕ).
            frames_loop n
              (record m { screen = record (m.screen) { status = frame_values fs ++ left } }))
          (ground (arith, count))
        ∙ frames_loop_lem fs left _ refl)
