-- ===== src/Unlock/Drives.antt =====
-- Actions on the drive that also log to the screen.
use tonyhax.Base.{
  ℕ, ◌≤◌, ◌≡◌, refl, sym, ap, ◌∙◌, some, List, [], ◌++◌, append-nil, append_assoc, Bytes, length,
}
use tonyhax.Str.{Arg, mini_vsprintf}
use tonyhax.Machine.{Machine, Screen, Access, Outcome, done, M, ◌>>=◌}
use tonyhax.Debugscreen.{debug_write, in_buffer}
use tonyhax.Debugscreen.State.{debug_write-OnLog}
use tonyhax.Debugscreen.Repeats.{debug_write_returns}
use tonyhax.Cdrom.Runs.{after, Runs}

-- The action makes these accesses to the drive and uses up these replies, returns this result, and
-- may change the screen, but takes no value of the GPU's status register.
abbrev pub Drives {ℓ} : {A : Type ℓ} → M A → List ℕ → List Access → A → Type ℓ
Drives p used made a =
    (m : Machine) (left : List ℕ)
    → m.cd.replies ≡ used ++ left
    → (s : Screen) × (p m ≡ done a (record (after m made left) { screen = s }))
      × (s.status ≡ m.screen.status)

pub Runs-Drives {ℓ} :
    {A : Type ℓ} (p : M A) (u : List ℕ) (xs : List Access) (a : A) → Runs p u xs a → Drives p u xs a
Runs-Drives p u xs a h m left e = (m.screen, h m left e, refl)

pub >>=-Drives {ℓ κ} :
    {A : Type ℓ} {B : Type κ} (p : M A) (f : A → M B) (u u' : List ℕ) (xs ys : List Access) (a : A)
    (b : B)
    → Drives p u xs a
    → Drives (f a) u' ys b
    → Drives (p >>= f) (u ++ u') (xs ++ ys) b
>>=-Drives {B = B} p f u u' xs ys a b h k m left e =
    let (s, r, same) = h m (u' ++ left) (e ∙ append_assoc u u' left) in
    let (s', r', same') = k (record (after m xs (u' ++ left)) { screen = s }) left refl in
    (s', rw (r, ◌>>=◌) (r' ∙ ap (ended s') (append_assoc (m.cd.accesses) xs ys)), same' ∙ same)
  where
    ended : Screen → List Access → Outcome B
    ended s made = done b (record m { cd = record { replies = left; accesses = made }; screen = s })

pub Drives-nil {ℓ} :
    {A : Type ℓ} (p : M A) (u : List ℕ) (xs : List Access) (a : A)
    → Drives p (u ++ []) (xs ++ []) a
    → Drives p u xs a
Drives-nil p u xs a h m left e =
    let (s, r, same) = h m left (e ∙ ap (λ (l : List ℕ). l ++ left) (sym (append-nil u))) in
    (
      s,
      r ∙ ap (λ (l : List Access). done a (record (after m l left) { screen = s })) (append-nil xs),
      same,
    )

pub debug_write-Drives :
    (format : Bytes) (args : List Arg) (t : Bytes)
    → in_buffer (mini_vsprintf format args) ≡ some t
    → length t ≤ 48
    → Drives (debug_write format args) [] [] tt
debug_write-Drives format args t e short m left e' =
    let (s, r, l) = debug_write_returns m format args t e short in
    (
      s,
      r
          ∙ rw append-nil (
              ap
                (λ (l : List ℕ).
                  done tt (record m { cd = record (m.cd) { replies = l }; screen = s }))
                e'),
      ap (λ o. o.1) (debug_write-OnLog format args m _ tt r),
    )
