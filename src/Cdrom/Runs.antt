-- ===== src/Cdrom/Runs.antt =====
-- Actions on the CD-ROM controller that use up given replies and make given accesses.
use tonyhax.Base.{ℕ, ◌≡◌, refl, sym, ap, ◌∙◌, List, [], ◌∷◌, ◌++◌, append-nil, append_assoc}
use tonyhax.Machine.{Machine, Access, write, done, M, pure, ◌>>=◌}
use tonyhax.Cdrom.{accessed, write_reg}

-- The machine after some accesses, with these replies left.
abbrev pub after : Machine → List Access → List ℕ → Machine
after m done_now left = record m {
  cd = record { replies = left; accesses = m.cd.accesses ++ done_now };
}

pub after-append :
    (m : Machine) (xs ys : List Access) (l l' : List ℕ)
    → after (after m xs l) ys l' ≡ after m (xs ++ ys) l'
after-append m xs ys l l' =
    ap (λ (zs : List Access). record m { cd = record { replies = l'; accesses = zs } })
      (append_assoc m.cd.accesses xs ys)

-- The action makes these accesses, uses up these replies, whatever comes behind them, and returns
-- this result.
abbrev pub Runs {ℓ} : {A : Type ℓ} → M A → List ℕ → List Access → A → Type ℓ
Runs p used made a =
    (m : Machine) (left : List ℕ) → m.cd.replies ≡ used ++ left → p m ≡ done a (after m made left)

pub >>=-Runs {ℓ κ} :
    {A : Type ℓ} {B : Type κ} (p : M A) (f : A → M B) (u u' : List ℕ) (xs ys : List Access) (a : A)
    (b : B)
    → Runs p u xs a
    → Runs (f a) u' ys b
    → Runs (p >>= f) (u ++ u') (xs ++ ys) b
>>=-Runs p f u u' xs ys a b h k m left e =
    rw (h m (u' ++ left) (e ∙ append_assoc u u' left), ◌>>=◌)
      (k (after m xs (u' ++ left)) left refl ∙ ap (done b) (after-append m xs ys (u' ++ left) left))

pub Runs-used {ℓ} :
    {A : Type ℓ} {p : M A} {u u' : List ℕ} {xs : List Access} {a : A}
    → u ≡ u'
    → Runs p u xs a
    → Runs p u' xs a
Runs-used e h m left e' = h m left (e' ∙ ap (λ (l : List ℕ). l ++ left) (sym e))

pub Runs-made {ℓ} :
    {A : Type ℓ} {p : M A} (u : List ℕ) {xs ys : List Access} {a : A}
    → xs ≡ ys
    → Runs p u xs a
    → Runs p u ys a
Runs-made u {a} e h m left e' = h m left e' ∙ ap (λ (zs : List Access). done a (after m zs left)) e

pub pure-Runs {ℓ} : {A : Type ℓ} (a : A) → Runs (pure a) [] [] a
pure-Runs a m left e =
    rw append-nil (ap (λ (r : List ℕ). done a (record m { cd = record (m.cd) { replies = r } })) e)

pub write_reg-Runs : (reg v : ℕ) → Runs (write_reg reg v) [] (write reg v ∷ []) tt
unfolding write_reg
write_reg-Runs reg v m left e = ap (λ (r : List ℕ). done tt (accessed (write reg v) r m)) e
