-- ===== src/Machine/Total.antt =====
-- Total correctness of actions: from a console with the precondition the action returns, and what holds
-- then.
use tonyhax.Base.{◌≡◌, refl}
use tonyhax.Machine.{Machine, done, M, pure, ◌>>=◌}
use tonyhax.Machine.Triple.{Keeps}

abbrev pub Total {ℓ κ ι} :
    {A : Type ℓ} → (Machine → Type κ) → M A → (A → Machine → Type ι) → Type (ℓ ⊔ κ ⊔ ι)
Total {A = A} P p Q = (m : Machine) → P m → (a : A) × (m' : Machine) × (p m ≡ done a m') × Q a m'

pub pure-Total {ℓ κ} : {A : Type ℓ} (a : A) (Q : A → Machine → Type κ) → Total (Q a) (pure a) Q
pure-Total a Q m q = (a, m, refl, q)

pub >>=-Total {ℓ κ ι υ ξ} :
    {A : Type ℓ} {B : Type κ} (p : M A) (f : A → M B) {P : Machine → Type ι}
    {Q : A → Machine → Type υ} {R : B → Machine → Type ξ}
    → Total P p Q
    → ((a : A) → Total (Q a) (f a) R)
    → Total P (p >>= f) R
>>=-Total p f hp hf m pm =
    let (a, m1, e, q) = hp m pm in let (b, m', e', r) = hf a m1 q in (b, m', rw (e, ◌>>=◌) e', r)

-- An action that returns from every console, and keeps what the condition looks at.
pub kept-Total {ℓ κ ι} :
    {A : Type ℓ} {C : Type κ} (f : Machine → C) (p : M A) (P : C → Type ι)
    → ((m : Machine) → (a : A) × (m' : Machine) × (p m ≡ done a m'))
    → Keeps f p
    → Total (λ m. P (f m)) p (λ a m. P (f m))
kept-Total f p P returns keeps m pm =
    let (a, m', e) = returns m in (a, m', e, rw (keeps m m' a e) pm)
