-- ===== src/Machine/Triple.antt =====
-- Partial correctness of actions: what holds of the console and of the result when an action returns.
use tonyhax.Base.{◌≡◌, refl, sym, ap, ◌∙◌, Bool, true, false, Option, none, some, if◌then◌else◌}
use tonyhax.Machine.{Machine, Outcome, done, waits, fault, M, pure, ◌>>=◌, ◌>>◌, defined}

abbrev pub Triple {ℓ κ ι} :
    {A : Type ℓ} → (Machine → Type κ) → M A → (A → Machine → Type ι) → Type (ℓ ⊔ κ ⊔ ι)
Triple {A = A} P p Q = (m m' : Machine) (a : A) → P m → p m ≡ done a m' → Q a m'

pub done-injective {ℓ} :
    {A : Type ℓ} {a b : A} {m m' : Machine} → done a m ≡ done b m' → (a ≡ b) × (m ≡ m')
done-injective h = (cc, cc)

outcome_inverts {ℓ κ} :
    {A : Type ℓ} {B : Type κ} (o : Outcome A) (f : A → M B) (b : B) (m' : Machine)
    → elim o [ done a m1 ↦ f a m1 | waits ↦ waits | fault ↦ fault ] ≡ done b m'
    → (a : A) × (m1 : Machine) × (o ≡ done a m1) × (f a m1 ≡ done b m')
outcome_inverts (done a m1) f b m' h = (a, m1, refl, h)
outcome_inverts waits f b m' h = absurd cc
outcome_inverts fault f b m' h = absurd cc

-- A composed action that returns has a state between its parts.
pub bind_inverts {ℓ κ} :
    {A : Type ℓ} {B : Type κ} (p : M A) (f : A → M B) (m m' : Machine) (b : B)
    → (p >>= f) m ≡ done b m'
    → (a : A) × (m1 : Machine) × (p m ≡ done a m1) × (f a m1 ≡ done b m')
bind_inverts p f m m' b h = outcome_inverts (p m) f b m' h

pub pure-Triple {ℓ κ} : {A : Type ℓ} (a : A) (Q : A → Machine → Type κ) → Triple (Q a) (pure a) Q
pure-Triple a Q m m' b q h = let (e, e') = done-injective h in rw (sym e, sym e') q

pub >>=-Triple {ℓ κ ι υ ξ} :
    {A : Type ℓ} {B : Type κ} (p : M A) (f : A → M B) {P : Machine → Type ι}
    {Q : A → Machine → Type υ} {R : B → Machine → Type ξ}
    → Triple P p Q
    → ((a : A) → Triple (Q a) (f a) R)
    → Triple P (p >>= f) R
>>=-Triple p f hp hf m m' b pm h =
    let (a, m1, e, e') = bind_inverts p f m m' b h in hf a m1 m' b (hp m m1 a pm e) e'

pub if-Triple {ℓ κ ι} :
    {A : Type ℓ} (b : Bool) (p q : M A) {P : Machine → Type κ} {Q : A → Machine → Type ι}
    → (b ≡ true → Triple P p Q)
    → (b ≡ false → Triple P q Q)
    → Triple P (if b then p else q) Q
if-Triple true p q h k = h refl
if-Triple false p q h k = k refl

pub defined-Triple {ℓ κ} :
    {A : Type ℓ} (o : Option A) (P : Machine → Type κ)
    → Triple P (defined o) (λ a m. P m × (o ≡ some a))
defined-Triple none P m m' a p h = absurd cc
defined-Triple (some b) P m m' a p h = let (e, e') = done-injective h in (rw (sym e') p, ap some e)

-- What an action leaves alone: a value read from the console before and after it is the same.
abbrev pub Keeps {ℓ κ} : {A : Type ℓ} {B : Type κ} → (Machine → B) → M A → Type (ℓ ⊔ κ)
Keeps f p = (m m' : Machine) (a : _) → p m ≡ done a m' → f m' ≡ f m

pub pure-Keeps {ℓ κ} : {A : Type ℓ} {B : Type κ} (f : Machine → B) (a : A) → Keeps f (pure a)
pure-Keeps f a m m' b h = let (e, e') = done-injective h in ap f (sym e')

pub >>=-Keeps {ℓ κ ι} :
    {A : Type ℓ} {B : Type κ} {C : Type ι} (f : Machine → C) (p : M A) (k : A → M B)
    → Keeps f p
    → ((a : A) → Keeps f (k a))
    → Keeps f (p >>= k)
>>=-Keeps f p k hp hk m m' b h =
    let (a, m1, e, e') = bind_inverts p k m m' b h in hk a m1 m' b e' ∙ hp m m1 a e

pub >>-Keeps {ℓ κ} :
    {B : Type ℓ} {C : Type κ} (f : Machine → C) (p : M (Unit {0})) (q : M B)
    → Keeps f p
    → Keeps f q
    → Keeps f (p >> q)
>>-Keeps f p q hp hq = >>=-Keeps f p (λ _. q) hp (λ _. hq)

pub if-Keeps {ℓ κ} :
    {A : Type ℓ} {C : Type κ} (f : Machine → C) (b : Bool) (p q : M A)
    → Keeps f p
    → Keeps f q
    → Keeps f (if b then p else q)
if-Keeps f true p q h k = h
if-Keeps f false p q h k = k

pub defined-Keeps {ℓ κ} :
    {A : Type ℓ} {C : Type κ} (f : Machine → C) (o : Option A) → Keeps f (defined o)
defined-Keeps f none m m' a h = absurd cc
defined-Keeps f (some b) m m' a h = let (e, e') = done-injective h in ap f (sym e')

-- A triple about an action whose state is not looked at but through something that it keeps.
pub Keeps-Triple {ℓ κ ι} :
    {A : Type ℓ} {C : Type κ} (f : Machine → C) (p : M A) (P : C → Type ι)
    → Keeps f p
    → Triple (λ m. P (f m)) p (λ a m. P (f m))
Keeps-Triple f p P h m m' a pm e = rw (h m m' a e) pm
