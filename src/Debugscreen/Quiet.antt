-- ===== src/Debugscreen/Quiet.antt =====
-- Actions that return from every console and leave the GPU's status register alone: the log and the video
-- standard of loader/debugscreen.c.
use tonyhax.Base.{
  ℕ, ◌≤◌, ◌≡◌, refl, ap, ◌∙◌, Bool, true, false, if◌then◌else◌, some, List, Bytes, length, Memory,
}
use tonyhax.Str.{Arg, mini_vsprintf}
use tonyhax.Machine.{Machine, done, M, pure, ◌>>=◌}
use tonyhax.Machine.Total.{Total, >>=-Total}
use tonyhax.Debugscreen.{debug_write, debug_switch_standard, in_buffer}
use tonyhax.Debugscreen.State.{debug_write-OnLog}
use tonyhax.Debugscreen.Repeats.{debug_write_returns}
use tonyhax.Debugscreen.Draws.{debug_switch_standard-Draws}

-- The values that the GPU's status register still gives.
abbrev pub status : Machine → List ℕ
status m = m.screen.status

-- The action returns, and takes no value of the status register.
abbrev pub Quiet {ℓ} : {A : Type ℓ} → M A → Type ℓ
Quiet p = (st : List ℕ) → Total (λ m. status m ≡ st) p (λ a m. status m ≡ st)

pub >>=-Quiet {ℓ κ} :
    {A : Type ℓ} {B : Type κ} (p : M A) (f : A → M B)
    → Quiet p
    → ((a : A) → Quiet (f a))
    → Quiet (p >>= f)
>>=-Quiet p f h k st = >>=-Total p f (h st) (λ a. k a st)

pub pure-Quiet {ℓ} : {A : Type ℓ} (a : A) → Quiet (pure a)
pure-Quiet a st m h = (a, m, refl, h)

pub if-Quiet {ℓ} :
    {A : Type ℓ} (b : Bool) (p q : M A) → Quiet p → Quiet q → Quiet (if b then p else q)
if-Quiet true p q h k = h
if-Quiet false p q h k = k

pub change_mem-Quiet :
    (f : Memory → Memory) → Quiet {0} {A = Unit {0}} (λ m. done tt (record m { mem = f (m.mem) }))
change_mem-Quiet f st m h = (tt, record m { mem = f (m.mem) }, refl, h)

-- A line of the log that fits.
pub debug_write-Quiet :
    (format : Bytes) (args : List Arg) (t : Bytes)
    → in_buffer (mini_vsprintf format args) ≡ some t
    → length t ≤ 48
    → Quiet (debug_write format args)
debug_write-Quiet format args t e short st m h =
    let (s, r, l) = debug_write_returns m format args t e short in
    (tt, record m { screen = s }, r, ap (λ o. o.1) (debug_write-OnLog format args m _ tt r) ∙ h)

pub debug_switch_standard-Quiet : (pal : Bool) → Quiet (debug_switch_standard pal)
debug_switch_standard-Quiet pal st m h =
    let (cs, e) = debug_switch_standard-Draws pal m in (tt, _, e, h)
