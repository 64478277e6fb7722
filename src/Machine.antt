-- ===== src/Machine.antt =====
-- The console as the loader sees it: devices that answer reads and record what is done to them, and
-- the monad in which the loader's functions act on it.
pub mod Sends
pub mod Triple
pub mod Total
use tonyhax.Base.{ℕ, List, [], ◌∷◌, ◌++◌, Option, none, some, Bytes, Memory}

-- One access of the loader to a CD-ROM register: a write, or a read with the value that it gave.
pub data Access : Type 0 where
  write : ℕ → ℕ → Access
  read : ℕ → ℕ → Access

-- The CD-ROM controller: the values that the next reads of its registers give, and the accesses
-- made so far, the first one first.
pub record Cd : Type 0 where
  pub replies : List ℕ
  pub accesses : List Access

-- What the loader asks of the GPU, through the BIOS calls `SendGP1Command`, `GPU_cw`, `GPU_cwp` and
-- `GPU_dw` (the last with its coordinates, its size, and the bytes that it sends).
pub data Command : Type 0 where
  gp1 : ℕ → Command
  gp0 : ℕ → Command
  gp0_list : List ℕ → Command
  load : ℕ → ℕ → ℕ → ℕ → Bytes → Command

-- The GPU and the static variables of loader/debugscreen.c. `status` holds the values that the next
-- reads of `GPU_STAT` and `I_STAT` give; `acknowledged` the values written to `I_STAT`.
pub record Screen : Type 0 where
  pub status : List ℕ
  pub acknowledged : List ℕ
  pub commands : List Command
  pub last_printed_line : Bytes
  pub last_printed_count : ℕ

pub record Machine : Type 0 where
  pub cd : Cd
  pub screen : Screen
  pub mem : Memory

-- A function that has not returned waits for a device that gives no more values, or has made an
-- access or a conversion that C leaves undefined.
pub data Outcome {ℓ} (A : Type ℓ) : Type ℓ where
  done : A → Machine → Outcome A
  waits : Outcome A
  fault : Outcome A

abbrev pub M {ℓ} : Type ℓ → Type ℓ
M A = Machine → Outcome A

abbrev pub pure {ℓ} : {A : Type ℓ} → A → M A
pure a m = done a m

infixl 5 ◌>>=◌ ◌>>◌
abbrev pub ◌>>=◌ {ℓ κ} : {A : Type ℓ} {B : Type κ} → M A → (A → M B) → M B
◌>>=◌ p f m = elim (p m) [ done a m' ↦ f a m' | waits ↦ waits | fault ↦ fault ]

abbrev pub ◌>>◌ {ℓ} : {B : Type ℓ} → M (Unit {0}) → M B → M B
p >> q = p >>= λ _. q

-- A result that C defines, or undefined behaviour.
abbrev pub defined {ℓ} : {A : Type ℓ} → Option A → M A
defined none m = fault
defined (some a) m = done a m

-- What a function of the BIOS or of the hardware registers sends to the GPU.
unfoldable pub send : Command → M (Unit {0})
send c m =
    done tt (record m { screen = record (m.screen) { commands = m.screen.commands ++ c ∷ [] } })
