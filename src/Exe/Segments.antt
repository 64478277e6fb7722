-- ===== src/Exe/Segments.antt =====
-- Which executables `exe_file_okay` of loader/secondary.c accepts.
use tonyhax.Base.{
  ℕ, ◌+◌, ◌*◌, ◌/◌, ◌%◌, ◌^◌, ◌≤◌, ◌<◌, ◌≡◌, refl, sym, ap, ◌∙◌, u32, arith, bit_and, Bool, true,
  false, not, ◌&&◌, ◌||◌, some, [], ◌==◌, Bytes, codes, length, Bool-cases, inl, inr,
}
use tonyhax.Base.Bits.{bit_and_fields, bit_and_mask, bit_and-zero}
use tonyhax.Str.{mini_vsprintf, vsprintf_loop}
use tonyhax.Libc.{strncmp_zero}
use tonyhax.Machine.{Machine, Screen, done, M, pure, ◌>>=◌, ◌>>◌}
use tonyhax.Debugscreen.{debug_write, in_buffer}
use tonyhax.Machine.Triple.{done-injective, pure-Keeps, >>-Keeps, if-Keeps}
use tonyhax.Debugscreen.State.{off_log, OnLog, debug_write-OnLog}
use tonyhax.Debugscreen.Repeats.{debug_write_returns}
use tonyhax.Exe.{
  ExeOffsets, ExeHeader, outside, warn_signature, check_pc, check_addresses, exe_file_okay,
}

-- The address lies in the first 8 MiB of one of the segments at 0, 0x80000000 and 0xA0000000.
abbrev pub in_ram : ℕ → Bool
in_ram a = a / 2 ^ 23 == 0 || a / 2 ^ 23 == 256 || a / 2 ^ 23 == 320

base_mask : (a : ℕ) → a < 2 ^ 32 → bit_and a 0xFF800000 ≡ a / 2 ^ 23 * 2 ^ 23
base_mask a h =
    let parts : a ≡ a / 2 ^ 23 * 2 ^ 23 + a % 2 ^ 23 = omega arith in
    ap (λ t. bit_and t 0xFF800000) parts
    ∙ bit_and_fields 23 (a / 2 ^ 23) 511 (a % 2 ^ 23) 0 (omega arith) (omega arith)
    ∙ omega (arith, bit_and_mask 9 (a / 2 ^ 23), bit_and-zero (a % 2 ^ 23))

pc_mask : (a : ℕ) → a < 2 ^ 32 → bit_and a 0xFF800003 ≡ a / 2 ^ 23 * 2 ^ 23 + a % 4
pc_mask a h =
    let parts : a ≡ a / 2 ^ 23 * 2 ^ 23 + a % 2 ^ 23 = omega arith in
    ap (λ t. bit_and t 0xFF800003) parts
    ∙ bit_and_fields 23 (a / 2 ^ 23) 511 (a % 2 ^ 23) 3 (omega arith) (omega arith)
    ∙ omega (arith, bit_and_mask 9 (a / 2 ^ 23), bit_and_mask 2 (a % 2 ^ 23))

outside-load : (a : ℕ) → a < 2 ^ 32 → outside (bit_and a 0xFF800000) ≡ not (in_ram a)
outside-load a h = rw (base_mask a h) (ground arith)

outside-pc : (a : ℕ) → a < 2 ^ 32 → outside (bit_and a 0xFF800003) ≡ not (in_ram a && a % 4 == 0)
outside-pc a h = rw (pc_mask a h) (ground arith)

-- The action returns this result and changes nothing but the screen.
abbrev Logs {ℓ} : {A : Type ℓ} → M A → A → Type ℓ
Logs p a = (m : Machine) → (s : Screen) × (p m ≡ done a (record m { screen = s }))

>>-Logs {ℓ} :
    {A : Type ℓ} (p : M (Unit {0})) (q : M A) (a : A) → Logs p tt → Logs q a → Logs (p >> q) a
>>-Logs p q a h k m =
    let (s, r) = h m in let (s', r') = k (record m { screen = s }) in (s', rw (r, ◌>>=◌) r')

pure-Logs {ℓ} : {A : Type ℓ} (a : A) → Logs (pure a) a
pure-Logs a m = (m.screen, refl)

debug_write-Logs :
    (format : Bytes)
    → in_buffer (mini_vsprintf format []) ≡ some format
    → length format ≤ 48
    → Logs (debug_write format []) tt
debug_write-Logs format e short m =
    let (s, r, l) = debug_write_returns m format [] format e short in (s, r)

warn_signature-Logs : (header : ExeHeader) → Logs (warn_signature header) tt
unfolding warn_signature in_buffer mini_vsprintf vsprintf_loop
warn_signature-Logs header =
    elim (Bool-cases (strncmp_zero (header.signature) (codes "PS-X EXE") 8)) [
      | inl same ↦ rw same (pure-Logs tt)
      | inr differs ↦
          rw differs
            (debug_write-Logs (codes "Warning: header has invalid signature") refl (omega arith))
    ]

check_pc-Logs :
    (header : ExeHeader)
    → header.offsets.initial_pc < 2 ^ 32
    → Logs
        (check_pc header)
        (in_ram (header.offsets.initial_pc) && header.offsets.initial_pc % 4 == 0)
unfolding check_pc in_buffer mini_vsprintf vsprintf_loop
check_pc-Logs header h =
    elim (Bool-cases (in_ram (header.offsets.initial_pc) && header.offsets.initial_pc % 4 == 0)) [
      | inl ok ↦ rw (outside-pc (header.offsets.initial_pc) h, ok) (pure-Logs true)
      | inr bad ↦
          rw (outside-pc (header.offsets.initial_pc) h, bad)
            (>>-Logs _ _ false
              (debug_write-Logs (codes "Error: header has an invalid start address") refl
                (omega arith))
              (pure-Logs false))
    ]

check_addresses-Logs :
    (header : ExeHeader)
    → header.offsets.initial_pc < 2 ^ 32
    → header.offsets.load_addr < 2 ^ 32
    → Logs (check_addresses header) (
        in_ram (header.offsets.load_addr)
        && (in_ram (header.offsets.initial_pc) && header.offsets.initial_pc % 4 == 0))
unfolding check_addresses in_buffer mini_vsprintf vsprintf_loop
check_addresses-Logs header h h' = elim (Bool-cases (in_ram (header.offsets.load_addr))) [
  | inl ok ↦ rw (outside-load (header.offsets.load_addr) h', ok) (check_pc-Logs header h)
  | inr bad ↦
      rw (outside-load (header.offsets.load_addr) h', bad)
        (>>-Logs _ _ false
          (debug_write-Logs (codes "Error: header has an invalid load address") refl (omega arith))
          (pure-Logs false))
]

-- `exe_file_okay` accepts exactly the executables whose load address and start address lie in the first 8
-- MiB of one of the segments at 0, 0x80000000 and 0xA0000000, with a start address divisible by four. A
-- wrong signature is only logged, and nothing changes but the screen.
pub exe_file_okay_lem :
    (header : ExeHeader) (m : Machine)
    → header.offsets.initial_pc < 2 ^ 32
    → header.offsets.load_addr < 2 ^ 32
    → (s : Screen) × (exe_file_okay header m
        ≡ done
            (in_ram (header.offsets.load_addr)
              && (in_ram (header.offsets.initial_pc) && header.offsets.initial_pc % 4 == 0))
            (record m { screen = s }))
unfolding exe_file_okay
exe_file_okay_lem header m h h' =
    >>-Logs (warn_signature header) (check_addresses header) _ (warn_signature-Logs header)
      (check_addresses-Logs header h h') m

-- The masks look at the low 32 bits only.
mask_u32 : (a mask : ℕ) → mask < 2 ^ 32 → bit_and a mask ≡ bit_and (u32 a) mask
mask_u32 a mask h =
    let parts : a ≡ a / 2 ^ 32 * 2 ^ 32 + u32 a = omega arith in
    ap (λ t. bit_and t mask) parts
    ∙ ap (λ t. bit_and (a / 2 ^ 32 * 2 ^ 32 + u32 a) t) (omega arith)
    ∙ bit_and_fields 32 (a / 2 ^ 32) 0 (u32 a) mask (omega arith) h
    ∙ omega (arith, bit_and-zero (a / 2 ^ 32))

words : ExeHeader → ExeHeader
words header = record header {
  offsets = record (header.offsets) {
    initial_pc = u32 (header.offsets.initial_pc);
    load_addr = u32 (header.offsets.load_addr);
  };
}

exe_file_okay-words :
    (header : ExeHeader) (m : Machine) → exe_file_okay header m ≡ exe_file_okay (words header) m
unfolding exe_file_okay warn_signature check_addresses check_pc words
exe_file_okay-words header m =
    rw
      (
        mask_u32 (header.offsets.load_addr) 0xFF800000 (omega arith),
        mask_u32 (header.offsets.initial_pc) 0xFF800003 (omega arith),
      )
      refl

warn_signature-OnLog : (header : ExeHeader) → OnLog (warn_signature header)
unfolding warn_signature
warn_signature-OnLog header =
    if-Keeps off_log (not (strncmp_zero (header.signature) (codes "PS-X EXE") 8)) _ _
      (debug_write-OnLog _ _) (pure-Keeps off_log tt)

check_pc-OnLog : (header : ExeHeader) → OnLog (check_pc header)
unfolding check_pc
check_pc-OnLog header =
    if-Keeps off_log (outside (bit_and (header.offsets.initial_pc) 0xFF800003)) _ _
      (>>-Keeps off_log (debug_write _ _) _ (debug_write-OnLog _ _) (pure-Keeps off_log false))
      (pure-Keeps off_log true)

check_addresses-OnLog : (header : ExeHeader) → OnLog (check_addresses header)
unfolding check_addresses
check_addresses-OnLog header =
    if-Keeps off_log (outside (bit_and (header.offsets.load_addr) 0xFF800000)) _ _
      (>>-Keeps off_log (debug_write _ _) _ (debug_write-OnLog _ _) (pure-Keeps off_log false))
      (check_pc-OnLog header)

pub exe_file_okay-OnLog : (header : ExeHeader) → OnLog (exe_file_okay header)
unfolding exe_file_okay
exe_file_okay-OnLog header =
    >>-Keeps off_log (warn_signature header) (check_addresses header) (warn_signature-OnLog header)
      (check_addresses-OnLog header)

-- What the low 32 bits of the two addresses decide.
abbrev pub accepts : ExeOffsets → Bool
accepts o =
    in_ram (u32 (o.load_addr)) && (in_ram (u32 (o.initial_pc)) && u32 (o.initial_pc) % 4 == 0)

-- Every call returns, and decides by the low 32 bits of the two addresses.
pub exe_file_okay_decides :
    (header : ExeHeader) (m : Machine)
    → (s : Screen) × (exe_file_okay header m
        ≡ done (accepts (header.offsets)) (record m { screen = s }))
unfolding words
exe_file_okay_decides header m =
    let (s, r) = exe_file_okay_lem (words header) m (omega arith) (omega arith) in
    (s, exe_file_okay-words header m ∙ r)

-- A call that returns has decided by the low 32 bits of the two addresses, and has only drawn.
pub exe_file_okay_returns :
    (header : ExeHeader) (m m' : Machine) (okay : Bool)
    → exe_file_okay header m ≡ done okay m'
    → (okay ≡ (
        in_ram (u32 (header.offsets.load_addr))
        && (in_ram (u32 (header.offsets.initial_pc)) && u32 (header.offsets.initial_pc) % 4 == 0)))
      × (off_log m' ≡ off_log m)
exe_file_okay_returns header m m' okay e =
    let (s, r) = exe_file_okay_decides header m in
    let (e', e'') = done-injective (sym e ∙ r) in (e', exe_file_okay-OnLog header m m' okay e)
