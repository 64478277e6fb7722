-- ===== src/Bios/Returns.antt =====
-- `bios_reinitialize` of loader/bios.c returns when the BIOS calls do.
use tonyhax.Base.{
  ℕ, ◌+◌, ◌≤◌, ◌≡◌, refl, arith, true, false, Bool, ◌==◌, if◌then◌else◌, List, [], ◌∷◌, Bytes,
  Memory, load32, store32,
}
use tonyhax.Str.{bzero}
use tonyhax.Str.Clear.{bzero_lem}
use tonyhax.Machine.{Machine, M, pure, ◌>>=◌, ◌>>◌}
use tonyhax.Machine.Total.{Total, >>=-Total}
use tonyhax.Debugscreen.Quiet.{status}
use tonyhax.Gpu.{write_i_stat}
use tonyhax.Rom.{bios_version}
use tonyhax.Rom.Version.{IsString, IsString-below}
use tonyhax.Patcher.{a0_entry, parse_warmboot_jal}
use tonyhax.Bios.{
  default_evcb, default_tcb, default_stacktop, Calls, get_mem, change_mem, console_has_tty,
  bios_copy_relocated_kernel, bios_copy_a0_table, configure_kernel, bios_reinitialize,
}

-- The replies that the drive still gives, the version in the ROM, and the values that the GPU's status
-- register still gives.
pub record Left : Type 0 where
  pub replies : List ℕ
  pub version : Bytes
  pub registers : List ℕ

abbrev pub Has : Left → Machine → Type 0
Has l m =
    (m.cd.replies ≡ l.replies)
    × IsString (m.mem) bios_version (l.version)
    × (status m ≡ l.registers)

-- The action returns, and leaves these alone.
abbrev pub Steady {ℓ} : {A : Type ℓ} → Left → M A → Type ℓ
Steady l p = Total (Has l) p (λ a m. Has l m)

-- The calls of the BIOS that return and touch neither the ROM, the drive, nor the GPU's status register.
pub record Behaves (calls : Calls) (l : Left) : Type 0 where
  pub enters : Steady l (calls.enter_critical_section)
  pub exits : Steady l (calls.exit_critical_section)
  pub calls_rom : (a : ℕ) → Steady l (calls.call_rom a)
  pub inits_vectors : Steady l (calls.init_a0_b0_c0_vectors)
  pub adjusts : Steady l (calls.adjust_a0_table)
  pub installs_handlers : Steady l (calls.install_exception_handlers)
  pub sets_exit : Steady l (calls.set_default_exit_from_exception)
  pub installs_devices : (tty : Bool) → Steady l (calls.install_devices tty)
  pub configures : (event tcb stacktop : ℕ) → Steady l (calls.set_conf event tcb stacktop)
  pub sets_size : (n : ℕ) → Steady l (calls.set_mem_size n)
  pub writes : (v : ℕ) → Steady l (calls.write_tty v)
  pub reads : Steady l (calls.read_tty)

pub >>=-Steady {ℓ κ} :
    {A : Type ℓ} {B : Type κ} (l : Left) (p : M A) (f : A → M B)
    → Steady l p
    → ((a : A) → Steady l (f a))
    → Steady l (p >>= f)
>>=-Steady l p f h k = >>=-Total p f h k

pure-Steady {ℓ} : {A : Type ℓ} (l : Left) (a : A) → Steady l (pure a)
pure-Steady l a m h = (a, m, refl, h)

if-Steady {ℓ} :
    {A : Type ℓ} (l : Left) (b : Bool) (p q : M A)
    → Steady l p
    → Steady l q
    → Steady l (if b then p else q)
if-Steady l true p q h k = h
if-Steady l false p q h k = k

-- A change of memory that leaves the ROM alone.
pub change_mem-Steady :
    (l : Left) (f : Memory → Memory)
    → ((mem : Memory)
        → IsString mem bios_version (l.version)
        → IsString (f mem) bios_version (l.version))
    → Steady l (change_mem f)
change_mem-Steady l f keeps m h =
    (tt, record m { mem = f (m.mem) }, refl, (h.0, keeps (m.mem) h.1, h.2))

store-Steady : (l : Left) (p w : ℕ) → p + 4 ≤ bios_version → Steady l (change_mem (store32 p w))
store-Steady l p w below =
    change_mem-Steady l (store32 p w)
      (λ mem h. IsString-below mem p w bios_version (l.version) below h)

get_mem-Steady : (l : Left) → Steady l get_mem
get_mem-Steady l m h = (m.mem, m, refl, h)

bzero-IsString :
    (start len a : ℕ) (mem : Memory) (t : Bytes)
    → start + len ≤ a
    → IsString mem a t
    → IsString (bzero start len mem) a t
bzero-IsString start len a mem [] below h = ground (arith, bzero_lem len start a mem, h)
bzero-IsString start len a mem (c ∷ t) below h = (
  (ground (arith, bzero_lem len start a mem, h.0)),
  h.1,
  bzero-IsString start len (a + 1) mem t (omega arith) h.2,
)

module _ (calls : Calls) (l : Left) (b : Behaves calls l) where
  console_has_tty-Steady : Steady l (console_has_tty calls)
  unfolding console_has_tty
  console_has_tty-Steady = >>=-Steady l (calls.write_tty 0x55) _ (b.writes 0x55) (λ _.
      >>=-Steady l (calls.write_tty 0xAA) _ (b.writes 0xAA) (λ _.
        >>=-Steady l (calls.read_tty) _ (b.reads) (λ first.
          if-Steady l (first == 0x55) _ _
            (>>=-Steady l (calls.read_tty) _ (b.reads) (λ second. pure-Steady l (second == 0xAA)))
            (pure-Steady l false))))

  rom_call-Steady :
      (n : ℕ) → Steady l (get_mem >>= λ mem. calls.call_rom (parse_warmboot_jal n mem))
  rom_call-Steady n = >>=-Steady l get_mem _ (get_mem-Steady l) (λ mem. b.calls_rom _)

  configure_kernel-Steady : Steady l (configure_kernel calls)
  unfolding configure_kernel
  configure_kernel-Steady = >>=-Steady l get_mem _ (get_mem-Steady l) (λ mem.
      >>=-Steady l (change_mem _) _
        (store-Steady l (a0_entry 0xA2) (calls.fake_enqueue_cd_intr) (omega arith))
        (λ _.
          >>=-Steady l (calls.set_conf default_evcb default_tcb default_stacktop) _
            (b.configures default_evcb default_tcb default_stacktop)
            (λ _. store-Steady l (a0_entry 0xA2) (load32 mem (a0_entry 0xA2)) (omega arith))))

  write_i_stat-Steady : (v : ℕ) → Steady l (write_i_stat v)
  unfolding write_i_stat
  write_i_stat-Steady v m h = (tt, _, refl, h)

  pub bios_reinitialize-Steady : Steady l (bios_reinitialize calls)
  unfolding bios_reinitialize bios_copy_relocated_kernel bios_copy_a0_table
  bios_reinitialize-Steady = >>=-Steady l (calls.enter_critical_section) _ (b.enters) (λ _.
      >>=-Steady l (change_mem _) _
        (change_mem-Steady l (bzero 0xA000E000 0x2000)
          (λ mem h. bzero-IsString 0xA000E000 0x2000 bios_version mem (l.version) (omega arith) h))
        (λ _.
          >>=-Steady l (get_mem >>= λ mem. calls.call_rom (parse_warmboot_jal 12 mem)) _
            (rom_call-Steady 12)
            (λ _.
              >>=-Steady l (get_mem >>= λ mem. calls.call_rom (parse_warmboot_jal 14 mem)) _
                (rom_call-Steady 14)
                (λ _.
                  >>=-Steady l (calls.init_a0_b0_c0_vectors) _ (b.inits_vectors)
                    (λ _. installed)))))
    where
      installed : Steady l (do
        calls.adjust_a0_table
        calls.install_exception_handlers
        calls.set_default_exit_from_exception
        write_i_stat 0
        change_mem (store32 0x1F801074 0)
        tty ← console_has_tty calls
        calls.install_devices tty
        configure_kernel calls
        calls.set_mem_size 8
        calls.exit_critical_section
        mem ← get_mem
        pure (load32 mem (a0_entry 0xA1)))
      installed = >>=-Steady l (calls.adjust_a0_table) _ (b.adjusts) (λ _.
          >>=-Steady l (calls.install_exception_handlers) _ (b.installs_handlers) (λ _.
            >>=-Steady l (calls.set_default_exit_from_exception) _ (b.sets_exit) (λ _.
              >>=-Steady l (write_i_stat 0) _ (write_i_stat-Steady 0) (λ _.
                >>=-Steady l (change_mem _) _ (store-Steady l 0x1F801074 0 (omega arith)) (λ _.
                  >>=-Steady l (console_has_tty calls) _ console_has_tty-Steady (λ tty.
                    >>=-Steady l (calls.install_devices tty) _ (b.installs_devices tty) (λ _.
                      >>=-Steady l (configure_kernel calls) _ configure_kernel-Steady (λ _.
                        >>=-Steady l (calls.set_mem_size 8) _ (b.sets_size 8) (λ _.
                          >>=-Steady l (calls.exit_critical_section) _ (b.exits) (λ _.
                            >>=-Steady l get_mem _ (get_mem-Steady l)
                              (λ mem. pure-Steady l (load32 mem (a0_entry 0xA1)))))))))))))
