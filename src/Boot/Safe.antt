-- ===== src/Boot/Safe.antt =====
-- What `try_boot_cd` of loader/secondary.c has done when it calls `DoExecute`.
use tonyhax.Base.{ℕ, ◌+◌, ◌%◌, ◌<◌, ◌≡◌, sym, true, false, List, u32, Bytes, Memory}
use tonyhax.Str.{Arg}
use tonyhax.Machine.{Machine, done, M, pure, ◌>>=◌}
use tonyhax.Machine.Triple.{Triple, >>=-Triple, done-injective}
use tonyhax.Integrity.{ro_start}
use tonyhax.Exe.{ExeOffsets}
use tonyhax.Exe.Segments.{in_ram}
use tonyhax.Boot.{
  Files, Ending, returned, by_bios, by_loader, is_negative, header_at, patch_header, offsets_at,
}
use tonyhax.Boot.Disc.{give_up}

-- `unpatched` was the memory when the header had been read, `before` the console when the executable
-- was about to be.
pub record Loads (files : Files) (address : ℕ) : Type 0 where
  pub before : Machine
  pub after : Machine
  pub unpatched : Memory
  pub buffer : ℕ
  pub exe_fcb : ℕ
  pub stacktop : ℕ
  pub fd : ℕ
  pub count : ℕ
  pub header : ExeOffsets
  pub is_offsets : address ≡ offsets_at buffer
  pub is_patched : before.mem ≡ patch_header buffer exe_fcb stacktop unpatched
  pub is_header : (header_at buffer before.mem).offsets ≡ header
  pub load_in_ram : in_ram (u32 header.load_addr) ≡ true
  pub pc_in_ram : in_ram (u32 header.initial_pc) ≡ true
  pub pc_aligned : u32 header.initial_pc % 4 ≡ 0
  pub below : u32 (header.load_addr + header.load_size) < ro_start
  pub is_read : files.file_read fd header.load_addr header.load_size before ≡ done count after
  pub succeeds : is_negative count ≡ false

abbrev pub Sound : Files → Ending → Type 0
Sound files returned = Unit {0}
Sound files (by_bios bootfile) = Unit {0}
Sound files (by_loader address) = Loads files address

abbrev pub Any : Machine → Type 0
Any m = Unit {0}

-- Every ending of the action is sound.
abbrev pub Safe : Files → M Ending → Type 0
Safe files p = Triple Any p (λ e m. Sound files e)

pub after-Safe {ℓ} :
    {A : Type ℓ} (files : Files) (p : M A) (f : A → M Ending)
    → ((a : A) → Safe files (f a))
    → Safe files (p >>= f)
after-Safe files p f h = >>=-Triple p f {Q = λ a m. Unit {0}} (λ m m' a u e. tt) h

pub pure-Safe : (files : Files) (e : Ending) → Sound files e → Safe files (pure e)
pure-Safe files e s m m' e' u h = let (same, same') = done-injective h in rw (sym same) s

pub give_up-Safe :
    (files : Files) (format : Bytes) (args : List Arg) → Safe files (give_up format args)
unfolding give_up
give_up-Safe files format args = after-Safe files _ _ (λ u. pure-Safe files returned tt)
