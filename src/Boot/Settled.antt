-- ===== src/Boot/Settled.antt =====
-- `try_boot_cd` of loader/secondary.c settles on its settings, with or without a SYSTEM.CNF.
use tonyhax.Base.{
  leb, if◌then◌else◌, ℕ, suc, ◌+◌, ◌<◌, ◌≡◌, ◌∙◌, refl, ap, arith, true, false, some, Option, List,
  [], Bytes, codes, length, Memory, store8,
}
use tonyhax.Str.{mini_vsprintf, vsprintf_loop}
use tonyhax.Machine.{Machine, done, M, pure, ◌>>=◌}
use tonyhax.Machine.Total.{Total, >>=-Total}
use tonyhax.Debugscreen.{debug_write, in_buffer}
use tonyhax.Debugscreen.Quiet.{status, debug_write-Quiet}
use tonyhax.Cfgparse.HexValue.{Documented}
use tonyhax.Rom.{string_at}
use tonyhax.Bios.{get_mem, change_mem}
use tonyhax.Boot.{Files, file_read_mode, fileerr_not_found, is_negative}
use tonyhax.Boot.Config.{
  Settings, default_settings, parse_settings, read_settings, missing_settings, load_settings,
}
use tonyhax.Boot.Lookup.{NumberLine, WordLine, number_of, parse_settings_lem}

-- `config` is the text in the buffer, once a NUL stands behind its `count` bytes.
abbrev pub HasText : ℕ → Bytes → ℕ → Memory → Type 0
HasText buffer config count mem =
    string_at (suc count) buffer (store8 (buffer + count) 0 mem) ≡ config

-- The disc has no SYSTEM.CNF: it cannot be opened, and the error is `FILEERR_NOT_FOUND`.
pub record Lacks (files : Files) (st : List ℕ) : Type 0 where
  pub opens_file :
      Total
        (λ m. status m ≡ st)
        (files.file_open (codes "cdrom:SYSTEM.CNF;1") file_read_mode)
        (λ n m. (is_negative n ≡ true) × (status m ≡ st))
  pub fails :
      Total
        (λ m. status m ≡ st)
        (files.get_last_error)
        (λ n m. (n ≡ fileerr_not_found) × (status m ≡ st))

-- The BIOS reads this SYSTEM.CNF without an error, and it is still in the buffer when the file is closed.
pub record Reads (files : Files) (buffer : ℕ) (st : List ℕ) (config : Bytes) : Type 0 where
  pub fd : ℕ
  pub count : ℕ
  pub opens : is_negative fd ≡ false
  pub whole : is_negative count ≡ false
  pub opens_file :
      Total
        (λ m. status m ≡ st)
        (files.file_open (codes "cdrom:SYSTEM.CNF;1") file_read_mode)
        (λ n m. (n ≡ fd) × (status m ≡ st))
  pub reads_text :
      Total
        (λ m. status m ≡ st)
        (files.file_read fd buffer 2048)
        (λ n m. (n ≡ count) × HasText buffer config count (m.mem) × (status m ≡ st))
  pub closes :
      Total
        (λ m. HasText buffer config count (m.mem) × (status m ≡ st))
        (files.file_close fd)
        (λ u m. HasText buffer config count (m.mem) × (status m ≡ st))

-- The settings of a disc without SYSTEM.CNF, and of one with a SYSTEM.CNF that sets all four.
pub data Configures (files : Files) (buffer : ℕ) (st : List ℕ) : Settings → Type 0 where
  by_default : Lacks files st → Configures files buffer st default_settings
  by_file :
      (config : Bytes)
      → Reads files buffer st config
      → (tcb : NumberLine config (codes "TCB")) (event : NumberLine config (codes "EVENT"))
        (stack : NumberLine config (codes "STACK")) (boot : WordLine config (codes "BOOT"))
      → Documented (files.todigit)
      → length (boot.word) < 32
      → Configures files buffer st (record {
        tcb = number_of tcb;
        event = number_of event;
        stacktop = number_of stack;
        bootfile = boot.word;
      })

-- A name that fits into `bootfilebuf`.
within {ℓ} : {A : Type ℓ} (n : ℕ) (x y : A) → n < 32 → (if leb 32 n then x else y) ≡ y
within n x y h = ground arith

pub Configures-short :
    (files : Files) (buffer : ℕ) (st : List ℕ) (s : Settings)
    → Configures files buffer st s
    → length (s.bootfile) < 32
unfolding default_settings
Configures-short files buffer st _ (Configures.by_default lacks) = omega arith
Configures-short files buffer st _
      (Configures.by_file config reads tcb event stack boot documented short) =
    short

module _ (files : Files) (buffer : ℕ) (st : List ℕ) where
  missing_settings-Total :
      Lacks files st
      → Total
          (λ m. status m ≡ st)
          (missing_settings files)
          (λ o m. (o ≡ some default_settings) × (status m ≡ st))
  unfolding missing_settings in_buffer mini_vsprintf vsprintf_loop
  missing_settings-Total lacks = >>=-Total (files.get_last_error) _ (lacks.fails) (λ code m h.
      rw (h.0) (
        >>=-Total (debug_write (codes "Not found") []) (λ u. pure (some default_settings))
          (debug_write-Quiet _ [] (codes "Not found") refl (omega arith) st)
          (λ u m1 h1. (some default_settings, m1, refl, (refl, h1))) m (h.1)))

  parsed-Total :
      (config : Bytes) (s : Settings)
      → ((m : Machine) → parse_settings files config m ≡ done s m)
      → Total
          (λ m. status m ≡ st)
          (do settings ← parse_settings files config; pure (some settings))
          (λ o m. (o ≡ some s) × (status m ≡ st))
  parsed-Total config s parses =
      >>=-Total (parse_settings files config) (λ settings. pure (some settings))
        {Q = λ t m. (t ≡ s) × (status m ≡ st)} (λ m h. (s, m, parses m, (refl, h)))
        (λ t m h. (some t, m, refl, (ap some (h.0), h.1)))

  read_settings-Total :
      (config : Bytes) (s : Settings) (reads : Reads files buffer st config)
      → ((m : Machine) → parse_settings files config m ≡ done s m)
      → Total
          (λ m. HasText buffer config (reads.count) (m.mem) × (status m ≡ st))
          (read_settings files buffer (reads.fd) (reads.count))
          (λ o m. (o ≡ some s) × (status m ≡ st))
  unfolding read_settings
  read_settings-Total config s reads parses = rw (reads.whole) (
      >>=-Total (files.file_close (reads.fd)) _ (reads.closes) (λ u.
        >>=-Total (change_mem (store8 (buffer + reads.count) 0)) _
          {Q = λ u m. (string_at (suc (reads.count)) buffer (m.mem) ≡ config) × (status m ≡ st)}
          (λ m h. (tt, record m { mem = store8 (buffer + reads.count) 0 (m.mem) }, refl, h))
          (λ u.
            >>=-Total get_mem
              (λ mem. do
                settings ← parse_settings files (string_at (suc (reads.count)) buffer mem)
                pure (some settings))
              {Q = λ mem m. (string_at (suc (reads.count)) buffer mem ≡ config) × (status m ≡ st)}
              (λ m h. (m.mem, m, refl, h))
              (λ mem m h. rw (h.0) (parsed-Total config s parses m (h.1))))))

  pub load_settings-Total :
      (s : Settings)
      → Configures files buffer st s
      → Total
          (λ m. status m ≡ st)
          (load_settings files buffer)
          (λ o m. (o ≡ some s) × (status m ≡ st))
  unfolding load_settings in_buffer mini_vsprintf vsprintf_loop
  load_settings-Total s c =
      >>=-Total (debug_write (codes "Loading SYSTEM.CNF") []) _
        (debug_write-Quiet _ [] (codes "Loading SYSTEM.CNF") refl (omega arith) st)
        (λ u. from_open s c)
    where
      opened : M (Option Settings)
      opened = do
        fd ← files.file_open (codes "cdrom:SYSTEM.CNF;1") file_read_mode
        if is_negative fd
            then missing_settings files
            else (do count ← files.file_read fd buffer 2048; read_settings files buffer fd count)

      from_open :
          (s : Settings)
          → Configures files buffer st s
          → Total (λ m. status m ≡ st) opened (λ o m. (o ≡ some s) × (status m ≡ st))
      from_open _ (Configures.by_default lacks) =
          >>=-Total (files.file_open (codes "cdrom:SYSTEM.CNF;1") file_read_mode) _
            (lacks.opens_file) (λ fd m h. rw (h.0) (missing_settings-Total lacks m (h.1)))
      from_open _ (Configures.by_file config reads tcb event stack boot documented short) =
          >>=-Total (files.file_open (codes "cdrom:SYSTEM.CNF;1") file_read_mode) _
            (reads.opens_file)
            (λ fd m h.
              rw (h.0, reads.opens)
                (>>=-Total (files.file_read (reads.fd) buffer 2048)
                  (λ count. read_settings files buffer (reads.fd) count) (reads.reads_text)
                  (λ count m1 h1. rw (h1.0) (
                    read_settings-Total config _ reads
                      (λ m2.
                        parse_settings_lem files config m2 tcb event stack boot documented
                        ∙ within (length (boot.word)) _ _ short)
                      m1 (h1.1, h1.2)))
                  m (h.1)))
