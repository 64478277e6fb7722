-- ===== src/Lib.antt =====
-- A model of the loader of tonyhax, the PlayStation software that starts backup discs, with the
-- theorems that make its parts correct.
--
-- The loader is loader/*.c of the repository. Its `start` (loader/secondary.c) clears .bss, checks
-- the image's CRC, and runs `main`, which sets up the screen, unlocks the CD drive and boots the
-- game. Each part is one file here, with child files for its proofs:
--   Crc           loader/crc.c: `crc32`.
--   Integrity     loader/integrity.c: `integrity_test`, and `start` up to `main`; uses Crc and Str.
--   Str           loader/str.c: `isspace`, `bzero`, `mini_vsprintf`, `mini_sprintf`.
--   Libc          the string functions of loader/str.h that the BIOS provides, as C defines them.
--   Machine       the devices and the monad of the functions that act on them.
--   Gpu           loader/gpu.c and gpu.h: each operation sends a packet to the GPU.
--   Debugscreen   loader/debugscreen.c: font, text, log; uses Gpu, Str and Libc.
--   Cdrom         loader/cdrom.c: the commands and replies of the CD-ROM controller.
--   Rom           the ROM's version: part of loader/bios.c, and `log_bios_version`.
--   Unlock        `unlock_drive`, `backdoor_cmd` and `wait_lid_status` of loader/secondary.c; uses
--                 Cdrom and Debugscreen.
--   Exe           `exe_file_okay` of loader/secondary.c.
--   Patcher       loader/patcher.c, and the two functions of loader/bios.c that read kernel code.
--   Bios          the rest of loader/bios.c, over what the BIOS calls do; uses Patcher.
--   Boot          `try_boot_cd` of loader/secondary.c, over the BIOS calls for files; uses Cfgparse, Rom,
--                 Unlock, Exe, Patcher and Bios.
--   Main          `main` and `start` of loader/secondary.c, which compose all the parts.
--   Cpu           the instructions that the assembly uses.
--   Patches       loader/patch-ap.S, patch-fpb.S and patch-vandal-hearths-2.S, which loader/patcher.c puts
--                 into the kernel; uses Cpu and, for what is installed, Patcher.
--   Uart          loader/patch-uart.S, the replacement of the kernel's putc.
--   Stubs         loader/bios-asm.S, by which the C code calls the BIOS, and the calls that bios.h documents.
--   Antipiracy    docs/ap_v2.c: the check of the disc that games run.
--   Util, Audio   loader/util.c over Gpu, and loader/audio.c.
--   Cfgparse      loader/cfgparse.c: SYSTEM.CNF; uses Str, Libc and Debugscreen.
--   Base          numbers, machine words, bits, lists and memory; Tests applies the theorems.
--
-- A word of the console is a natural number, with its wrap-around written out. A string is the
-- list of its bytes without the NUL, memory a function from addresses to bytes. An operation of a
-- device is a function from the machine to an outcome: a result with the new machine, a wait for a
-- device that gives no more values, or a fault, where C leaves the behaviour undefined (a write
-- behind a buffer, a missing argument). The controller's registers give a list of replies, and the
-- accesses are recorded in order; the GPU's commands are recorded in order. What the GPU does with a
-- command is an interface (Debugscreen.Display.Display) that a theorem takes as a parameter.
--
-- Loops are structural: over the bytes left, the values that a polled register gives, or the rounds
-- left; `boot_loop`, the endless loop of `main`, over the rounds that are looked at, of which a theorem
-- takes any number, as `passes`, the loop of `antipiracy_main`, does. Two are on fuel. `search_lines`,
-- the loop of `find_wanted`, has one round for each byte of the text and one more, which is enough,
-- since each round drops a line with its line feed. `lid_loop`, the loop of `wait_lid_status`, has one
-- round for each reply there and one more, which is enough, since each round polls a register at least
-- twice.
--
-- The BIOS function `todigit` is a parameter, with what loader/bios.h documents of it as a
-- hypothesis. The other BIOS calls are parameters that may change the machine in any way
-- (`Bios.Calls`, `Boot.Files`). What the kernel does at a system call (`enter_critical_section`) is one
-- too. The assembled patches as bytes (`Patcher.Blobs`), the tables that the BIOS returns, the version and the
-- orca image are parameters too. Memory has no mirrors: an address is a place of its own. `va_list`
-- is the list of the arguments left.
--
-- The assembly is modelled label by label. That the bytes in `Blobs` are the code of Patches is assumed. The
-- assembler fills the delay slots, so a branch takes effect at once; an instruction traps on an address
-- that is not aligned or has no memory (`mapped`, a part of the CPU's state) and on a sum that overflows.
-- A wait for the timer in Uart goes over the values that the timer's register still gives.
--
-- Not modelled are timing, the delay loop at the end of
-- `cd_drive_reset`, and what a C compiler may do with undefined behaviour beyond the fault.
--
-- Not modelled: the branch of `main` for SOFTUART_PATCH, which variables.mk turns off; the
-- entrypoints and the build scripts; what docs/ap_v2.c leaves out after step 9.
pub mod Base
pub mod Crc
pub mod Str
pub mod Integrity
pub mod Machine
pub mod Gpu
pub mod Util
pub mod Audio
pub mod Libc
pub mod Debugscreen
pub mod Cdrom
pub mod Cfgparse
pub mod Rom
pub mod Unlock
pub mod Exe
pub mod Patcher
pub mod Bios
pub mod Boot
pub mod Main
pub mod Antipiracy
pub mod Cpu
pub mod Patches
pub mod Uart
pub mod Stubs
pub mod Tests
