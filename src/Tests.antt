-- ===== src/Tests.antt =====
-- The theorems applied to concrete inputs: those on data, on SYSTEM.CNF, on devices, on the boot, on
-- the patches and the code that they put into the kernel, on a whole run, and on the antipiracy check.
mod Data
mod Config
mod Devices
mod Boot
mod Patches
mod Code
mod Setup
mod Runs
mod Disc
mod Loading
mod Settings
mod Protection
