-- ===== src/Boot/Header.antt =====
-- The header of the executable after `try_boot_cd` of loader/secondary.c has patched it.
use tonyhax.Base.{
  ◌<◌, if◌then◌else◌, store32-outside, ℕ, ◌+◌, ◌-◌, ◌^◌, ◌∙◌, inl, inr, Bool-cases, ltb, ◌⊎◌, ◌≤◌,
  ◌≡◌, refl, arith, u32, Memory, load32, store32,
}
use tonyhax.Boot.{cap_load_size, patch_header}

-- The file's size without its first 2048 bytes, as `uint32_t`: it wraps around for a smaller file.
abbrev pub room_of : ℕ → ℕ
room_of size = u32 (size + (2 ^ 32 - 2048))

load32-store32-u32 : (a w : ℕ) (mem : Memory) → load32 (store32 a w mem) a ≡ u32 w
load32-store32-u32 a w mem = ground arith

load32-store32_apart :
    (a b w : ℕ) (mem : Memory)
    → (b + 4 ≤ a) ⊎ (a + 4 ≤ b)
    → load32 (store32 a w mem) b ≡ load32 mem b
load32-store32_apart a b w mem h = ground arith

-- The size that `cap_load_size` leaves.
cap_load_size_lem :
    (header size : ℕ) (mem : Memory)
    → load32 (cap_load_size header (u32 size) mem) (header + 0x1C) ≡ (
        if ltb (u32 size) (load32 mem (header + 0x1C))
        then u32 size
        else load32 mem (header + 0x1C))
unfolding cap_load_size
cap_load_size_lem header size mem =
    elim (Bool-cases (ltb (u32 size) (load32 mem (header + 0x1C)))) [
      | inl larger ↦ rw larger (load32-store32-u32 (header + 0x1C) (u32 size) mem ∙ omega arith)
      | inr fits ↦ rw fits refl
    ]

cap_load_size_keeps :
    (header size b : ℕ) (mem : Memory)
    → (b < header + 0x1C) ⊎ (header + 0x20 ≤ b)
    → cap_load_size header size mem b ≡ mem b
unfolding cap_load_size
cap_load_size_keeps header size b mem h =
    elim (Bool-cases (ltb size (load32 mem (header + 0x1C)))) [
      | inl larger ↦ rw larger (store32-outside (header + 0x1C) size b mem (ground (arith, h)))
      | inr fits ↦ rw fits refl
    ]

cap_load_size_apart :
    (header size b : ℕ) (mem : Memory)
    → header + 0x20 ≤ b
    → load32 (cap_load_size header size mem) b ≡ load32 mem b
unfolding cap_load_size
cap_load_size_apart header size b mem h =
    elim (Bool-cases (ltb size (load32 mem (header + 0x1C)))) [
      | inl larger ↦ rw larger (load32-store32_apart (header + 0x1C) b size mem (inr (omega arith)))
      | inr fits ↦ rw fits refl
    ]

-- The header after the patches: its stack is the given one with no offset. The size to load is the smaller of
-- the one in the header and the size of the file in the file control block without the header's 2048 bytes; the
-- latter is taken modulo 2 ^ 32, so a file of fewer than 2048 bytes leaves nearly every size alone. No other
-- byte changes. This is for a file control block whose size stands apart from the header's stack.
pub patch_header_lem :
    (header exe_fcb stacktop b : ℕ) (mem : Memory)
    → (exe_fcb + 0x24 ≤ header + 0x30) ⊎ (header + 0x38 ≤ exe_fcb + 0x20)
    → (b < header + 0x1C) ⊎ (header + 0x20 ≤ b)
    → (b < header + 0x30) ⊎ (header + 0x38 ≤ b)
    → (load32 (patch_header header exe_fcb stacktop mem) (header + 0x30) ≡ u32 stacktop)
      × (load32 (patch_header header exe_fcb stacktop mem) (header + 0x34) ≡ 0)
      × (load32 (patch_header header exe_fcb stacktop mem) (header + 0x1C) ≡ (
          if ltb (room_of (load32 mem (exe_fcb + 0x20))) (load32 mem (header + 0x1C))
          then room_of (load32 mem (exe_fcb + 0x20))
          else load32 mem (header + 0x1C)))
      × (patch_header header exe_fcb stacktop mem b ≡ mem b)
unfolding patch_header
patch_header_lem header exe_fcb stacktop b mem h size_apart stack_apart =
    let based = store32 (header + 0x30) stacktop mem in
    let stacked = store32 (header + 0x34) 0 based in
    let size = load32 stacked (exe_fcb + 0x20) + (2 ^ 32 - 2048) in
    let same : load32 stacked (exe_fcb + 0x20) ≡ load32 mem (exe_fcb + 0x20) =
      load32-store32_apart (header + 0x34) (exe_fcb + 0x20) 0 based (ground (arith, h))
      ∙ load32-store32_apart (header + 0x30) (exe_fcb + 0x20) stacktop mem (ground (arith, h)) in
    let wanted : load32 stacked (header + 0x1C) ≡ load32 mem (header + 0x1C) =
      load32-store32_apart (header + 0x34) (header + 0x1C) 0 based (inl (omega arith))
      ∙ load32-store32_apart (header + 0x30) (header + 0x1C) stacktop mem (inl (omega arith)) in
    (
      cap_load_size_apart header (u32 size) (header + 0x30) stacked (omega arith)
          ∙ load32-store32_apart (header + 0x34) (header + 0x30) 0 based (inl (omega arith))
          ∙ load32-store32-u32 (header + 0x30) stacktop mem,
      cap_load_size_apart header (u32 size) (header + 0x34) stacked (omega arith)
          ∙ load32-store32-u32 (header + 0x34) 0 based,
      rw (cap_load_size_lem header size stacked, same, wanted) refl,
      cap_load_size_keeps header (u32 size) b stacked size_apart
          ∙ store32-outside (header + 0x34) 0 b based (ground (arith, stack_apart))
          ∙ store32-outside (header + 0x30) stacktop b mem (ground (arith, stack_apart)),
    )
