-- ===== src/Audio.antt =====
-- loader/audio.c: `audio_halt`, on the registers of the sound chip as bytes of memory.
pub mod Silence
use tonyhax.Base.{ℕ, zero, suc, ◌+◌, ◌*◌, ◌/◌, ◌%◌, Memory, store8, store32}

abbrev pub spu_main_vol_left : ℕ
spu_main_vol_left = 0x1F801D80

abbrev pub spu_main_vol_right : ℕ
spu_main_vol_right = 0x1F801D82

abbrev pub spu_reverb_vol_left : ℕ
spu_reverb_vol_left = 0x1F801D84

abbrev pub spu_reverb_vol_right : ℕ
spu_reverb_vol_right = 0x1F801D86

abbrev pub spu_voices : ℕ
spu_voices = 0x1F801C00

abbrev pub spu_voice_count : ℕ
spu_voice_count = 24

-- A store of 16 bits.
abbrev pub store16 : ℕ → ℕ → Memory → Memory
store16 a v mem = store8 (a + 1) (v / 256 % 256) (store8 a (v % 256) mem)

-- `volume` and `sample_rate` of voice `i`, in a `struct voice_t` of 16 bytes.
unfoldable pub mute_voice : ℕ → Memory → Memory
mute_voice i mem = store16 (spu_voices + 16 * i + 4) 0 (store32 (spu_voices + 16 * i) 0 mem)

-- The loop, with `n` voices left.
unfoldable pub voices_loop : ℕ → ℕ → Memory → Memory
voices_loop zero i mem = mem
voices_loop (suc n) i mem = voices_loop n (i + 1) (mute_voice i mem)

unfoldable pub audio_halt : Memory → Memory
audio_halt mem = voices_loop spu_voice_count 0 (
    store16 spu_reverb_vol_right 0 (
      store16 spu_reverb_vol_left 0
        (store16 spu_main_vol_right 0 (store16 spu_main_vol_left 0 mem))))
