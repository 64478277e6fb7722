-- ===== src/Audio/Silence.antt =====
-- Which registers `audio_halt` of loader/audio.c clears.
use tonyhax.Base.{
  ℕ, zero, suc, ◌+◌, ◌*◌, ◌-◌, ◌%◌, ◌≡◌, ◌∙◌, arith, Bool, ◌&&◌, ◌||◌, leb, ltb, if◌then◌else◌,
  Memory,
}
use tonyhax.Audio.{spu_voices, mute_voice, voices_loop, audio_halt}

-- The volume or the sample rate of one of the voices `i` to `i + n - 1`.
abbrev in_voices : ℕ → ℕ → ℕ → Bool
in_voices n i a =
    leb (spu_voices + 16 * i) a
    && ltb a (spu_voices + 16 * (i + n))
    && ltb ((a - spu_voices) % 16) 6

mute_voice_lem :
    (i a : ℕ) (mem : Memory)
    → mute_voice i mem a
      ≡ (if leb (spu_voices + 16 * i) a && ltb a (spu_voices + 16 * i + 6) then 0 else mem a)
unfolding mute_voice
mute_voice_lem i a mem = ground arith

voices_loop_lem :
    (n i a : ℕ) (mem : Memory) → voices_loop n i mem a ≡ (if in_voices n i a then 0 else mem a)
unfolding voices_loop
voices_loop_lem zero i a mem = ground arith
voices_loop_lem (suc n) i a mem =
    voices_loop_lem n (i + 1) a (mute_voice i mem) ∙ ground (arith, mute_voice_lem i a mem)

-- `audio_halt` clears the main and reverb volumes and the volume and the sample rate of each of the 24
-- voices, and changes no other byte.
pub audio_halt_lem :
    (mem : Memory) (a : ℕ)
    → audio_halt mem a ≡ (
        if (leb 0x1F801C00 a && ltb a 0x1F801D80 && ltb ((a - 0x1F801C00) % 16) 6)
          || (leb 0x1F801D80 a && ltb a 0x1F801D88)
        then 0
        else mem a)
unfolding audio_halt
audio_halt_lem mem a = voices_loop_lem 24 0 a _ ∙ ground arith
