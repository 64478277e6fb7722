-- ===== src/Tests/Runs.antt =====
-- The loader of loader/secondary.c on a console, run to its end.
use tonyhax.Tests.Setup.{
  bios, disc, tables, image, buffer, powered, swapped, broken, tries, run_of, result_of,
}
use tonyhax.Str.{
  isspace, bzero, digits_loop, print_int, hex_loop, backslash, conversion, vsprintf_loop,
  mini_vsprintf, mini_sprintf,
}
use tonyhax.Libc.{strcmp_zero, strncmp_zero, strchr}
use tonyhax.Machine.{send}
use tonyhax.Gpu.{
  take_status, read_status, write_i_stat, gpu_is_pal, vblank_loop, acknowledge_vblank,
  gpu_wait_vblank, gpu_reset, gpu_display_mode, gpu_display_enable, gpu_display_disable,
  copy_packet, gpu_copy_rectangle, color_word, solid_packet, gpu_draw_solid_rect, tex_command,
  clut_word, tex_packet, gpu_draw_tex_rect, gpu_set_drawing_area, gpu_flush_cache, gpu_set_hrange,
  gpu_set_vrange,
}
use tonyhax.Debugscreen.{
  expand_row, expand_char, font_row, font_table, decompressfont, glyph, draw_char, debug_text_at,
  scroll, in_buffer, print_new, print_repeated, last_line_pos, choose_line, debug_write,
  debug_switch_standard,
}
use tonyhax.Debugscreen.Init.{debug_init}
use tonyhax.Cdrom.{
  write_reg, cd_set_page, busy_loop, wait_idle, params_loop, cd_command, int_loop, wait_int,
  cd_wait_int, reply_loop, cd_read_reply, cd_drive_init, cd_drive_reset,
}
use tonyhax.Rom.{string_at, bios_is_ps1, bios_is_european, version_text, log_bios_version}
use tonyhax.Unlock.{
  backdoor_cmd, backdoor_chain, backdoor_commands, c_string, region_texts, unlock_drive, lid_loop,
  wait_lid_status,
}
use tonyhax.Exe.{exe_file_okay}
use tonyhax.Patcher.{
  copy_bytes, j_word, jal_word, lui_word, ori_word, encode_j, encode_jal, encode_li,
  parse_warmboot_jal, bios_get_syscall_handler, verifier_lw, hook_cases,
  install_generic_antipiracy_patch, hook_buttons, install_vandal_patch, install_fpb_patch,
  patcher_apply, patcher_apply_softuart,
}
use tonyhax.Bios.{
  logging_disc_error_handler, bios_inject_disc_error, bios_restore_disc_error, console_has_tty,
  bios_copy_relocated_kernel, bios_copy_a0_table, configure_kernel, bios_reinitialize,
}
use tonyhax.Boot.{game_region, header_at, cap_load_size, patch_header, overlaps}
use tonyhax.Boot.Config.{default_settings, parse_settings, load_settings}
use tonyhax.Boot.Disc.{
  data_buffer, switch_video, log_settings, give_up, boot_by_bios, start_program, finish_load,
  load_executable, boot_checked, check_header, read_header, boot_file, boot_configured, boot_region,
  boot_disc, try_boot_cd,
}
use tonyhax.Main.{next_round, boot_loop, unlock_and_boot, trusted_main, main, run_image}
use tonyhax.Integrity.{integrity_test, start}
use tonyhax.Crc.{crc_bit, crc_bits, crc_loop, crc32}
use tonyhax.Audio.{mute_voice, voices_loop, audio_halt}
use tonyhax.Base.{ℕ, ◌+◌, ◌≡◌, refl}
use tonyhax.Machine.{Machine, done}
use tonyhax.Boot.{by_loader}
use tonyhax.Main.{started}
use tonyhax.Audio.{audio_halt}
use tonyhax.Tests.Data.{layout, bad}

-- A disc is in the console; a disc is put in after the lid was opened; a word of the image has changed.
pub runs :
    ((m' : Machine) × (run_image bios disc tables image 1 powered
        ≡ done (started (by_loader (buffer + 0x10))) m'))
    × ((m' : Machine) × (tries (try_boot_cd bios disc (image.blobs) tables 0 swapped)
          ≡ done (started (by_loader (buffer + 0x10))) m'))
    × ((original : ℕ) × (m1 : Machine) × (bios_reinitialize bios
            (record broken { mem = (start layout bad).0 })
          ≡ done original m1))
unfolding isspace bzero digits_loop print_int hex_loop backslash conversion vsprintf_loop
    mini_vsprintf mini_sprintf strcmp_zero strncmp_zero strchr send take_status read_status
    write_i_stat gpu_is_pal vblank_loop acknowledge_vblank gpu_wait_vblank gpu_reset
    gpu_display_mode gpu_display_enable gpu_display_disable copy_packet gpu_copy_rectangle
    color_word solid_packet gpu_draw_solid_rect tex_command clut_word tex_packet gpu_draw_tex_rect
    gpu_set_drawing_area gpu_flush_cache gpu_set_hrange gpu_set_vrange expand_row expand_char
    font_row font_table decompressfont glyph draw_char debug_text_at scroll in_buffer print_new
    print_repeated last_line_pos choose_line debug_write debug_switch_standard debug_init write_reg
    cd_set_page busy_loop wait_idle params_loop cd_command int_loop wait_int cd_wait_int reply_loop
    cd_read_reply cd_drive_init cd_drive_reset string_at bios_is_ps1 bios_is_european version_text
    log_bios_version backdoor_cmd backdoor_chain backdoor_commands c_string region_texts
    unlock_drive lid_loop wait_lid_status exe_file_okay copy_bytes j_word jal_word lui_word ori_word
    encode_j encode_jal encode_li parse_warmboot_jal bios_get_syscall_handler verifier_lw hook_cases
    install_generic_antipiracy_patch hook_buttons install_vandal_patch install_fpb_patch
    patcher_apply patcher_apply_softuart logging_disc_error_handler bios_inject_disc_error
    bios_restore_disc_error console_has_tty bios_copy_relocated_kernel bios_copy_a0_table
    configure_kernel bios_reinitialize game_region header_at cap_load_size patch_header overlaps
    default_settings parse_settings load_settings data_buffer switch_video log_settings give_up
    boot_by_bios start_program finish_load load_executable boot_checked check_header read_header
    boot_file boot_configured boot_region boot_disc try_boot_cd next_round boot_loop unlock_and_boot
    trusted_main main run_image integrity_test start crc_bit crc_bits crc_loop crc32 mute_voice
    voices_loop audio_halt
runs = (
  run_of (buffer + 0x10) (run_image bios disc tables image 1 powered) refl,
  run_of (buffer + 0x10) (tries (try_boot_cd bios disc (image.blobs) tables 0 swapped)) refl,
  result_of (bios_reinitialize bios (record broken { mem = (start layout bad).0 })) refl,
)
