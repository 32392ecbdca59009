-- ===== src/Decoder.antt =====
-- src/decoder.rs and src/decoder_mount_mode.rs
pub mod MountMode
