-- ===== src/Ffmpeg.antt =====
-- internal/ffmpeg: what is computed for an encode.
pub mod Argv
pub mod Bitrate
pub mod Idet
pub mod Stderr
