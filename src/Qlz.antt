-- ===== src/Qlz.antt =====
-- src/qlz.c: the QLZ1 compressor and its decoder, one child for each stage.
pub mod Match
pub mod Format
pub mod Write
pub mod Compress
pub mod Stream
pub mod Decode
pub mod RoundTrip
mod Tests
