-- ===== src/Vgm.antt =====
-- src/vgm.c: the parser of VGM files and the conversion to a frame stream.
pub mod Song
pub mod Parse
pub mod Converter
pub mod Played
pub mod Convert
mod Tests
