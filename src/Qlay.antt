-- ===== src/Qlay.antt =====
-- src/qlay.c: the image of a Microdrive cartridge.
pub mod Bytes
pub mod Sector
pub mod Image
pub mod Medium
pub mod RandomId
pub mod Output
pub mod Create
