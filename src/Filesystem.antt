-- ===== src/Filesystem.antt =====
-- The filesystem module: filesystem/src.
pub mod Bitmap
pub mod Fcb
pub mod Bloques
pub mod Dump
