-- ===== src/Data.antt =====
-- src/data: the containers that the kernel's parts share.
pub mod Bitmap
