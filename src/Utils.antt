-- ===== src/Utils.antt =====
-- The helpers of ex22/main.c and of the utils.c files.
pub mod Hextoi
pub mod Align
pub mod Block
pub mod Alloc
