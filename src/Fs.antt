-- ===== src/Fs.antt =====
-- The file system's layers above the inodes (lab8/kern/fs).
pub mod Iobuf
pub mod File
pub mod Bitmap
pub mod Operations
