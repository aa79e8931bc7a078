-- ===== src/Fs.antt =====
-- kernel/fs.c: the disk as blocks, the bitmap, inodes on disk and in memory, their bytes, directories, paths.
pub mod Volume
pub mod Bitmap
pub mod Path
pub mod Itable
pub mod Dinode
pub mod Blocks
pub mod Content
pub mod Refs
pub mod Dir
pub mod Names
mod Tests
mod DiskTests
